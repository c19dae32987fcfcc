-- ===== src/Bookkeeping.antt =====
-- updateVolumeStatus of internal/controller/volumeresize_controller.go against the test for a
-- completed volume that opens handleSyncing.
use migcontroller.Prelude.{String, ◌≡◌, ◌≢◌, refl, List, [], ◌∷◌, true, ◌⊎◌, any, arith, eq_iff}
use migcontroller.Prelude.Int32.{Int32}
use migcontroller.VolumeResize.{VolumeResize, VolumeStatus, VolumePhase, vol_completed}
use migcontroller.Status.{is_for, update_first, update_volume_status, already_completed}

-- There is a status for the volume and the replica.
abbrev pub IsTracked : String → Int32 → List VolumeStatus → Type 0
IsTracked name replica ss = any (is_for name replica) ss ≡ true

pub already_completed-update_first :
    (name : String) (replica : Int32) (message : String) (ss : List VolumeStatus)
    → IsTracked name replica ss
    → already_completed name replica (update_first name replica vol_completed message ss) ≡ true
unfolding already_completed update_first
already_completed-update_first name replica message [] tracked = tracked
already_completed-update_first name replica message (vs ∷ rest) tracked =
    ground (arith, already_completed-update_first name replica message rest)

-- behind the update to Completed, an entry for the volume on the replica is there exactly if a
-- completed one is
pub any-already_completed :
    (name : String) (replica : Int32) (message : String) (ss : List VolumeStatus)
    → any (is_for name replica) (update_first name replica vol_completed message ss)
      ≡ already_completed name replica (update_first name replica vol_completed message ss)
unfolding already_completed update_first
any-already_completed name replica message [] = refl
any-already_completed name replica message (vs ∷ rest) =
    ground (arith, any-already_completed name replica message rest)

pub already_completed-update_first_other :
    (name name' : String) (replica replica' : Int32) (phase : VolumePhase) (message : String)
    (ss : List VolumeStatus)
    → (name' ≢ name) ⊎ (replica' ≢ replica)
    → already_completed name' replica' (update_first name replica phase message ss)
      ≡ already_completed name' replica' ss
unfolding already_completed update_first
already_completed-update_first_other name name' replica replica' phase message [] other = refl
already_completed-update_first_other name name' replica replica' phase message (vs ∷ rest) other =
    ground (
      arith,
      eq_iff vs.volume_name name,
      eq_iff vs.volume_name name',
      already_completed-update_first_other name name' replica replica' phase message rest other,
    )

-- Where the status tracks a volume on a replica, the update of their status to Completed makes the
-- test for a completed volume true for them, and leaves its result for any other volume or replica
-- as it was.
pub update_volume_status-already_completed :
    (vr : VolumeResize) (name name' : String) (replica replica' : Int32) (message : String)
    → IsTracked name replica vr.status.volume_statuses
    → (name' ≢ name) ⊎ (replica' ≢ replica)
    → let marked =
        (update_volume_status vr name replica vol_completed message).status.volume_statuses in
      (already_completed name replica marked ≡ true)
      × (already_completed name' replica' marked
          ≡ already_completed name' replica' vr.status.volume_statuses)
unfolding update_volume_status
update_volume_status-already_completed vr name name' replica replica' message tracked other = (
  already_completed-update_first name replica message vr.status.volume_statuses tracked,
  already_completed-update_first_other name name' replica replica' vol_completed message
      vr.status.volume_statuses other,
)
