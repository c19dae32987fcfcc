-- ===== src/Status.antt =====
-- The bookkeeping of internal/controller/volumeresize_controller.go on the volume statuses, and
-- the choice of the next volume and replica.
use migcontroller.Prelude.{
  ℕ, zero, suc, ◌+◌, String, Option, none, some, List, [], ◌∷◌, Bool, true, false, ◌&&◌, ◌==◌,
  cons_last, get_elem?, if◌then◌else◌,
}
use migcontroller.Prelude.Tests.{eqb}
use migcontroller.Prelude.Int32.{Int32, inc, lt}
use migcontroller.VolumeResize.{
  VolumeResize, VolumeResizeTarget, VolumeStatus, VolumePhase, vol_pending, vol_completed,
}

-- vs.VolumeName == volName && vs.Replica == replica
abbrev pub is_for : String → Int32 → VolumeStatus → Bool
is_for vol_name replica vs = vs.volume_name == vol_name && eqb vs.replica replica

-- the loop of updateVolumeStatus, which ends at the first match
unfoldable pub update_first :
    String → Int32 → VolumePhase → String → List VolumeStatus → List VolumeStatus
update_first vol_name replica phase message [] = []
update_first vol_name replica phase message (vs ∷ rest) =
    if is_for vol_name replica vs
    then record vs { phase = phase; message = message } ∷ rest
    else vs ∷ update_first vol_name replica phase message rest

unfoldable pub update_volume_status :
    VolumeResize → String → Int32 → VolumePhase → String → VolumeResize
unfolding update_first
update_volume_status vr vol_name replica phase message = record vr {
  status = record vr.status {
    volume_statuses = update_first vol_name replica phase message vr.status.volume_statuses;
  };
}

unfoldable pub update_volume_status_in_list :
    List VolumeStatus → String → Int32 → (VolumeStatus → VolumeStatus) → List VolumeStatus
update_volume_status_in_list [] vol_name replica update_fn = []
update_volume_status_in_list (vs ∷ rest) vol_name replica update_fn =
    (if is_for vol_name replica vs then update_fn vs else vs)
    ∷ update_volume_status_in_list rest vol_name replica update_fn

-- The index of the first volume of that name; 0 if there is none.
unfoldable pub volume_index? : String → List VolumeResizeTarget → Option ℕ
volume_index? name [] = none
volume_index? name (v ∷ rest) =
    let later = volume_index? name rest in
    if v.name == name then some 0 else elim later [ none ↦ none | some i ↦ some (suc i) ]

unfoldable pub volume_index : String → List VolumeResizeTarget → ℕ
unfolding volume_index?
volume_index name volumes = elim (volume_index? name volumes) [ none ↦ 0 | some i ↦ i ]

-- the greatest replica of the statuses, from `best` on
unfoldable pub max_replica_from : Int32 → List VolumeStatus → Int32
max_replica_from best [] = best
max_replica_from best (vs ∷ rest) =
    max_replica_from (if lt best vs.replica then vs.replica else best) rest

-- the second half of getNextVolumeReplica; `none` is the panic at Volumes[0]
unfoldable pub next_replica : VolumeResize → Int32 → Option (Int32 × String × Bool)
unfolding max_replica_from
next_replica vr current_replica =
    if lt current_replica (max_replica_from 0 vr.status.volume_statuses)
    then elim (get_elem? vr.spec.volumes 0) [
      | some v ↦ some (inc current_replica, v.name, false)
      | none ↦ none
    ]
    else some (0, "", true)

unfoldable pub get_next_volume_replica :
    VolumeResize → Int32 → String → Option (Int32 × String × Bool)
get_next_volume_replica vr current_replica current_vol =
    elim (get_elem? vr.spec.volumes (volume_index current_vol vr.spec.volumes + 1)) [
      | some v ↦ some (current_replica, v.name, false)
      | none ↦ next_replica vr current_replica
    ]

abbrev pub is_vol_completed : VolumePhase → Bool
is_vol_completed vol_completed = true
is_vol_completed _ = false

-- the test of the loop that opens handleSyncing
unfoldable pub already_completed : String → Int32 → List VolumeStatus → Bool
already_completed vol_name replica [] = false
already_completed vol_name replica (vs ∷ rest) =
    let later = already_completed vol_name replica rest in
    if is_for vol_name replica vs && is_vol_completed vs.phase then true else later

-- The target of that name, or Go's zero value.
unfoldable pub find_target : String → List VolumeResizeTarget → VolumeResizeTarget
find_target vol_name [] = record { name = ""; new_size = "0"; storage_class = none }
find_target vol_name (v ∷ rest) = if v.name == vol_name then v else find_target vol_name rest

abbrev pub pending_status : String → Int32 → VolumeStatus
pending_status vol_name replica = record {
  volume_name = vol_name;
  replica = replica;
  phase = vol_pending;
  old_pvc_name = "";
  new_pvc_name = "";
  old_pv_name = "";
  message = "";
}

-- the inner loop of handleValidating over the volumes
unfoldable pub append_pending :
    Int32 → List VolumeResizeTarget → List VolumeStatus → List VolumeStatus
append_pending replica [] statuses = statuses
append_pending replica (vol ∷ rest) statuses =
    append_pending replica rest (cons_last statuses (pending_status vol.name replica))

-- the outer loop, by the rounds left
unfoldable pub append_replicas :
    ℕ → Int32 → List VolumeResizeTarget → List VolumeStatus → List VolumeStatus
unfolding append_pending
append_replicas zero i volumes statuses = statuses
append_replicas (suc n) i volumes statuses =
    append_replicas n (inc i) volumes (append_pending i volumes statuses)

-- the rounds of `for i := int32(0); i < replicas; i++`
abbrev pub loop_rounds : Int32 → ℕ
loop_rounds replicas = if lt 0 replicas then replicas else 0
