-- ===== src/Tracking/Moves.antt =====
-- The abstract view of a migration: the moves of the stored status.
use migcontroller.Prelude.{◌+◌, String, ◌≡◌, ◌⊎◌, none, some, List, [], ◌∷◌, true, false, get_elem?}
use migcontroller.Prelude.Int32.{Int32, inc, lt}
use migcontroller.Objects.{StatefulSet}
use migcontroller.VolumeResize.{
  VolumeResizeTarget, VolumeStatus, VolumeResizeStatus, unset, pending, validating, syncing,
  replacing, completed, failed,
}
use migcontroller.Status.{
  is_for, volume_index, max_replica_from, append_replicas, loop_rounds, already_completed,
}
use migcontroller.Bookkeeping.{IsTracked}

-- The second list has the entries of the first; only those of the volume on the replica may have
-- changed, and still are theirs.
pub data Touches (name : String) (replica : Int32)
    : List VolumeStatus → List VolumeStatus → Type 0 where
  nothing : Touches name replica [] []
  kept :
      (vs : VolumeStatus) {ss ss' : List VolumeStatus}
      → Touches name replica ss ss'
      → Touches name replica (vs ∷ ss) (vs ∷ ss')
  touched :
      (vs vs' : VolumeStatus) {ss ss' : List VolumeStatus}
      → is_for name replica vs ≡ true
      → is_for name replica vs' ≡ true
      → Touches name replica ss ss'
      → Touches name replica (vs ∷ ss) (vs' ∷ ss')

-- the status works on that volume of that replica
pub record IsAt (replica : Int32) (name : String) (st : VolumeResizeStatus) : Type 0 where
  pub in_syncing : st.phase ≡ syncing
  pub at_replica : st.current_replica ≡ some replica
  pub at_volume : st.current_volume ≡ name

-- a volume on a replica that has an entry is marked as completed
abbrev pub IsSettled : Int32 → String → List VolumeStatus → Type 0
IsSettled replica name ss = IsTracked name replica ss → already_completed name replica ss ≡ true

-- `runs` tells of which StatefulSet it is the migration.
module _ (runs : StatefulSet → Type 0) (volumes : List VolumeResizeTarget) where
  -- One save of the status.
  pub data Move (st st' : VolumeResizeStatus) : Type 0 where
    started :
        (st.phase ≡ unset) ⊎ (st.phase ≡ pending)
        → st'.phase ≡ validating
        → st'.volume_statuses ≡ []
        → Move st st'
    refused : st.phase ≡ validating → st'.phase ≡ failed → Move st st'
    -- One entry for each volume of each replica, and the first of them is the current one. A
    -- StatefulSet that does not say how many replicas it has is one of 1.
    accepted :
        (sts : StatefulSet) (v : VolumeResizeTarget)
        → runs sts
        → st.phase ≡ validating
        → get_elem? volumes 0 ≡ some v
        → IsAt 0 v.name st'
        → st'.volume_statuses
          ≡ append_replicas
              (loop_rounds (elim sts.spec.replicas [ none ↦ 1 | some n ↦ n ]))
              0
              volumes
              st.volume_statuses
        → Move st st'
    worked :
        (replica : Int32) (name : String)
        → IsAt replica name st
        → IsAt replica name st'
        → Touches name replica st.volume_statuses st'.volume_statuses
        → Move st st'
    to_volume :
        (replica : Int32) (name : String) (v : VolumeResizeTarget)
        → IsAt replica name st
        → IsSettled replica name st.volume_statuses
        → get_elem? volumes (volume_index name volumes + 1) ≡ some v
        → IsAt replica v.name st'
        → st'.volume_statuses ≡ st.volume_statuses
        → Move st st'
    to_replica :
        (replica : Int32) (name : String) (v : VolumeResizeTarget)
        → IsAt replica name st
        → IsSettled replica name st.volume_statuses
        → get_elem? volumes (volume_index name volumes + 1) ≡ none
        → lt replica (max_replica_from 0 st.volume_statuses) ≡ true
        → get_elem? volumes 0 ≡ some v
        → IsAt (inc replica) v.name st'
        → st'.volume_statuses ≡ st.volume_statuses
        → Move st st'
    ended :
        (replica : Int32) (name : String)
        → IsAt replica name st
        → IsSettled replica name st.volume_statuses
        → get_elem? volumes (volume_index name volumes + 1) ≡ none
        → lt replica (max_replica_from 0 st.volume_statuses) ≡ false
        → st'.phase ≡ completed
        → st'.volume_statuses ≡ st.volume_statuses
        → Move st st'
    broke : st.phase ≡ syncing → st'.phase ≡ failed → Move st st'
    replaced : st.phase ≡ replacing → st'.phase ≡ completed → Move st st'
