-- ===== src/Tracking/Syncing.antt =====
-- The end of handleSyncing of internal/controller/volumeresize_controller.go, and all of it: what it
-- leaves stored.
use migcontroller.Prelude.{
  ◌+◌, String, ◌≡◌, refl, subst, Option, none, some, true, false, Bool-cases, Option-cases, inl,
  inr, get_elem?,
}
use migcontroller.Prelude.Int32.{Int32, inc, lt}
use migcontroller.VolumeResize.{VolumeResize, syncing}
use migcontroller.Call.{Lib, now}
use migcontroller.Prog.{panic, ◌>>=◌, ask}
use migcontroller.Status.{
  already_completed, find_target, volume_index, max_replica_from, next_replica,
  get_next_volume_replica,
}
use migcontroller.Controller.Results.{save_status, requeue}
use migcontroller.Controller.Syncing.{
  migrate, swap_claims, restore_sts, await_pod, mark_completed, mark_current, advance,
  prepare_volumes, mark_syncing, detach_sts, sync_volume, handle_syncing,
}
use migcontroller.Plain.Sets.{await_pod-IsPlain}
use migcontroller.Tracking.{
  Serves, no_volume, no_replica, Stored, view_of, Tracks, Tracks-bind, Tracks-then, Tracks-after,
}
use migcontroller.Tracking.Moves.{IsAt, IsSettled, to_volume, to_replica, ended}
use migcontroller.Tracking.Stages.{
  Working, shown, prepare_volumes-Tracks, mark_syncing-Working, detach_sts-Tracks,
  save_status-Tracks,
}
use migcontroller.Tracking.Swapping.{
  Migrated, migrate-Tracks, swap_claims-Tracks, restore_sts-Tracks,
}

module _ (served : Serves) (lib : Lib) where
  module _ (replica : Int32) (name : String) (vr : VolumeResize) (at : IsAt replica name vr.status)
      (settled : IsSettled replica name vr.status.volume_statuses) where
    mark_current-IsAt : (r : Int32) (v : String) → IsAt r v (mark_current vr r v).status
    unfolding mark_current
    mark_current-IsAt r v = record {
      in_syncing = at.in_syncing;
      at_replica = refl;
      at_volume = refl;
    }

    last_volume-Tracks :
        get_elem? vr.spec.volumes (volume_index name vr.spec.volumes + 1) ≡ none
        → Tracks served lib
            (view_of vr)
            (elim (next_replica vr replica) [
              | none ↦ panic
              | some (next_one, next_vol, done) ↦ elim done [
                | true ↦ do t ← ask now; save_status requeue (mark_completed vr t)
                | false ↦ save_status requeue (mark_current vr next_one next_vol)
              ]
            ])
            (λ _ _. Unit {0})
    unfolding next_replica mark_completed mark_current
    last_volume-Tracks last =
        elim (Bool-cases (lt replica (max_replica_from 0 vr.status.volume_statuses))) [
          | inr e ↦ rw e (λ t.
              save_status-Tracks served lib (view_of vr) requeue (mark_completed vr t) refl
                (ended replica name at settled last e refl refl))
          | inl more ↦ rw more (elim (Option-cases (get_elem? vr.spec.volumes 0)) [
            | inl e ↦ rw e (no_volume e)
            | inr (v, e) ↦ rw e (
                save_status-Tracks served lib (view_of vr) requeue
                  (mark_current vr (inc replica) v.name) refl
                  (to_replica replica name v at settled last more e
                    (mark_current-IsAt (inc replica) v.name) refl))
          ])
        ]

    advance_view : Tracks served lib (view_of vr) (advance vr replica name) (λ _ _. Unit {0})
    unfolding advance get_next_volume_replica mark_current
    advance_view =
        elim (Option-cases (get_elem? vr.spec.volumes (volume_index name vr.spec.volumes + 1))) [
          | inr (v, e) ↦
              rw (e, advance)
                (save_status-Tracks served lib (view_of vr) requeue (mark_current vr replica v.name)
                  refl
                  (to_volume replica name v at settled e (mark_current-IsAt replica v.name) refl))
          | inl e ↦ rw (e, advance) (last_volume-Tracks e)
        ]

  advance-Tracks :
      (replica : Int32) (name : String) (s : Stored) (vr : VolumeResize)
      → Migrated replica name s vr
      → Tracks served lib s (advance vr replica name) (λ _ _. Unit {0})
  advance-Tracks replica name s vr migrated =
      subst
        (λ (x : Stored).
          IsAt replica name x.status
          → IsSettled replica name x.status.volume_statuses
          → Tracks served lib x (advance vr replica name) (λ _ _. Unit {0}))
        migrated.view (advance_view replica name vr) migrated.here migrated.settled

  sync_volume-Tracks :
      (replica : Int32) (name : String) (s : Stored) (vr : VolumeResize)
      → Working replica name s vr
      → Tracks served lib s (sync_volume lib vr replica name) (λ _ _. Unit {0})
  unfolding sync_volume
  sync_volume-Tracks replica name s vr working =
      let vol = find_target name vr.spec.volumes in
      Tracks-then served lib s (prepare_volumes vr vol name replica) _ _
        (prepare_volumes-Tracks served lib s vr working vol)
        (λ p.
          Tracks-bind served lib s (detach_sts lib (mark_syncing vr name replica p.volume_name)) _
            (Working replica name) _
            (detach_sts-Tracks served lib s (mark_syncing vr name replica p.volume_name)
              (mark_syncing-Working served lib s vr working p.volume_name))
            (λ s₁ detached w₁.
              Tracks-then served lib s₁ (migrate detached vol name replica) _ _
                (migrate-Tracks served lib s₁ detached w₁ vol)
                (λ _.
                  Tracks-bind served lib s₁ (swap_claims detached vol name replica) _
                    (Migrated replica name) _ (swap_claims-Tracks served lib s₁ detached w₁ vol)
                    (λ s₂ swapped m₂.
                      Tracks-bind served lib s₂ (restore_sts lib swapped) _ (Migrated replica name)
                        _ (restore_sts-Tracks served lib s₂ swapped m₂)
                        (λ s₃ restored m₃.
                          Tracks-after served lib s₃ (await_pod restored replica) _ _
                            (await_pod-IsPlain _ restored replica)
                            (λ _. advance-Tracks replica name s₃ restored m₃))))))

  entry-Tracks :
      (vr : VolumeResize) (current : Option Int32)
      → vr.status.phase ≡ syncing
      → vr.status.current_replica ≡ current
      → Tracks served lib
          (view_of vr)
          (elim current [
            | none ↦ panic
            | some replica ↦
                elim (already_completed vr.status.current_volume replica
                  vr.status.volume_statuses) [
                    | true ↦ advance vr replica vr.status.current_volume
                    | false ↦ sync_volume lib vr replica vr.status.current_volume
                  ]
          ])
          (λ _ _. Unit {0})
  entry-Tracks vr none phase current = no_replica phase current
  entry-Tracks vr (some r) phase current =
      let name = vr.status.current_volume in
      let at : IsAt r name vr.status = record {
        in_syncing = phase;
        at_replica = current;
        at_volume = refl;
      } in
      elim (Bool-cases (already_completed name r vr.status.volume_statuses)) [
        | inl e ↦ rw e (advance_view r name vr at (λ _. e))
        | inr e ↦
            rw e (sync_volume-Tracks r name (view_of vr) vr (shown r name (view_of vr) vr refl at))
      ]

  pub handle_syncing-Tracks :
      (vr : VolumeResize)
      → vr.status.phase ≡ syncing
      → Tracks served lib (view_of vr) (handle_syncing lib vr) (λ _ _. Unit {0})
  unfolding handle_syncing
  handle_syncing-Tracks vr phase = entry-Tracks vr vr.status.current_replica phase refl
