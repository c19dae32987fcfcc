-- ===== src/Waiting/Passes.antt =====
-- handleSyncing of internal/controller/volumeresize_controller.go comes to its end.
use migcontroller.Prelude.{ℕ, ◌*◌, String, Option, none, some, Bool, true, false}
use migcontroller.Prelude.Int32.{Int32}
use migcontroller.Objects.{Pod}
use migcontroller.VolumeResize.{VolumeResize, VolumeResizeTarget}
use migcontroller.Call.{Lib}
use migcontroller.Prog.{ret, panic, Log, End, returned, Handler, run}
use migcontroller.Pvc.{second}
use migcontroller.Status.{already_completed, find_target}
use migcontroller.Sts.{delete_pod, wait_for_pod_termination}
use migcontroller.Migrator.{create_migrator_pod, wait_for_migration_complete, cleanup_migrator_pod}
use migcontroller.Controller.Results.{Outcome}
use migcontroller.Controller.Syncing.{
  migrate, sync_volume, handle_syncing, prepare_volumes, mark_syncing, detach_sts, swap_claims,
  restore_sts, await_pod, advance,
}
use migcontroller.Waiting.{
  HasReturned, IsClock, wait_for_pod_termination-HasReturned,
  wait_for_migration_complete-HasReturned,
}
use migcontroller.Waiting.Total.{IsOver, Ends, IsTotal-Ends, Ends-bind, Ends-try}
use migcontroller.Waiting.Stages.{fail-IsTotal, prepare_volumes-IsTotal}
use migcontroller.Waiting.Handlers.{
  detach_sts-IsTotal, after_wait_error-IsTotal, swap_claims-IsTotal, restore_sts-IsTotal,
  advance-IsTotal,
}
use migcontroller.Plain.{IsPlain-IsTotal}
use migcontroller.Plain.Sets.{
  create_migrator_pod-IsPlain, await_pod-IsPlain, delete_pod-IsPlain, cleanup_migrator_pod-IsPlain,
}

HasReturned-IsOver : {X A : Type 0} (e : End X A) → HasReturned e → IsOver e
HasReturned-IsOver (returned a) h = tt
HasReturned-IsOver _ h = absurd h

module _ {W : Type 0} (h : Handler W) (time : W → ℕ) (clock : IsClock h time) where
  migrate-Ends :
      (vr : VolumeResize) (vol : VolumeResizeTarget) (name : String) (replica : Int32)
      → Ends h (migrate vr vol name replica)
  unfolding migrate
  migrate-Ends vr vol name replica =
      Ends-bind h (delete_pod vr.meta.namespace vr.spec.stateful_set_name replica) _
        (IsTotal-Ends h (delete_pod vr.meta.namespace vr.spec.stateful_set_name replica) (
          IsPlain-IsTotal _
            (delete_pod-IsPlain ⊥ vr.meta.namespace vr.spec.stateful_set_name replica)))
        (λ _.
          Ends-try h (wait_for_pod_termination _ _ (120 * second)) _ _
            (λ w l.
              HasReturned-IsOver _
                (wait_for_pod_termination-HasReturned h time clock Outcome _ _ (120 * second) w l))
            (λ _. tt)
            (λ _.
              Ends-try h (create_migrator_pod vr vol replica _ _) _ _
                (IsTotal-Ends h (create_migrator_pod vr vol replica _ _)
                  (IsPlain-IsTotal _ (create_migrator_pod-IsPlain ⊥ vr vol replica _ _)))
                (λ e. fail-IsTotal Pod vr "")
                (λ pod.
                  Ends-try h (wait_for_migration_complete _ _ (3600 * second)) _ _
                    (λ w l. HasReturned-IsOver _ (
                      wait_for_migration_complete-HasReturned h time clock Outcome _ _
                        (3600 * second) w l))
                    (λ _. after_wait_error-IsTotal vr pod.meta.name)
                    (λ _.
                      Ends-bind h (cleanup_migrator_pod pod.meta.name vr.meta.namespace) _
                        (IsTotal-Ends h (cleanup_migrator_pod pod.meta.name vr.meta.namespace) (
                          IsPlain-IsTotal _
                            (cleanup_migrator_pod-IsPlain ⊥ pod.meta.name vr.meta.namespace)))
                        (λ _. IsTotal-Ends h (ret tt) tt)))))

  sync_volume-Ends :
      (lib : Lib) (vr : VolumeResize) (replica : Int32) (name : String)
      → Ends h (sync_volume lib vr replica name)
  unfolding sync_volume
  sync_volume-Ends lib vr replica name =
      let vol = find_target name vr.spec.volumes in
      Ends-bind h (prepare_volumes vr vol name replica) _
        (IsTotal-Ends h (prepare_volumes vr vol name replica)
          (prepare_volumes-IsTotal vr vol name replica))
        (λ p.
          Ends-bind h (detach_sts lib (mark_syncing vr name replica p.volume_name)) _
            (IsTotal-Ends h (detach_sts lib (mark_syncing vr name replica p.volume_name))
              (detach_sts-IsTotal lib (mark_syncing vr name replica p.volume_name)))
            (λ detached.
              Ends-bind h (migrate detached vol name replica) _
                (migrate-Ends detached vol name replica)
                (λ _.
                  Ends-bind h (swap_claims detached vol name replica) _
                    (IsTotal-Ends h (swap_claims detached vol name replica)
                      (swap_claims-IsTotal detached vol name replica))
                    (λ swapped.
                      Ends-bind h (restore_sts lib swapped) _
                        (IsTotal-Ends h (restore_sts lib swapped) (restore_sts-IsTotal lib swapped))
                        (λ restored.
                          Ends-bind h (await_pod restored replica) _
                            (IsTotal-Ends h (await_pod restored replica) (
                              IsPlain-IsTotal (await_pod restored replica)
                                (await_pod-IsPlain ⊥ restored replica)))
                            (λ _.
                              IsTotal-Ends h (advance restored replica name)
                                (advance-IsTotal restored replica name)))))))

  entry-Ends :
      (lib : Lib) (vr : VolumeResize) (current : Option Int32)
      → Ends h (elim current [
        | none ↦ panic
        | some replica ↦
            elim (already_completed vr.status.current_volume replica vr.status.volume_statuses) [
              | true ↦ advance vr replica vr.status.current_volume
              | false ↦ sync_volume lib vr replica vr.status.current_volume
            ]
      ])
  entry-Ends lib vr none = IsTotal-Ends h panic tt
  entry-Ends lib vr (some r) =
      branch (already_completed vr.status.current_volume r vr.status.volume_statuses)
    where
      branch :
          (b : Bool)
          → Ends h (elim b [
            | true ↦ advance vr r vr.status.current_volume
            | false ↦ sync_volume lib vr r vr.status.current_volume
          ])
      branch true =
          IsTotal-Ends h (advance vr r vr.status.current_volume)
            (advance-IsTotal vr r vr.status.current_volume)
      branch false = sync_volume-Ends lib vr r vr.status.current_volume

  pub handle_syncing-Ends :
      (lib : Lib) (vr : VolumeResize) (w : W) (l : Log)
      → IsOver (run h (handle_syncing lib vr) w l).end
  unfolding handle_syncing
  handle_syncing-Ends lib vr = entry-Ends lib vr vr.status.current_replica
