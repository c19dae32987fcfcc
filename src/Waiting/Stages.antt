-- ===== src/Waiting/Stages.antt =====
-- The functions that handleSyncing of internal/controller/volumeresize_controller.go calls before
-- and after its two wait loops: they have no loop on fuel.
use migcontroller.Prelude.{String, if◌then◌else◌}
use migcontroller.Prelude.Int32.{Int32}
use migcontroller.Objects.{ok, err, Pvc}
use migcontroller.VolumeResize.{VolumeResize, VolumeResizeTarget}
use migcontroller.Pvc.{get_pvc, create_temp_pvc, set_retain_on_pv}
use migcontroller.Controller.Results.{Outcome, fail, set_failed, save_status}
use migcontroller.Controller.Syncing.{wait_for_binding, is_bound, prepare_volumes}
use migcontroller.Waiting.Total.{IsTotal, IsTotal-bind, IsTotal-if, IsTotal-try}
use migcontroller.Plain.{IsPlain-IsTotal}
use migcontroller.Plain.Claims.{
  get_pvc-IsPlain, create_temp_pvc-IsPlain, set_retain_on_pv-IsPlain, wait_for_binding-IsPlain,
}

pub fail-IsTotal :
    (A : Type 0) (vr : VolumeResize) (message : String) → IsTotal (fail {A = A} vr message)
unfolding set_failed save_status
fail-IsTotal A vr message = elim [ ok _ ↦ tt | err _ ↦ tt ]

pub prepare_volumes-IsTotal :
    (vr : VolumeResize) (vol : VolumeResizeTarget) (name : String) (replica : Int32)
    → IsTotal (prepare_volumes vr vol name replica)
unfolding prepare_volumes
prepare_volumes-IsTotal vr vol name replica =
    IsTotal-try (get_pvc _ _) _ _ (IsPlain-IsTotal _ (get_pvc-IsPlain ⊥ Outcome _ _))
      (λ e. fail-IsTotal Pvc vr "")
      (λ p.
        IsTotal-try (create_temp_pvc vr vol p replica) _ _
          (IsPlain-IsTotal _ (create_temp_pvc-IsPlain ⊥ Outcome vr vol p replica))
          (λ e. fail-IsTotal Pvc vr "")
          (λ temp.
            IsTotal-bind (wait_for_binding temp) _
              (IsPlain-IsTotal _ (wait_for_binding-IsPlain ⊥ temp))
              (λ waits.
                IsTotal-bind (if waits then _ else _) _
                  (IsTotal-if waits _ _ (IsTotal-if (is_bound temp.phase) _ _ tt tt) tt)
                  (λ _.
                    IsTotal-try (set_retain_on_pv p.volume_name) _ _
                      (IsPlain-IsTotal _ (set_retain_on_pv-IsPlain ⊥ Outcome p.volume_name))
                      (λ e. fail-IsTotal (Unit {0}) vr "") (λ _. tt)))))
