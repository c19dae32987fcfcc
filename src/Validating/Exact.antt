-- ===== src/Validating/Exact.antt =====
-- When handleValidating of internal/controller/volumeresize_controller.go starts a migration, where
-- the API server's answers to reads stay the same.
use migcontroller.Prelude.{
  String, ◌++◌, ◌≡◌, refl, ◌↔◌, Option, none, some, List, [], ◌∷◌, get_elem?,
}
use migcontroller.Objects.{Except, ok, err, StatefulSet}
use migcontroller.VolumeResize.{VolumeResize, VolumeResizeTarget, syncing, failed}
use migcontroller.Call.{Lib}
use migcontroller.Prog.{Prog, Handler, run, ret, panic, ◌>>=◌}
use migcontroller.Names.{get_original_pvc_name}
use migcontroller.Pvc.{get_pvc}
use migcontroller.Validation.{
  ValidationResult, passed, refused, template_names, check_targets, validate_volume_targets,
  validate_size_reduction, validate_pdb_allows_disruption, validate_stateful_set_exists,
}
use migcontroller.Controller.{validate_sizes, validate_found, handle_validating, start_syncing}
use migcontroller.Controller.Results.{
  Outcome, finished, mark_failed, requeue, save_status, set_failed,
}
use migcontroller.Validating.{AllOf, AreTemplates, check_targets-AreTemplates}
use migcontroller.Validating.Eligible.{
  View, IsView, IsOkWith, IsReducible, HasNoBlocker, IsEligible, HasStarted,
  AreTemplates-check_targets, size_result-valid,
}
use migcontroller.Validating.Stages.{
  run_assoc, size-run, iff_first, iff_assoc, iff_flat, StartsIf, Continues, saved-HasStarted,
  choose-StartsIf, later-StartsIf, budgets-run,
}

module _ {W : Type 0} (h : Handler W) (lib : Lib) (vr : VolumeResize) (view : View)
    (shown : IsView h vr view) where
  size-StartsIf :
      (vol : VolumeResizeTarget) (k : ValidationResult → Prog Outcome Outcome) (Q : Type 0)
      → Continues h k Q
      → StartsIf h
          (validate_size_reduction lib vr.meta.namespace vr.spec.stateful_set_name vol >>= k)
          (IsReducible lib view vr.spec.stateful_set_name vol × Q)
  unfolding run validate_size_reduction get_pvc
  size-StartsIf vol k Q continues w l fresh =
      let name = get_original_pvc_name vol.name vr.spec.stateful_set_name 0 in
      rw (shown.reads_pvc name w, size-run h lib vol name k)
        (iff_first (size_result-valid lib vol name (view.pvc name)) (continues _ _ _ fresh))

  sizes-StartsIf :
      (vols : List VolumeResizeTarget) (k : ValidationResult → Prog Outcome Outcome) (Q : Type 0)
      → Continues h k Q
      → StartsIf h
          (validate_sizes lib vr.meta.namespace vr.spec.stateful_set_name vols >>= k)
          (AllOf (IsReducible lib view vr.spec.stateful_set_name) vols × Q)
  unfolding validate_sizes
  sizes-StartsIf [] k Q continues w l fresh = (
    λ x. (tt, ((continues passed w l fresh).0 x).1),
    λ (_, q). (continues passed w l fresh).1 (refl, q),
  )
  sizes-StartsIf (vol ∷ rest) k Q continues w l fresh =
      rw
        (run_assoc h (validate_size_reduction lib vr.meta.namespace vr.spec.stateful_set_name vol) _
          k)
        (iff_assoc (
          size-StartsIf vol _ (AllOf (IsReducible lib view vr.spec.stateful_set_name) rest × Q)
            (λ r.
              later-StartsIf h r r.valid _ k _ Q refl (sizes-StartsIf rest k Q continues) continues)
            w l fresh))

  budgets-StartsIf :
      (sts : StatefulSet) (k : ValidationResult → Prog Outcome Outcome) (Q : Type 0)
      → Continues h k Q
      → StartsIf h
          (validate_pdb_allows_disruption lib sts >>= k)
          (IsOkWith (HasNoBlocker lib sts) (view.budgets sts.meta.namespace) × Q)
  unfolding validate_pdb_allows_disruption run
  budgets-StartsIf sts k Q continues w l fresh =
      rw (shown.reads_budgets sts.meta.namespace w)
        (budgets-run h lib sts (view.budgets sts.meta.namespace) k Q continues _ _ fresh)

  first-StartsIf :
      (sts : StatefulSet) (found : Option VolumeResizeTarget) (first : VolumeResizeTarget)
      → found ≡ some first
      → StartsIf h
          (elim found [ none ↦ panic | some v ↦ save_status requeue (start_syncing vr sts v.name) ])
          (Unit {0})
  unfolding start_syncing
  first-StartsIf sts none first e w l fresh = absurd cc
  first-StartsIf sts (some v) first e w l fresh =
      (λ _. tt, λ _. (saved-HasStarted h requeue (start_syncing vr sts v.name) w l fresh).1 refl)

  found-StartsIf :
      (sts : StatefulSet) (first : VolumeResizeTarget)
      → get_elem? vr.spec.volumes 0 ≡ some first
      → StartsIf h (validate_found lib vr sts) (
          AreTemplates sts vr.spec.volumes
          × AllOf (IsReducible lib view vr.spec.stateful_set_name) vr.spec.volumes
          × IsOkWith (HasNoBlocker lib sts) (view.budgets sts.meta.namespace))
  unfolding validate_found validate_volume_targets
  found-StartsIf sts first named w l fresh = iff_flat (
      iff_first
        (
          check_targets-AreTemplates lib sts vr.spec.volumes,
          AreTemplates-check_targets lib sts vr.spec.volumes,
        )
        (choose-StartsIf h vr (check_targets lib (template_names sts) vr.spec.volumes).valid _ _ _
          (sizes-StartsIf vr.spec.volumes _ _ (λ sizes. choose-StartsIf h vr sizes.valid _ _ _ (
            budgets-StartsIf sts _ (Unit {0}) (λ budgets.
              choose-StartsIf h vr budgets.valid _ _ _
                (first-StartsIf sts (get_elem? vr.spec.volumes 0) first named)))))
          w l fresh))

  -- the answer to the read of the StatefulSet, as validation takes it
  abbrev sts_result :
      String → Except StatefulSet → Prog Outcome (Option StatefulSet × ValidationResult)
  sts_result name (ok sts) = ret (some sts, passed)
  sts_result name (err e) =
      ret (none, refused ("StatefulSet " ++ (name ++ (" not found: " ++ e.text))))

  read-StartsIf :
      (first : VolumeResizeTarget)
      → get_elem? vr.spec.volumes 0 ≡ some first
      → (answer : Except StatefulSet)
      → StartsIf h
          (sts_result vr.spec.stateful_set_name answer >>= (λ found. elim found.0 [
            | none ↦ set_failed vr found.1.message
            | some sts ↦ validate_found lib vr sts
          ]))
          (IsOkWith
            (λ sts.
              AreTemplates sts vr.spec.volumes
              × AllOf (IsReducible lib view vr.spec.stateful_set_name) vr.spec.volumes
              × IsOkWith (HasNoBlocker lib sts) (view.budgets sts.meta.namespace))
            answer)
  unfolding set_failed
  read-StartsIf first named (ok sts) w l fresh = found-StartsIf sts first named w l fresh
  read-StartsIf first named (err e) w l fresh = (
    λ x.
        let e' : failed ≡ syncing =
          (saved-HasStarted h finished (mark_failed vr _) w l fresh).0 x in
        absurd cc,
    λ x. absurd x,
  )

-- Where the reads of the StatefulSet and of claims and, for each namespace, the listing of
-- disruption budgets give the same answers throughout, and the spec has a volume, a run of
-- handleValidating asks to save the phase Syncing exactly if the StatefulSet is read, every volume
-- of the spec is one of its volume claim templates, the claim of replica 0 of each is read and
-- requests more than the new size, and the budgets of the StatefulSet's namespace are listed, none
-- of which has match labels that select the pods and allows no disruption.
pub started-IsEligible :
    {W : Type 0} (h : Handler W) (lib : Lib) (vr : VolumeResize) (view : View)
    (first : VolumeResizeTarget) (w : W)
    → IsView h vr view
    → get_elem? vr.spec.volumes 0 ≡ some first
    → HasStarted (run h (handle_validating lib vr) w []).log ↔ IsEligible lib vr view
unfolding handle_validating validate_stateful_set_exists run
started-IsEligible h lib vr view first w shown named =
    rw (shown.reads_sts w)
      (read-StartsIf h lib vr view shown first named view.sts _ _ (λ none. none))
