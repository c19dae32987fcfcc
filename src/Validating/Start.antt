-- ===== src/Validating/Start.antt =====
-- The whole handleValidating of internal/controller/volumeresize_controller.go, check by check.
use mathlib.Core.List.{Memᴰ}
use migcontroller.Prelude.{
  String, ◌≡◌, refl, Option, none, some, List, [], ◌∷◌, Bool, true, false, get_elem?,
}
use migcontroller.Objects.{ok, err, StatefulSet}
use migcontroller.VolumeResize.{VolumeResize, VolumeResizeTarget}
use migcontroller.Call.{Lib, sts_get}
use migcontroller.Prog.{Prog, Log, ret, panic, Handler, run}
use migcontroller.Prog.Safe.{
  Spec, Safe, Extends, Extends-trans, Has-Extends, Guarded, Safe-bind, Safe-mono-from, same,
  run-Safe, AllFair,
}
use migcontroller.Pvc.{get_pvc}
use migcontroller.Validation.{
  template_names, check_targets, validate_volume_targets, validate_size_reduction,
  validate_pdb_allows_disruption, validate_stateful_set_exists,
}
use migcontroller.Controller.{validate_sizes, validate_found, handle_validating, start_syncing}
use migcontroller.Controller.Results.{requeue, save_status, set_failed}
use migcontroller.Syncing.Guard.{Has}
use migcontroller.Validating.{
  AllOf, AllOf-mono, check_targets-AreTemplates, IsReduction, compare_sizes-IsReduction,
  AreAllowing, check_budgets-AllOf, IsChecked, StartGuard, FollowsValidating, start_spec,
}

-- the branch on a check's result
Safe-valid :
    {X A : Type 0} (s : Spec X) (l : Log) (b : Bool) (m n : Prog X A) (post : Log → A → Type 0)
    → (b ≡ true → Safe s l m post)
    → (b ≡ false → Safe s l n post)
    → Safe s l (elim b [ true ↦ m | false ↦ n ]) post
Safe-valid s l true m n post h k = h refl
Safe-valid s l false m n post h k = k refl

module _ (lib : Lib) (vr : VolumeResize) where
  set_failed-Safe :
      (l : Log) (message : String)
      → Safe (start_spec lib vr) l (set_failed vr message) (λ _ _. Unit {0})
  unfolding set_failed save_status
  set_failed-Safe l message =
      ((tt, λ starts. absurd starts), elim [ ok _ ↦ λ _. tt | err _ ↦ λ _. tt ])

  validate_size_reduction-Safe :
      (l : Log) (vol : VolumeResizeTarget)
      → Safe
          (start_spec lib vr)
          l
          (validate_size_reduction lib vr.meta.namespace vr.spec.stateful_set_name vol)
          (λ l' r.
            r.valid ≡ true → IsReduction lib vr.meta.namespace vr.spec.stateful_set_name l' vol)
  unfolding validate_size_reduction get_pvc
  validate_size_reduction-Safe l vol = (
    tt,
    elim [
      | ok pvc ↦ λ _ e. compare_sizes-IsReduction lib _ _ _ _ vol pvc (Memᴰ.head refl) e
      | err e ↦ λ _ valid. absurd cc
    ],
  )

  IsReduction-Extends :
      (vol : VolumeResizeTarget) {l m : Log}
      → Extends l m
      → IsReduction lib vr.meta.namespace vr.spec.stateful_set_name l vol
      → IsReduction lib vr.meta.namespace vr.spec.stateful_set_name m vol
  IsReduction-Extends vol x (pvc, size, h, given, less) = (pvc, size, Has-Extends h x, given, less)

  validate_sizes-Safe :
      (l : Log) (vols : List VolumeResizeTarget)
      → Safe
          (start_spec lib vr)
          l
          (validate_sizes lib vr.meta.namespace vr.spec.stateful_set_name vols)
          (λ l' r.
            r.valid ≡ true
            → AllOf (IsReduction lib vr.meta.namespace vr.spec.stateful_set_name l') vols)
  unfolding validate_sizes
  validate_sizes-Safe l [] = λ _. tt
  validate_sizes-Safe l (vol ∷ rest) =
      Safe-bind (start_spec lib vr) l
        (validate_size_reduction lib vr.meta.namespace vr.spec.stateful_set_name vol) _ _ _
        (validate_size_reduction-Safe l vol)
        (λ l' r x one.
          Safe-valid (start_spec lib vr) l' r.valid _ (ret r) _
            (λ ok.
              Safe-mono-from (start_spec lib vr) l' l'
                (validate_sizes lib vr.meta.namespace vr.spec.stateful_set_name rest)
                (λ l'' q.
                  q.valid ≡ true
                  → AllOf (IsReduction lib vr.meta.namespace vr.spec.stateful_set_name l'') rest)
                _ same (validate_sizes-Safe l' rest)
                (λ l'' q x' others valid. (IsReduction-Extends vol x' (one ok), others valid)))
            (λ bad valid. absurd cc))

  validate_pdb_allows_disruption-Safe :
      (l : Log) (sts : StatefulSet)
      → Safe
          (start_spec lib vr)
          l
          (validate_pdb_allows_disruption lib sts)
          (λ l' r. r.valid ≡ true → AreAllowing lib sts l')
  unfolding validate_pdb_allows_disruption
  validate_pdb_allows_disruption-Safe l sts = (
    tt,
    elim [
      | ok items ↦ λ _ valid. (items, Memᴰ.head refl, check_budgets-AllOf lib sts items valid)
      | err e ↦ λ _ valid. absurd cc
    ],
  )

  save_started-Safe :
      (l : Log) (v : VolumeResize)
      → FollowsValidating v.status.phase
      → IsChecked lib vr l
      → Safe (start_spec lib vr) l (save_status requeue v) (λ _ _. Unit {0})
  unfolding save_status
  save_started-Safe l v follows checked =
      ((follows, λ _. checked), elim [ ok _ ↦ λ _. tt | err _ ↦ λ _. tt ])

  first-Safe :
      (sts : StatefulSet) (l : Log) (first : Option VolumeResizeTarget)
      → IsChecked lib vr l
      → Safe
          (start_spec lib vr)
          l
          (elim first [ none ↦ panic | some v ↦ save_status requeue (start_syncing vr sts v.name) ])
          (λ _ _. Unit {0})
  unfolding start_syncing
  first-Safe sts l none checked = tt
  first-Safe sts l (some v) checked = save_started-Safe l (start_syncing vr sts v.name) tt checked

  validate_found-Safe :
      (l : Log) (sts : StatefulSet)
      → Has l (sts_get vr.meta.namespace vr.spec.stateful_set_name) (ok sts)
      → Safe (start_spec lib vr) l (validate_found lib vr sts) (λ _ _. Unit {0})
  unfolding validate_found validate_volume_targets
  validate_found-Safe l sts read =
      Safe-valid (start_spec lib vr) l
        (check_targets lib (template_names sts) vr.spec.volumes).valid _ _ _
        (λ named.
          Safe-bind (start_spec lib vr) l
            (validate_sizes lib vr.meta.namespace vr.spec.stateful_set_name vr.spec.volumes) _ _ _
            (validate_sizes-Safe l vr.spec.volumes)
            (λ l₁ sizes x₁ smaller.
              Safe-valid (start_spec lib vr) l₁ sizes.valid _ _ _
                (λ sized.
                  Safe-bind (start_spec lib vr) l₁ (validate_pdb_allows_disruption lib sts) _ _ _
                    (validate_pdb_allows_disruption-Safe l₁ sts)
                    (λ l₂ budgets x₂ allowing.
                      Safe-valid (start_spec lib vr) l₂ budgets.valid _ _ _
                        (λ allowed. first-Safe sts l₂ (get_elem? vr.spec.volumes 0) (
                          sts,
                          Has-Extends read (Extends-trans x₁ x₂),
                          check_targets-AreTemplates lib sts vr.spec.volumes named,
                          AllOf-mono _ _ vr.spec.volumes (λ vol. IsReduction-Extends vol x₂)
                              (smaller sized),
                          allowing allowed,
                        ))
                        (λ _. set_failed-Safe l₂ _)))
                (λ _. set_failed-Safe l₁ _)))
        (λ _. set_failed-Safe l _)

  pub handle_validating-Safe :
      (l : Log) → Safe (start_spec lib vr) l (handle_validating lib vr) (λ _ _. Unit {0})
  unfolding handle_validating validate_stateful_set_exists
  handle_validating-Safe l = (
    tt,
    elim [
      | ok sts ↦ λ _. validate_found-Safe _ sts (Memᴰ.head refl)
      | err e ↦ λ _. set_failed-Safe _ _
    ],
  )

pub any_answer : (l : Log) → AllFair (λ _ _. Unit {0}) l
any_answer [] = tt
any_answer (e ∷ l) = (tt, any_answer l)

-- In every run of handleValidating, the phases saved are Syncing and Failed, and the status is set
-- to Syncing only after the StatefulSet was read, with a volume claim template for every volume of
-- the spec, the claim of replica 0 of every volume was read, with a storage request greater than
-- the volume's new size, and the disruption budgets of its namespace were listed, none of which
-- has match labels that select its pods and allows no disruption; no object but the VolumeResize
-- is created, updated or deleted.
pub migrations_started_checked :
    {W : Type 0} (h : Handler W) (lib : Lib) (vr : VolumeResize) (w : W)
    → Guarded (StartGuard lib vr) (run h (handle_validating lib vr) w []).log
migrations_started_checked h lib vr w =
    (run-Safe h (start_spec lib vr) (handle_validating lib vr) (λ _ _. Unit {0}) w [] (any_answer _)
      (handle_validating-Safe lib vr []) tt).0
