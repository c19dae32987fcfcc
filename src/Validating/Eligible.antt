-- ===== src/Validating/Eligible.antt =====
-- What the API server must hold for a migration to start, and the checks of
-- internal/controller/validation.go, which decide it.
use Prim.Native.Nat.{Ordering}
use mathlib.Core.List.{Memᴰ}
use migcontroller.Prelude.{
  Bool-cases, String, ◌++◌, ◌≡◌, refl, ◌⊎◌, inl, inr, ◌↔◌, some, Option-cases, List, [], ◌∷◌, true,
  ◌==◌, eq_iff, any, arith,
}
use migcontroller.Objects.{Except, ok, err, StatefulSet, Pdb, Pvc, Quantity}
use migcontroller.VolumeResize.{VolumeResize, VolumeResizeTarget, syncing}
use migcontroller.Call.{Lib, sts_get, pvc_get, pdb_list, vr_update_status}
use migcontroller.Prog.{Log, Handler}
use migcontroller.Names.{get_original_pvc_name}
use migcontroller.Validation.{
  ValidationResult, refused, template_names, check_targets, compare_sizes, blocks, check_budgets,
}
use migcontroller.Validating.{
  IsBlocking, blocks-IsBlocking, check_budgets-AllOf, AllOf, AreTemplates,
}

-- What the API server holds, as reads of it show it.
pub record View : Type 0 where
  pub sts : Except StatefulSet
  pub pvc : String → Except Pvc
  pub budgets : String → Except (List Pdb)

-- The reads of validation get those answers.
pub record IsView {W : Type 0} (h : Handler W) (vr : VolumeResize) (view : View) : Type 0 where
  pub reads_sts : (w : W) → (h (sts_get vr.meta.namespace vr.spec.stateful_set_name) w).0 ≡ view.sts
  pub reads_pvc : (name : String) (w : W) → (h (pvc_get vr.meta.namespace name) w).0 ≡ view.pvc name
  pub reads_budgets :
      (namespace : String) (w : W) → (h (pdb_list namespace) w).0 ≡ view.budgets namespace

-- The read succeeded, and the object is as required.
abbrev pub IsOkWith : {A : Type 0} → (A → Type 0) → Except A → Type 0
IsOkWith P (ok a) = P a
IsOkWith P (err e) = ⊥

-- The claim requests more than the new size.
abbrev pub IsLarger : Lib → VolumeResizeTarget → Pvc → Type 0
IsLarger lib vol pvc =
    (size : Quantity) × (lib.storage_request pvc.requests ≡ some size)
    × (lib.quantity_cmp vol.new_size size ≡ Ordering.lt)

-- The claim of replica 0 does.
abbrev pub IsReducible : Lib → View → String → VolumeResizeTarget → Type 0
IsReducible lib view sts_name vol =
    IsOkWith (IsLarger lib vol) (view.pvc (get_original_pvc_name vol.name sts_name 0))

abbrev pub HasNoBlocker : Lib → StatefulSet → List Pdb → Type 0
HasNoBlocker lib sts = AllOf λ pdb. ¬ IsBlocking lib sts.spec.template_labels pdb

-- The conditions under which a migration may start.
abbrev pub IsEligible : Lib → VolumeResize → View → Type 0
IsEligible lib vr view =
    IsOkWith
      (λ sts.
        AreTemplates sts vr.spec.volumes
        × AllOf (IsReducible lib view vr.spec.stateful_set_name) vr.spec.volumes
        × IsOkWith (HasNoBlocker lib sts) (view.budgets sts.meta.namespace))
      view.sts

-- A status with phase Syncing was asked to be saved.
abbrev pub HasStarted : Log → Type 0
HasStarted [] = ⊥
HasStarted ((vr_update_status v, _) ∷ l) = (v.status.phase ≡ syncing) ⊎ HasStarted l
HasStarted (_ ∷ l) = HasStarted l

pub Memᴰ-any :
    (name : String) (names : List String) → Memᴰ name names → any (λ n. n == name) names ≡ true
Memᴰ-any name [] m = elim m [ ]
Memᴰ-any name (n ∷ rest) (Memᴰ.head e) = ground (arith, eq_iff n name)
Memᴰ-any name (n ∷ rest) (Memᴰ.tail m) = ground (arith, Memᴰ-any name rest m)

pub AreTemplates-check_targets :
    (lib : Lib) (sts : StatefulSet) (vols : List VolumeResizeTarget)
    → AreTemplates sts vols
    → (check_targets lib (template_names sts) vols).valid ≡ true
unfolding check_targets
AreTemplates-check_targets lib sts [] all = refl
AreTemplates-check_targets lib sts (vol ∷ rest) (m, all) =
    rw (Memᴰ-any vol.name (template_names sts) m) (AreTemplates-check_targets lib sts rest all)

HasNoBlocker-check_budgets :
    (lib : Lib) (sts : StatefulSet) (items : List Pdb)
    → HasNoBlocker lib sts items
    → (check_budgets lib sts.spec.template_labels items).valid ≡ true
unfolding check_budgets
HasNoBlocker-check_budgets lib sts [] all = refl
HasNoBlocker-check_budgets lib sts (pdb ∷ rest) (not_blocking, all) =
    elim (Bool-cases (blocks lib sts.spec.template_labels pdb)) [
      | inl e ↦ absurd (not_blocking (blocks-IsBlocking lib sts.spec.template_labels pdb e))
      | inr e ↦ rw e (HasNoBlocker-check_budgets lib sts rest all)
    ]

pub check_budgets-HasNoBlocker :
    (lib : Lib) (sts : StatefulSet) (items : List Pdb)
    → ((check_budgets lib sts.spec.template_labels items).valid ≡ true) ↔ HasNoBlocker lib sts items
check_budgets-HasNoBlocker lib sts items =
    (check_budgets-AllOf lib sts items, HasNoBlocker-check_budgets lib sts items)

-- the check of one volume, as a function of what the read of its claim gives
abbrev pub size_result : Lib → VolumeResizeTarget → String → Except Pvc → ValidationResult
size_result lib vol name (ok pvc) = compare_sizes lib vol name pvc
size_result lib vol name (err e) = refused ("failed to get PVC " ++ (name ++ (": " ++ e.text)))

pub compare_sizes-valid :
    (lib : Lib) (vol : VolumeResizeTarget) (name : String) (pvc : Pvc)
    → ((compare_sizes lib vol name pvc).valid ≡ true) ↔ IsLarger lib vol pvc
unfolding compare_sizes
compare_sizes-valid lib vol name pvc = (
  λ e. elim (Option-cases (lib.storage_request pvc.requests)) [
    | inl missing ↦ absurd (ground arith)
    | inr (size, given) ↦ (size, given, ground arith)
  ],
  λ (size, given, less'). rw (given, less', compare_sizes) refl,
)

pub size_result-valid :
    (lib : Lib) (vol : VolumeResizeTarget) (name : String) (answer : Except Pvc)
    → ((size_result lib vol name answer).valid ≡ true) ↔ IsOkWith (IsLarger lib vol) answer
size_result-valid lib vol name (ok pvc) = compare_sizes-valid lib vol name pvc
size_result-valid lib vol name (err e) = (λ invalid. absurd cc, λ x. absurd x)
