-- ===== src/Validating.antt =====
-- What handleValidating of internal/controller/volumeresize_controller.go has checked, with the
-- functions of internal/controller/validation.go, when it lets a migration start.
pub mod Start
pub mod Eligible
pub mod Stages
pub mod Exact
use Prim.Native.Nat.{Ordering}
use mathlib.Core.List.{Memᴰ}
use migcontroller.Prelude.Int32.{lt}
use migcontroller.Prelude.{
  StringMap, String, ◌++◌, ◌≡◌, refl, Option, none, some, Option-cases, List, [], ◌∷◌, Bool, true,
  false, Bool-cases, ◌==◌, eq_iff, any, inl, inr, map, get_elem?, arith, if◌then◌else◌,
}
use migcontroller.Objects.{Except, ok, err, StatefulSet, Pdb, Pvc, Quantity}
use migcontroller.VolumeResize.{VolumeResize, VolumeResizeTarget, Phase, syncing, failed}
use migcontroller.Call.{
  Call, Lib, vr_create, vr_delete, vr_update_status, sts_get, sts_create, sts_delete_orphan,
  pvc_get, pvc_create, pvc_delete, pod_create, pod_delete, pv_update, config_map_create, pdb_list,
}
use migcontroller.Prog.{Prog, Log, ret, Handler, run}
use migcontroller.Prog.Safe.{
  Spec, Safe, Extends, Has-Extends, Guarded, Safe-bind, Safe-mono, run-Safe, AllFair,
}
use migcontroller.Names.{get_original_pvc_name}
use migcontroller.Pvc.{get_pvc}
use migcontroller.Validation.{
  ValidationResult, passed, refused, is_ge, template_names, check_targets, validate_volume_targets,
  compare_sizes, validate_size_reduction, blocks, check_budgets, validate_pdb_allows_disruption,
  validate_stateful_set_exists,
}
use migcontroller.Controller.{validate_sizes, validate_found, handle_validating, start_syncing}
use migcontroller.Controller.Results.{Outcome, save_status, set_failed}
use migcontroller.Syncing.Guard.{Has}

abbrev pub AllOf : {A : Type 0} → (A → Type 0) → List A → Type 0
AllOf P [] = Unit {0}
AllOf P (x ∷ xs) = P x × AllOf P xs

pub AllOf-mono :
    {A : Type 0} (P Q : A → Type 0) (xs : List A) → ((x : A) → P x → Q x) → AllOf P xs → AllOf Q xs
AllOf-mono P Q [] f h = tt
AllOf-mono P Q (x ∷ xs) f h = (f x h.0, AllOf-mono P Q xs f h.1)

any-Memᴰ :
    (name : String) (names : List String) → any (λ n. n == name) names ≡ true → Memᴰ name names
any-Memᴰ name [] e = absurd cc
any-Memᴰ name (n ∷ rest) e = elim (Bool-cases (n == name)) [
  | inl same ↦ Memᴰ.head (ground (arith, eq_iff n name))
  | inr other ↦ Memᴰ.tail (any-Memᴰ name rest (ground arith))
]

-- Every volume is a volume claim template of the StatefulSet.
abbrev pub AreTemplates : StatefulSet → List VolumeResizeTarget → Type 0
AreTemplates sts = AllOf λ vol. Memᴰ vol.name (template_names sts)

pub check_targets-AreTemplates :
    (lib : Lib) (sts : StatefulSet) (vols : List VolumeResizeTarget)
    → (check_targets lib (template_names sts) vols).valid ≡ true
    → AreTemplates sts vols
unfolding check_targets
check_targets-AreTemplates lib sts [] e = tt
check_targets-AreTemplates lib sts (vol ∷ rest) e =
    elim (Bool-cases (any (λ n. n == vol.name) (template_names sts))) [
      | inl h ↦ (
        any-Memᴰ vol.name (template_names sts) h,
        check_targets-AreTemplates lib sts rest (ground arith),
      )
      | inr h ↦ absurd (ground arith)
    ]

-- The claim of replica 0 was read, and the new size is less than what it requests.
abbrev pub IsReduction : Lib → String → String → Log → VolumeResizeTarget → Type 0
IsReduction lib namespace sts_name l vol =
    (pvc : Pvc) × (size : Quantity) × Has l
      (pvc_get namespace (get_original_pvc_name vol.name sts_name 0)) (ok pvc)
    × (lib.storage_request pvc.requests ≡ some size)
    × (lib.quantity_cmp vol.new_size size ≡ Ordering.lt)

pub compare_sizes-IsReduction :
    (lib : Lib) (namespace sts_name pvc_name : String) (l : Log) (vol : VolumeResizeTarget)
    (pvc : Pvc)
    → Has l (pvc_get namespace (get_original_pvc_name vol.name sts_name 0)) (ok pvc)
    → (compare_sizes lib vol pvc_name pvc).valid ≡ true
    → IsReduction lib namespace sts_name l vol
unfolding compare_sizes
compare_sizes-IsReduction lib namespace sts_name pvc_name l vol pvc h e =
    elim (Option-cases (lib.storage_request pvc.requests)) [
      | inl missing ↦ absurd (ground arith)
      | inr (size, given) ↦ (pvc, size, h, given, ground arith)
    ]

-- A budget has a selector that matches the labels, and allows less than one disruption.
abbrev pub IsBlocking : Lib → Option StringMap → Pdb → Type 0
IsBlocking lib labels pdb =
    (m : StringMap) × (matches : Option StringMap → Bool) × (pdb.selector ≡ some m)
    × (lib.selector_from_set m ≡ some matches)
    × (matches labels ≡ true)
    × (lt pdb.disruptions_allowed 1 ≡ true)

IsBlocking-blocks :
    (lib : Lib) (labels : Option StringMap) (pdb : Pdb)
    → IsBlocking lib labels pdb
    → blocks lib labels pdb ≡ true
unfolding blocks
IsBlocking-blocks lib labels pdb (m, matches, selects, valid, matching, few) =
    rw (selects, valid, matching, blocks) few

pub blocks-IsBlocking :
    (lib : Lib) (labels : Option StringMap) (pdb : Pdb)
    → blocks lib labels pdb ≡ true
    → IsBlocking lib labels pdb
unfolding blocks
blocks-IsBlocking lib labels pdb e = elim (Option-cases pdb.selector) [
  | inl missing ↦ absurd (ground arith)
  | inr (m, selects) ↦ elim (Option-cases (lib.selector_from_set m)) [
    | inl invalid ↦ absurd (ground arith)
    | inr (matches, valid) ↦ elim (Bool-cases (matches labels)) [
      | inl matching ↦ (m, matches, selects, valid, matching, ground arith)
      | inr other ↦ absurd (ground arith)
    ]
  ]
]

-- The budgets of the namespace were listed, and none blocks.
abbrev pub AreAllowing : Lib → StatefulSet → Log → Type 0
AreAllowing lib sts l =
    (items : List Pdb) × Has l (pdb_list sts.meta.namespace) (ok items)
    × AllOf (λ pdb. ¬ IsBlocking lib sts.spec.template_labels pdb) items

pub check_budgets-AllOf :
    (lib : Lib) (sts : StatefulSet) (items : List Pdb)
    → (check_budgets lib sts.spec.template_labels items).valid ≡ true
    → AllOf (λ pdb. ¬ IsBlocking lib sts.spec.template_labels pdb) items
unfolding check_budgets
check_budgets-AllOf lib sts [] e = tt
check_budgets-AllOf lib sts (pdb ∷ rest) e =
    elim (Bool-cases (blocks lib sts.spec.template_labels pdb)) [
      | inl h ↦ absurd (ground arith)
      | inr h ↦ (
        λ blocking.
            absurd (ground (arith, IsBlocking-blocks lib sts.spec.template_labels pdb blocking)),
        check_budgets-AllOf lib sts rest (ground arith),
      )
    ]

-- All that must have been read before a migration starts.
abbrev pub IsChecked : Lib → VolumeResize → Log → Type 0
IsChecked lib vr l =
    (sts : StatefulSet) × Has l (sts_get vr.meta.namespace vr.spec.stateful_set_name) (ok sts)
    × AreTemplates sts vr.spec.volumes
    × AllOf (IsReduction lib vr.meta.namespace vr.spec.stateful_set_name l) vr.spec.volumes
    × AreAllowing lib sts l

abbrev pub Starts : Phase → Type 0
Starts syncing = Unit {0}
Starts _ = ⊥

-- The phases that may follow Validating.
abbrev pub FollowsValidating : Phase → Type 0
FollowsValidating syncing = Unit {0}
FollowsValidating failed = Unit {0}
FollowsValidating _ = ⊥

-- The status becomes Syncing only after all checks, and nothing else is changed.
abbrev pub StartGuard : Lib → VolumeResize → Log → Call → Type 0
StartGuard lib vr l (vr_update_status v) =
    FollowsValidating v.status.phase × (Starts v.status.phase → IsChecked lib vr l)
StartGuard lib vr l (sts_create _) = ⊥
StartGuard lib vr l (sts_delete_orphan _ _) = ⊥
StartGuard lib vr l (pvc_create _) = ⊥
StartGuard lib vr l (pvc_delete _ _) = ⊥
StartGuard lib vr l (pv_update _) = ⊥
StartGuard lib vr l (pod_create _) = ⊥
StartGuard lib vr l (pod_delete _ _) = ⊥
StartGuard lib vr l (config_map_create _) = ⊥
StartGuard lib vr l (vr_create _) = ⊥
StartGuard lib vr l (vr_delete _ _) = ⊥
StartGuard lib vr l _ = Unit {0}

abbrev pub start_spec : Lib → VolumeResize → Spec Outcome
start_spec lib vr = record {
  guard = StartGuard lib vr;
  fair = λ _ _. Unit {0};
  stops = λ _ _. Unit {0};
  panics = Unit {0};
  exhausts = ⊥;
}
