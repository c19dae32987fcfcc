-- ===== src/Validation.antt =====
-- internal/controller/validation.go
use Prim.Native.Nat.{Ordering}
use migcontroller.Prelude.{
  String, ◌++◌, Option, none, some, List, [], ◌∷◌, Bool, true, false, ◌==◌, any, map, if◌then◌else◌,
}
use migcontroller.Prelude.Int32.{lt, show}
use migcontroller.Objects.{ok, err, StatefulSet, Pdb, Pvc}
use migcontroller.VolumeResize.{VolumeResizeTarget}
use migcontroller.Call.{Lib, sts_get, pdb_list}
use migcontroller.Prog.{Prog, ret, ◌>>=◌, ask}
use migcontroller.Names.{get_original_pvc_name}
use migcontroller.Pvc.{get_pvc}
use migcontroller.Prelude.{StringMap}

pub record ValidationResult : Type 0 where
  pub valid : Bool
  pub message : String

abbrev pub passed : ValidationResult
passed = record { valid = true; message = "" }

abbrev pub refused : String → ValidationResult
refused message = record { valid = false; message = message }

-- a nil StatefulSet is `none`
unfoldable pub validate_stateful_set_exists :
    {X : Type 0} → String → String → Prog X (Option StatefulSet × ValidationResult)
validate_stateful_set_exists namespace name = do
  found ← ask (sts_get namespace name)
  elim found [
    | ok sts ↦ ret (some sts, passed)
    | err e ↦ ret (none, refused ("StatefulSet " ++ (name ++ (" not found: " ++ e.text))))
  ]

-- the keys of the map templateNames
abbrev pub template_names : StatefulSet → List String
template_names sts = map (λ (vct : Pvc). vct.meta.name) sts.spec.volume_claim_templates

unfoldable pub check_targets : Lib → List String → List VolumeResizeTarget → ValidationResult
check_targets lib names [] = passed
check_targets lib names (vol ∷ rest) =
    let later = check_targets lib names rest in
    if any (λ name. name == vol.name) names
    then later
    else refused
        ("volume " ++ (lib.quote vol.name ++ " not found in StatefulSet volumeClaimTemplates"))

unfoldable pub validate_volume_targets :
    Lib → StatefulSet → List VolumeResizeTarget → ValidationResult
unfolding check_targets
validate_volume_targets lib sts volumes = check_targets lib (template_names sts) volumes

-- `Cmp(…) >= 0`
abbrev pub is_ge : Ordering → Bool
is_ge Ordering.lt = false
is_ge _ = true

-- the comparison of validateSizeReduction, once the claim is read
unfoldable pub compare_sizes : Lib → VolumeResizeTarget → String → Pvc → ValidationResult
compare_sizes lib vol pvc_name pvc = elim (lib.storage_request pvc.requests) [
  | none ↦ refused ("PVC " ++ (pvc_name ++ " has no storage request"))
  | some current_size ↦
      if is_ge (lib.quantity_cmp vol.new_size current_size)
      then refused (
          "newSize ("
          ++ (lib.quantity_string vol.new_size
              ++ (") must be smaller than current size ("
                  ++ (lib.quantity_string current_size ++ (") for volume " ++ vol.name)))))
      else passed
]

unfoldable pub validate_size_reduction :
    {X : Type 0} → Lib → String → String → VolumeResizeTarget → Prog X ValidationResult
unfolding get_pvc compare_sizes
validate_size_reduction lib namespace sts_name vol = do
  let pvc_name = get_original_pvc_name vol.name sts_name 0
  found ← get_pvc namespace pvc_name
  elim found [
    | err e ↦ ret (refused ("failed to get PVC " ++ (pvc_name ++ (": " ++ e.text))))
    | ok pvc ↦ ret (compare_sizes lib vol pvc_name pvc)
  ]

-- Whether a budget selects the pods and allows no disruption: the two tests of the loop, and the
-- two `continue`s.
unfoldable pub blocks : Lib → Option StringMap → Pdb → Bool
blocks lib pod_labels pdb = elim pdb.selector [
  | none ↦ false
  | some match_labels ↦ elim (lib.selector_from_set match_labels) [
    | none ↦ false
    | some matches ↦ if matches pod_labels then lt pdb.disruptions_allowed 1 else false
  ]
]

unfoldable pub check_budgets : Lib → Option StringMap → List Pdb → ValidationResult
unfolding blocks
check_budgets lib pod_labels [] = passed
check_budgets lib pod_labels (pdb ∷ rest) =
    let later = check_budgets lib pod_labels rest in
    if blocks lib pod_labels pdb
    then refused (
        "PodDisruptionBudget "
        ++ (pdb.name
            ++ (" does not allow disruptions (disruptionsAllowed="
                ++ (show pdb.disruptions_allowed ++ ")"))))
    else later

unfoldable pub validate_pdb_allows_disruption :
    {X : Type 0} → Lib → StatefulSet → Prog X ValidationResult
unfolding check_budgets
validate_pdb_allows_disruption lib sts = do
  listed ← ask (pdb_list sts.meta.namespace)
  elim listed [
    | err e ↦ ret (refused ("failed to list PodDisruptionBudgets: " ++ e.text))
    | ok items ↦ ret (check_budgets lib sts.spec.template_labels items)
  ]
