-- ===== src/Pvc.antt =====
-- internal/controller/pvc.go
use migcontroller.Prelude.{
  ℕ, zero, suc, String, ◌++◌, ◌==◌, Option, none, some, [], ◌∷◌, if◌then◌else◌,
}
use migcontroller.Prelude.Int32.{Int32, show}
use migcontroller.Objects.{
  wrap, new_error, GoError, Except, ok, err, is_not_found, new_meta, Pvc, unbound, Pv, retain,
  ReclaimPolicy,
}
use migcontroller.VolumeResize.{
  VolumeResize, VolumeResizeTarget, label_migration_name, label_replica, label_volume_name,
  annotation_managed_by,
}
use migcontroller.Call.{pvc_get, pvc_create, pvc_delete, pv_get, pv_update, wait_or_done}
use migcontroller.Prog.{
  Prog, ret, stop, ◌>>=◌, ◌>>◌, ask, expect, or_stop, tolerate_not_found, attempt,
}
use migcontroller.Names.{get_original_pvc_name, get_temp_pvc_name}

abbrev pub second : ℕ
second = 1_000_000_000

unfoldable pub get_pvc : {X : Type 0} → String → String → Prog X (Except Pvc)
get_pvc namespace name = do
  r ← ask (pvc_get namespace name)
  elim r [ ok pvc ↦ ret (ok pvc) | err e ↦ ret (err e) ]

-- the storage class of the target, or else that of the original claim
unfoldable pub temp_storage_class : VolumeResizeTarget → Pvc → Option String
temp_storage_class vol original_pvc = elim vol.storage_class [
  | some sc ↦ some sc
  | none ↦ original_pvc.storage_class_name
]

-- the object literal of createTempPVC
unfoldable pub temp_pvc_object : VolumeResize → VolumeResizeTarget → Pvc → Int32 → Pvc
unfolding temp_storage_class
temp_pvc_object vr vol original_pvc replica = record {
  meta =
      new_meta (get_temp_pvc_name vol.name vr.spec.stateful_set_name replica) vr.meta.namespace
        (some (
          (label_migration_name, vr.meta.name)
          ∷ (label_replica, show replica)
          ∷ (label_volume_name, vol.name)
          ∷ []))
        (some ((annotation_managed_by, "volume-resize-operator") ∷ []));
  access_modes = original_pvc.access_modes;
  storage_class_name = temp_storage_class vol original_pvc;
  volume_name = "";
  requests = some (("storage", vol.new_size) ∷ []);
  phase = unbound;
}

-- c.Create of the temporary claim; it answers with the stored object
unfoldable pub create_new_temp_pvc : {X : Type 0} → Pvc → Prog X (Except Pvc)
create_new_temp_pvc temp_pvc = do
  created ← ask (pvc_create temp_pvc)
  elim created [
    | ok stored ↦ ret (ok stored)
    | err e ↦ ret (err (wrap "failed to create temp PVC: " e))
  ]

unfoldable pub create_temp_pvc :
    {X : Type 0} → VolumeResize → VolumeResizeTarget → Pvc → Int32 → Prog X (Except Pvc)
unfolding get_pvc create_new_temp_pvc
create_temp_pvc vr vol original_pvc replica = do
  existing ←
      get_pvc vr.meta.namespace (get_temp_pvc_name vol.name vr.spec.stateful_set_name replica)
  elim existing [
    | ok pvc ↦ ret (ok pvc)
    | err e ↦
        if is_not_found e
        then create_new_temp_pvc (temp_pvc_object vr vol original_pvc replica)
        else ret (err (wrap "failed to check for existing temp PVC: " e))
  ]

-- c.Update of a volume whose policy is not Retain yet
unfoldable pub update_to_retain : {X : Type 0} → String → Pv → Prog X (Except (Unit {0}))
update_to_retain pv_name pv = do
  updated ← ask (pv_update (record pv { reclaim_policy = retain }))
  elim updated [
    | ok _ ↦ ret (ok tt)
    | err e ↦ ret (err (wrap ("failed to update PV " ++ (pv_name ++ " reclaim policy: ")) e))
  ]

abbrev pub is_retain : {A : Type 0} → ReclaimPolicy → A → A → A
is_retain retain x y = x
is_retain _ x y = y

unfoldable pub set_retain_on_pv : {X : Type 0} → String → Prog X (Except (Unit {0}))
unfolding update_to_retain
set_retain_on_pv pv_name = do
  found ← ask (pv_get pv_name)
  elim found [
    | ok pv ↦ is_retain pv.reclaim_policy (ret (ok tt)) (update_to_retain pv_name pv)
    | err e ↦ ret (err (wrap ("failed to get PV " ++ (pv_name ++ ": ")) e))
  ]

-- One of the two loops `for range 60` of replacePVC: it ends early when the claim is gone, and
-- after the last round it goes on all the same.
unfoldable pub wait_for_pvc_deletion :
    {X : Type 0} → ℕ → String → String → String → Prog X (Except (Unit {0}))
unfolding get_pvc
wait_for_pvc_deletion zero message namespace name = ret (ok tt)
wait_for_pvc_deletion (suc rounds) message namespace name = do
  found ← get_pvc namespace name
  elim found [
    | err e ↦ if is_not_found e then ret (ok tt) else ret (err (wrap message e))
    | ok _ ↦ do
      waited ← ask (wait_or_done second)
      elim waited [
        | err e ↦ ret (err e)
        | ok _ ↦ wait_for_pvc_deletion rounds message namespace name
      ]
  ]

-- the new claim under the original name, bound to the new volume
unfoldable pub new_pvc_object : String → String → Pvc → Pvc → VolumeResizeTarget → Pvc
new_pvc_object namespace name temp_pvc original_pvc vol = record {
  meta = new_meta name namespace original_pvc.meta.labels none;
  access_modes = temp_pvc.access_modes;
  storage_class_name = temp_pvc.storage_class_name;
  volume_name = temp_pvc.volume_name;
  requests = some (("storage", vol.new_size) ∷ []);
  phase = unbound;
}

-- the first half of replacePVC: from the two reads to the deleted temporary claim
unfoldable pub release_temp_pvc : String → String → String → Prog GoError (Pvc × Pvc)
unfolding get_pvc wait_for_pvc_deletion
release_temp_pvc namespace original_pvc_name temp_pvc_name = do
  temp_pvc ← expect "failed to get temp PVC: " (← get_pvc namespace temp_pvc_name)
  let new_pv_name = temp_pvc.volume_name
  if new_pv_name == ""
      then stop (new_error ("temp PVC " ++ (temp_pvc_name ++ " is not bound to a PV")))
      else ret tt
  original_pvc ← expect "failed to get original PVC: " (← get_pvc namespace original_pvc_name)
  new_pv ← expect "failed to get new PV: " (← ask (pv_get new_pv_name))
  expect "failed to set retain policy on new PV: "
      (← ask (pv_update (record new_pv { reclaim_policy = retain })))
  tolerate_not_found "failed to delete temp PVC: "
      (← ask (pvc_delete temp_pvc.meta.namespace temp_pvc.meta.name))
  or_stop (← wait_for_pvc_deletion 60 "error checking temp PVC deletion: " namespace temp_pvc_name)
  ret (temp_pvc, original_pvc)

-- the second half: the new volume is freed and bound to a claim with the original name
unfoldable pub bind_new_pvc :
    String → String → VolumeResizeTarget → Pvc → Pvc → Prog GoError (Unit {0})
unfolding get_pvc wait_for_pvc_deletion new_pvc_object
bind_new_pvc namespace original_pvc_name vol temp_pvc original_pvc = do
  new_pv ←
      expect "failed to get new PV after temp PVC deletion: " (← ask (pv_get temp_pvc.volume_name))
  expect "failed to clear claimRef on new PV: "
      (← ask (pv_update (record new_pv { claim_ref = none })))
  tolerate_not_found "failed to delete original PVC: "
      (← ask (pvc_delete original_pvc.meta.namespace original_pvc.meta.name))
  or_stop (← wait_for_pvc_deletion 60 "error checking PVC deletion: " namespace original_pvc_name)
  expect "failed to create new PVC with original name: "
      (← ask (pvc_create (new_pvc_object namespace original_pvc_name temp_pvc original_pvc vol)))
  ret tt

unfoldable pub replace_pvc :
    {X : Type 0} → VolumeResize → VolumeResizeTarget → Int32 → Prog X (Except (Unit {0}))
replace_pvc vr vol replica =
    let original_pvc_name = get_original_pvc_name vol.name vr.spec.stateful_set_name replica in
    let temp_pvc_name = get_temp_pvc_name vol.name vr.spec.stateful_set_name replica in
    attempt do
      claims ← release_temp_pvc vr.meta.namespace original_pvc_name temp_pvc_name
      bind_new_pvc vr.meta.namespace original_pvc_name vol claims.0 claims.1
