-- ===== src/Sts.antt =====
-- internal/controller/statefulset.go
use migcontroller.Prelude.{
  ℕ, zero, suc, ◌+◌, ◌/◌, String, ◌++◌, none, some, [], ◌∷◌, ltb, if◌then◌else◌,
}
use migcontroller.Prelude.Dict.{lookup}
use migcontroller.Prelude.Int32.{Int32}
use migcontroller.Objects.{
  wrap, new_error, Except, ok, err, is_not_found, new_meta, StatefulSet, ConfigMap, GoError,
}
use migcontroller.VolumeResize.{
  VolumeResize, label_migration_name, annotation_managed_by, config_map_key_sts_spec,
}
use migcontroller.Call.{
  Lib, sts_create, sts_delete_orphan, pod_get, pod_delete, config_map_get, config_map_create, now,
  sleep,
}
use migcontroller.Prog.{
  Prog, ret, stop, out_of_fuel, ◌>>=◌, ◌>>◌, ask, expect, tolerate_not_found, attempt,
}
use migcontroller.Names.{get_pod_name, get_sts_backup_config_map_name}
use migcontroller.Pvc.{second}

-- sts.DeepCopy: values have no aliases here
abbrev pub deep_copy_sts_spec : StatefulSet → StatefulSet
deep_copy_sts_spec sts = sts

unfoldable pub delete_sts_orphan : {X : Type 0} → StatefulSet → Prog X (Except StatefulSet)
delete_sts_orphan sts =
    let sts_copy = deep_copy_sts_spec sts in
    attempt do
      tolerate_not_found "failed to delete StatefulSet with orphan policy: "
          (← ask (sts_delete_orphan sts.meta.namespace sts.meta.name))
      ret sts_copy

unfoldable pub delete_pod : {X : Type 0} → String → String → Int32 → Prog X (Except (Unit {0}))
delete_pod namespace sts_name replica =
    let pod_name = get_pod_name sts_name replica in
    attempt do
      tolerate_not_found ("failed to delete pod " ++ (pod_name ++ ": "))
          (← ask (pod_delete namespace pod_name))

-- Rounds of a loop that sleeps `step` in each and ends after `timeout`, if the clock advances by
-- what was slept.
abbrev pub rounds : ℕ → ℕ → ℕ
rounds timeout step = suc (suc (timeout / step))

unfoldable pub poll_pod_termination :
    {X : Type 0} → ℕ → ℕ → String → String → Prog X (Except (Unit {0}))
poll_pod_termination zero deadline namespace pod_name = out_of_fuel
poll_pod_termination (suc fuel) deadline namespace pod_name = do
  t ← ask now
  if ltb t deadline
      then (do
        found ← ask (pod_get namespace pod_name)
        let again = do ask (sleep second); poll_pod_termination fuel deadline namespace pod_name
        elim found [
          | ok _ ↦ again
          | err e ↦
              if is_not_found e
              then ret (ok tt)
              else ret (err (wrap "error checking pod status: " e))
        ])
      else ret (err (new_error ("timeout waiting for pod " ++ (pod_name ++ " to terminate"))))

unfoldable pub wait_for_pod_termination :
    {X : Type 0} → String → String → ℕ → Prog X (Except (Unit {0}))
unfolding poll_pod_termination
wait_for_pod_termination namespace pod_name timeout = do
  start ← ask now
  poll_pod_termination (rounds timeout second) (start + timeout) namespace pod_name

unfoldable pub backup_config_map : VolumeResize → String → ConfigMap
backup_config_map vr sts_json = record {
  meta =
      new_meta (get_sts_backup_config_map_name vr.meta.name) vr.meta.namespace
        (some ((label_migration_name, vr.meta.name) ∷ []))
        (some ((annotation_managed_by, "volume-resize-operator") ∷ []));
  entries = (config_map_key_sts_spec, sts_json) ∷ [];
}

-- the part of backupSTSToConfigMap behind the check for an existing backup
unfoldable pub create_backup : Lib → VolumeResize → StatefulSet → Prog GoError (Unit {0})
unfolding backup_config_map
create_backup lib vr sts = do
  sts_json ← expect "failed to serialize StatefulSet: " (lib.marshal sts)
  expect "failed to create backup ConfigMap: "
      (← ask (config_map_create (backup_config_map vr sts_json)))
  ret tt

unfoldable pub backup_sts_to_config_map :
    {X : Type 0} → Lib → VolumeResize → StatefulSet → Prog X (Except (Unit {0}))
unfolding create_backup
backup_sts_to_config_map lib vr sts = do
  existing ← ask (config_map_get vr.meta.namespace (get_sts_backup_config_map_name vr.meta.name))
  elim existing [
    | ok _ ↦ ret (ok tt)
    | err e ↦
        if is_not_found e
        then attempt (create_backup lib vr sts)
        else ret (err (wrap "failed to check for existing backup ConfigMap: " e))
  ]

unfoldable pub get_sts_from_backup_config_map :
    {X : Type 0} → Lib → String → String → Prog X (Except StatefulSet)
get_sts_from_backup_config_map lib namespace vr_name = attempt do
  cm ←
      expect "failed to get backup ConfigMap: "
        (← ask (config_map_get namespace (get_sts_backup_config_map_name vr_name)))
  sts_json ← elim (lookup config_map_key_sts_spec cm.entries) [
    | some json ↦ ret json
    | none ↦ stop (new_error ("backup ConfigMap missing " ++ (config_map_key_sts_spec ++ " key")))
  ]
  expect "failed to deserialize StatefulSet: " (lib.unmarshal sts_json)

-- the object that recreateSTS creates: the server's own fields are left out
unfoldable pub recreated_sts : StatefulSet → StatefulSet
recreated_sts sts_spec = record {
  meta =
      new_meta sts_spec.meta.name sts_spec.meta.namespace sts_spec.meta.labels
        sts_spec.meta.annotations;
  spec = sts_spec.spec;
}

unfoldable pub recreate_sts : {X : Type 0} → StatefulSet → Prog X (Except (Unit {0}))
unfolding recreated_sts
recreate_sts sts_spec = attempt do
  expect "failed to recreate StatefulSet: " (← ask (sts_create (recreated_sts sts_spec)))
  ret tt
