-- ===== src/Migrator.antt =====
-- internal/controller/migrator.go
use migcontroller.Prelude.{ℕ, zero, suc, ◌+◌, ◌*◌, String, ◌++◌, some, [], ◌∷◌, ltb, if◌then◌else◌}
use migcontroller.Prelude.Int32.{Int32, show}
use migcontroller.Objects.{
  wrap, new_error, Except, ok, err, is_not_found, new_meta, Pod, succeeded, pod_failed,
  phase_unknown,
}
use migcontroller.VolumeResize.{
  VolumeResize, VolumeResizeTarget, label_migration_name, label_replica, label_volume_name,
  annotation_managed_by, default_migrator_image,
}
use migcontroller.Call.{pod_get, pod_create, pod_delete, now, sleep}
use migcontroller.Prog.{Prog, ret, out_of_fuel, ◌>>=◌, ◌>>◌, ask, tolerate_not_found, attempt}
use migcontroller.Pvc.{second}
use migcontroller.Sts.{rounds}

unfoldable pub build_migrator_pod :
    VolumeResize → VolumeResizeTarget → Int32 → String → String → Pod
build_migrator_pod vr vol replica old_pvc_name new_pvc_name = record {
  meta =
      new_meta (vr.meta.name ++ ("-migrator-" ++ (show replica ++ ("-" ++ vol.name))))
        vr.meta.namespace
        (some (
          (label_migration_name, vr.meta.name)
          ∷ (label_replica, show replica)
          ∷ (label_volume_name, vol.name)
          ∷ []))
        (some ((annotation_managed_by, "volume-resize-operator") ∷ []));
  spec = record {
    restart_policy = "Never";
    run_as_user = 0;
    run_as_group = 0;
    container_name = "migrator";
    image = default_migrator_image;
    image_pull_policy = "IfNotPresent";
    env = ("SOURCE_PATH", "/source") ∷ ("DEST_PATH", "/dest") ∷ [];
    volume_mounts = ("source", "/source") ∷ ("dest", "/dest") ∷ [];
    volumes = ("source", old_pvc_name) ∷ ("dest", new_pvc_name) ∷ [];
  };
  phase = phase_unknown;
}

-- c.Create of the pod; it answers with the stored object
unfoldable pub create_new_migrator_pod : {X : Type 0} → Pod → Prog X (Except Pod)
create_new_migrator_pod pod = do
  created ← ask (pod_create pod)
  elim created [
    | ok stored ↦ ret (ok stored)
    | err e ↦ ret (err (wrap "failed to create migrator pod: " e))
  ]

unfoldable pub create_migrator_pod :
    {X : Type 0} → VolumeResize → VolumeResizeTarget → Int32 → String → String → Prog X (Except Pod)
unfolding create_new_migrator_pod
create_migrator_pod vr vol replica old_pvc_name new_pvc_name = do
  let pod = build_migrator_pod vr vol replica old_pvc_name new_pvc_name
  existing ← ask (pod_get pod.meta.namespace pod.meta.name)
  elim existing [
    | ok existing_pod ↦ ret (ok existing_pod)
    | err e ↦
        if is_not_found e
        then create_new_migrator_pod pod
        else ret (err (wrap "failed to check for existing migrator pod: " e))
  ]

unfoldable pub poll_migration : {X : Type 0} → ℕ → ℕ → String → String → Prog X (Except (Unit {0}))
poll_migration zero deadline pod_name namespace = out_of_fuel
poll_migration (suc fuel) deadline pod_name namespace = do
  t ← ask now
  if ltb t deadline
      then (do
        found ← ask (pod_get namespace pod_name)
        let again = do ask (sleep (2 * second)); poll_migration fuel deadline pod_name namespace
        elim found [
          | err e ↦ ret (err (wrap "failed to get migration pod status: " e))
          | ok pod ↦ elim pod.phase [
            | succeeded ↦ ret (ok tt)
            | pod_failed ↦ ret (err (new_error "migration pod failed"))
            | _ ↦ again
          ]
        ])
      else ret (err (new_error "timeout waiting for migration to complete"))

unfoldable pub wait_for_migration_complete :
    {X : Type 0} → String → String → ℕ → Prog X (Except (Unit {0}))
unfolding poll_migration
wait_for_migration_complete pod_name namespace timeout = do
  start ← ask now
  poll_migration (rounds timeout (2 * second)) (start + timeout) pod_name namespace

unfoldable pub cleanup_migrator_pod : {X : Type 0} → String → String → Prog X (Except (Unit {0}))
cleanup_migrator_pod pod_name namespace =
    attempt do
      tolerate_not_found "failed to delete migrator pod: " (← ask (pod_delete namespace pod_name))
