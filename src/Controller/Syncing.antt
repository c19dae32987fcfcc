-- ===== src/Controller/Syncing.antt =====
-- handleSyncing of internal/controller/volumeresize_controller.go, in the order of its text.
use migcontroller.Prelude.{
  ℕ, ◌*◌, String, ◌++◌, Option, none, some, List, [], ◌∷◌, Bool, true, false, ◌==◌, if◌then◌else◌,
  StringMap,
}
use migcontroller.Prelude.Dict.{lookup, insert, remove}
use migcontroller.Prelude.Int32.{Int32, show}
use migcontroller.Objects.{
  ok, err, is_not_found, is_already_exists, Pvc, ClaimPhase, bound, PodPhase, running, pod_pending,
  pod_failed, StatefulSet, wait_for_first_consumer,
}
use migcontroller.VolumeResize.{
  VolumeResize, VolumeResizeTarget, completed, vol_syncing, vol_synced, vol_completed,
  annotation_sts_deleted, annotation_sts_backup, message_migration_completed,
}
use migcontroller.Call.{Lib, vr_update, vr_update_status, sts_get, pod_get, storage_class_get, now}
use migcontroller.Prog.{Prog, ret, stop, panic, ◌>>=◌, ◌>>◌, ask, on_error}
use migcontroller.Names.{
  get_original_pvc_name, get_temp_pvc_name, get_pod_name, get_sts_backup_config_map_name,
}
use migcontroller.Status.{
  update_volume_status, update_volume_status_in_list, get_next_volume_replica, already_completed,
  find_target,
}
use migcontroller.Pvc.{second, get_pvc, create_temp_pvc, set_retain_on_pv, replace_pvc}
use migcontroller.Sts.{
  delete_sts_orphan, delete_pod, wait_for_pod_termination, backup_sts_to_config_map,
  get_sts_from_backup_config_map, recreate_sts,
}
use migcontroller.Migrator.{create_migrator_pod, wait_for_migration_complete, cleanup_migrator_pod}
use migcontroller.Controller.Results.{
  Outcome, requeue, requeue_after, failure, save_status, set_failed, fail,
}

-- the status when no volume is left
unfoldable pub mark_completed : VolumeResize → ℕ → VolumeResize
mark_completed vr t = record vr {
  status = record vr.status {
    phase = completed;
    completion_time = some t;
    message = message_migration_completed;
    current_replica = none;
    current_volume = "";
  };
}

-- the status with the next volume and replica
unfoldable pub mark_current : VolumeResize → Int32 → String → VolumeResize
mark_current vr replica volume = record vr {
  status = record vr.status {
    current_replica = some replica;
    current_volume = volume;
    message = "Migrating replica " ++ (show replica ++ (" volume " ++ volume));
  };
}

-- the two places that go on to the next volume and replica
unfoldable pub advance : VolumeResize → Int32 → String → Prog Outcome Outcome
unfolding save_status mark_completed mark_current
advance vr replica vol_name = elim (get_next_volume_replica vr replica vol_name) [
  | none ↦ panic
  | some (next_replica, next_vol, done) ↦ elim done [
    | true ↦ do t ← ask now; save_status requeue (mark_completed vr t)
    | false ↦ save_status requeue (mark_current vr next_replica next_vol)
  ]
]

-- Whether to wait until the temporary claim is bound.
unfoldable pub wait_for_binding : Pvc → Prog Outcome Bool
wait_for_binding temp_pvc = elim temp_pvc.storage_class_name [
  | none ↦ ret true
  | some name ↦ if name == "" then ret true else do
    found ← ask (storage_class_get name)
    elim found [
      | err _ ↦ ret true
      | ok sc ↦ elim sc.binding_mode [ some wait_for_first_consumer ↦ ret false | _ ↦ ret true ]
    ]
]

abbrev pub is_bound : ClaimPhase → Bool
is_bound bound = true
is_bound _ = false

-- Both claims and the retained old volume: up to the call of setRetainOnPV.
unfoldable pub prepare_volumes :
    VolumeResize → VolumeResizeTarget → String → Int32 → Prog Outcome Pvc
unfolding wait_for_binding set_failed
prepare_volumes vr vol vol_name replica = do
  original_pvc ←
      on_error
        (← get_pvc vr.meta.namespace
          (get_original_pvc_name vol_name vr.spec.stateful_set_name replica))
        (λ e. fail vr ("failed to get original PVC: " ++ e.text))
  temp_pvc ←
      on_error (← create_temp_pvc vr vol original_pvc replica)
        (λ e. fail vr ("failed to create temp PVC: " ++ e.text))
  waits ← wait_for_binding temp_pvc
  if waits
      then (if is_bound temp_pvc.phase then ret tt else stop (requeue_after (5 * second)))
      else ret tt
  on_error (← set_retain_on_pv original_pvc.volume_name)
      (λ e. fail vr ("failed to set retain on PV: " ++ e.text))
  ret original_pvc

-- the two updates of the volume's status behind it
unfoldable pub mark_syncing : VolumeResize → String → Int32 → String → VolumeResize
unfolding update_volume_status update_volume_status_in_list
mark_syncing vr vol_name replica old_pv_name =
    let vr' = update_volume_status vr vol_name replica vol_syncing "Preparing migration" in
    record vr' {
      status = record vr'.status {
        volume_statuses =
            update_volume_status_in_list vr'.status.volume_statuses vol_name replica (λ vs.
              record vs {
                old_pvc_name = get_original_pvc_name vol_name vr.spec.stateful_set_name replica;
                new_pvc_name = get_temp_pvc_name vol_name vr.spec.stateful_set_name replica;
                old_pv_name = old_pv_name;
              });
      };
    }

-- vr.Annotations[AnnotationSTSDeleted] == "true"; a nil map reads as empty
unfoldable pub sts_marked_deleted : VolumeResize → Bool
sts_marked_deleted vr = elim vr.meta.annotations [
  | none ↦ false
  | some m ↦ elim (lookup annotation_sts_deleted m) [ none ↦ false | some v ↦ v == "true" ]
]

unfoldable pub annotate_deleted : VolumeResize → VolumeResize
annotate_deleted vr =
    let m : StringMap = elim vr.meta.annotations [ none ↦ [] | some m ↦ m ] in
    record vr {
      meta = record vr.meta {
        annotations = some (
            insert annotation_sts_backup (get_sts_backup_config_map_name vr.meta.name)
              (insert annotation_sts_deleted "true" m));
      };
    }

-- the branch with a StatefulSet: backup, orphaning deletion, and the two updates
unfoldable pub orphan_sts : Lib → VolumeResize → StatefulSet → Prog Outcome VolumeResize
unfolding annotate_deleted set_failed
orphan_sts lib vr sts = do
  on_error (← backup_sts_to_config_map lib vr sts)
      (λ e. fail vr ("failed to backup STS to ConfigMap: " ++ e.text))
  on_error (← delete_sts_orphan sts) (λ e. fail vr ("failed to delete STS: " ++ e.text))
  updated ← on_error (← ask (vr_update (annotate_deleted vr))) (λ e. stop (failure e))
  on_error
      (← ask (
        vr_update_status (record updated {
          status = record updated.status {
            backup_config_map_name = get_sts_backup_config_map_name updated.meta.name;
          };
        })))
      (λ e. stop (failure e))

-- `if vr.Annotations == nil || …`
unfoldable pub detach_sts : Lib → VolumeResize → Prog Outcome VolumeResize
unfolding sts_marked_deleted orphan_sts
detach_sts lib vr = elim (sts_marked_deleted vr) [
  | true ↦ ret vr
  | false ↦ do
    found ← ask (sts_get vr.meta.namespace vr.spec.stateful_set_name)
    elim found [
      | ok sts ↦ orphan_sts lib vr sts
      | err e ↦ if is_not_found e then ret vr else stop (failure e)
    ]
]

-- what the handler does once waitForMigrationComplete has returned an error
unfoldable pub after_wait_error : VolumeResize → String → Prog Outcome (Unit {0})
unfolding set_failed
after_wait_error vr pod_name = do
  found ← ask (pod_get vr.meta.namespace pod_name)
  elim found [
    | err _ ↦ ret tt
    | ok pod ↦ elim pod.phase [
      | running ↦ stop (requeue_after (10 * second))
      | pod_pending ↦ stop (requeue_after (10 * second))
      | pod_failed ↦ fail vr "migration pod failed"
      | _ ↦ ret tt
    ]
  ]

-- from the deletion of the replica's pod to the clean-up of the migrator pod
unfoldable pub migrate :
    VolumeResize → VolumeResizeTarget → String → Int32 → Prog Outcome (Unit {0})
unfolding after_wait_error set_failed
migrate vr vol vol_name replica = do
  let sts_name = vr.spec.stateful_set_name
  delete_pod vr.meta.namespace sts_name replica
  on_error
      (← wait_for_pod_termination vr.meta.namespace (get_pod_name sts_name replica) (120 * second))
      (λ _. stop (requeue_after (5 * second)))
  pod ←
      on_error
        (← create_migrator_pod vr vol replica (get_original_pvc_name vol_name sts_name replica)
          (get_temp_pvc_name vol_name sts_name replica))
        (λ e. fail vr ("failed to create migrator pod: " ++ e.text))
  on_error (← wait_for_migration_complete pod.meta.name vr.meta.namespace (3600 * second))
      (λ _. after_wait_error vr pod.meta.name)
  cleanup_migrator_pod pod.meta.name vr.meta.namespace
  ret tt

-- the claim is replaced, and the volume saved as completed
unfoldable pub swap_claims :
    VolumeResize → VolumeResizeTarget → String → Int32 → Prog Outcome VolumeResize
unfolding set_failed
swap_claims vr vol vol_name replica = do
  let synced = update_volume_status vr vol_name replica vol_synced "Migration complete"
  on_error (← replace_pvc synced vol replica)
      (λ e. fail synced ("failed to replace PVC: " ++ e.text))
  on_error
      (← ask (
        vr_update_status
          (update_volume_status synced vol_name replica vol_completed "PVC replaced")))
      (λ e. stop (failure e))

-- One target on one template: `none` is the panic on a nil map.
unfoldable pub resize_template : VolumeResizeTarget → Pvc → Option Pvc
resize_template v vct =
    if vct.meta.name == v.name
    then elim vct.requests [
      | none ↦ none
      | some requests ↦ some (record vct {
        requests = some (insert "storage" v.new_size requests);
        storage_class_name = elim v.storage_class [
          | some sc ↦ some sc
          | none ↦ vct.storage_class_name
        ];
      })
    ]
    else some vct

-- the inner loop over the targets
unfoldable pub resize_by_all : List VolumeResizeTarget → Pvc → Option Pvc
unfolding resize_template
resize_by_all [] vct = some vct
resize_by_all (v ∷ rest) vct = elim (resize_template v vct) [
  | none ↦ none
  | some vct' ↦ resize_by_all rest vct'
]

-- the outer loop over the templates
unfoldable pub resize_templates : List VolumeResizeTarget → List Pvc → Option (List Pvc)
unfolding resize_by_all
resize_templates volumes [] = some []
resize_templates volumes (vct ∷ rest) = elim (resize_by_all volumes vct) [
  | none ↦ none
  | some vct' ↦ elim (resize_templates volumes rest) [
    | none ↦ none
    | some rest' ↦ some (vct' ∷ rest')
  ]
]

-- delete(vr.Annotations, AnnotationSTSDeleted)
unfoldable pub clear_deleted : VolumeResize → VolumeResize
clear_deleted vr = record vr {
  meta = record vr.meta {
    annotations = elim vr.meta.annotations [
      | none ↦ none
      | some m ↦ some (remove annotation_sts_deleted m)
    ];
  };
}

-- recreateSTS, where an existing StatefulSet is no error
unfoldable pub create_resized : VolumeResize → StatefulSet → List Pvc → Prog Outcome (Unit {0})
unfolding set_failed
create_resized vr sts templates = do
  r ← recreate_sts (record sts { spec = record sts.spec { volume_claim_templates = templates } })
  on_error r
      (λ e. if is_already_exists e then ret tt else fail vr ("failed to recreate STS: " ++ e.text))

-- the StatefulSet comes back from its backup, with the new sizes
unfoldable pub restore_sts : Lib → VolumeResize → Prog Outcome VolumeResize
unfolding resize_templates clear_deleted create_resized set_failed
restore_sts lib vr = do
  sts ←
      on_error (← get_sts_from_backup_config_map lib vr.meta.namespace vr.meta.name)
        (λ e. fail vr ("failed to get STS from backup: " ++ e.text))
  elim (resize_templates vr.spec.volumes sts.spec.volume_claim_templates) [
    | none ↦ panic
    | some templates ↦ create_resized vr sts templates
  ]
  on_error (← ask (vr_update (clear_deleted vr))) (λ e. stop (failure e))

abbrev pub is_running : PodPhase → Bool
is_running running = true
is_running _ = false

-- the replica's pod must run again
unfoldable pub await_pod : VolumeResize → Int32 → Prog Outcome (Unit {0})
await_pod vr replica = do
  found ← ask (pod_get vr.meta.namespace (get_pod_name vr.spec.stateful_set_name replica))
  elim found [
    | err e ↦ if is_not_found e then stop (requeue_after (5 * second)) else stop (failure e)
    | ok pod ↦ if is_running pod.phase then ret tt else stop (requeue_after (5 * second))
  ]

-- one volume of one replica, from the original claim to the next target
unfoldable pub sync_volume : Lib → VolumeResize → Int32 → String → Prog Outcome Outcome
unfolding prepare_volumes mark_syncing detach_sts migrate swap_claims restore_sts await_pod advance
sync_volume lib vr replica vol_name = do
  let vol = find_target vol_name vr.spec.volumes
  original_pvc ← prepare_volumes vr vol vol_name replica
  detached ← detach_sts lib (mark_syncing vr vol_name replica original_pvc.volume_name)
  migrate detached vol vol_name replica
  swapped ← swap_claims detached vol vol_name replica
  restored ← restore_sts lib swapped
  await_pod restored replica
  advance restored replica vol_name

unfoldable pub handle_syncing : Lib → VolumeResize → Prog Outcome Outcome
unfolding advance sync_volume
handle_syncing lib vr = elim vr.status.current_replica [
  | none ↦ panic
  | some replica ↦
      let vol_name = vr.status.current_volume in
      elim (already_completed vol_name replica vr.status.volume_statuses) [
        | true ↦ advance vr replica vol_name
        | false ↦ sync_volume lib vr replica vol_name
      ]
]
