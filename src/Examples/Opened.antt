-- ===== src/Examples/Opened.antt =====
-- One name that opens every definition that the tests run.
use migcontroller.Prelude.Dict.{lookup, remove, insert}
use migcontroller.Prelude.Int32.{show}
use migcontroller.Prog.{run}
use migcontroller.Names.{
  get_original_pvc_name, get_temp_pvc_name, get_pod_name, get_sts_backup_config_map_name,
  get_migrator_pod_name,
}
use migcontroller.Pvc.{
  get_pvc, create_temp_pvc, temp_pvc_object, set_retain_on_pv, release_temp_pvc, bind_new_pvc,
  replace_pvc,
}
use migcontroller.Sts.{
  delete_sts_orphan, delete_pod, wait_for_pod_termination, backup_sts_to_config_map,
  get_sts_from_backup_config_map, recreate_sts,
}
use migcontroller.Migrator.{
  build_migrator_pod, create_migrator_pod, wait_for_migration_complete, cleanup_migrator_pod,
}
use migcontroller.Status.{
  update_volume_status, update_volume_status_in_list, get_next_volume_replica, volume_index,
  next_replica, already_completed, find_target, append_replicas,
}
use migcontroller.Validation.{
  validate_stateful_set_exists, validate_volume_targets, validate_size_reduction,
  validate_pdb_allows_disruption,
}
use migcontroller.Controller.{reconcile, validate_sizes}
use migcontroller.Controller.Syncing.{handle_syncing}
use migcontroller.Examples.Cluster.{serve}

unfoldable pub opened : Unit {0}
unfolding volume_index next_replica lookup remove insert show run get_original_pvc_name
    get_temp_pvc_name get_pod_name get_sts_backup_config_map_name get_migrator_pod_name get_pvc
    create_temp_pvc temp_pvc_object set_retain_on_pv release_temp_pvc bind_new_pvc replace_pvc
    delete_sts_orphan delete_pod wait_for_pod_termination backup_sts_to_config_map
    get_sts_from_backup_config_map recreate_sts build_migrator_pod create_migrator_pod
    wait_for_migration_complete cleanup_migrator_pod update_volume_status
    update_volume_status_in_list get_next_volume_replica already_completed find_target
    append_replicas validate_stateful_set_exists validate_volume_targets validate_size_reduction
    validate_pdb_allows_disruption reconcile validate_sizes handle_syncing serve
opened = tt
