-- ===== src/VolumeResize.antt =====
-- api/v1alpha1/volumeresize_types.go and the constants of internal/controller/constants.go.
use migcontroller.Prelude.{ℕ, String, Option, List}
use migcontroller.Prelude.Int32.{Int32}
use migcontroller.Objects.{ObjectMeta, Quantity}

-- The phase texts of a VolumeResize: `unset` is "", and `unknown` any text that is no constant.
pub data Phase : Type 0 where
  unset pending validating syncing replacing completed failed : Phase
  unknown : String → Phase

-- The phase texts of one volume's status.
pub data VolumePhase : Type 0 where
  vol_pending vol_syncing vol_synced vol_replacing vol_completed vol_failed : VolumePhase
  vol_unknown : String → VolumePhase

pub record VolumeResizeTarget : Type 0 where
  pub name : String
  pub new_size : Quantity
  pub storage_class : Option String

pub record VolumeResizeSpec : Type 0 where
  pub stateful_set_name : String
  pub volumes : List VolumeResizeTarget

pub record VolumeStatus : Type 0 where
  pub volume_name : String
  pub replica : Int32
  pub phase : VolumePhase
  pub old_pvc_name : String
  pub new_pvc_name : String
  pub old_pv_name : String
  pub message : String

-- metav1.Condition, of which the command line tool prints four fields
pub record Condition : Type 0 where
  pub kind : String
  pub status : String
  pub reason : String
  pub message : String

-- The controller does not read or write the conditions.
pub record VolumeResizeStatus : Type 0 where
  pub phase : Phase
  pub volume_statuses : List VolumeStatus
  pub current_replica : Option Int32
  pub current_volume : String
  pub message : String
  pub start_time : Option ℕ
  pub completion_time : Option ℕ
  pub backup_config_map_name : String
  pub conditions : List Condition

pub record VolumeResize : Type 0 where
  pub meta : ObjectMeta
  pub spec : VolumeResizeSpec
  pub status : VolumeResizeStatus

abbrev pub annotation_managed_by : String
annotation_managed_by = "storage.maurice.fr/managed-by"

abbrev pub annotation_sts_deleted : String
annotation_sts_deleted = "storage.maurice.fr/sts-deleted"

abbrev pub annotation_sts_backup : String
annotation_sts_backup = "storage.maurice.fr/sts-backup-cm"

abbrev pub config_map_key_sts_spec : String
config_map_key_sts_spec = "statefulset.json"

abbrev pub label_migration_name : String
label_migration_name = "storage.maurice.fr/migration-name"

abbrev pub label_replica : String
label_replica = "storage.maurice.fr/replica"

abbrev pub label_volume_name : String
label_volume_name = "storage.maurice.fr/volume-name"

abbrev pub finalizer_name : String
finalizer_name = "storage.maurice.fr/finalizer"

abbrev pub default_migrator_image : String
default_migrator_image = "mauricethomas/migcontroller-migrator:latest"

abbrev pub message_migration_completed : String
message_migration_completed = "Migration completed successfully"
