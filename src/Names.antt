-- ===== src/Names.antt =====
-- The names that the operator derives: internal/controller/pvc.go, statefulset.go, migrator.go.
use migcontroller.Prelude.{String, ◌++◌}
use migcontroller.Prelude.Int32.{Int32, show}

unfoldable pub get_original_pvc_name : String → String → Int32 → String
get_original_pvc_name volume_name sts_name replica =
    volume_name ++ ("-" ++ (sts_name ++ ("-" ++ show replica)))

unfoldable pub get_temp_pvc_name : String → String → Int32 → String
get_temp_pvc_name volume_name sts_name replica =
    volume_name ++ ("-" ++ (sts_name ++ ("-" ++ (show replica ++ "-new"))))

unfoldable pub get_pod_name : String → Int32 → String
get_pod_name sts_name replica = sts_name ++ ("-" ++ show replica)

unfoldable pub get_sts_backup_config_map_name : String → String
get_sts_backup_config_map_name vr_name = vr_name ++ "-sts-backup"

unfoldable pub get_migrator_pod_name : String → String → Int32 → String
get_migrator_pod_name vr_name vol_name replica =
    vr_name ++ ("-migrator-" ++ (show replica ++ ("-" ++ vol_name)))
