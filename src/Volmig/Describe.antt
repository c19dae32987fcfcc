-- ===== src/Volmig/Describe.antt =====
-- volmig describe: cmd/volmig/cmd/describe.go.
use migcontroller.Prelude.{String, ◌++◌, none, some, List, [], ◌∷◌}
use migcontroller.Prelude.Int32.{show}
use migcontroller.VolumeResize.{
  VolumeResize, VolumeResizeTarget, VolumeResizeStatus, VolumeStatus, Condition,
}
use migcontroller.Call.{vr_get}
use migcontroller.Prog.{ret, ◌>>=◌, ◌>>◌, ask}
use migcontroller.Volmig.Text.{shown_phase, volume_phase_text}
use migcontroller.Volmig.Client.{
  Host, Flags, Command, print_line, or_exit, exit_with_error, connect,
}
use migcontroller.Volmig.Watch.{print_duration}
use migcontroller.Volmig.Status.{print_unless_empty}

unfoldable pub describe_targets : Host → List VolumeResizeTarget → Command (Unit {0})
describe_targets host [] = ret tt
describe_targets host (vol ∷ rest) = do
  print_line ("    - Name:     " ++ vol.name)
  print_line ("      NewSize:  " ++ host.quantity_string vol.new_size)
  elim vol.storage_class [ none ↦ ret tt | some sc ↦ print_line ("      StorageClass: " ++ sc) ]
  describe_targets host rest

unfoldable pub describe_status : Host → VolumeResizeStatus → Command (Unit {0})
unfolding shown_phase print_duration
describe_status host status = do
  print_line "Status:"
  print_line ("  Phase:        " ++ shown_phase status.phase)
  elim status.current_replica [
    | none ↦ ret tt
    | some r ↦ print_line ("  CurrentReplica: " ++ show r)
  ]
  print_unless_empty status.current_volume ("  CurrentVolume:  " ++ status.current_volume)
  print_unless_empty status.message ("  Message:      " ++ status.message)
  print_unless_empty status.backup_config_map_name
      ("  BackupConfigMap: " ++ status.backup_config_map_name)
  elim status.start_time [
    | none ↦ ret tt
    | some t ↦ print_line ("  StartTime:    " ++ host.format_date t)
  ]
  elim status.completion_time [
    | none ↦ ret tt
    | some t ↦ print_line ("  CompletionTime: " ++ host.format_date t)
  ]
  print_duration host "  Duration:     " 1 status.completion_time status.start_time

-- the loop over the volume statuses
unfoldable pub describe_volumes : List VolumeStatus → Command (Unit {0})
describe_volumes [] = ret tt
describe_volumes (vs ∷ rest) = do
  print_line ("  - Volume: " ++ (vs.volume_name ++ (", Replica: " ++ show vs.replica)))
  print_line ("    Phase:    " ++ volume_phase_text vs.phase)
  print_unless_empty vs.old_pvc_name ("    OldPVC:   " ++ vs.old_pvc_name)
  print_unless_empty vs.new_pvc_name ("    NewPVC:   " ++ vs.new_pvc_name)
  print_unless_empty vs.old_pv_name ("    OldPV:    " ++ vs.old_pv_name)
  print_unless_empty vs.message ("    Message:  " ++ vs.message)
  describe_volumes rest

-- the loop over the conditions
unfoldable pub describe_conditions : List Condition → Command (Unit {0})
describe_conditions [] = ret tt
describe_conditions (cond ∷ rest) = do
  print_line ("  - Type: " ++ cond.kind)
  print_line ("    Status: " ++ cond.status)
  print_unless_empty cond.reason ("    Reason: " ++ cond.reason)
  print_unless_empty cond.message ("    Message: " ++ cond.message)
  describe_conditions rest

-- `if len(items) > 0`: an empty line, the title, and the items
abbrev pub titled :
    {A : Type 0} → String → (List A → Command (Unit {0})) → List A → Command (Unit {0})
titled title body [] = ret tt
titled title body (x ∷ rest) = do print_line ""; print_line title; body (x ∷ rest)

-- all that the command prints about the object
unfoldable pub print_details : Host → VolumeResize → Command (Unit {0})
unfolding describe_targets describe_status describe_volumes describe_conditions
print_details host vr = do
  print_line ("Name:         " ++ vr.meta.name)
  print_line ("Namespace:    " ++ vr.meta.namespace)
  print_line ("Created:      " ++ host.format_date vr.meta.creation_timestamp)
  print_line ""
  print_line "Spec:"
  print_line ("  StatefulSet:  " ++ vr.spec.stateful_set_name)
  print_line "  Volumes:"
  describe_targets host vr.spec.volumes
  print_line ""
  describe_status host vr.status
  titled "Volume Statuses:" describe_volumes vr.status.volume_statuses
  titled "Conditions:" describe_conditions vr.status.conditions

unfoldable pub run_describe : Host → Flags → String → Command (Unit {0})
unfolding connect exit_with_error print_details
run_describe host flags name = do
  connect host flags
  vr ← or_exit "failed to get volumeresize" (← ask (vr_get flags.namespace name))
  print_details host vr
