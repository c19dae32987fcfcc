-- ===== src/Volmig/Status.antt =====
-- volmig status: cmd/volmig/cmd/status.go.
use migcontroller.Prelude.{
  ℕ, String, ◌++◌, none, some, List, [], ◌∷◌, not, ◌&&◌, ◌==◌, map, if◌then◌else◌,
}
use migcontroller.Prelude.Int32.{show}
use migcontroller.VolumeResize.{VolumeResize, VolumeResizeTarget, VolumeResizeStatus, VolumeStatus}
use migcontroller.Call.{vr_get, print}
use migcontroller.Prog.{ret, stop, ◌>>=◌, ◌>>◌, ask}
use migcontroller.Volmig.Text.{
  shown_phase, volume_phase_text, phase_icon, volume_icon, phase_completed, phase_failed, cut,
}
use migcontroller.Volmig.Client.{
  Host, Flags, Command, print_line, or_exit, exit_with_error, connect,
}
use migcontroller.Volmig.Watch.{run_watch, print_duration}

-- `if text != "" { … }`
abbrev pub print_unless_empty : String → String → Command (Unit {0})
print_unless_empty text line = if text == "" then ret tt else print_line line

-- one line for each target
unfoldable pub print_targets : Host → List VolumeResizeTarget → Command (Unit {0})
print_targets host [] = ret tt
print_targets host (vol ∷ rest) = do
  print_line (
      "   Volume: "
      ++ (vol.name
          ++ (" → "
              ++ (host.quantity_string vol.new_size
                  ++ (" ["
                      ++ ((elim vol.storage_class [ none ↦ "(default)" | some sc ↦ sc ])
                          ++ "]"))))))
  print_targets host rest

-- a row of the table of replicas
unfoldable pub replica_row : Host → VolumeStatus → String
unfolding volume_icon cut
replica_row host vs =
    let phase = volume_phase_text vs.phase in
    "  "
    ++ (show vs.replica
        ++ ("\t"
            ++ (vs.volume_name
                ++ ("\t"
                    ++ (volume_icon phase
                        ++ (" " ++ (phase ++ ("\t" ++ cut host.split_text 40 vs.message))))))))

unfoldable pub print_replicas : Host → List VolumeStatus → Command (Unit {0})
unfolding replica_row
print_replicas host [] = ret tt
print_replicas host (vs ∷ rest) = do
  print_line "Replica Status:"
  ask (
      print
        (host.tabulate ("  REPLICA\tVOLUME\tPHASE\tMESSAGE" ∷ map (replica_row host) (vs ∷ rest))))
  print_line ""

-- the times and the name of the backup
unfoldable pub print_times : Host → VolumeResizeStatus → Command (Unit {0})
print_times host status = do
  elim status.start_time [ none ↦ ret tt | some t ↦ print_line ("Started: " ++ host.format_date t) ]
  elim status.completion_time [
    | none ↦ ret tt
    | some t ↦ print_line ("Completed: " ++ host.format_date t)
  ]
  print_duration host "Duration: " 1 status.completion_time status.start_time
  print_unless_empty status.backup_config_map_name
      ("Backup ConfigMap: " ++ status.backup_config_map_name)

-- all that the command prints about the object
unfoldable pub print_overview : Host → String → VolumeResize → Command (Unit {0})
unfolding shown_phase phase_icon print_targets print_replicas print_times print_duration
print_overview host name vr = do
  let phase = shown_phase vr.status.phase
  print_line (phase_icon phase ++ (" VolumeResize: " ++ name))
  print_line ("   Phase: " ++ phase)
  print_unless_empty vr.status.message ("   Message: " ++ vr.status.message)
  print_line ""
  print_line ("Target: StatefulSet/" ++ vr.spec.stateful_set_name)
  print_targets host vr.spec.volumes
  print_line ""
  print_replicas host vr.status.volume_statuses
  print_times host vr.status

-- the last two tests: whether to follow, and the exit status
unfoldable pub follow_or_exit : ℕ → Host → Flags → String → String → Command (Unit {0})
unfolding run_watch
follow_or_exit fuel host flags name phase =
    if flags.follow_status && (not (phase == phase_completed) && not (phase == phase_failed))
    then (do
      print_line ""
      print_line "Following status updates (Ctrl+C to stop)..."
      print_line ""
      run_watch fuel host flags name)
    else if phase == phase_failed
    then stop 1
    else ret tt

unfoldable pub run_status : ℕ → Host → Flags → String → Command (Unit {0})
unfolding connect exit_with_error print_overview follow_or_exit shown_phase
run_status fuel host flags name = do
  connect host flags
  vr ← or_exit "failed to get volumeresize" (← ask (vr_get flags.namespace name))
  print_overview host name vr
  follow_or_exit fuel host flags name (shown_phase vr.status.phase)
