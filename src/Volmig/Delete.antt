-- ===== src/Volmig/Delete.antt =====
-- volmig delete: cmd/volmig/cmd/delete.go.
use migcontroller.Prelude.{String, ◌++◌}
use migcontroller.Call.{vr_get, vr_delete}
use migcontroller.Prog.{◌>>=◌, ◌>>◌, ask}
use migcontroller.Volmig.Client.{
  Host, Flags, Command, print_line, or_exit, exit_with_error, connect,
}

unfoldable pub run_delete : Host → Flags → String → Command (Unit {0})
unfolding connect exit_with_error
run_delete host flags name = do
  connect host flags
  vr ← or_exit "failed to get volumeresize" (← ask (vr_get flags.namespace name))
  or_exit "failed to delete volumeresize" (← ask (vr_delete vr.meta.namespace vr.meta.name))
  print_line ("VolumeResize '" ++ (name ++ "' deleted"))
