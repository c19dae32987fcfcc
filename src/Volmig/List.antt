-- ===== src/Volmig/List.antt =====
-- volmig list and volmig version: cmd/volmig/cmd/list.go and version.go.
use migcontroller.Prelude.{String, ◌++◌, none, some, List, [], ◌∷◌, ◌==◌, if◌then◌else◌}
use migcontroller.Prelude.Int32.{show}
use migcontroller.VolumeResize.{VolumeResize, VolumeResizeTarget}
use migcontroller.Call.{vr_list, now, print}
use migcontroller.Prog.{ret, ◌>>=◌, ◌>>◌, ask}
use migcontroller.Volmig.Text.{shown_phase, output_format_wide, max_message_length, cut, sub}
use migcontroller.Volmig.Age.{format_age}
use migcontroller.Volmig.Client.{
  Host, Flags, Command, print_line, or_exit, exit_with_error, connect,
}

unfoldable pub list_header : Flags → String
list_header flags =
    (if flags.all_namespaces then "NAMESPACE\t" else "")
    ++ ("NAME\tSTATEFULSET\tPHASE\tREPLICA\tMESSAGE"
        ++ (if flags.output_format == output_format_wide then "\tVOLUMES\tAGE" else ""))

abbrev target_text : Host → VolumeResizeTarget → String
target_text host vol = vol.name ++ (":" ++ host.quantity_string vol.new_size)

-- the targets behind the first, each after a comma
unfoldable pub more_volumes : Host → List VolumeResizeTarget → String
more_volumes host [] = ""
more_volumes host (vol ∷ rest) = "," ++ (target_text host vol ++ more_volumes host rest)

unfoldable pub volumes_text : Host → List VolumeResizeTarget → String
unfolding more_volumes
volumes_text host [] = ""
volumes_text host (vol ∷ rest) = target_text host vol ++ more_volumes host rest

-- the columns that every format has
unfoldable pub narrow_row : Host → Flags → VolumeResize → String
unfolding shown_phase cut max_message_length
narrow_row host flags vr =
    (if flags.all_namespaces then vr.meta.namespace ++ "\t" else "")
    ++ (vr.meta.name
        ++ ("\t"
            ++ (vr.spec.stateful_set_name
                ++ ("\t"
                    ++ (shown_phase vr.status.phase
                        ++ ("\t"
                            ++ ((elim vr.status.current_replica [ none ↦ "-" | some r ↦ show r ])
                                ++ ("\t"
                                    ++ cut host.split_text (max_message_length flags.output_format)
                                        vr.status.message))))))))

-- one row; the clock is read where the age is printed
unfoldable pub list_row : Host → Flags → VolumeResize → Command String
unfolding narrow_row volumes_text format_age
list_row host flags vr =
    if flags.output_format == output_format_wide
    then (do
      t ← ask now
      ret (
          narrow_row host flags vr
          ++ ("\t"
              ++ (volumes_text host vr.spec.volumes
                  ++ ("\t" ++ format_age (sub t vr.meta.creation_timestamp))))))
    else ret (narrow_row host flags vr)

unfoldable pub list_rows : Host → Flags → List VolumeResize → Command (List String)
unfolding list_row
list_rows host flags [] = ret []
list_rows host flags (vr ∷ rest) = do
  row ← list_row host flags vr
  rows ← list_rows host flags rest
  ret (row ∷ rows)

unfoldable pub print_list : Host → Flags → List VolumeResize → Command (Unit {0})
unfolding list_header list_rows
print_list host flags [] = print_line (
    if flags.all_namespaces
    then "No VolumeResize resources found in any namespace"
    else "No VolumeResize resources found in namespace '" ++ (flags.namespace ++ "'"))
print_list host flags (vr ∷ rest) = do
  rows ← list_rows host flags (vr ∷ rest)
  ask (print (host.tabulate (list_header flags ∷ rows)))

unfoldable pub run_list : Host → Flags → Command (Unit {0})
unfolding connect exit_with_error print_list
run_list host flags = do
  connect host flags
  items ←
      or_exit "failed to list volumeresizes"
        (← ask (vr_list (if flags.all_namespaces then none else some flags.namespace)))
  print_list host flags items

-- the variables that the linker may set
pub record BuildInfo : Type 0 where
  pub version : String
  pub git_commit : String
  pub build_date : String

unfoldable pub run_version : BuildInfo → Command (Unit {0})
run_version info = do
  print_line ("volmig version " ++ info.version)
  print_line ("  Git commit: " ++ info.git_commit)
  print_line ("  Build date: " ++ info.build_date)
