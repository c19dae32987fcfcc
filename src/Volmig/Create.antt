-- ===== src/Volmig/Create.antt =====
-- volmig create: cmd/volmig/cmd/create.go.
use migcontroller.Prelude.{ℕ, String, ◌++◌, none, some, [], ◌∷◌, true, false, ◌==◌, if◌then◌else◌}
use migcontroller.Objects.{ok, err, new_error, Quantity, new_meta}
use migcontroller.VolumeResize.{VolumeResize, unset}
use migcontroller.Call.{vr_get, vr_create}
use migcontroller.Prog.{ret, ◌>>=◌, ◌>>◌, ask}
use migcontroller.Volmig.Client.{
  Host, Flags, Command, print_line, or_exit, exit_with_error, connect,
}
use migcontroller.Volmig.Watch.{run_watch}

-- the object that the command builds
unfoldable pub new_volume_resize : Flags → String → Quantity → VolumeResize
new_volume_resize flags name quantity = record {
  meta = new_meta name flags.namespace none none;
  spec = record {
    stateful_set_name = flags.stateful_set_name;
    volumes =
        record {
          name = flags.volume_name;
          new_size = quantity;
          storage_class = if flags.storage_class == "" then none else some flags.storage_class;
        }
        ∷ [];
  };
  status = record {
    phase = unset;
    volume_statuses = [];
    current_replica = none;
    current_volume = "";
    message = "";
    start_time = none;
    completion_time = none;
    backup_config_map_name = "";
    conditions = [];
  };
}

-- what is printed once the object is created
unfoldable pub print_created : Flags → String → Command (Unit {0})
print_created flags name = do
  print_line ("VolumeResize '" ++ (name ++ "' created successfully"))
  print_line ("  StatefulSet: " ++ flags.stateful_set_name)
  print_line ("  Volume:      " ++ flags.volume_name)
  print_line ("  New Size:    " ++ flags.new_size)
  if flags.storage_class == ""
      then ret tt
      else print_line ("  StorageClass: " ++ flags.storage_class)
  print_line ""
  print_line "Monitor progress with:"
  print_line ("  volmig watch " ++ (name ++ (" -n " ++ flags.namespace)))
  print_line ("  kubectl get volumeresize " ++ (name ++ (" -n " ++ (flags.namespace ++ " -w"))))

-- a read that succeeds ends the command
unfoldable pub require_absent : Flags → String → Command (Unit {0})
unfolding exit_with_error
require_absent flags name = do
  existing ← ask (vr_get flags.namespace name)
  elim existing [
    | ok _ ↦ exit_with_error "volumeresize already exists" (new_error ("name: " ++ name))
    | err _ ↦ ret tt
  ]

-- the fuel is that of the watch that may follow
unfoldable pub run_create : ℕ → Host → Flags → String → Command (Unit {0})
unfolding connect exit_with_error require_absent new_volume_resize print_created run_watch
run_create fuel host flags name = do
  quantity ← or_exit "invalid size format" (host.parse_quantity flags.new_size)
  connect host flags
  require_absent flags name
  created ←
      or_exit "failed to create volumeresize"
        (← ask (vr_create (new_volume_resize flags name quantity)))
  print_created flags name
  elim flags.watch [ true ↦ do print_line ""; run_watch fuel host flags name | false ↦ ret tt ]
