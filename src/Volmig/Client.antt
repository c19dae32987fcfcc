-- ===== src/Volmig/Client.antt =====
-- What the tool takes from outside, its flags, and how a command finds the API server and fails:
-- cmd/volmig/cmd/root.go.
use migcontroller.Prelude.{ℕ, String, ◌++◌, Bool, List, ◌==◌, if◌then◌else◌}
use migcontroller.Objects.{Except, ok, err, GoError, Quantity, wrap, new_error}
use migcontroller.Call.{print, print_error}
use migcontroller.Prog.{Prog, ret, stop, ◌>>◌, ask}
use migcontroller.Volmig.Text.{Duration}

-- *rest.Config, opaque
abbrev pub RestConfig : Type 0
RestConfig = String

-- The process around a command, and the pure functions of libraries.
pub record Host : Type 0 where
  pub in_cluster_config : Except RestConfig
  pub build_config : String → Except RestConfig
  pub new_client : RestConfig → Except (Unit {0})
  pub parse_quantity : String → Except Quantity
  pub quantity_string : Quantity → String
  -- s[:n], where it ends inside a character: its bytes are not UTF-8
  pub split_text : String → ℕ → String
  -- t.Format("2006-01-02 15:04:05") and t.Format("15:04:05")
  pub format_date : ℕ → String
  pub format_clock : ℕ → String
  -- d.Round(unit).String()
  pub round_string : Duration → ℕ → String
  -- text/tabwriter on the lines of a table
  pub tabulate : List String → String

-- The variables that cobra sets from the command line.
pub record Flags : Type 0 where
  pub kubeconfig : String
  pub namespace : String
  pub stateful_set_name : String
  pub volume_name : String
  pub new_size : String
  pub storage_class : String
  pub watch : Bool
  pub all_namespaces : Bool
  pub output_format : String
  pub follow_status : Bool

-- A command, or a part of one: `stop` is os.Exit.
abbrev pub Command : Type 0 → Type 0
Command A = Prog ℕ A

-- fmt.Println
abbrev pub print_line : String → Command (Unit {0})
print_line s = ask (print (s ++ "\n"))

unfoldable pub exit_with_error : {A : Type 0} → String → GoError → Command A
exit_with_error msg e = do
  ask (print_error ("Error: " ++ (msg ++ (": " ++ (e.text ++ "\n")))))
  stop 1

-- `if err != nil { exitWithError(msg, err) }`
abbrev pub or_exit : {A : Type 0} → String → Except A → Command A
or_exit msg (ok a) = ret a
or_exit msg (err e) = exit_with_error msg e

unfoldable pub get_kube_config : Host → Flags → Except RestConfig
get_kube_config host flags = elim host.in_cluster_config [
  | ok config ↦ ok config
  | err _ ↦
      if flags.kubeconfig == ""
      then err (new_error "kubeconfig not specified and not running in cluster")
      else host.build_config flags.kubeconfig
]

unfoldable pub get_client : Host → Flags → Except (Unit {0})
unfolding get_kube_config
get_client host flags = elim (get_kube_config host flags) [
  | err e ↦ err (wrap "failed to get kubeconfig: " e)
  | ok config ↦ elim (host.new_client config) [
    | err e ↦ err (wrap "failed to create client: " e)
    | ok c ↦ ok c
  ]
]

-- the first lines of every command
unfoldable pub connect : Host → Flags → Command (Unit {0})
unfolding get_client exit_with_error
connect host flags = or_exit "failed to create kubernetes client" (get_client host flags)

-- main of cmd/volmig/main.go, on what cobra's Execute answers
unfoldable pub main : {A : Type 0} → Except A → Command (Unit {0})
main executed = elim executed [ ok _ ↦ ret tt | err _ ↦ stop 1 ]
