-- ===== src/Volmig/Watch.antt =====
-- volmig watch: cmd/volmig/cmd/watch.go.
use migcontroller.Prelude.{
  ℕ, zero, suc, ◌*◌, String, ◌++◌, Option, none, some, Bool, true, false, not, ◌||◌, ◌==◌,
  if◌then◌else◌,
}
use migcontroller.Prelude.Tests.{eqb}
use migcontroller.Prelude.Int32.{Int32, show}
use migcontroller.VolumeResize.{VolumeResize}
use migcontroller.Call.{vr_get, now, sleep, print, print_error}
use migcontroller.Prog.{ret, stop, out_of_fuel, ◌>>=◌, ◌>>◌, ask}
use migcontroller.Pvc.{second}
use migcontroller.Volmig.Text.{phase_text, shown_phase, phase_completed, phase_failed, pad, sub}
use migcontroller.Volmig.Client.{
  Host, Flags, Command, print_line, or_exit, exit_with_error, connect,
}

-- lastPhase, lastMessage and lastReplica
pub record Seen : Type 0 where
  pub phase : String
  pub message : String
  pub replica : Option Int32

abbrev pub nothing_seen : Seen
nothing_seen = record { phase = ""; message = ""; replica = none }

-- replicaChanged, by its three cases
unfoldable pub replica_changed : Option Int32 → Option Int32 → Bool
replica_changed none none = false
replica_changed none (some _) = true
replica_changed (some _) none = true
replica_changed (some a) (some b) = not (eqb a b)

unfoldable pub has_changed : Seen → VolumeResize → Bool
unfolding replica_changed
has_changed last vr =
    not (phase_text vr.status.phase == last.phase)
    || (not (vr.status.message == last.message)
        || replica_changed last.replica vr.status.current_replica)

unfoldable pub seen_of : VolumeResize → Seen
seen_of vr = record {
  phase = phase_text vr.status.phase;
  message = vr.status.message;
  replica = vr.status.current_replica;
}

-- an optional part of the line
abbrev unless_empty : String → String → Command (Unit {0})
unless_empty text line = if text == "" then ret tt else ask (print line)

unfoldable pub print_status : Host → VolumeResize → Command (Unit {0})
unfolding shown_phase pad
print_status host vr = do
  t ← ask now
  ask (
      print ("[" ++ (host.format_clock t ++ ("] Phase: " ++ pad 12 (shown_phase vr.status.phase)))))
  elim vr.status.current_replica [ none ↦ ret tt | some r ↦ ask (print (" | Replica: " ++ show r)) ]
  unless_empty vr.status.current_volume (" | Volume: " ++ vr.status.current_volume)
  unless_empty vr.status.message (" | " ++ vr.status.message)
  print_line ""

-- the line with the duration, where both times are set
unfoldable pub print_duration : Host → String → ℕ → Option ℕ → Option ℕ → Command (Unit {0})
print_duration host label unit completion start = elim completion [
  | none ↦ ret tt
  | some c ↦ elim start [
    | none ↦ ret tt
    | some s ↦ print_line (label ++ host.round_string (sub c s) unit)
  ]
]

-- the two terminal states
unfoldable pub exit_if_terminal : Host → VolumeResize → Command (Unit {0})
unfolding print_duration
exit_if_terminal host vr =
    if phase_text vr.status.phase == phase_completed
    then (do
      print_line ""
      print_line "Migration completed successfully!"
      print_duration host "Duration: " second vr.status.completion_time vr.status.start_time
      stop 0)
    else if phase_text vr.status.phase == phase_failed
    then (do
      print_line ""
      ask (print_error ("Migration failed: " ++ (vr.status.message ++ "\n")))
      stop 1)
    else ret tt

-- what is printed about one read, and what is remembered of it
unfoldable pub report : Host → Seen → VolumeResize → Command Seen
unfolding has_changed seen_of print_status
report host last vr =
    if has_changed last vr then (do print_status host vr; ret (seen_of vr)) else ret last

-- `for { … }`: each round reads the object once
unfoldable pub watch_loop : ℕ → Host → Flags → String → Seen → Command (Unit {0})
unfolding exit_if_terminal report exit_with_error
watch_loop zero host flags name last = out_of_fuel
watch_loop (suc fuel) host flags name last = do
  vr ← or_exit "failed to get volumeresize" (← ask (vr_get flags.namespace name))
  last' ← report host last vr
  exit_if_terminal host vr
  ask (sleep (2 * second))
  watch_loop fuel host flags name last'

unfoldable pub run_watch : ℕ → Host → Flags → String → Command (Unit {0})
unfolding connect watch_loop
run_watch fuel host flags name = do
  connect host flags
  ask (
      print (
        "Watching VolumeResize '"
        ++ (name ++ ("' in namespace '" ++ (flags.namespace ++ "'...\n\n")))))
  watch_loop fuel host flags name nothing_seen
