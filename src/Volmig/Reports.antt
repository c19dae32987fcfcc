-- ===== src/Volmig/Reports.antt =====
-- The lines that `volmig watch` prints about one read of the object.
use migcontroller.Prelude.{ℕ, String, ◌++◌, Option, none, some, ◌==◌, if◌then◌else◌}
use migcontroller.Prelude.Int32.{show}
use migcontroller.VolumeResize.{VolumeResize}
use migcontroller.Call.{print}
use migcontroller.Prog.{ret, ask, ◌>>◌}
use migcontroller.Volmig.Client.{Host, Command}
use migcontroller.Volmig.Watch.{Seen, has_changed, print_status, print_duration, report}
use migcontroller.Volmig.Prints.{Prints, Prints-bind, Prints-if, Prints-option}

optional :
    {B : Type 0} (text line : String) (m : Command B)
    → Prints m
    → Prints ((if text == "" then ret tt else ask (print line)) >> m)
optional text line m p =
    Prints-bind (if text == "" then ret tt else ask (print line)) (λ _. m)
      (Prints-if (text == "") (ret tt) (ask (print line)) tt (tt, λ _. tt)) (λ _. p)

module _ (host : Host) where
  print_status-Prints : (vr : VolumeResize) → Prints (print_status host vr)
  unfolding print_status
  print_status-Prints vr = (
    tt,
    λ t. (
      tt,
      λ _.
          Prints-bind
            (elim vr.status.current_replica [
              | none ↦ ret tt
              | some r ↦ ask (print (" | Replica: " ++ show r))
            ])
            _ (Prints-option vr.status.current_replica _ _ tt (λ r. (tt, λ _. tt)))
            (λ _.
              optional vr.status.current_volume _ _ (optional vr.status.message _ _ (tt, λ _. tt))),
    ),
  )

  pub print_duration-Prints :
      (label : String) (unit : ℕ) (c s : Option ℕ) → Prints (print_duration host label unit c s)
  unfolding print_duration
  print_duration-Prints label unit none s = tt
  print_duration-Prints label unit (some c) none = tt
  print_duration-Prints label unit (some c) (some s) = (tt, λ _. tt)

  pub report-Prints : (last : Seen) (vr : VolumeResize) → Prints (report host last vr)
  unfolding report
  report-Prints last vr =
      Prints-if (has_changed last vr) _ _
        (Prints-bind (print_status host vr) _ (print_status-Prints vr) (λ _. tt)) tt
