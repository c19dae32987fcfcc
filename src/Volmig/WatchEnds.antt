-- ===== src/Volmig/WatchEnds.antt =====
-- How `volmig watch` of cmd/volmig/cmd/watch.go comes to its end.
use migcontroller.Prelude.{
  ℕ, zero, suc, ◌*◌, ◌≤◌, ◌<◌, String, ◌≡◌, refl, ◌⊎◌, inl, inr, Bool, true, false, ◌==◌, eq_iff,
  arith, [], ◌∷◌, if◌then◌else◌,
}
use migcontroller.Objects.{Except, ok, err}
use migcontroller.VolumeResize.{VolumeResize}
use migcontroller.Call.{Call, Answer, vr_get, sleep, print}
use migcontroller.Prog.{
  Log, End, stopped, ret, stop, panic, out_of_fuel, call, ◌>>=◌, ◌>>◌, Handler, run,
}
use migcontroller.Pvc.{second}
use migcontroller.Volmig.Text.{phase_text, phase_completed, phase_failed}
use migcontroller.Volmig.Client.{
  Host, Flags, Command, get_client, connect, exit_with_error, or_exit,
}
use migcontroller.Volmig.Watch.{
  Seen, nothing_seen, print_duration, report, exit_if_terminal, watch_loop, run_watch,
}
use migcontroller.Volmig.Prints.{Prints}
use migcontroller.Volmig.Reports.{print_duration-Prints, report-Prints}

-- The end of a migration, as one read shows it.
abbrev pub IsFinal : Except VolumeResize → Type 0
IsFinal (ok vr) =
    (phase_text vr.status.phase ≡ phase_completed) ⊎ (phase_text vr.status.phase ≡ phase_failed)
IsFinal (err e) = Unit {0}

-- A migration that comes to its end: `rank` counts the waits that it may still take.
pub record Settles {W : Type 0} (h : Handler W) (flags : Flags) (name : String) (rank : W → ℕ)
    : Type 0 where
  pub grows : (c : Call) (w : W) → rank (h c w).1 ≤ rank w
  pub waits : (d : ℕ) (w : W) → (rank w ≡ 0) ⊎ (rank (h (sleep d) w).1 < rank w)
  pub settled : (w : W) → rank w ≡ 0 → IsFinal (h (vr_get flags.namespace name) w).0

abbrev pub HasExited : {X A : Type 0} → End X A → Type 0
HasExited (stopped _) = Unit {0}
HasExited _ = ⊥

-- after a part that only prints
module _ {W : Type 0} (h : Handler W) (rank : W → ℕ)
    (grows : (c : Call) (w : W) → rank (h c w).1 ≤ rank w) where
  Prints-run :
      {A : Type 0} (m : Command A) (w : W) (l : Log)
      → Prints m
      → (a : A) × (w' : W) × (l' : Log) × (rank w' ≤ rank w)
        × ((B : Type 0) (f : A → Command B) → run h (m >>= f) w l ≡ run h (f a) w' l')
  unfolding run
  Prints-run (ret a) w l p = (a, w, l, omega arith, λ B f. refl)
  Prints-run (stop x) w l p = absurd p
  Prints-run panic w l p = absurd p
  Prints-run out_of_fuel w l p = absurd p
  Prints-run (call c k) w l p =
      let (r, w₁) = h c w in
      let (a, w', l', below, same) = Prints-run (k r) w₁ ((c, r) ∷ l) (p.1 r) in
      (a, w', l', omega (arith, below, grows c w), same)

-- a program that exits whatever the answers are
abbrev Exits : {A : Type 0} → Command A → Type 0
Exits (ret a) = ⊥
Exits (stop x) = Unit {0}
Exits panic = ⊥
Exits out_of_fuel = ⊥
Exits (call c k) = (r : Answer c) → Exits (k r)

Prints-Exits :
    {A B : Type 0} (m : Command A) (f : A → Command B)
    → Prints m
    → ((a : A) → Exits (f a))
    → Exits (m >>= f)
Prints-Exits (ret a) f p x = x a
Prints-Exits (stop s) f p x = absurd p
Prints-Exits panic f p x = absurd p
Prints-Exits out_of_fuel f p x = absurd p
Prints-Exits (call c k) f p x = λ r. Prints-Exits (k r) f (p.1 r) x

module _ {W : Type 0} (h : Handler W) where
  Exits-run :
      {A B : Type 0} (m : Command A) (k : A → Command B) (w : W) (l : Log)
      → Exits m
      → HasExited (run h (m >>= k) w l).end
  unfolding run
  Exits-run (ret a) k w l x = absurd x
  Exits-run (stop s) k w l x = tt
  Exits-run panic k w l x = absurd x
  Exits-run out_of_fuel k w l x = absurd x
  Exits-run (call c f) k w l x =
      Exits-run (f (h c w).0) k (h c w).1 ((c, (h c w).0) ∷ l) (x (h c w).0)

  if-HasExited :
      (b : Bool) (m m' : Command (Unit {0})) (k : Unit {0} → Command (Unit {0})) (w : W) (l : Log)
      → Exits m
      → ((b ≡ false) → HasExited (run h (m' >>= k) w l).end)
      → HasExited (run h ((if b then m else m') >>= k) w l).end
  if-HasExited true m m' k w l x y = Exits-run m k w l x
  if-HasExited false m m' k w l x y = y refl

  -- A read either ends the command or is followed by the rest.
  exit_if_terminal-HasExited :
      (host : Host) (vr : VolumeResize) (k : Unit {0} → Command (Unit {0})) (w : W) (l : Log)
      → IsFinal (ok vr) ⊎ HasExited (run h (k tt) w l).end
      → HasExited (run h (exit_if_terminal host vr >>= k) w l).end
  unfolding exit_if_terminal
  exit_if_terminal-HasExited host vr k w l x =
      if-HasExited (phase_text vr.status.phase == phase_completed) _ _ k w l
        (λ _ _.
          Prints-Exits
            (print_duration host "Duration: " second vr.status.completion_time vr.status.start_time)
            _ (print_duration-Prints host _ _ _ _) (λ _. tt))
        (λ not_done.
          if-HasExited (phase_text vr.status.phase == phase_failed) _ _ k w l (λ _ _. tt)
            (λ not_failed. elim x [
              | inr y ↦ y
              | inl (inl e) ↦ ground (arith, eq_iff (phase_text vr.status.phase) phase_completed)
              | inl (inr e) ↦ ground (arith, eq_iff (phase_text vr.status.phase) phase_failed)
            ]))

decide_zero : (n : ℕ) → (n ≡ 0) ⊎ (0 < n)
decide_zero zero = inl refl
decide_zero (suc n) = inr (omega arith)

module _ {W : Type 0} (h : Handler W) (host : Host) (flags : Flags) (name : String) (rank : W → ℕ)
    (settles : Settles h flags name rank) where
  round-HasExited :
      (vr : VolumeResize) (last : Seen) (rest : Seen → Command (Unit {0})) (w : W) (l : Log)
      → (IsFinal (ok vr)
          ⊎ ((last' : Seen) (w' : W) (l' : Log)
              → rank w' ≤ rank w
              → HasExited (run h (rest last') w' l').end))
      → HasExited
          (run h
            (report host last vr >>= (λ last'. exit_if_terminal host vr >> rest last'))
            w
            l).end
  round-HasExited vr last rest w l x =
      let (last', w', l', below, same) =
        Prints-run h rank settles.grows (report host last vr) w l (report-Prints host last vr) in
      rw (same (Unit {0}) _) (
        exit_if_terminal-HasExited h host vr (λ _. rest last') w' l'
          (elim x [ inl e ↦ inl e | inr y ↦ inr (y last' w' l' below) ]))

  -- one read and what follows it
  read-HasExited :
      (answer : Except VolumeResize) (last : Seen) (rest : Seen → Command (Unit {0})) (w : W)
      (l : Log)
      → (IsFinal answer
          ⊎ ((last' : Seen) (w' : W) (l' : Log)
              → rank w' ≤ rank w
              → HasExited (run h (rest last') w' l').end))
      → HasExited
          (run h
            (or_exit "failed to get volumeresize" answer
              >>= (λ vr. report host last vr >>= (λ last'. exit_if_terminal host vr >> rest last')))
            w
            l).end
  unfolding exit_with_error run
  read-HasExited (ok vr) last rest w l x = round-HasExited vr last rest w l x
  read-HasExited (err e) last rest w l x = tt

  slept : (w : W) (n : ℕ) → rank w ≤ suc n → rank (h (sleep (2 * second)) w).1 ≤ n
  slept w n bound = elim (settles.waits (2 * second) w) [
    | inl e ↦ omega (arith, e, settles.grows (sleep (2 * second)) w)
    | inr e ↦ omega (arith, e, bound)
  ]

  connect-HasExited :
      (answer : Except (Unit {0})) (rest : Command (Unit {0})) (w : W) (l : Log)
      → HasExited (run h rest w l).end
      → HasExited
          (run h (or_exit "failed to create kubernetes client" answer >>= (λ _. rest)) w l).end
  unfolding exit_with_error run
  connect-HasExited (ok u) rest w l x = x
  connect-HasExited (err e) rest w l x = tt

  -- `rank` more polls are enough
  watch_loop-HasExited :
      (fuel : ℕ) (w : W) (l : Log) (last : Seen)
      → rank w ≤ fuel
      → HasExited (run h (watch_loop (suc fuel) host flags name last) w l).end
  unfolding watch_loop run
  watch_loop-HasExited zero w l last bound =
      read-HasExited _ last _ _ _ (inl (settles.settled w (omega (arith, bound))))
  watch_loop-HasExited (suc fuel) w l last bound = elim (decide_zero (rank w)) [
    | inl e ↦ read-HasExited _ last _ _ _ (inl (settles.settled w e))
    | inr e ↦ read-HasExited _ last _ _ _ (
        inr (λ last' w' l' below. watch_loop-HasExited fuel _ _ last' (
          slept w' fuel
            (omega (arith, bound, below, settles.grows (vr_get flags.namespace name) w)))))
  ]

-- Volmig watch exits where the reads of the object come to a failure or to a phase Completed or
-- Failed after a number of waits: a rank that no request raises and every wait lowers until it is
-- 0, where such a read follows; one poll more than the rank is enough.
pub watch_ends :
    {W : Type 0} (h : Handler W) (host : Host) (flags : Flags) (name : String) (rank : W → ℕ)
    → Settles h flags name rank
    → (fuel : ℕ) (w : W) → rank w < fuel
    → HasExited (run h (run_watch fuel host flags name) w []).end
unfolding run_watch connect run
watch_ends h host flags name rank settles (suc fuel) w bound =
    connect-HasExited h host flags name rank settles (get_client host flags) _ w [] (
      watch_loop-HasExited h host flags name rank settles fuel _ _ nothing_seen
        (omega (arith, bound, settles.grows (print _) w)))
watch_ends h host flags name rank settles zero w bound = absurd omega (arith, bound)
