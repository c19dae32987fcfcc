-- ===== src/Volmig/Watching.antt =====
-- What `volmig watch` asks for and how it ends.
use mathlib.Core.List.{Memᴰ}
use migcontroller.Prelude.{ℕ, zero, suc, ◌*◌, String, ◌≡◌, refl, ◌⊎◌, inl, inr, ◌==◌, eq_iff, []}
use migcontroller.Objects.{Except, ok, err, GoError}
use migcontroller.VolumeResize.{VolumeResize}
use migcontroller.Call.{Call, vr_get, now, sleep, print, print_error}
use migcontroller.Prog.{Log, Handler, run}
use migcontroller.Prog.Safe.{
  Spec, Safe, Safe-if, Safe-bind, Extends, same, later, Has-Extends, Guarded, Ends, run-Safe,
}
use migcontroller.Pvc.{second}
use migcontroller.Syncing.Guard.{Has}
use migcontroller.Validating.Start.{any_answer}
use migcontroller.Volmig.Text.{phase_text, phase_completed, phase_failed}
use migcontroller.Volmig.Client.{Host, Flags, get_client, connect, exit_with_error, or_exit}
use migcontroller.Volmig.Watch.{
  Seen, print_duration, report, exit_if_terminal, watch_loop, run_watch,
}
use migcontroller.Volmig.Reports.{print_duration-Prints, report-Prints}
use migcontroller.Volmig.Prints.{IsPrint, Prints-then}

module _ (host : Host) (flags : Flags) (name : String) where
  -- Only the object itself is read.
  abbrev pub WatchGuard : Log → Call → Type 0
  WatchGuard l (vr_get ns n) = (ns ≡ flags.namespace) × (n ≡ name)
  WatchGuard l (sleep d) = d ≡ 2 * second
  WatchGuard l c = IsPrint c

  -- a read gave the object in a phase with that text
  abbrev pub WasRead : String → Log → Type 0
  WasRead phase l =
      (vr : VolumeResize) × Has l (vr_get flags.namespace name) (ok vr)
      × (phase_text vr.status.phase ≡ phase)

  -- there is no client, or a read failed
  abbrev pub HasFailed : Log → Type 0
  HasFailed l =
      ((e : GoError) × (get_client host flags ≡ err e))
      ⊎ ((e : GoError) × Has l (vr_get flags.namespace name) (err e))

  -- the exit status says how the migration ended
  abbrev pub WatchExit : Log → ℕ → Type 0
  WatchExit l status =
      ((status ≡ 0) × WasRead phase_completed l)
      ⊎ ((status ≡ 1) × (WasRead phase_failed l ⊎ HasFailed l))

  abbrev pub watch_spec : Spec ℕ
  watch_spec = record {
    guard = WatchGuard;
    fair = λ _ _. Unit {0};
    stops = WatchExit;
    panics = ⊥;
    exhausts = Unit {0};
  }

  pub allowed : (l : Log) (c : Call) → IsPrint c → WatchGuard l c
  allowed l now p = tt
  allowed l (print _) p = tt
  allowed l (print_error _) p = tt
  allowed l _ p = absurd p

  -- the exit by exitWithError
  pub exit-Safe :
      {A : Type 0} (l : Log) (msg : String) (e : GoError) (post : Log → A → Type 0)
      → ((l' : Log) → Extends l l' → WatchExit l' 1)
      → Safe watch_spec l (exit_with_error msg e) post
  unfolding exit_with_error
  exit-Safe l msg e post k = (tt, λ _ _. k _ (later same))

  pub connect-Safe :
      (l : Log) (post : Log → Unit {0} → Type 0)
      → ((l' : Log) → post l' tt)
      → Safe watch_spec l (connect host flags) post
  unfolding connect
  connect-Safe l post k = at (get_client host flags) refl
    where
      at :
          (r : Except (Unit {0}))
          → get_client host flags ≡ r
          → Safe watch_spec l (or_exit "failed to create kubernetes client" r) post
      at (ok u) e = k l
      at (err e') e = exit-Safe l _ e' post (λ l' x. inr (refl, inr (inl (e', e))))

  exit_if_terminal-Safe :
      (l : Log) (vr : VolumeResize)
      → Has l (vr_get flags.namespace name) (ok vr)
      → Safe watch_spec l (exit_if_terminal host vr) (λ _ _. Unit {0})
  unfolding exit_if_terminal
  exit_if_terminal-Safe l vr read =
      Safe-if watch_spec l (phase_text vr.status.phase == phase_completed) _ _ _
        (λ done. (
          tt,
          λ _ _. (
            tt,
            λ _ _.
                Prints-then watch_spec allowed _
                  (print_duration host "Duration: " second vr.status.completion_time
                    vr.status.start_time)
                  _ _ (print_duration-Prints host _ _ _ _)
                  (λ l' _ x. inl (
                    refl,
                    (
                      vr,
                      Has-Extends (Memᴰ.tail (Memᴰ.tail read)) x,
                      (eq_iff (phase_text vr.status.phase) phase_completed).0 done,
                    ),
                  )),
          ),
        ))
        (λ _.
          Safe-if watch_spec l (phase_text vr.status.phase == phase_failed) _ _ _
            (λ broke. (
              tt,
              λ _ _. (
                tt,
                λ _ _. inr (
                  refl,
                  inl (
                    vr,
                    Memᴰ.tail (Memᴰ.tail read),
                    (eq_iff (phase_text vr.status.phase) phase_failed).0 broke,
                  ),
                ),
              ),
            ))
            (λ _. tt))

  watch_loop-Safe :
      (fuel : ℕ) (l : Log) (last : Seen)
      → Safe watch_spec l (watch_loop fuel host flags name last) (λ _ _. ⊥)
  unfolding watch_loop
  watch_loop-Safe zero l last = tt
  watch_loop-Safe (suc fuel) l last = (
    (refl, refl),
    elim [
      | err e ↦ λ _.
          exit-Safe {A = VolumeResize} _ _ e (λ _ _. ⊥)
            (λ l' x. inr (refl, inr (inr (e, Has-Extends (Memᴰ.head refl) x))))
      | ok vr ↦ λ _.
          Prints-then watch_spec allowed _ (report host last vr) _ _ (report-Prints host last vr)
            (λ l₁ last' x₁.
              Safe-bind watch_spec l₁ (exit_if_terminal host vr) _ (λ _ _. Unit {0}) _
                (exit_if_terminal-Safe l₁ vr (Has-Extends (Memᴰ.head refl) x₁))
                (λ l₂ _ x₂ _. (refl, λ _ _. watch_loop-Safe fuel _ last')))
    ],
  )

  pub run_watch-Safe :
      (fuel : ℕ) (l : Log) → Safe watch_spec l (run_watch fuel host flags name) (λ _ _. ⊥)
  unfolding run_watch
  run_watch-Safe fuel l =
      Safe-bind watch_spec l (connect host flags) _ (λ _ _. Unit {0}) _
        (connect-Safe l (λ _ _. Unit {0}) (λ _. tt))
        (λ l' _ x _. (tt, λ _ _. watch_loop-Safe fuel _ _))

-- In every run of volmig watch, the only requests are reads of the object of that name, reads of
-- the clock, printing, and sleeps of two seconds; it does not return and does not panic, it exits
-- with status 0 only after the object was read as Completed, and otherwise with status 1 after it
-- was read as Failed, or a read or the client's creation failed.
pub watches_exit :
    {W : Type 0} (h : Handler W) (host : Host) (flags : Flags) (name : String) (fuel : ℕ) (w : W)
    → Guarded (WatchGuard host flags name) (run h (run_watch fuel host flags name) w []).log
      × Ends
          (watch_spec host flags name)
          (λ _ _. ⊥)
          (run h (run_watch fuel host flags name) w []).log
          (run h (run_watch fuel host flags name) w []).end
watches_exit h host flags name fuel w =
    run-Safe h (watch_spec host flags name) (run_watch fuel host flags name) (λ _ _. ⊥) w []
      (any_answer _) (run_watch-Safe host flags name fuel []) tt
