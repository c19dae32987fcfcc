-- ===== src/Volmig/Showing.antt =====
-- What `volmig status` asks for, and its exit status.
use mathlib.Core.List.{Memᴰ}
use migcontroller.Prelude.{
  ℕ, String, ◌++◌, ◌≡◌, ◌≢◌, refl, sym, ap, ◌∙◌, inl, inr, none, some, List, [], ◌∷◌, true, false,
  ◌==◌, ◌&&◌, not, eq_iff, Bool-cases,
}
use migcontroller.Objects.{ok, err}
use migcontroller.VolumeResize.{
  VolumeResize, VolumeResizeTarget, VolumeResizeStatus, VolumeStatus, Phase,
}
use migcontroller.Call.{vr_get}
use migcontroller.Prog.{Log, Handler, run, ret, ◌>>◌}
use migcontroller.Prog.Safe.{
  Safe, Safe-bind, Safe-mono, Safe-if, Has-Extends, Guarded, Ends, run-Safe,
}
use migcontroller.Syncing.Guard.{Has}
use migcontroller.Validating.Start.{any_answer}
use migcontroller.Volmig.Text.{phase_text, shown_phase, phase_completed, phase_failed}
use migcontroller.Volmig.Client.{Host, Flags, Command, connect, exit_with_error, print_line}
use migcontroller.Volmig.Watch.{print_duration, run_watch}
use migcontroller.Volmig.Watching.{WatchGuard, watch_spec, allowed, connect-Safe, run_watch-Safe}
use migcontroller.Volmig.Status.{
  print_unless_empty, print_targets, print_replicas, print_times, print_overview, follow_or_exit,
  run_status,
}
use migcontroller.Volmig.Reports.{print_duration-Prints}
use migcontroller.Volmig.Prints.{Prints, Prints-bind, Prints-if, Prints-option, Prints-then}

print_targets-Prints :
    (host : Host) (vols : List VolumeResizeTarget) → Prints (print_targets host vols)
unfolding print_targets
print_targets-Prints host [] = tt
print_targets-Prints host (vol ∷ rest) = (tt, λ _. print_targets-Prints host rest)

print_replicas-Prints : (host : Host) (ss : List VolumeStatus) → Prints (print_replicas host ss)
unfolding print_replicas
print_replicas-Prints host [] = tt
print_replicas-Prints host (vs ∷ rest) = (tt, λ _. (tt, λ _. (tt, λ _. tt)))

pub unless_empty-Prints :
    (text line : String) (m : Command (Unit {0}))
    → Prints m
    → Prints (print_unless_empty text line >> m)
unless_empty-Prints text line m p =
    Prints-bind (print_unless_empty text line) (λ _. m)
      (Prints-if (text == "") (ret tt) (print_line line) tt (tt, λ _. tt)) (λ _. p)

print_times-Prints : (host : Host) (status : VolumeResizeStatus) → Prints (print_times host status)
unfolding print_times
print_times-Prints host status =
    Prints-bind
      (elim status.start_time [
        | none ↦ ret tt
        | some t ↦ print_line ("Started: " ++ host.format_date t)
      ])
      _ (Prints-option status.start_time _ _ tt (λ t. (tt, λ _. tt)))
      (λ _.
        Prints-bind
          (elim status.completion_time [
            | none ↦ ret tt
            | some t ↦ print_line ("Completed: " ++ host.format_date t)
          ])
          _ (Prints-option status.completion_time _ _ tt (λ t. (tt, λ _. tt)))
          (λ _.
            Prints-bind
              (print_duration host "Duration: " 1 status.completion_time status.start_time) _
              (print_duration-Prints host _ _ _ _)
              (λ _. Prints-if (status.backup_config_map_name == "") _ _ tt (tt, λ _. tt))))

print_overview-Prints :
    (host : Host) (name : String) (vr : VolumeResize) → Prints (print_overview host name vr)
unfolding print_overview
print_overview-Prints host name vr = (
  tt,
  λ _. (
    tt,
    λ _. unless_empty-Prints vr.status.message _ _ (
      tt,
      λ _. (
        tt,
        λ _.
            Prints-bind (print_targets host vr.spec.volumes) _
              (print_targets-Prints host vr.spec.volumes)
              (λ _. (
                tt,
                λ _.
                    Prints-bind (print_replicas host vr.status.volume_statuses) _
                      (print_replicas-Prints host vr.status.volume_statuses)
                      (λ _. print_times-Prints host vr.status),
              )),
      ),
    ),
  ),
)

-- the phase as shown is Failed exactly if the phase is
shown_phase-failed :
    (phase : Phase) → (shown_phase phase == phase_failed) ≡ (phase_text phase == phase_failed)
unfolding shown_phase
shown_phase-failed phase = elim (Bool-cases (phase_text phase == "")) [
  | inl unset ↦
      let e = (eq_iff (phase_text phase) "").0 unset in
      rw unset (ap (λ (t : String). t == phase_failed) (sym e))
  | inr given ↦ rw given refl
]

module _ (host : Host) (flags : Flags) (name : String) where
  -- the object was read, and its phase is another
  abbrev pub WasReadNot : String → Log → Type 0
  WasReadNot phase l =
      (vr : VolumeResize) × Has l (vr_get flags.namespace name) (ok vr)
      × (phase_text vr.status.phase ≢ phase)

  follow_or_exit-Safe :
      (fuel : ℕ) (l : Log) (vr : VolumeResize)
      → Has l (vr_get flags.namespace name) (ok vr)
      → Safe
          (watch_spec host flags name)
          l
          (follow_or_exit fuel host flags name (shown_phase vr.status.phase))
          (λ l' _. WasReadNot phase_failed l')
  unfolding follow_or_exit
  follow_or_exit-Safe fuel l vr read =
      let phase = shown_phase vr.status.phase in
      Safe-if (watch_spec host flags name) l
        (flags.follow_status && (not (phase == phase_completed) && not (phase == phase_failed))) _ _
        _
        (λ _. (
          tt,
          λ _ _. (
            tt,
            λ _ _. (
              tt,
              λ _ _.
                  Safe-mono (watch_spec host flags name) _ (run_watch fuel host flags name)
                    (λ _ _. ⊥) _ (run_watch-Safe host flags name fuel _) (λ l' a h. absurd h),
            ),
          ),
        ))
        (λ _.
          Safe-if (watch_spec host flags name) l (phase == phase_failed) _ _ _
            (λ broke. inr (
              refl,
              inl (
                vr,
                read,
                (eq_iff (phase_text vr.status.phase) phase_failed).0
                    (sym (shown_phase-failed vr.status.phase) ∙ broke),
              ),
            ))
            (λ fine. (
              vr,
              read,
              λ p.
                  let both : false ≡ true =
                    sym fine
                    ∙ shown_phase-failed vr.status.phase
                    ∙ (eq_iff (phase_text vr.status.phase) phase_failed).1 p in
                  cc,
            )))

  run_status-Safe :
      (fuel : ℕ)
      → Safe
          (watch_spec host flags name)
          []
          (run_status fuel host flags name)
          (λ l _. WasReadNot phase_failed l)
  unfolding run_status exit_with_error
  run_status-Safe fuel =
      Safe-bind (watch_spec host flags name) [] (connect host flags) _ (λ _ _. Unit {0}) _
        (connect-Safe host flags name [] (λ _ _. Unit {0}) (λ _. tt))
        (λ l _ x _. (
          (refl, refl),
          elim [
            | err e ↦ λ _. (tt, λ _ _. inr (refl, inr (inr (e, Memᴰ.tail (Memᴰ.head refl)))))
            | ok vr ↦ λ _.
                Prints-then (watch_spec host flags name) (allowed host flags name) _
                  (print_overview host name vr) _ _ (print_overview-Prints host name vr)
                  (λ l' _ x'. follow_or_exit-Safe fuel l' vr (Has-Extends (Memᴰ.head refl) x'))
          ],
        ))

-- In every run of volmig status, the requests are those that volmig watch may make; it returns
-- only after the object was read in a phase other than Failed, exits with status 0 only after it
-- was read as Completed, and otherwise with status 1 after it was read as Failed, or a read or the
-- client's creation failed; it does not panic.
pub statuses_exit :
    {W : Type 0} (h : Handler W) (host : Host) (flags : Flags) (name : String) (fuel : ℕ) (w : W)
    → Guarded (WatchGuard host flags name) (run h (run_status fuel host flags name) w []).log
      × Ends
          (watch_spec host flags name)
          (λ l _. WasReadNot host flags name phase_failed l)
          (run h (run_status fuel host flags name) w []).log
          (run h (run_status fuel host flags name) w []).end
statuses_exit h host flags name fuel w =
    run-Safe h (watch_spec host flags name) (run_status fuel host flags name)
      (λ l _. WasReadNot host flags name phase_failed l) w [] (any_answer _)
      (run_status-Safe host flags name fuel) tt
