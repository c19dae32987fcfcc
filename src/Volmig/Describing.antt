-- ===== src/Volmig/Describing.antt =====
-- What `volmig describe` asks for, and its exit status.
use mathlib.Core.List.{Memᴰ}
use migcontroller.Prelude.{ℕ, String, ◌≡◌, refl, inl, inr, Option, none, some, List, [], ◌∷◌}
use migcontroller.Objects.{Except, ok, err}
use migcontroller.VolumeResize.{
  VolumeResize, VolumeResizeTarget, VolumeResizeStatus, VolumeStatus, Condition,
}
use migcontroller.Call.{Call, vr_get, now, print, print_error}
use migcontroller.Prog.{Log, Handler, run, ret, ◌>>◌}
use migcontroller.Prog.Safe.{Spec, Safe, Safe-bind, Has-Extends, Guarded, Ends, run-Safe}
use migcontroller.Syncing.Guard.{Has}
use migcontroller.Validating.Start.{any_answer}
use migcontroller.Volmig.Client.{
  Host, Flags, Command, get_client, connect, exit_with_error, or_exit, print_line,
}
use migcontroller.Volmig.Watching.{WatchGuard, HasFailed}
use migcontroller.Volmig.Showing.{unless_empty-Prints}
use migcontroller.Volmig.Reports.{print_duration-Prints}
use migcontroller.Volmig.Prints.{IsPrint, Prints, Prints-bind, Prints-option, Prints-last}
use migcontroller.Volmig.Describe.{
  describe_targets, describe_status, describe_volumes, describe_conditions, titled, print_details,
  run_describe,
}

-- an optional line, and what follows it
option-Prints :
    {A : Type 0} (o : Option A) (line : A → String) (m : Command (Unit {0}))
    → Prints m
    → Prints ((elim o [ none ↦ ret tt | some a ↦ print_line (line a) ]) >> m)
option-Prints o line m p =
    Prints-bind (elim o [ none ↦ ret tt | some a ↦ print_line (line a) ]) (λ _. m)
      (Prints-option o _ _ tt (λ a. (tt, λ _. tt))) (λ _. p)

module _ (host : Host) where
  describe_targets-Prints : (vols : List VolumeResizeTarget) → Prints (describe_targets host vols)
  unfolding describe_targets
  describe_targets-Prints [] = tt
  describe_targets-Prints (vol ∷ rest) =
      (tt, λ _. (tt, λ _. option-Prints vol.storage_class _ _ (describe_targets-Prints rest)))

  describe_status-Prints : (status : VolumeResizeStatus) → Prints (describe_status host status)
  unfolding describe_status
  describe_status-Prints status = (
    tt,
    λ _. (
      tt,
      λ _. option-Prints status.current_replica _ _ (
          unless_empty-Prints status.current_volume _ _ (
            unless_empty-Prints status.message _ _ (
              unless_empty-Prints status.backup_config_map_name _ _ (
                option-Prints status.start_time _ _ (
                  option-Prints status.completion_time _ _
                    (print_duration-Prints host _ _ _ _)))))),
    ),
  )

describe_volumes-Prints : (ss : List VolumeStatus) → Prints (describe_volumes ss)
unfolding describe_volumes
describe_volumes-Prints [] = tt
describe_volumes-Prints (vs ∷ rest) = (
  tt,
  λ _. (
    tt,
    λ _. unless_empty-Prints vs.old_pvc_name _ _ (
        unless_empty-Prints vs.new_pvc_name _ _ (
          unless_empty-Prints vs.old_pv_name _ _
            (unless_empty-Prints vs.message _ _ (describe_volumes-Prints rest)))),
  ),
)

describe_conditions-Prints : (cs : List Condition) → Prints (describe_conditions cs)
unfolding describe_conditions
describe_conditions-Prints [] = tt
describe_conditions-Prints (cond ∷ rest) = (
  tt,
  λ _. (
    tt,
    λ _.
        unless_empty-Prints cond.reason _ _
          (unless_empty-Prints cond.message _ _ (describe_conditions-Prints rest)),
  ),
)

titled-Prints :
    {A : Type 0} (title : String) (body : List A → Command (Unit {0})) (xs : List A)
    → ((ys : List A) → Prints (body ys))
    → Prints (titled title body xs)
titled-Prints title body [] p = tt
titled-Prints title body (x ∷ rest) p = (tt, λ _. (tt, λ _. p (x ∷ rest)))

print_details-Prints : (host : Host) (vr : VolumeResize) → Prints (print_details host vr)
unfolding print_details
print_details-Prints host vr = (
  tt,
  λ _. (
    tt,
    λ _. (
      tt,
      λ _. (
        tt,
        λ _. (
          tt,
          λ _. (
            tt,
            λ _. (
              tt,
              λ _.
                  Prints-bind (describe_targets host vr.spec.volumes) _
                    (describe_targets-Prints host vr.spec.volumes)
                    (λ _. (
                      tt,
                      λ _.
                          Prints-bind (describe_status host vr.status) _
                            (describe_status-Prints host vr.status)
                            (λ _.
                              Prints-bind
                                (titled "Volume Statuses:" describe_volumes
                                  vr.status.volume_statuses)
                                _
                                (titled-Prints "Volume Statuses:" _ vr.status.volume_statuses
                                  describe_volumes-Prints)
                                (λ _.
                                  titled-Prints "Conditions:" _ vr.status.conditions
                                    describe_conditions-Prints)),
                    )),
            ),
          ),
        ),
      ),
    ),
  ),
)

module _ (host : Host) (flags : Flags) (name : String) where
  abbrev pub describe_spec : Spec ℕ
  describe_spec = record {
    guard = WatchGuard host flags name;
    fair = λ _ _. Unit {0};
    stops = λ l status. (status ≡ 1) × HasFailed host flags name l;
    panics = ⊥;
    exhausts = ⊥;
  }

  -- A read gave the object.
  abbrev pub WasFound : Log → Type 0
  WasFound l = (vr : VolumeResize) × Has l (vr_get flags.namespace name) (ok vr)

  allowed : (l : Log) (c : Call) → IsPrint c → describe_spec.guard l c
  allowed l now p = tt
  allowed l (print _) p = tt
  allowed l (print_error _) p = tt
  allowed l _ p = absurd p

  connect-Safe : Safe describe_spec [] (connect host flags) (λ _ _. Unit {0})
  unfolding connect exit_with_error
  connect-Safe = at (get_client host flags) refl
    where
      at :
          (r : Except (Unit {0}))
          → get_client host flags ≡ r
          → Safe describe_spec [] (or_exit "failed to create kubernetes client" r) (λ _ _. Unit {0})
      at (ok u) e = tt
      at (err e') e = (tt, λ _ _. (refl, inl (e', e)))

  run_describe-Safe : Safe describe_spec [] (run_describe host flags name) (λ l _. WasFound l)
  unfolding run_describe exit_with_error
  run_describe-Safe =
      Safe-bind describe_spec [] (connect host flags) _ (λ _ _. Unit {0}) _ connect-Safe
        (λ l _ x _. (
          (refl, refl),
          elim [
            | err e ↦ λ _. (tt, λ _ _. (refl, inr (e, Memᴰ.tail (Memᴰ.head refl))))
            | ok vr ↦ λ _.
                Prints-last describe_spec allowed _ (print_details host vr) _
                  (print_details-Prints host vr) (λ l' _ x'. (vr, Has-Extends (Memᴰ.head refl) x'))
          ],
        ))

-- In every run of volmig describe, the requests are those that volmig watch may make, the command
-- returns only after the object was read, and otherwise exits with status 1, after a read or the
-- client's creation failed; it never panics.
pub describes_exit :
    {W : Type 0} (h : Handler W) (host : Host) (flags : Flags) (name : String) (w : W)
    → Guarded (WatchGuard host flags name) (run h (run_describe host flags name) w []).log
      × Ends
          (describe_spec host flags name)
          (λ l _. WasFound host flags name l)
          (run h (run_describe host flags name) w []).log
          (run h (run_describe host flags name) w []).end
describes_exit h host flags name w =
    run-Safe h (describe_spec host flags name) (run_describe host flags name)
      (λ l _. WasFound host flags name l) w [] (any_answer _) (run_describe-Safe host flags name) tt
