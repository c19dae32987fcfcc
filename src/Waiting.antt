-- ===== src/Waiting.antt =====
-- The wait loops of statefulset.go and migrator.go end: with a clock that does not run backwards
-- and advances by what was slept, their fuel is never used up.
pub mod Total
pub mod Stages
pub mod Handlers
pub mod Passes
pub mod Reconcile
use migcontroller.Prelude.{
  ℕ, zero, suc, ◌+◌, ◌*◌, ◌/◌, ◌≤◌, String, ◌≡◌, refl, true, false, arith, ltb, if◌then◌else◌, Bool,
}
use migcontroller.Objects.{
  Except, ok, err, is_not_found, GoError, PodPhase, running, pod_pending, succeeded, pod_failed,
  phase_unknown,
}
use migcontroller.Call.{Call, now, sleep, pod_get}
use migcontroller.Prog.{Prog, Log, End, returned, Handler, run}
use migcontroller.Pvc.{second}
use migcontroller.Sts.{poll_pod_termination, wait_for_pod_termination}
use migcontroller.Migrator.{poll_migration, wait_for_migration_complete}

-- The run ended with a result.
abbrev pub HasReturned : {X A : Type 0} → End X A → Type 0
HasReturned (returned a) = Unit {0}
HasReturned _ = ⊥

-- The time of a state of the environment.
pub record IsClock {W : Type 0} (h : Handler W) (time : W → ℕ) : Type 0 where
  pub forward : (c : Call) (w : W) → time w ≤ time (h c w).1
  pub reads_after : (w : W) → time w ≤ (h now w).0
  pub reads_before : (w : W) → (h now w).0 ≤ time (h now w).1
  pub sleeps : (d : ℕ) (w : W) → time w + d ≤ time (h (sleep d) w).1

module _ {W : Type 0} (h : Handler W) {X A : Type 0} (w : W) (l : Log) where
  -- A program that returns when it is run from here.
  abbrev Returns : Prog X A → Type 0
  Returns m = HasReturned (run h m w l).end

  if-Returns :
      (b : Bool) (m n : Prog X A)
      → (b ≡ true → Returns m)
      → (b ≡ false → Returns n)
      → Returns (if b then m else n)
  if-Returns true m n passed failed = passed refl
  if-Returns false m n passed failed = failed refl

  found-Returns :
      {B : Type 0} (r : Except B) (m : B → Prog X A) (f : GoError → Prog X A)
      → ((b : B) → Returns (m b))
      → ((e : GoError) → Returns (f e))
      → Returns (elim r [ ok b ↦ m b | err e ↦ f e ])
  found-Returns (ok b) m f some_found none_found = some_found b
  found-Returns (err e) m f some_found none_found = none_found e

  phase-Returns :
      (phase : PodPhase) (m n p : Prog X A)
      → Returns m
      → Returns n
      → Returns p
      → Returns (elim phase [ succeeded ↦ m | pod_failed ↦ n | _ ↦ p ])
  phase-Returns succeeded m n p done failed again = done
  phase-Returns pod_failed m n p done failed again = failed
  phase-Returns pod_pending m n p done failed again = again
  phase-Returns running m n p done failed again = again
  phase-Returns phase_unknown m n p done failed again = again

module _ {W : Type 0} (h : Handler W) (time : W → ℕ) (clock : IsClock h time) where
  -- Time after one round of a wait loop: the clock, a read of the pod, and a sleep.
  after_round :
      (namespace name : String) (d : ℕ) (w : W)
      → time w + d ≤ time (h (sleep d) (h (pod_get namespace name) (h now w).1).1).1
  after_round namespace name d w = ground (
    arith,
    clock.forward now w,
    clock.forward (pod_get namespace name) (h now w).1,
    clock.sleeps d (h (pod_get namespace name) (h now w).1).1,
  )

  module _ (X : Type 0) (deadline : ℕ) (namespace name : String) where
    poll_pod_termination-HasReturned :
        (f : ℕ) (w : W) (l : Log)
        → deadline ≤ time w + f * second
        → HasReturned (run h {X = X} (poll_pod_termination (suc f) deadline namespace name) w l).end
    unfolding run poll_pod_termination
    poll_pod_termination-HasReturned zero w l room =
        if-Returns h _ _ (ltb (h now w).0 deadline) _ _
          (λ early. ground (arith, early, clock.reads_after w)) (λ _. tt)
    poll_pod_termination-HasReturned (suc f) w l room =
        if-Returns h _ _ (ltb (h now w).0 deadline) _ _
          (λ _.
            found-Returns h _ _ (h (pod_get namespace name) (h now w).1).0 _ _
              (λ _.
                poll_pod_termination-HasReturned f _ _
                  (ground (arith, room, after_round namespace name second w)))
              (λ e. if-Returns h _ _ (is_not_found e) _ _ (λ _. tt) (λ _. tt)))
          (λ _. tt)

    poll_migration-HasReturned :
        (f : ℕ) (w : W) (l : Log)
        → deadline ≤ time w + f * (2 * second)
        → HasReturned (run h {X = X} (poll_migration (suc f) deadline name namespace) w l).end
    unfolding run poll_migration
    poll_migration-HasReturned zero w l room =
        if-Returns h _ _ (ltb (h now w).0 deadline) _ _
          (λ early. ground (arith, early, clock.reads_after w)) (λ _. tt)
    poll_migration-HasReturned (suc f) w l room =
        if-Returns h _ _ (ltb (h now w).0 deadline) _ _
          (λ _.
            found-Returns h _ _ (h (pod_get namespace name) (h now w).1).0 _ _
              (λ pod. phase-Returns h _ _ pod.phase _ _ _ tt tt (
                poll_migration-HasReturned f _ _
                  (ground (arith, room, after_round namespace name (2 * second) w))))
              (λ _. tt))
          (λ _. tt)

  -- WaitForPodTermination returns, for every timeout and whatever the reads of the pod answer,
  -- where the clock does not run backwards and advances by what is slept.
  pub wait_for_pod_termination-HasReturned :
      (X : Type 0) (namespace name : String) (timeout : ℕ) (w : W) (l : Log)
      → HasReturned (run h {X = X} (wait_for_pod_termination namespace name timeout) w l).end
  unfolding run wait_for_pod_termination
  wait_for_pod_termination-HasReturned X namespace name timeout w l =
      poll_pod_termination-HasReturned X ((h now w).0 + timeout) namespace name
        (suc (timeout / second)) (h now w).1 _ (ground (arith, clock.reads_before w))

  -- WaitForMigrationComplete returns, for every timeout and whatever the reads of the pod answer,
  -- where the clock does not run backwards and advances by what is slept.
  pub wait_for_migration_complete-HasReturned :
      (X : Type 0) (name namespace : String) (timeout : ℕ) (w : W) (l : Log)
      → HasReturned (run h {X = X} (wait_for_migration_complete name namespace timeout) w l).end
  unfolding run wait_for_migration_complete
  wait_for_migration_complete-HasReturned X name namespace timeout w l =
      poll_migration-HasReturned X ((h now w).0 + timeout) namespace name
        (suc (timeout / (2 * second))) (h now w).1 _ (ground (arith, clock.reads_before w))
