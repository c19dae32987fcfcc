-- ===== src/Plain/Loops.antt =====
-- The two wait loops: waitForPodTermination of internal/controller/statefulset.go and
-- waitForMigrationComplete of internal/controller/migrator.go.
use migcontroller.Prelude.{ℕ, zero, suc, ◌+◌, ◌*◌, String, ltb}
use migcontroller.Objects.{
  Except, ok, err, is_not_found, PodPhase, running, pod_pending, succeeded, pod_failed,
  phase_unknown,
}
use migcontroller.Prog.{Prog}
use migcontroller.Pvc.{second}
use migcontroller.Sts.{rounds, poll_pod_termination, wait_for_pod_termination}
use migcontroller.Migrator.{poll_migration, wait_for_migration_complete}
use migcontroller.Plain.{IsPlain, IsPlain-if}

abbrev Endless : {X A : Type 0} → Prog X A → Type 0
Endless = IsPlain (Unit {0})

module _ (X : Type 0) (deadline : ℕ) (namespace name : String) where
  poll_pod_termination-IsPlain :
      (fuel : ℕ) → Endless (poll_pod_termination {X = X} fuel deadline namespace name)
  unfolding poll_pod_termination
  poll_pod_termination-IsPlain zero = tt
  poll_pod_termination-IsPlain (suc fuel) = λ t.
      IsPlain-if (Unit {0}) (ltb t deadline) _ _
        (elim [
          | ok _ ↦ λ _. poll_pod_termination-IsPlain fuel
          | err e ↦ IsPlain-if (Unit {0}) (is_not_found e) _ _ tt tt
        ])
        tt

  phase-IsPlain :
      (phase : PodPhase) (m n p : Prog X (Except (Unit {0})))
      → Endless m
      → Endless n
      → Endless p
      → Endless (elim phase [ succeeded ↦ m | pod_failed ↦ n | _ ↦ p ])
  phase-IsPlain succeeded m n p a b c = a
  phase-IsPlain pod_failed m n p a b c = b
  phase-IsPlain pod_pending m n p a b c = c
  phase-IsPlain running m n p a b c = c
  phase-IsPlain phase_unknown m n p a b c = c

  poll_migration-IsPlain :
      (fuel : ℕ) → Endless (poll_migration {X = X} fuel deadline name namespace)
  unfolding poll_migration
  poll_migration-IsPlain zero = tt
  poll_migration-IsPlain (suc fuel) = λ t.
      IsPlain-if (Unit {0}) (ltb t deadline) _ _
        (elim [
          | ok pod ↦ phase-IsPlain pod.phase _ _ _ tt tt (λ _. poll_migration-IsPlain fuel)
          | err e ↦ tt
        ])
        tt

pub wait_for_pod_termination-IsPlain :
    (X : Type 0) (namespace name : String) (timeout : ℕ)
    → IsPlain (Unit {0}) (wait_for_pod_termination {X = X} namespace name timeout)
unfolding wait_for_pod_termination
wait_for_pod_termination-IsPlain X namespace name timeout =
    λ start. poll_pod_termination-IsPlain X (start + timeout) namespace name (rounds timeout second)

pub wait_for_migration_complete-IsPlain :
    (X : Type 0) (name namespace : String) (timeout : ℕ)
    → IsPlain (Unit {0}) (wait_for_migration_complete {X = X} name namespace timeout)
unfolding wait_for_migration_complete
wait_for_migration_complete-IsPlain X name namespace timeout =
    λ start. poll_migration-IsPlain X (start + timeout) namespace name (rounds timeout (2 * second))
