-- ===== src/Syncing/Pods.antt =====
-- The pods: the replica's is gone before the migrator's is created, and how the migrator ends.
use mathlib.Core.List.{Memᴰ}
use mathlib.Core.Path.{subst₂}
use migcontroller.Prelude.{
  ℕ, zero, suc, ◌*◌, String, ◌≡◌, refl, ap, subst, ◌++◌, [], inl, inr, true, ◌∷◌, ltb,
  if◌then◌else◌,
}
use migcontroller.Prelude.Int32.{Int32, show}
use migcontroller.Objects.{
  GoError, Except, ok, err, is_not_found, Pod, PodPhase, running, pod_pending, succeeded,
  pod_failed, phase_unknown, new_error, wrap,
}
use migcontroller.VolumeResize.{VolumeResize}
use migcontroller.Call.{Lib, pod_get}
use migcontroller.Prog.{Prog, Log, ret, stop, attempt}
use migcontroller.Prog.Safe.{
  Spec, Safe, Extends, Extends-trans, later, Safe-mono-from, same, Has-Extends, Safe-bind, Safe-if,
  Safe-attempt, Safe-try, OnOk,
}
use migcontroller.Pvc.{second}
use migcontroller.Sts.{delete_pod, poll_pod_termination, wait_for_pod_termination, rounds}
use migcontroller.Migrator.{
  build_migrator_pod, create_new_migrator_pod, create_migrator_pod, poll_migration,
  wait_for_migration_complete, cleanup_migrator_pod,
}
use migcontroller.Names.{get_pod_name, get_original_pvc_name, get_temp_pvc_name}
use migcontroller.Controller.Results.{Outcome, requeue_after, fail}
use migcontroller.Controller.Syncing.{after_wait_error, migrate}
use migcontroller.Syncing.Guard.{Has, Target, IsMigrator, IsOf, sync_spec, WasSeen, IsOver}
use migcontroller.Syncing.Claims.{fail-Safe}
use migcontroller.Syncing.Swap.{tolerated, IsOver-Extends}

-- a read of the pod found none
abbrev IsGone : String → String → Log → Type 0
IsGone namespace name l =
    (e : GoError) × Has l (pod_get namespace name) (err e) × (is_not_found e ≡ true)

-- a read of the pod found it succeeded
abbrev HasSucceeded : String → String → Log → Type 0
HasSucceeded namespace name l =
    (pod : Pod) × Has l (pod_get namespace name) (ok pod) × (pod.phase ≡ succeeded)

WasSeen-Extends :
    (t : Target) (name : String) {l m : Log} → WasSeen t name l → Extends l m → WasSeen t name m
WasSeen-Extends t name (pod, e, inl (c, h, is)) x = (pod, e, inl (c, Has-Extends h x, is))
WasSeen-Extends t name (pod, e, inr h) x = (pod, e, inr (Has-Extends h x))

module _ (lib : Lib) (t : Target) where
  attempt-tolerated :
      (l : Log) (message : String) (e : GoError)
      → Safe
          (sync_spec lib t)
          l
          (attempt (if is_not_found e then ret tt else stop (wrap message e)))
          (λ l' (_ : Except (Unit {0})). Unit {0})
  attempt-tolerated l message e =
      Safe-attempt (sync_spec lib t) l (if is_not_found e then ret tt else stop (wrap message e))
        (λ _ _. Unit {0}) (tolerated lib t l message e)

  delete_pod-Safe :
      (l : Log) (namespace sts_name : String) (replica : Int32)
      → Safe (sync_spec lib t) l (delete_pod namespace sts_name replica) (λ _ _. Unit {0})
  unfolding delete_pod
  delete_pod-Safe l namespace sts_name replica =
      (tt, elim [ ok u ↦ λ _. tt | err e ↦ λ _. attempt-tolerated _ _ e ])

  cleanup_migrator_pod-Safe :
      (l : Log) (pod_name namespace : String)
      → Safe (sync_spec lib t) l (cleanup_migrator_pod pod_name namespace) (λ _ _. Unit {0})
  unfolding cleanup_migrator_pod
  cleanup_migrator_pod-Safe l pod_name namespace =
      (tt, elim [ ok u ↦ λ _. tt | err e ↦ λ _. attempt-tolerated _ _ e ])

  poll_pod_termination-Safe :
      (fuel deadline : ℕ) (l : Log) (namespace name : String)
      → Safe
          (sync_spec lib t)
          l
          (poll_pod_termination fuel deadline namespace name)
          (λ l' r. OnOk r (λ _. IsGone namespace name l'))
  unfolding poll_pod_termination
  poll_pod_termination-Safe zero deadline l namespace name = tt
  poll_pod_termination-Safe (suc fuel) deadline l namespace name = (
    tt,
    λ time _.
        Safe-if (sync_spec lib t) _ (ltb time deadline) _ _ _
          (λ _. (
            tt,
            elim [
              | ok pod ↦ λ _. (tt, λ _ _. poll_pod_termination-Safe fuel deadline _ namespace name)
              | err e ↦ λ _.
                  Safe-if (sync_spec lib t) _ (is_not_found e) _ _ _
                    (λ gone. (e, Memᴰ.head refl, gone)) (λ _. tt)
            ],
          ))
          (λ _. tt),
  )

  wait_for_pod_termination-Safe :
      (l : Log) (namespace name : String) (timeout : ℕ)
      → Safe
          (sync_spec lib t)
          l
          (wait_for_pod_termination namespace name timeout)
          (λ l' r. OnOk r (λ _. IsGone namespace name l'))
  unfolding wait_for_pod_termination
  wait_for_pod_termination-Safe l namespace name timeout =
      (tt, λ start _. poll_pod_termination-Safe (rounds timeout second) _ _ namespace name)

  create_migrator_pod-Safe :
      (l : Log) (vr : VolumeResize)
      → IsOf t vr
      → IsGone t.namespace (get_pod_name t.sts_name t.replica) l
      → Safe
          (sync_spec lib t)
          l
          (create_migrator_pod vr t.vol t.replica
            (get_original_pvc_name t.vol.name vr.spec.stateful_set_name t.replica)
            (get_temp_pvc_name t.vol.name vr.spec.stateful_set_name t.replica))
          (λ l' r. OnOk r (λ pod. WasSeen t pod.meta.name l'))
  unfolding create_migrator_pod create_new_migrator_pod build_migrator_pod
  create_migrator_pod-Safe l vr of (gone, read, is) = (
    tt,
    elim [
      | ok pod ↦ λ _. (
        pod,
        refl,
        inr (
            subst₂
              (λ n k.
                Has
                  ((
                    pod_get vr.meta.namespace
                        (vr.meta.name ++ ("-migrator-" ++ (show t.replica ++ ("-" ++ t.vol.name)))),
                    ok pod,
                  )
                    ∷ l)
                  (pod_get n (k ++ ("-migrator-" ++ (show t.replica ++ ("-" ++ t.vol.name)))))
                  (ok pod))
              of.namespace of.name (Memᴰ.head refl)),
      )
      | err e ↦ λ _.
          Safe-if (sync_spec lib t) _ (is_not_found e) _ _ _
            (λ _. (
              (gone, Memᴰ.tail read, is),
              elim [
                | ok pod ↦ λ _. (pod, refl, inl (_, Memᴰ.head refl, migrator))
                | err e' ↦ λ _. tt
              ],
            ))
            (λ _. tt)
    ],
  )
    where
      pod_made : Pod
      pod_made =
          build_migrator_pod vr t.vol t.replica
            (get_original_pvc_name t.vol.name vr.spec.stateful_set_name t.replica)
            (get_temp_pvc_name t.vol.name vr.spec.stateful_set_name t.replica)

      migrator : IsMigrator t pod_made
      migrator = record {
        namespace = of.namespace;
        name = ap (λ n. n ++ ("-migrator-" ++ (show t.replica ++ ("-" ++ t.vol.name)))) of.name;
        env = refl;
        mounts = refl;
        volumes =
            ap
              (λ n.
                ("source", get_original_pvc_name t.vol.name n t.replica)
                ∷ ("dest", get_temp_pvc_name t.vol.name n t.replica)
                ∷ [])
              of.sts_name;
      }

  polled :
      (l : Log) (namespace name : String) (pod : Pod) (phase : PodPhase)
      (again : Prog Outcome (Except (Unit {0})))
      → pod.phase ≡ phase
      → Has l (pod_get namespace name) (ok pod)
      → Safe (sync_spec lib t) l again (λ l' r. OnOk r (λ _. HasSucceeded namespace name l'))
      → Safe
          (sync_spec lib t)
          l
          (elim phase [
            | succeeded ↦ ret (ok tt)
            | pod_failed ↦ ret (err (new_error "migration pod failed"))
            | _ ↦ again
          ])
          (λ l' r. OnOk r (λ _. HasSucceeded namespace name l'))
  polled l namespace name pod succeeded again e read k = (pod, read, e)
  polled l namespace name pod pod_failed again e read k = tt
  polled l namespace name pod running again e read k = k
  polled l namespace name pod pod_pending again e read k = k
  polled l namespace name pod phase_unknown again e read k = k

  poll_migration-Safe :
      (fuel deadline : ℕ) (l : Log) (name namespace : String)
      → Safe
          (sync_spec lib t)
          l
          (poll_migration fuel deadline name namespace)
          (λ l' r. OnOk r (λ _. HasSucceeded namespace name l'))
  unfolding poll_migration
  poll_migration-Safe zero deadline l name namespace = tt
  poll_migration-Safe (suc fuel) deadline l name namespace = (
    tt,
    λ time _.
        Safe-if (sync_spec lib t) _ (ltb time deadline) _ _ _
          (λ _. (
            tt,
            elim [
              | ok pod ↦ λ _.
                  polled _ namespace name pod pod.phase _ refl (Memᴰ.head refl)
                    (tt, λ _ _. poll_migration-Safe fuel deadline _ name namespace)
              | err e ↦ λ _. tt
            ],
          ))
          (λ _. tt),
  )

  wait_for_migration_complete-Safe :
      (l : Log) (name namespace : String) (timeout : ℕ)
      → Safe
          (sync_spec lib t)
          l
          (wait_for_migration_complete name namespace timeout)
          (λ l' r. OnOk r (λ _. HasSucceeded namespace name l'))
  unfolding wait_for_migration_complete
  wait_for_migration_complete-Safe l name namespace timeout =
      (tt, λ start _. poll_migration-Safe (rounds timeout (2 * second)) _ _ name namespace)

  wait_for_migration_complete-Over :
      (l : Log) (name namespace : String) (timeout : ℕ)
      → WasSeen t name l
      → Safe
          (sync_spec lib t)
          l
          (wait_for_migration_complete name namespace timeout)
          (λ l' r. OnOk r (λ _. IsOver t namespace l'))
  wait_for_migration_complete-Over l name namespace timeout seen =
      Safe-mono-from (sync_spec lib t) l l (wait_for_migration_complete name namespace timeout) _ _
        same (wait_for_migration_complete-Safe l name namespace timeout)
        (λ l'. elim [ ok u ↦ λ x h. (name, l, seen, inl (h.0, x, h.1, h.2)) | err e ↦ λ x h. tt ])

  looked_at :
      (l m : Log) (vr : VolumeResize) (name : String) (pod : Pod) (phase : PodPhase)
      → pod.phase ≡ phase
      → WasSeen t name m
      → Extends ((pod_get vr.meta.namespace name, ok pod) ∷ m) l
      → Safe
          (sync_spec lib t)
          l
          (elim phase [
            | running ↦ stop (requeue_after (10 * second))
            | pod_pending ↦ stop (requeue_after (10 * second))
            | pod_failed ↦ fail vr "migration pod failed"
            | _ ↦ ret tt
          ])
          (λ l' _. IsOver t vr.meta.namespace l')
  looked_at l m vr name pod running e seen x = tt
  looked_at l m vr name pod pod_pending e seen x = tt
  looked_at l m vr name pod pod_failed e seen x = fail-Safe lib t l vr _ _
  looked_at l m vr name pod succeeded e seen x =
      (name, m, seen, inl (pod, Extends-trans (later same) x, Has-Extends (Memᴰ.head refl) x, e))
  looked_at l m vr name pod phase_unknown e seen x = (name, m, seen, inr (inr (pod, x, e)))

  after_wait_error-Safe :
      (l : Log) (vr : VolumeResize) (name : String)
      → WasSeen t name l
      → Safe (sync_spec lib t) l (after_wait_error vr name) (λ l' _. IsOver t vr.meta.namespace l')
  unfolding after_wait_error
  after_wait_error-Safe l vr name seen = (
    tt,
    elim [
      | err e ↦ λ _. (name, l, seen, inr (inl (e, same)))
      | ok pod ↦ λ _. looked_at _ l vr name pod pod.phase refl seen same
    ],
  )

  -- behind the migration the migrator pod is over
  pub migrate-Safe :
      (l : Log) (vr : VolumeResize)
      → IsOf t vr
      → Safe
          (sync_spec lib t)
          l
          (migrate vr t.vol t.vol.name t.replica)
          (λ l' _. IsOver t t.namespace l')
  unfolding migrate
  migrate-Safe l vr of =
      Safe-bind s l (delete_pod _ _ _) _ (λ _ _. Unit {0}) _ (delete_pod-Safe l _ _ _)
        (λ l₁ _ x₁ _.
          Safe-try s l₁ (wait_for_pod_termination _ pod_name _) _ _
            (λ l' _. IsGone vr.meta.namespace pod_name l') _
            (wait_for_pod_termination-Safe l₁ vr.meta.namespace pod_name _) (λ _ _ _. tt)
            (λ l₂ _ x₂ gone.
              Safe-try s l₂ (create_migrator_pod vr t.vol t.replica _ _) _ _
                (λ l' pod. WasSeen t pod.meta.name l') _
                (create_migrator_pod-Safe l₂ vr of (at_target l₂ gone))
                (λ l' e _. fail-Safe lib t l' vr _ _)
                (λ l₃ pod x₃ seen.
                  Safe-try s l₃ (wait_for_migration_complete pod.meta.name _ _) _ _
                    (λ l' _. IsOver t vr.meta.namespace l') _
                    (wait_for_migration_complete-Over l₃ pod.meta.name vr.meta.namespace _ seen)
                    (λ l' e x.
                      after_wait_error-Safe l' vr pod.meta.name
                        (WasSeen-Extends t pod.meta.name seen x))
                    (λ l₄ _ x₄ over.
                      Safe-bind s l₄ (cleanup_migrator_pod _ _) _ (λ _ _. Unit {0}) _
                        (cleanup_migrator_pod-Safe l₄ _ _)
                        (λ l₅ _ x₅ _.
                          subst (λ n. IsOver t n l₅) of.namespace
                            (IsOver-Extends t vr.meta.namespace over x₅))))))
    where
      s : Spec Outcome
      s = sync_spec lib t

      pod_name : String
      pod_name = get_pod_name vr.spec.stateful_set_name t.replica

      at_target :
          (m : Log)
          → IsGone vr.meta.namespace pod_name m
          → IsGone t.namespace (get_pod_name t.sts_name t.replica) m
      at_target m gone =
          subst₂ (λ n k. IsGone n (get_pod_name k t.replica) m) of.namespace of.sts_name gone
