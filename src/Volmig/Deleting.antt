-- ===== src/Volmig/Deleting.antt =====
-- What `volmig delete` deletes, and its exit status.
use mathlib.Core.List.{Memᴰ}
use migcontroller.Prelude.{ℕ, String, ◌≡◌, refl, ◌⊎◌, inl, inr, []}
use migcontroller.Objects.{Except, ok, err, GoError}
use migcontroller.VolumeResize.{VolumeResize}
use migcontroller.Call.{Call, vr_get, vr_delete}
use migcontroller.Prog.{Log, Handler, run}
use migcontroller.Prog.Safe.{Spec, Safe, Safe-bind, Guarded, Ends, run-Safe}
use migcontroller.Syncing.Guard.{Has}
use migcontroller.Validating.Start.{any_answer}
use migcontroller.Volmig.Client.{Host, Flags, get_client, connect, exit_with_error, or_exit}
use migcontroller.Volmig.Delete.{run_delete}
use migcontroller.Volmig.Prints.{IsPrint}

module _ (host : Host) (flags : Flags) (name : String) where
  -- Only the object that was read is deleted.
  abbrev pub DeleteGuard : Log → Call → Type 0
  DeleteGuard l (vr_get ns n) = (ns ≡ flags.namespace) × (n ≡ name)
  DeleteGuard l (vr_delete ns n) =
      (vr : VolumeResize) × Has l (vr_get flags.namespace name) (ok vr)
      × (vr.meta.namespace ≡ ns)
      × (vr.meta.name ≡ n)
  DeleteGuard l c = IsPrint c

  -- The deletion was asked for and accepted.
  abbrev pub WasDeleted : Log → Type 0
  WasDeleted l = (ns : String) × (n : String) × Has l (vr_delete ns n) (ok tt)

  -- why the command fails
  abbrev pub DeleteFailed : Log → Type 0
  DeleteFailed l =
      ((e : GoError) × (get_client host flags ≡ err e))
      ⊎ (((e : GoError) × Has l (vr_get flags.namespace name) (err e))
          ⊎ ((ns : String) × (n : String) × (e : GoError) × Has l (vr_delete ns n) (err e)))

  abbrev pub delete_spec : Spec ℕ
  delete_spec = record {
    guard = DeleteGuard;
    fair = λ _ _. Unit {0};
    stops = λ l status. (status ≡ 1) × DeleteFailed l;
    panics = ⊥;
    exhausts = ⊥;
  }

  connect-Safe : Safe delete_spec [] (connect host flags) (λ _ _. Unit {0})
  unfolding connect exit_with_error
  connect-Safe = at (get_client host flags) refl
    where
      at :
          (r : Except (Unit {0}))
          → get_client host flags ≡ r
          → Safe delete_spec [] (or_exit "failed to create kubernetes client" r) (λ _ _. Unit {0})
      at (ok u) e = tt
      at (err e') e = (tt, λ _ _. (refl, inl (e', e)))

  run_delete-Safe : Safe delete_spec [] (run_delete host flags name) (λ l _. WasDeleted l)
  unfolding run_delete exit_with_error
  run_delete-Safe =
      Safe-bind delete_spec [] (connect host flags) _ (λ _ _. Unit {0}) _ connect-Safe
        (λ l _ x _. (
          (refl, refl),
          elim [
            | err e ↦ λ _. (tt, λ _ _. (refl, inr (inl (e, Memᴰ.tail (Memᴰ.head refl)))))
            | ok vr ↦ λ _. (
              (vr, Memᴰ.head refl, refl, refl),
              elim [
                | err e ↦ λ _. (tt, λ _ _. (refl, inr (inr (_, _, e, Memᴰ.tail (Memᴰ.head refl)))))
                | ok tt ↦ λ _. (tt, λ _ _. (_, _, Memᴰ.tail (Memᴰ.head refl)))
              ],
            )
          ],
        ))

-- In every run of volmig delete, the object is deleted only under the namespace and name that a
-- read of it gave, the command returns only after a deletion succeeded, and otherwise exits with
-- status 1, after the client's creation, the read or the deletion failed; nothing else is changed,
-- and it never panics.
pub deletes_read :
    {W : Type 0} (h : Handler W) (host : Host) (flags : Flags) (name : String) (w : W)
    → Guarded (DeleteGuard host flags name) (run h (run_delete host flags name) w []).log
      × Ends
          (delete_spec host flags name)
          (λ l _. WasDeleted host flags name l)
          (run h (run_delete host flags name) w []).log
          (run h (run_delete host flags name) w []).end
deletes_read h host flags name w =
    run-Safe h (delete_spec host flags name) (run_delete host flags name)
      (λ l _. WasDeleted host flags name l) w [] (any_answer _) (run_delete-Safe host flags name) tt
