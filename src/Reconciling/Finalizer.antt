-- ===== src/Reconciling/Finalizer.antt =====
-- What Reconcile of internal/controller/volumeresize_controller.go asks for before the object has
-- the finalizer.
use mathlib.Core.List.{Memᴰ}
use migcontroller.Prelude.{
  String, ◌≡◌, refl, ◌⊎◌, inl, inr, ℕ, Option, none, some, Bool, true, false, [],
}
use migcontroller.Objects.{ok, err, is_not_found}
use migcontroller.VolumeResize.{VolumeResize, finalizer_name}
use migcontroller.Call.{Call, Lib, vr_get, vr_update}
use migcontroller.Prog.{Prog, Log, ret, stop, panic, out_of_fuel, call, Handler, run}
use migcontroller.Prog.Safe.{Spec, Safe, Safe-if, Guarded, run-Safe}
use migcontroller.Controller.{handle_deletion, require_finalizer, route, reconcile_found, reconcile}
use migcontroller.Controller.Results.{Outcome}
use migcontroller.Syncing.Guard.{Has}
use migcontroller.Validating.Start.{any_answer}
use migcontroller.Reconciling.{IsDeleting}

module _ (lib : Lib) (namespace name : String) where
  -- the object with the finalizer
  abbrev pub held : VolumeResize → VolumeResize
  held vr = record vr {
    meta = record vr.meta { finalizers = lib.add_finalizer vr.meta.finalizers finalizer_name };
  }

  -- It is being deleted, or has the finalizer.
  abbrev pub IsHeld : VolumeResize → Type 0
  IsHeld vr = IsDeleting vr ⊎ (lib.contains_finalizer vr.meta.finalizers finalizer_name ≡ true)

  abbrev pub WasReadHeld : Log → Type 0
  WasReadHeld l = (vr : VolumeResize) × Has l (vr_get namespace name) (ok vr) × IsHeld vr

  abbrev pub FinalizerGuard : Log → Call → Type 0
  FinalizerGuard l (vr_get ns n) = ((ns ≡ namespace) × (n ≡ name)) ⊎ WasReadHeld l
  FinalizerGuard l (vr_update v) =
      ((vr : VolumeResize) × Has l (vr_get namespace name) (ok vr) × (v ≡ held vr)) ⊎ WasReadHeld l
  FinalizerGuard l c = WasReadHeld l

  abbrev finalizer_spec : Spec Outcome
  finalizer_spec = record {
    guard = FinalizerGuard;
    fair = λ _ _. Unit {0};
    stops = λ _ _. Unit {0};
    panics = Unit {0};
    exhausts = Unit {0};
  }

  after_read : (l : Log) (c : Call) → WasReadHeld l → FinalizerGuard l c
  after_read l (vr_get _ _) h = inr h
  after_read l (vr_update _) h = inr h
  after_read l c h = h

  -- Once the object was read so, any program may run.
  held-Safe :
      (l : Log) (m : Prog Outcome Outcome)
      → WasReadHeld l
      → Safe finalizer_spec l m (λ _ _. Unit {0})
  held-Safe l (ret a) h = tt
  held-Safe l (stop x) h = tt
  held-Safe l panic h = tt
  held-Safe l out_of_fuel h = tt
  held-Safe l (call c k) (vr, read, is) =
      (after_read l c (vr, read, is), λ r _. held-Safe _ (k r) (vr, Memᴰ.tail read, is))

  branch-Safe :
      (l : Log) (vr : VolumeResize) (deleted : Option ℕ) (marked : Bool)
      → Has l (vr_get namespace name) (ok vr)
      → vr.meta.deletion_timestamp ≡ deleted
      → lib.contains_finalizer vr.meta.finalizers finalizer_name ≡ marked
      → Safe finalizer_spec l
          (elim deleted [
            | some _ ↦ handle_deletion lib vr
            | none ↦ elim marked [
              | false ↦ require_finalizer lib vr
              | true ↦ route lib vr.status.phase vr
            ]
          ])
          (λ _ _. Unit {0})
  unfolding require_finalizer
  branch-Safe l vr (some t) marked read e e' =
      held-Safe l (handle_deletion lib vr) (vr, read, inl (t, e))
  branch-Safe l vr none true read e e' =
      held-Safe l (route lib vr.status.phase vr) (vr, read, inr e')
  branch-Safe l vr none false read e e' =
      (inl (vr, read, refl), elim [ ok _ ↦ λ _. tt | err _ ↦ λ _. tt ])

  pub reconcile-Safe : Safe finalizer_spec [] (reconcile lib namespace name) (λ _ _. Unit {0})
  unfolding reconcile reconcile_found
  reconcile-Safe = (
    inl (refl, refl),
    elim [
      | ok vr ↦ λ _. branch-Safe _ vr _ _ (Memᴰ.head refl) refl refl
      | err e ↦ λ _. Safe-if finalizer_spec _ (is_not_found e) _ _ _ (λ _. tt) (λ _. tt)
    ],
  )

-- In every run of Reconcile, the first request is the read of the object, and any other request is
-- made only after it was read as being deleted or with the finalizer, but for an update of the
-- object that was read to one that has it.
pub finalizer_first :
    {W : Type 0} (h : Handler W) (lib : Lib) (namespace name : String) (w : W)
    → Guarded (FinalizerGuard lib namespace name) (run h (reconcile lib namespace name) w []).log
finalizer_first h lib namespace name w =
    (run-Safe h (finalizer_spec lib namespace name) (reconcile lib namespace name) (λ _ _. Unit {0})
      w [] (any_answer _) (reconcile-Safe lib namespace name) tt).0
