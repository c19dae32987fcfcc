-- ===== src/Reconciling/Phases.antt =====
-- Every branch of Reconcile of internal/controller/volumeresize_controller.go keeps to the phases.
use mathlib.Core.List.{Memᴰ}
use migcontroller.Prelude.{
  String, ◌≡◌, refl, subst, sym, inl, inr, ℕ, Option, none, some, Option-cases, Bool, true, false,
  [],
}
use migcontroller.Objects.{ok, err, is_not_found}
use migcontroller.VolumeResize.{
  VolumeResize, Phase, unset, pending, validating, syncing, replacing, completed, failed, unknown,
  finalizer_name,
}
use migcontroller.Call.{
  vr_create, vr_delete, Call, Answer, Lib, vr_get, vr_update, vr_update_status, sts_create,
  sts_delete_orphan, pvc_create, pvc_delete, pv_update, pod_create, pod_delete, config_map_create,
}
use migcontroller.Prelude.Int32.{Int32}
use migcontroller.Prog.{Log, Handler, run}
use migcontroller.Prog.Safe.{
  Spec, Safe, Safe-spec, Safe-if, same, Has-Extends, Guarded, AllFair, run-Safe,
}
use migcontroller.Controller.{
  handle_pending, handle_validating, handle_replacing, handle_deletion, require_finalizer, route,
  reconcile_found, reconcile,
}
use migcontroller.Controller.Results.{Outcome, save_status}
use migcontroller.Controller.Syncing.{handle_syncing}
use migcontroller.Syncing.Guard.{Has, SyncGuard, FairUpdate, sync_spec}
use migcontroller.Syncing.Order.{target_of, handle_syncing-Safe}
use migcontroller.Validating.{StartGuard, start_spec}
use migcontroller.Validating.Start.{handle_validating-Safe}
use migcontroller.Deletion.{DeletionGuard, deletion_spec, handle_deletion-Safe}
use migcontroller.Reconciling.{
  Edge, started, started_pending, replaced, follows_validating, follows_syncing, IsSyncing,
  IsDeleting, IsNamed, Allowed, PassGuard, FairPass, pass_spec,
}

module _ (lib : Lib) (vr : VolumeResize) where
  sync_allows :
      (replica : Int32) (l : Log) (c : Call)
      → IsSyncing vr
      → SyncGuard lib (target_of vr replica) l c
      → Allowed vr c
  sync_allows replica l (vr_update_status v) is g =
      (subst (λ p. Edge p v.status.phase) (sym is.0) (follows_syncing v.status.phase g), is.1)
  sync_allows replica l (sts_create _) is g = is
  sync_allows replica l (sts_delete_orphan _ _) is g = is
  sync_allows replica l (pvc_create _) is g = is
  sync_allows replica l (pv_update _) is g = is
  sync_allows replica l (pod_create _) is g = is
  sync_allows replica l (config_map_create _) is g = is
  sync_allows replica l (pvc_delete _ _) is g = inl is
  sync_allows replica l (pod_delete _ _) is g = inl is
  sync_allows replica l (vr_create _) is g = absurd g
  sync_allows replica l (vr_delete _ _) is g = absurd g
  sync_allows replica l _ is g = tt

  start_allows :
      (l : Log) (c : Call)
      → vr.status.phase ≡ validating
      → vr.meta.deletion_timestamp ≡ none
      → StartGuard lib vr l c
      → Allowed vr c
  start_allows l (vr_update_status v) phase kept g =
      (subst (λ p. Edge p v.status.phase) (sym phase) (follows_validating v.status.phase g.0), kept)
  start_allows l (sts_create _) phase kept g = absurd g
  start_allows l (sts_delete_orphan _ _) phase kept g = absurd g
  start_allows l (pvc_create _) phase kept g = absurd g
  start_allows l (pv_update _) phase kept g = absurd g
  start_allows l (pod_create _) phase kept g = absurd g
  start_allows l (config_map_create _) phase kept g = absurd g
  start_allows l (pvc_delete _ _) phase kept g = absurd g
  start_allows l (pod_delete _ _) phase kept g = absurd g
  start_allows l (vr_create _) phase kept g = absurd g
  start_allows l (vr_delete _ _) phase kept g = absurd g
  start_allows l _ phase kept g = tt

  deletion_allows : (l : Log) (c : Call) → IsDeleting vr → DeletionGuard lib vr l c → Allowed vr c
  deletion_allows l (vr_update_status v) is g = absurd g
  deletion_allows l (sts_create _) is g = absurd g
  deletion_allows l (sts_delete_orphan _ _) is g = absurd g
  deletion_allows l (pvc_create _) is g = absurd g
  deletion_allows l (pv_update _) is g = absurd g
  deletion_allows l (pod_create _) is g = absurd g
  deletion_allows l (config_map_create _) is g = absurd g
  deletion_allows l (pvc_delete _ _) is g = inr is
  deletion_allows l (pod_delete _ _) is g = inr is
  deletion_allows l (vr_create _) is g = absurd g
  deletion_allows l (vr_delete _ _) is g = absurd g
  deletion_allows l _ is g = tt

  module _ (namespace name : String) where
    pass :
        (l : Log) (c : Call)
        → Has l (vr_get namespace name) (ok vr)
        → Allowed vr c
        → PassGuard namespace name l c
    pass l (vr_get _ _) read allowed = tt
    pass l _ read allowed = (vr, read, allowed)

    abbrev s : Spec Outcome
    s = pass_spec namespace name

    fair_sync : (c : Call) (r : Answer c) → FairPass c r → FairUpdate c r
    fair_sync (vr_update sent) r f = f
    fair_sync (vr_update_status sent) r f = f
    fair_sync _ r f = tt

    handle_syncing-Allowed :
        (l : Log)
        → Has l (vr_get namespace name) (ok vr)
        → IsSyncing vr
        → IsNamed vr
        → Safe s l (handle_syncing lib vr) (λ _ _. Unit {0})
    unfolding handle_syncing
    handle_syncing-Allowed l read is named = elim (Option-cases vr.status.current_replica) [
      | inl missing ↦ rw missing tt
      | inr (r, current) ↦
          Safe-spec (sync_spec lib (target_of vr r)) s l l (handle_syncing lib vr) _ same
            (λ l' c x g. pass l' c (Has-Extends read x) (sync_allows r l' c is g)) fair_sync
            (λ _ _ u. u) (λ u. u) (λ u. u) (handle_syncing-Safe lib vr r l is.0 current named)
    ]

    handle_validating-Allowed :
        (l : Log)
        → Has l (vr_get namespace name) (ok vr)
        → vr.status.phase ≡ validating
        → vr.meta.deletion_timestamp ≡ none
        → Safe s l (handle_validating lib vr) (λ _ _. Unit {0})
    handle_validating-Allowed l read phase kept =
        Safe-spec (start_spec lib vr) s l l (handle_validating lib vr) _ same
          (λ l' c x g. pass l' c (Has-Extends read x) (start_allows l' c phase kept g))
          (λ _ _ _. tt) (λ _ _ u. u) (λ u. u) (λ u. tt) (handle_validating-Safe lib vr l)

    handle_deletion-Allowed :
        (l : Log)
        → Has l (vr_get namespace name) (ok vr)
        → IsDeleting vr
        → Safe s l (handle_deletion lib vr) (λ _ _. Unit {0})
    handle_deletion-Allowed l read is =
        Safe-spec (deletion_spec lib vr) s l l (handle_deletion lib vr) _ same
          (λ l' c x g. pass l' c (Has-Extends read x) (deletion_allows l' c is g)) (λ _ _ _. tt)
          (λ _ _ u. absurd u) (λ u. tt) (λ u. tt) (handle_deletion-Safe lib vr l)

    -- the two handlers that only save a status
    save_status-Allowed :
        (l : Log) (o : Outcome) (v : VolumeResize)
        → Has l (vr_get namespace name) (ok vr)
        → Edge vr.status.phase v.status.phase
        → vr.meta.deletion_timestamp ≡ none
        → Safe s l (save_status o v) (λ _ _. Unit {0})
    unfolding save_status
    save_status-Allowed l o v read edge kept =
        ((vr, read, (edge, kept)), elim [ ok _ ↦ λ _. tt | err _ ↦ λ _. tt ])

    handle_pending-Allowed :
        (l : Log)
        → Has l (vr_get namespace name) (ok vr)
        → Edge vr.status.phase validating
        → vr.meta.deletion_timestamp ≡ none
        → Safe s l (handle_pending vr) (λ _ _. Unit {0})
    unfolding handle_pending
    handle_pending-Allowed l read edge kept =
        ((vr, read, tt), λ t _. save_status-Allowed _ _ _ (Memᴰ.tail read) edge kept)

    handle_replacing-Allowed :
        (l : Log)
        → Has l (vr_get namespace name) (ok vr)
        → Edge vr.status.phase completed
        → vr.meta.deletion_timestamp ≡ none
        → Safe s l (handle_replacing vr) (λ _ _. Unit {0})
    unfolding handle_replacing
    handle_replacing-Allowed l read edge kept =
        ((vr, read, tt), λ t _. save_status-Allowed _ _ _ (Memᴰ.tail read) edge kept)

    route-Allowed :
        (l : Log) (phase : Phase)
        → Has l (vr_get namespace name) (ok vr)
        → vr.status.phase ≡ phase
        → vr.meta.deletion_timestamp ≡ none
        → IsNamed vr
        → Safe s l (route lib phase vr) (λ _ _. Unit {0})
    unfolding route
    route-Allowed l unset read e kept named =
        handle_pending-Allowed l read (subst (λ p. Edge p validating) (sym e) started) kept
    route-Allowed l pending read e kept named =
        handle_pending-Allowed l read (subst (λ p. Edge p validating) (sym e) started_pending) kept
    route-Allowed l validating read e kept named = handle_validating-Allowed l read e kept
    route-Allowed l syncing read e kept named = handle_syncing-Allowed l read (e, kept) named
    route-Allowed l replacing read e kept named =
        handle_replacing-Allowed l read (subst (λ p. Edge p completed) (sym e) replaced) kept
    route-Allowed l completed read e kept named = tt
    route-Allowed l failed read e kept named = tt
    route-Allowed l (unknown _) read e kept named = tt

    require_finalizer-Allowed :
        (l : Log)
        → Has l (vr_get namespace name) (ok vr)
        → Safe s l (require_finalizer lib vr) (λ _ _. Unit {0})
    unfolding require_finalizer
    require_finalizer-Allowed l read = ((vr, read, tt), elim [ ok _ ↦ λ _. tt | err _ ↦ λ _. tt ])

    branch-Allowed :
        (l : Log) (deleted : Option ℕ) (marked : Bool)
        → Has l (vr_get namespace name) (ok vr)
        → vr.meta.deletion_timestamp ≡ deleted
        → IsNamed vr
        → Safe s l
            (elim deleted [
              | some _ ↦ handle_deletion lib vr
              | none ↦ elim marked [
                | false ↦ require_finalizer lib vr
                | true ↦ route lib vr.status.phase vr
              ]
            ])
            (λ _ _. Unit {0})
    branch-Allowed l (some t) marked read e named = handle_deletion-Allowed l read (t, e)
    branch-Allowed l none false read e named = require_finalizer-Allowed l read
    branch-Allowed l none true read e named = route-Allowed l vr.status.phase read refl e named

    reconcile_found-Allowed :
        (l : Log)
        → Has l (vr_get namespace name) (ok vr)
        → IsNamed vr
        → Safe s l (reconcile_found lib vr) (λ _ _. Unit {0})
    unfolding reconcile_found
    reconcile_found-Allowed l read named =
        branch-Allowed l vr.meta.deletion_timestamp
          (lib.contains_finalizer vr.meta.finalizers finalizer_name) read refl named

pub reconcile-Safe :
    (lib : Lib) (namespace name : String)
    → Safe (pass_spec namespace name) [] (reconcile lib namespace name) (λ _ _. Unit {0})
unfolding reconcile
reconcile-Safe lib namespace name = (
  tt,
  elim [
    | ok vr ↦ λ named. reconcile_found-Allowed lib vr namespace name _ (Memᴰ.head refl) named
    | err e ↦ λ _. Safe-if (pass_spec namespace name) _ (is_not_found e) _ _ _ (λ _. tt) (λ _. tt)
  ],
)

-- In every run of Reconcile where the stored object names a volume of its spec as the current one,
-- or none, and updates answer with the name, spec and phase that were sent, a status is saved only
-- on an object that is not being deleted and only from the phase that was read to one that may
-- follow it: unset or Pending to Validating; Validating to Syncing or Failed; Syncing to Syncing,
-- Completed or Failed; Replacing to Completed; claims and pods are deleted only when that object
-- is in phase Syncing and not being deleted, or is being deleted, and other objects are created,
-- updated or deleted only when it is in phase Syncing and not being deleted.
pub passes_keep_phases :
    {W : Type 0} (h : Handler W) (lib : Lib) (namespace name : String) (w : W)
    → AllFair FairPass (run h (reconcile lib namespace name) w []).log
    → Guarded (PassGuard namespace name) (run h (reconcile lib namespace name) w []).log
passes_keep_phases h lib namespace name w fair =
    (run-Safe h (pass_spec namespace name) (reconcile lib namespace name) (λ _ _. Unit {0}) w []
      fair (reconcile-Safe lib namespace name) tt).0
