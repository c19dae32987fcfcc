-- ===== src/Reconciling.antt =====
-- Reconcile of internal/controller/volumeresize_controller.go as a whole: the phases that it goes
-- through, and where it changes other objects.
pub mod Phases
pub mod Finalizer
use mathlib.Core.List.{Memᴰ}
use migcontroller.Prelude.{
  String, ◌≡◌, refl, subst, sym, ◌⊎◌, inl, inr, ℕ, Option, none, some, Bool, true, false, List, [],
  ◌∷◌,
}
use migcontroller.Objects.{Except, ok, err, is_not_found}
use migcontroller.VolumeResize.{
  VolumeResize, Phase, unset, pending, validating, syncing, replacing, completed, failed, unknown,
  finalizer_name,
}
use migcontroller.Call.{
  vr_create, vr_delete, Call, Answer, Lib, vr_get, vr_update, vr_update_status, sts_create,
  sts_delete_orphan, sts_get, pvc_get, pvc_list, pod_get, pod_list, pv_get, config_map_get,
  storage_class_get, pdb_list, now, sleep, wait_or_done, pvc_create, pvc_delete, pv_update,
  pod_create, pod_delete, config_map_create,
}
use migcontroller.Prog.{Log, Handler, run}
use migcontroller.Prog.Safe.{
  Spec, Safe, Safe-spec, Safe-if, Extends, same, Has-Extends, Guarded, AllFair, run-Safe,
}
use migcontroller.Status.{find_target}
use migcontroller.Controller.{
  handle_pending, handle_validating, handle_replacing, handle_deletion, require_finalizer, route,
  reconcile_found, reconcile,
}
use migcontroller.Controller.Results.{Outcome, save_status}
use migcontroller.Controller.Syncing.{handle_syncing}
use migcontroller.Syncing.Guard.{Has, SyncGuard, FollowsSyncing, FairUpdate, sync_spec}
use migcontroller.Syncing.Order.{target_of, handle_syncing-Safe}
use migcontroller.Validating.{StartGuard, FollowsValidating, start_spec}
use migcontroller.Validating.Start.{handle_validating-Safe}
use migcontroller.Deletion.{DeletionGuard, deletion_spec, handle_deletion-Safe}

-- The phases, one pass after the other.
pub data Edge : Phase → Phase → Type 0 where
  started : Edge unset validating
  started_pending : Edge pending validating
  accepted : Edge validating syncing
  refused : Edge validating failed
  went_on : Edge syncing syncing
  synced : Edge syncing completed
  broke : Edge syncing failed
  replaced : Edge replacing completed

pub follows_validating : (q : Phase) → FollowsValidating q → Edge validating q
follows_validating syncing f = accepted
follows_validating failed f = refused
follows_validating unset f = absurd f
follows_validating pending f = absurd f
follows_validating validating f = absurd f
follows_validating replacing f = absurd f
follows_validating completed f = absurd f
follows_validating (unknown _) f = absurd f

pub follows_syncing : (q : Phase) → FollowsSyncing q → Edge syncing q
follows_syncing syncing f = went_on
follows_syncing completed f = synced
follows_syncing failed f = broke
follows_syncing unset f = absurd f
follows_syncing pending f = absurd f
follows_syncing validating f = absurd f
follows_syncing replacing f = absurd f
follows_syncing (unknown _) f = absurd f

-- It is in phase Syncing, and not being deleted.
abbrev pub IsSyncing : VolumeResize → Type 0
IsSyncing vr = (vr.status.phase ≡ syncing) × (vr.meta.deletion_timestamp ≡ none)

-- It is being deleted.
abbrev pub IsDeleting : VolumeResize → Type 0
IsDeleting vr = (t : ℕ) × (vr.meta.deletion_timestamp ≡ some t)

-- What a pass may ask for, by the object that it has read.
abbrev pub Allowed : VolumeResize → Call → Type 0
Allowed vr (vr_update_status v) =
    Edge vr.status.phase v.status.phase × (vr.meta.deletion_timestamp ≡ none)
Allowed vr (sts_create _) = IsSyncing vr
Allowed vr (sts_delete_orphan _ _) = IsSyncing vr
Allowed vr (pvc_create _) = IsSyncing vr
Allowed vr (pv_update _) = IsSyncing vr
Allowed vr (pod_create _) = IsSyncing vr
Allowed vr (config_map_create _) = IsSyncing vr
Allowed vr (pvc_delete _ _) = IsSyncing vr ⊎ IsDeleting vr
Allowed vr (pod_delete _ _) = IsSyncing vr ⊎ IsDeleting vr
Allowed vr (vr_create _) = ⊥
Allowed vr (vr_delete _ _) = ⊥
Allowed vr _ = Unit {0}

abbrev pub PassGuard : String → String → Log → Call → Type 0
PassGuard namespace name l (vr_get _ _) = Unit {0}
PassGuard namespace name l c =
    (vr : VolumeResize) × Has l (vr_get namespace name) (ok vr) × Allowed vr c

-- The current volume of a stored object is a volume of its spec.
abbrev pub IsNamed : VolumeResize → Type 0
IsNamed vr = (find_target vr.status.current_volume vr.spec.volumes).name ≡ vr.status.current_volume

abbrev ReadsNamed : Except VolumeResize → Type 0
ReadsNamed (ok vr) = IsNamed vr
ReadsNamed (err _) = Unit {0}

abbrev pub FairPass : (c : Call) → Answer c → Type 0
FairPass (vr_get _ _) r = ReadsNamed r
FairPass (vr_update sent) r = FairUpdate (vr_update sent) r
FairPass (vr_update_status sent) r = FairUpdate (vr_update_status sent) r
FairPass _ r = Unit {0}

abbrev pub pass_spec : String → String → Spec Outcome
pass_spec namespace name = record {
  guard = PassGuard namespace name;
  fair = FairPass;
  stops = λ _ _. Unit {0};
  panics = Unit {0};
  exhausts = Unit {0};
}
