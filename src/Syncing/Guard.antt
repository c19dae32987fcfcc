-- ===== src/Syncing/Guard.antt =====
-- What must have happened before each destructive request of handleSyncing.
use mathlib.Core.List.{Memᴰ}
use migcontroller.Prelude.{String, ◌++◌, any, ◌≡◌, ◌⊎◌, true, some, [], ◌∷◌}
use migcontroller.Prelude.Dict.{lookup}
use migcontroller.Prelude.Int32.{Int32, show}
use migcontroller.Objects.{
  GoError, Except, ok, err, is_not_found, Pvc, Pv, retain, Pod, succeeded, phase_unknown,
  StatefulSet, ConfigMap,
}
use migcontroller.VolumeResize.{
  VolumeResize, VolumeResizeTarget, Phase, syncing, completed, failed, config_map_key_sts_spec,
}
use migcontroller.Call.{
  Call, Answer, Lib, vr_create, vr_delete, vr_update, vr_update_status, sts_get, sts_create,
  sts_delete_orphan, pvc_get, pvc_create, pvc_delete, pv_get, pv_update, pod_get, pod_create,
  config_map_get, config_map_create,
}
use migcontroller.Prog.{Log}
use migcontroller.Prog.Safe.{Spec, Extends}
use migcontroller.Names.{
  get_original_pvc_name, get_temp_pvc_name, get_pod_name, get_sts_backup_config_map_name,
}
use migcontroller.Status.{is_for, already_completed}
use migcontroller.Controller.Results.{Outcome}

-- The request was made, with that answer.
abbrev pub Has : Log → (c : Call) → Answer c → Type 0
Has l c r = Memᴰ (c, r) l

-- What one run of handleSyncing works on.
pub record Target : Type 0 where
  pub namespace : String
  pub vr_name : String
  pub sts_name : String
  pub vol : VolumeResizeTarget
  pub replica : Int32

abbrev pub original_name : Target → String
original_name t = get_original_pvc_name t.vol.name t.sts_name t.replica

abbrev pub temp_name : Target → String
temp_name t = get_temp_pvc_name t.vol.name t.sts_name t.replica

-- The volume was read with the policy Retain, or was set to it after it was read.
abbrev pub IsRetained : String → Log → Type 0
IsRetained name l =
    (pv : Pv) × Has l (pv_get name) (ok pv)
    × ((pv.reclaim_policy ≡ retain)
        ⊎ ((stored : Pv) × Has l (pv_update (record pv { reclaim_policy = retain })) (ok stored)))

-- The claim was read, and the volume that it named is retained.
abbrev pub KeepsVolume : String → String → Log → Type 0
KeepsVolume namespace name l =
    (p : Pvc) × Has l (pvc_get namespace name) (ok p) × IsRetained p.volume_name l

-- the name that the migrator pod of the volume and replica goes by
abbrev pub migrator_name : Target → String
migrator_name t = t.vr_name ++ ("-migrator-" ++ (show t.replica ++ ("-" ++ t.vol.name)))

-- A pod that is told to copy from the original claim, at /source, to the temporary one, at /dest.
pub record IsMigrator (t : Target) (pod : Pod) : Type 0 where
  pub namespace : pod.meta.namespace ≡ t.namespace
  pub name : pod.meta.name ≡ migrator_name t
  pub env : pod.spec.env ≡ ("SOURCE_PATH", "/source") ∷ ("DEST_PATH", "/dest") ∷ []
  pub mounts : pod.spec.volume_mounts ≡ ("source", "/source") ∷ ("dest", "/dest") ∷ []
  pub volumes : pod.spec.volumes ≡ ("source", original_name t) ∷ ("dest", temp_name t) ∷ []

-- The migrator pod has that name: it was created, or a read under the migrator's name found it.
abbrev pub WasSeen : Target → String → Log → Type 0
WasSeen t name l =
    (pod : Pod) × (pod.meta.name ≡ name)
    × (((c : Pod) × Has l (pod_create c) (ok pod) × IsMigrator t c)
        ⊎ Has l (pod_get t.namespace (migrator_name t)) (ok pod))

-- The migrator pod, once it had been seen, was read as succeeded; or a read of it failed or gave
-- the phase Unknown.
abbrev pub IsOver : Target → String → Log → Type 0
IsOver t namespace l =
    (name : String) × (m : Log) × WasSeen t name m
    × (((pod : Pod) × Extends m l
          × Has l (pod_get namespace name) (ok pod)
          × (pod.phase ≡ succeeded))
        ⊎ (((e : GoError) × Extends ((pod_get namespace name, err e) ∷ m) l)
            ⊎ ((pod : Pod) × Extends ((pod_get namespace name, ok pod) ∷ m) l
                × (pod.phase ≡ phase_unknown))))

-- There is a ConfigMap under the backup's name: an earlier one, or one with this StatefulSet.
abbrev pub IsBackedUp : Lib → String → String → StatefulSet → Log → Type 0
IsBackedUp lib namespace vr_name sts l =
    ((cm : ConfigMap) × Has l (config_map_get namespace (get_sts_backup_config_map_name vr_name))
        (ok cm))
    ⊎ ((cm : ConfigMap) × (stored : ConfigMap) × (json : String) × (lib.marshal sts ≡ ok json)
        × (cm.meta.namespace ≡ namespace)
        × (cm.meta.name ≡ get_sts_backup_config_map_name vr_name)
        × (lookup config_map_key_sts_spec cm.entries ≡ some json)
        × Has l (config_map_create cm) (ok stored))

-- The object in hand is the target's.
pub record IsOf (t : Target) (vr : VolumeResize) : Type 0 where
  pub namespace : vr.meta.namespace ≡ t.namespace
  pub name : vr.meta.name ≡ t.vr_name
  pub sts_name : vr.spec.stateful_set_name ≡ t.sts_name
  pub in_syncing : vr.status.phase ≡ syncing

-- A claim with the original name and the new size was created, and then a status of the target was
-- saved that has an entry for the volume on the replica exactly if it has one that is Completed.
abbrev pub IsSwapped : Target → Log → Type 0
IsSwapped t l =
    (p : Pvc) × (stored : Pvc) × (vr : VolumeResize) × (saved : VolumeResize) × (p.meta.name
      ≡ original_name t)
    × (p.requests ≡ some (("storage", t.vol.new_size) ∷ []))
    × Has l (pvc_create p) (ok stored)
    × Has l (vr_update_status vr) (ok saved)
    × IsOf t vr
    × (any (is_for t.vol.name t.replica) vr.status.volume_statuses
        ≡ already_completed t.vol.name t.replica vr.status.volume_statuses)

-- The phases that may follow Syncing.
abbrev pub FollowsSyncing : Phase → Type 0
FollowsSyncing syncing = Unit {0}
FollowsSyncing completed = Unit {0}
FollowsSyncing failed = Unit {0}
FollowsSyncing _ = ⊥

-- The claim was read as the original or the temporary claim of the target, and its volume is
-- retained.
abbrev pub MayDeleteClaim : Target → Log → String → String → Type 0
MayDeleteClaim t l namespace name =
    (p : Pvc) × (q : String) × ((q ≡ original_name t) ⊎ (q ≡ temp_name t))
    × Has l (pvc_get t.namespace q) (ok p)
    × (p.meta.namespace ≡ namespace)
    × (p.meta.name ≡ name)
    × KeepsVolume t.namespace q l

-- The StatefulSet is deleted as it was read, and after its backup.
abbrev pub MayOrphan : Lib → Target → Log → String → String → Type 0
MayOrphan lib t l namespace name =
    (sts : StatefulSet) × Has l (sts_get t.namespace t.sts_name) (ok sts)
    × (sts.meta.namespace ≡ namespace)
    × (sts.meta.name ≡ name)
    × IsBackedUp lib t.namespace t.vr_name sts l

-- A read of the replica's pod found none.
abbrev pub IsPodGone : Target → Log → Type 0
IsPodGone t l =
    (e : GoError) × Has l (pod_get t.namespace (get_pod_name t.sts_name t.replica)) (err e)
    × (is_not_found e ≡ true)

-- The guards of the requests, one family for each property.
abbrev pub RetainGuard : Target → Log → Call → Type 0
RetainGuard t l (pvc_delete namespace name) = MayDeleteClaim t l namespace name
RetainGuard t l _ = Unit {0}

abbrev pub MigratedGuard : Target → Log → Call → Type 0
MigratedGuard t l (pvc_delete namespace name) = IsOver t t.namespace l
MigratedGuard t l _ = Unit {0}

abbrev pub BackupGuard : Lib → Target → Log → Call → Type 0
BackupGuard lib t l (sts_delete_orphan namespace name) = MayOrphan lib t l namespace name
BackupGuard lib t l _ = Unit {0}

abbrev pub PodGuard : Target → Log → Call → Type 0
PodGuard t l (pod_create pod) = IsPodGone t l
PodGuard t l _ = Unit {0}

abbrev pub SwapGuard : Target → Log → Call → Type 0
SwapGuard t l (sts_create sts) = IsSwapped t l
SwapGuard t l _ = Unit {0}

abbrev pub PhaseGuard : Log → Call → Type 0
PhaseGuard l (vr_update_status vr) = FollowsSyncing vr.status.phase
PhaseGuard l _ = Unit {0}

-- All of them.
abbrev pub SyncGuard : Lib → Target → Log → Call → Type 0
SyncGuard lib t l (pvc_delete namespace name) =
    MayDeleteClaim t l namespace name × IsOver t t.namespace l
SyncGuard lib t l (sts_delete_orphan namespace name) = MayOrphan lib t l namespace name
SyncGuard lib t l (pod_create pod) = IsPodGone t l
SyncGuard lib t l (sts_create sts) = IsSwapped t l
SyncGuard lib t l (vr_update_status vr) = FollowsSyncing vr.status.phase
SyncGuard lib t l (vr_create _) = ⊥
SyncGuard lib t l (vr_delete _ _) = ⊥
SyncGuard lib t l _ = Unit {0}

-- The object that an update answers with has the name, the spec and the phase that were sent: the
-- status of a plain update is the stored one, whose phase the handler has not changed yet.
abbrev pub SameTarget : VolumeResize → VolumeResize → Type 0
SameTarget sent vr =
    (vr.meta.namespace ≡ sent.meta.namespace)
    × (vr.meta.name ≡ sent.meta.name)
    × (vr.spec ≡ sent.spec)
    × (vr.status.phase ≡ sent.status.phase)

abbrev pub AnswersSame : VolumeResize → Except VolumeResize → Type 0
AnswersSame sent (ok vr) = SameTarget sent vr
AnswersSame sent (err _) = Unit {0}

abbrev pub FairUpdate : (c : Call) → Answer c → Type 0
FairUpdate (vr_update sent) r = AnswersSame sent r
FairUpdate (vr_update_status sent) r = AnswersSame sent r
FairUpdate _ r = Unit {0}

abbrev pub sync_spec : Lib → Target → Spec Outcome
sync_spec lib t = record {
  guard = SyncGuard lib t;
  fair = FairUpdate;
  stops = λ l o. Unit {0};
  panics = Unit {0};
  exhausts = Unit {0};
}
