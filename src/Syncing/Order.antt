-- ===== src/Syncing/Order.antt =====
-- The whole of handleSyncing: what stands before each of its destructive requests.
use migcontroller.Prelude.{
  String, ◌≡◌, refl, sym, subst, Option, none, some, Bool, true, false, [], ◌∷◌,
}
use migcontroller.Prelude.Int32.{Int32}
use migcontroller.VolumeResize.{VolumeResize, syncing}
use migcontroller.Call.{
  Call, Lib, vr_update_status, sts_create, sts_delete_orphan, pvc_delete, pod_create,
}
use migcontroller.Prog.{Prog, Log, Handler, run, panic}
use migcontroller.Prog.Safe.{Spec, Safe, Extends-trans, Safe-bind, Guarded, AllFair, run-Safe}
use migcontroller.Names.{get_original_pvc_name}
use migcontroller.Status.{find_target, already_completed}
use migcontroller.Controller.Results.{Outcome}
use migcontroller.Controller.Syncing.{
  prepare_volumes, mark_syncing, detach_sts, migrate, swap_claims, restore_sts, await_pod, advance,
  sync_volume, handle_syncing,
}
use migcontroller.Syncing.Guard.{
  Target, IsOf, sync_spec, SyncGuard, RetainGuard, MigratedGuard, BackupGuard, PodGuard, SwapGuard,
  PhaseGuard, FairUpdate, KeepsVolume, IsOver, IsSwapped, original_name,
}
use migcontroller.Syncing.Claims.{prepare_volumes-Safe, KeepsVolume-Extends}
use migcontroller.Syncing.Pods.{migrate-Safe}
use migcontroller.Syncing.Detach.{detach_sts-Safe}
use migcontroller.Syncing.Restore.{swap_claims-Safe, restore_sts-Safe, await_pod-Safe, advance-Safe}

-- the target of a run
abbrev pub target_of : VolumeResize → Int32 → Target
target_of vr replica = record {
  namespace = vr.meta.namespace;
  vr_name = vr.meta.name;
  sts_name = vr.spec.stateful_set_name;
  vol = find_target vr.status.current_volume vr.spec.volumes;
  replica = replica;
}

mark_syncing-IsOf :
    {t : Target} {vr : VolumeResize} (vol_name : String) (replica : Int32) (old_pv_name : String)
    → IsOf t vr
    → IsOf t (mark_syncing vr vol_name replica old_pv_name)
unfolding mark_syncing
mark_syncing-IsOf vol_name replica old_pv_name of = record {
  namespace = of.namespace;
  name = of.name;
  sts_name = of.sts_name;
  in_syncing = of.in_syncing;
}

module _ (lib : Lib) (vr : VolumeResize) (replica : Int32) where
  sync_volume-Safe :
      (l : Log)
      → vr.status.phase ≡ syncing
      → (find_target vr.status.current_volume vr.spec.volumes).name ≡ vr.status.current_volume
      → Safe
          (sync_spec lib (target_of vr replica))
          l
          (sync_volume lib vr replica vr.status.current_volume)
          (λ _ _. Unit {0})
  unfolding sync_volume
  sync_volume-Safe l phase named =
      Safe-bind s l (prepare_volumes vr t.vol vol_name replica) _
        (λ l' _. KeepsVolume t.namespace (get_original_pvc_name vol_name t.sts_name replica) l') _
        (prepare_volumes-Safe lib t l vr t.vol vol_name replica)
        (λ l₁ p x₁ kept.
          Safe-bind s l₁ (detach_sts lib (mark_syncing vr vol_name replica p.volume_name)) _
            (λ _ v. IsOf t v) _
            (detach_sts-Safe lib t l₁ (mark_syncing vr vol_name replica p.volume_name)
              (mark_syncing-IsOf vol_name replica p.volume_name own))
            (λ l₂ detached x₂ of.
              Safe-bind s l₂ (migrate detached t.vol vol_name replica) _
                (λ l' _. IsOver t t.namespace l') _
                (subst
                  (λ n.
                    Safe s l₂ (migrate detached t.vol n replica) (λ l' _. IsOver t t.namespace l'))
                  named (migrate-Safe lib t l₂ detached of))
                (λ l₃ _ x₃ over.
                  Safe-bind s l₃ (swap_claims detached t.vol vol_name replica) _
                    (λ l' v. IsOf t v × IsSwapped t l') _
                    (subst
                      (λ n.
                        Safe s l₃ (swap_claims detached t.vol n replica)
                          (λ l' v. IsOf t v × IsSwapped t l'))
                      named
                      (swap_claims-Safe lib t l₃ detached of
                        (KeepsVolume-Extends t.namespace (original_name t) (at_target l₁ kept)
                          (Extends-trans x₂ x₃))
                        over))
                    (λ l₄ swapped x₄ (of', done).
                      Safe-bind s l₄ (restore_sts lib swapped) _ (λ _ v. IsOf t v) _
                        (restore_sts-Safe lib t l₄ swapped of' done)
                        (λ l₅ restored x₅ of''.
                          Safe-bind s l₅ (await_pod restored replica) _ (λ _ _. Unit {0}) _
                            (await_pod-Safe lib t l₅ restored replica)
                            (λ l₆ _ x₆ _. advance-Safe lib t l₆ restored replica vol_name of''))))))
    where
      t : Target
      t = target_of vr replica

      s : Spec Outcome
      s = sync_spec lib (target_of vr replica)

      vol_name : String
      vol_name = vr.status.current_volume

      own : IsOf (target_of vr replica) vr
      own = record { namespace = refl; name = refl; sts_name = refl; in_syncing = phase }

      at_target :
          (m : Log)
          → KeepsVolume vr.meta.namespace
              (get_original_pvc_name vr.status.current_volume vr.spec.stateful_set_name replica)
              m
          → KeepsVolume vr.meta.namespace (original_name (target_of vr replica)) m
      at_target m h =
          subst
            (λ n.
              KeepsVolume vr.meta.namespace
                (get_original_pvc_name n vr.spec.stateful_set_name replica) m)
            (sym named) h

  pub handle_syncing-Safe :
      (l : Log)
      → vr.status.phase ≡ syncing
      → vr.status.current_replica ≡ some replica
      → (find_target vr.status.current_volume vr.spec.volumes).name ≡ vr.status.current_volume
      → Safe (sync_spec lib (target_of vr replica)) l (handle_syncing lib vr) (λ _ _. Unit {0})
  unfolding handle_syncing
  handle_syncing-Safe l phase current named =
      subst at_replica (sym current)
        (at_entry (already_completed vr.status.current_volume replica vr.status.volume_statuses))
    where
      s : Spec Outcome
      s = sync_spec lib (target_of vr replica)

      entry : Int32 → Bool → Prog Outcome Outcome
      entry r b = elim b [
        | true ↦ advance vr r vr.status.current_volume
        | false ↦ sync_volume lib vr r vr.status.current_volume
      ]

      at_replica : Option Int32 → Type 0
      at_replica o =
          Safe (sync_spec lib (target_of vr replica)) l
            (elim o [
              | none ↦ panic
              | some r ↦
                  entry r (already_completed vr.status.current_volume r vr.status.volume_statuses)
            ])
            (λ _ _. Unit {0})

      own : IsOf (target_of vr replica) vr
      own = record { namespace = refl; name = refl; sts_name = refl; in_syncing = phase }

      at_entry :
          (b : Bool)
          → Safe (sync_spec lib (target_of vr replica)) l (entry replica b) (λ _ _. Unit {0})
      at_entry true =
          advance-Safe lib (target_of vr replica) l vr replica vr.status.current_volume own
      at_entry false = sync_volume-Safe l phase named

-- A weaker guard holds in the same logs.
Guarded-mono :
    (g g' : Log → Call → Type 0)
    → ((l : Log) (c : Call) → g l c → g' l c)
    → (l : Log) → Guarded g l
    → Guarded g' l
Guarded-mono g g' weaken [] h = tt
Guarded-mono g g' weaken (e ∷ l) h = (weaken l e.0 h.0, Guarded-mono g g' weaken l h.1)

module _ (lib : Lib) (t : Target) where
  SyncGuard-Retain : (l : Log) (c : Call) → SyncGuard lib t l c → RetainGuard t l c
  SyncGuard-Retain l (pvc_delete namespace name) g = g.0
  SyncGuard-Retain l _ g = tt

  SyncGuard-Migrated : (l : Log) (c : Call) → SyncGuard lib t l c → MigratedGuard t l c
  SyncGuard-Migrated l (pvc_delete namespace name) g = g.1
  SyncGuard-Migrated l _ g = tt

  SyncGuard-Backup : (l : Log) (c : Call) → SyncGuard lib t l c → BackupGuard lib t l c
  SyncGuard-Backup l (sts_delete_orphan namespace name) g = g
  SyncGuard-Backup l _ g = tt

  SyncGuard-Pod : (l : Log) (c : Call) → SyncGuard lib t l c → PodGuard t l c
  SyncGuard-Pod l (pod_create pod) g = g
  SyncGuard-Pod l _ g = tt

  SyncGuard-Swap : (l : Log) (c : Call) → SyncGuard lib t l c → SwapGuard t l c
  SyncGuard-Swap l (sts_create sts) g = g
  SyncGuard-Swap l _ g = tt

  SyncGuard-Phase : (l : Log) (c : Call) → SyncGuard lib t l c → PhaseGuard l c
  SyncGuard-Phase l (vr_update_status vr) g = g
  SyncGuard-Phase l _ g = tt

module _ {W : Type 0} (h : Handler W) (lib : Lib) (vr : VolumeResize) (replica : Int32) (w : W)
    (phase : vr.status.phase ≡ syncing) (current : vr.status.current_replica ≡ some replica)
    (named : (find_target vr.status.current_volume vr.spec.volumes).name ≡ vr.status.current_volume)
    (fair : AllFair FairUpdate (run h (handle_syncing lib vr) w []).log) where
  handle_syncing-Guarded :
      Guarded (SyncGuard lib (target_of vr replica)) (run h (handle_syncing lib vr) w []).log
  handle_syncing-Guarded =
      (run-Safe h (sync_spec lib (target_of vr replica)) (handle_syncing lib vr) (λ _ _. Unit {0}) w
        [] fair (handle_syncing-Safe lib vr replica [] phase current named) tt).0

  -- In a run of handleSyncing in phase Syncing, on a replica and a volume of the spec, where
  -- updates of the VolumeResize answer with the name, spec and phase that were sent, a claim is
  -- deleted only after it was read as the original or the temporary claim of the volume and
  -- replica, and a volume that a read of that claim named was read as Retain or set to it.
  pub claims_deleted_retained :
      Guarded (RetainGuard (target_of vr replica)) (run h (handle_syncing lib vr) w []).log
  claims_deleted_retained =
      Guarded-mono _ _ (SyncGuard-Retain lib (target_of vr replica)) _ handle_syncing-Guarded

  -- In a run of handleSyncing in phase Syncing, on a replica and a volume of the spec, where
  -- updates of the VolumeResize answer with the name, spec and phase that were sent, a claim is
  -- deleted only after the migrator pod of the volume and replica was seen (created to copy from
  -- the original claim to the temporary one, or found under the migrator's name), and a later read
  -- under its name gave Succeeded, or failed, or gave a phase that is none of Pending, Running,
  -- Succeeded and Failed.
  pub claims_deleted_migrated :
      Guarded (MigratedGuard (target_of vr replica)) (run h (handle_syncing lib vr) w []).log
  claims_deleted_migrated =
      Guarded-mono _ _ (SyncGuard-Migrated lib (target_of vr replica)) _ handle_syncing-Guarded

  -- In a run of handleSyncing in phase Syncing, on a replica and a volume of the spec, where
  -- updates of the VolumeResize answer with the name, spec and phase that were sent, the
  -- StatefulSet is deleted only as it was read, and after its backup ConfigMap was found, or was
  -- created with its JSON text.
  pub sts_deleted_backed_up :
      Guarded (BackupGuard lib (target_of vr replica)) (run h (handle_syncing lib vr) w []).log
  sts_deleted_backed_up =
      Guarded-mono _ _ (SyncGuard-Backup lib (target_of vr replica)) _ handle_syncing-Guarded

  -- In a run of handleSyncing in phase Syncing, on a replica and a volume of the spec, where
  -- updates of the VolumeResize answer with the name, spec and phase that were sent, a pod is
  -- created only after a read of the replica's own pod found none.
  pub migrator_created_alone :
      Guarded (PodGuard (target_of vr replica)) (run h (handle_syncing lib vr) w []).log
  migrator_created_alone =
      Guarded-mono _ _ (SyncGuard-Pod lib (target_of vr replica)) _ handle_syncing-Guarded

  -- In a run of handleSyncing in phase Syncing, on a replica and a volume of the spec, where
  -- updates of the VolumeResize answer with the name, spec and phase that were sent, the
  -- StatefulSet is created only after a claim with the original name and the new size was created,
  -- and a status of the VolumeResize, still in Syncing, was saved that has an entry for the volume
  -- and replica exactly if it has one that is Completed.
  pub sts_created_swapped :
      Guarded (SwapGuard (target_of vr replica)) (run h (handle_syncing lib vr) w []).log
  sts_created_swapped =
      Guarded-mono _ _ (SyncGuard-Swap lib (target_of vr replica)) _ handle_syncing-Guarded

  -- In a run of handleSyncing in phase Syncing, on a replica and a volume of the spec, where
  -- updates of the VolumeResize answer with the name, spec and phase that were sent, the phases
  -- saved in the status are Syncing, Completed and Failed.
  pub syncing_phases : Guarded PhaseGuard (run h (handle_syncing lib vr) w []).log
  syncing_phases =
      Guarded-mono _ _ (SyncGuard-Phase lib (target_of vr replica)) _ handle_syncing-Guarded
