-- ===== src/Tracking/Swapping.antt =====
-- The stages of handleSyncing of internal/controller/volumeresize_controller.go from the migrator
-- pod to the StatefulSet that comes back: what they leave stored.
use migcontroller.Prelude.Dict.{lookup}
use migcontroller.VolumeResize.{config_map_key_sts_spec}
use migcontroller.Objects.{new_error, Except}
use migcontroller.Names.{get_sts_backup_config_map_name}
use migcontroller.Call.{config_map_get}
use migcontroller.Objects.{ConfigMap}
use migcontroller.Prelude.{
  ◌*◌, String, ◌≡◌, refl, subst, Option, none, some, List, [], ◌∷◌, Bool, true, false,
  if◌then◌else◌, arith,
}
use migcontroller.Prelude.Int32.{Int32}
use migcontroller.Objects.{
  ok, err, is_already_exists, Pvc, Pod, StatefulSet, PodPhase, running, pod_pending, pod_failed,
  succeeded, phase_unknown,
}
use migcontroller.VolumeResize.{
  VolumeResize, VolumeResizeTarget, VolumeStatus, VolumePhase, vol_synced, vol_completed,
}
use migcontroller.Call.{Lib}
use migcontroller.Prog.Safe.{OnOk}
use migcontroller.Prog.{attempt, expect, stop, Prog, ret, panic, ◌>>=◌}
use migcontroller.Status.{update_first, update_volume_status}
use migcontroller.Pvc.{second, replace_pvc}
use migcontroller.Sts.{
  delete_pod, wait_for_pod_termination, get_sts_from_backup_config_map, recreate_sts,
}
use migcontroller.Migrator.{create_migrator_pod, wait_for_migration_complete, cleanup_migrator_pod}
use migcontroller.Bookkeeping.{IsTracked, already_completed-update_first}
use migcontroller.Controller.Results.{Outcome, fail}
use migcontroller.Controller.Syncing.{
  after_wait_error, migrate, swap_claims, resize_templates, clear_deleted, create_resized,
  restore_sts,
}
use migcontroller.Plain.Claims.{replace_pvc-IsPlain}
use migcontroller.Plain.Sets.{
  create_migrator_pod-IsPlain, delete_pod-IsPlain, cleanup_migrator_pod-IsPlain,
}
use migcontroller.Plain.Loops.{
  wait_for_pod_termination-IsPlain, wait_for_migration_complete-IsPlain,
}
use migcontroller.Tracking.{
  Serves, IsBackup, MayPanic, no_requests, Tracks-try_of, Stored, view_of, Tracks, Tracks-then,
  Tracks-after, Tracks-try,
}
use migcontroller.Tracking.Moves.{IsAt, IsSettled, worked}
use migcontroller.Tracking.Stages.{Working, shown, changed, fail-Tracks, Touches-update_first}

IsTracked-update_first :
    (name : String) (replica : Int32) (phase : VolumePhase) (message : String)
    (ss : List VolumeStatus)
    → IsTracked name replica (update_first name replica phase message ss)
    → IsTracked name replica ss
unfolding update_first
IsTracked-update_first name replica phase message [] tracked = tracked
IsTracked-update_first name replica phase message (vs ∷ rest) tracked =
    ground (arith, tracked, IsTracked-update_first name replica phase message rest)

-- The volume of the replica is completed in the stored object, which the handler holds.
pub record Migrated (replica : Int32) (name : String) (s : Stored) (vr : VolumeResize)
    : Type 0 where
  pub view : view_of vr ≡ s
  pub here : IsAt replica name s.status
  pub settled : IsSettled replica name s.status.volume_statuses

module _ (served : Serves) (lib : Lib) where
  phase-Tracks :
      (s : Stored) (phase : PodPhase) (m n p q : Prog Outcome (Unit {0}))
      (post : Stored → Unit {0} → Type 0)
      → Tracks served lib s m post
      → Tracks served lib s n post
      → Tracks served lib s p post
      → Tracks served lib s q post
      → Tracks served lib s
          (elim phase [ running ↦ m | pod_pending ↦ n | pod_failed ↦ p | _ ↦ q ])
          post
  phase-Tracks s running m n p q post a b c d = a
  phase-Tracks s pod_pending m n p q post a b c d = b
  phase-Tracks s pod_failed m n p q post a b c d = c
  phase-Tracks s succeeded m n p q post a b c d = d
  phase-Tracks s phase_unknown m n p q post a b c d = d

  module _ {replica : Int32} {name : String} (s : Stored) (vr : VolumeResize)
      (working : Working replica name s vr) where
    after_wait_error-Tracks :
        (pod : String) → Tracks served lib s (after_wait_error vr pod) (λ s' _. s' ≡ s)
    unfolding after_wait_error
    after_wait_error-Tracks pod = elim [
      | err _ ↦ refl
      | ok p ↦
          phase-Tracks s p.phase _ _ _ _ _ tt tt
            (fail-Tracks served lib s vr working (Unit {0}) _ _) refl
    ]

    pub migrate-Tracks :
        (vol : VolumeResizeTarget)
        → Tracks served lib s (migrate vr vol name replica) (λ s' _. s' ≡ s)
    unfolding migrate
    migrate-Tracks vol =
        Tracks-after served lib s (delete_pod _ _ replica) _ _ (delete_pod-IsPlain _ _ _ replica)
          (λ _.
            Tracks-try served lib s (wait_for_pod_termination _ _ (120 * second)) _ _ _
              (wait_for_pod_termination-IsPlain Outcome _ _ (120 * second)) (λ _. tt)
              (λ _.
                Tracks-try served lib s (create_migrator_pod vr vol replica _ _) _ _ _
                  (create_migrator_pod-IsPlain _ vr vol replica _ _)
                  (λ e. fail-Tracks served lib s vr working Pod _ _)
                  (λ pod.
                    Tracks-try served lib s (wait_for_migration_complete _ _ (3600 * second)) _ _ _
                      (wait_for_migration_complete-IsPlain Outcome _ _ (3600 * second))
                      (λ _. after_wait_error-Tracks pod.meta.name)
                      (λ _.
                        Tracks-after served lib s
                          (cleanup_migrator_pod pod.meta.name vr.meta.namespace) _ _
                          (cleanup_migrator_pod-IsPlain _ pod.meta.name vr.meta.namespace)
                          (λ _. refl)))))

    pub swap_claims-Tracks :
        (vol : VolumeResizeTarget)
        → Tracks served lib s (swap_claims vr vol name replica) (Migrated replica name)
    unfolding swap_claims update_volume_status
    swap_claims-Tracks vol =
        let synced = update_volume_status vr name replica vol_synced "Migration complete" in
        let first : Working replica name s synced =
          changed served lib s vr working _
            (Touches-update_first name replica vol_synced _ working.touches) in
        Tracks-try served lib s (replace_pvc synced vol replica) _ _ _
          (replace_pvc-IsPlain _ Outcome synced vol replica)
          (λ e. fail-Tracks served lib s synced first (Unit {0}) _ _)
          (λ _.
            let done =
              changed served lib s synced first _
                (Touches-update_first name replica vol_completed "PVC replaced" first.touches) in
            (
              done.target,
              (
                worked replica name done.here done.there done.touches,
                elim [
                  | ok x ↦ λ e. record {
                    view = e;
                    here = done.there;
                    settled = λ tracked.
                        already_completed-update_first name replica "PVC replaced" _ (
                          IsTracked-update_first name replica vol_completed "PVC replaced" _
                            tracked);
                  }
                  | err _ ↦ (tt, tt)
                ],
              ),
            ))

    create_resized-Tracks :
        (sts : StatefulSet) (templates : List Pvc)
        → Tracks served lib s (create_resized vr sts templates) (λ s' _. s' ≡ s)
    unfolding create_resized recreate_sts
    create_resized-Tracks sts templates = elim [
      | ok _ ↦ refl
      | err e ↦ tolerated_exists (is_already_exists e) _
    ]
      where
        tolerated_exists :
            (b : Bool) (message : String)
            → Tracks served lib s (if b then ret tt else fail vr message) (λ s' _. s' ≡ s)
        tolerated_exists true message = refl
        tolerated_exists false message = fail-Tracks served lib s vr working (Unit {0}) message _

    templates-Tracks :
        (sts : StatefulSet) (o : Option (List Pvc))
        → (o ≡ none → MayPanic served lib s)
        → Tracks served lib s
            (elim o [ none ↦ panic | some templates ↦ create_resized vr sts templates ])
            (λ s' _. s' ≡ s)
    templates-Tracks sts none panics = panics refl
    templates-Tracks sts (some templates) _ = create_resized-Tracks sts templates

  -- what comes from the backup was read from its JSON
  module _ (namespace name : String) where
    abbrev IsRead : StatefulSet → Type 0
    IsRead sts =
        (json : String) × (IsBackup served namespace name json × (lib.unmarshal json ≡ ok sts))

    abbrev FromBackup : Stored → Stored → Except StatefulSet → Type 0
    FromBackup s s' r = (s' ≡ s) × OnOk r IsRead

    read-Tracks :
        (s : Stored) (message json : String) (r : Except StatefulSet)
        → IsBackup served namespace name json
        → lib.unmarshal json ≡ r
        → Tracks served lib {X = Outcome} s (attempt (expect message r)) (FromBackup s)
    read-Tracks s message json (ok sts) backup e = (refl, (json, (backup, e)))
    read-Tracks s message json (err x) backup e = (refl, tt)

    key-Tracks :
        (s : Stored) (missing message : String) (cm : ConfigMap) (o : Option String)
        → served (config_map_get namespace (get_sts_backup_config_map_name name)) (ok cm)
        → lookup config_map_key_sts_spec cm.entries ≡ o
        → Tracks served lib {X = Outcome} s
            (attempt (
              (elim o [ some json ↦ ret json | none ↦ stop (new_error missing) ]) >>= λ json.
              expect message (lib.unmarshal json)))
            (FromBackup s)
    key-Tracks s missing message cm none is e = (refl, tt)
    key-Tracks s missing message cm (some json) is e =
        read-Tracks s message json (lib.unmarshal json)
          (record { config_map = cm; answered = is; text = e }) refl

    get_backup-Tracks :
        (s : Stored)
        → Tracks served lib {X = Outcome} s
            (get_sts_from_backup_config_map lib namespace name)
            (FromBackup s)
    unfolding get_sts_from_backup_config_map
    get_backup-Tracks s = elim [
      | ok cm ↦ λ is. key-Tracks s _ _ cm (lookup config_map_key_sts_spec cm.entries) is refl
      | err _ ↦ λ _. (refl, tt)
    ]

  module _ {replica : Int32} {name : String} (s : Stored) (vr : VolumeResize)
      (migrated : Migrated replica name s vr) where
    pub restore_sts-Tracks : Tracks served lib s (restore_sts lib vr) (Migrated replica name)
    unfolding restore_sts clear_deleted
    restore_sts-Tracks =
        let working = shown replica name s vr migrated.view migrated.here in
        Tracks-try_of served lib s (get_sts_from_backup_config_map lib _ _) _ _
          (IsRead vr.meta.namespace vr.meta.name) _
          (get_backup-Tracks vr.meta.namespace vr.meta.name s)
          (λ e. fail-Tracks served lib s vr working StatefulSet _ _)
          (λ sts read.
            Tracks-then served lib s
              (elim (resize_templates vr.spec.volumes sts.spec.volume_claim_templates) [
                | none ↦ panic
                | some templates ↦ create_resized vr sts templates
              ])
              _ _
              (templates-Tracks s vr working sts
                (resize_templates vr.spec.volumes sts.spec.volume_claim_templates)
                (λ e.
                  subst (λ x. MayPanic served lib x) migrated.view
                    (no_requests read.0 sts read.1.0 read.1.1 e)))
              (λ _. (
                working.target,
                elim [
                  | err _ ↦ tt
                  | ok x ↦
                      λ e. record { view = e; here = migrated.here; settled = migrated.settled }
                ],
              )))
