-- ===== src/Tracking/Stages.antt =====
-- The stages of handleSyncing before the migrator pod: what they leave stored, and what they know
-- of it.
use migcontroller.Prelude.{
  String, ◌≡◌, refl, subst, List, [], ◌∷◌, Bool, true, false, Bool-cases, inl, inr, if◌then◌else◌,
}
use migcontroller.Prelude.Int32.{Int32}
use migcontroller.Objects.{ok, err, is_not_found, Pvc, StatefulSet}
use migcontroller.VolumeResize.{
  VolumeResize, VolumeResizeTarget, VolumeStatus, VolumePhase, vol_syncing,
}
use migcontroller.Call.{Lib, vr_update_status}
use migcontroller.Prog.{ret, stop, call, on_error}
use migcontroller.Status.{is_for, update_first, update_volume_status, update_volume_status_in_list}
use migcontroller.Pvc.{get_pvc, create_temp_pvc, set_retain_on_pv}
use migcontroller.Sts.{backup_sts_to_config_map, delete_sts_orphan}
use migcontroller.Controller.Results.{Outcome, failure, fail, set_failed, save_status}
use migcontroller.Controller.Syncing.{
  wait_for_binding, is_bound, prepare_volumes, mark_syncing, annotate_deleted, orphan_sts,
  detach_sts, sts_marked_deleted,
}
use migcontroller.Plain.{IsPlain-if}
use migcontroller.Plain.Claims.{
  get_pvc-IsPlain, create_temp_pvc-IsPlain, set_retain_on_pv-IsPlain, wait_for_binding-IsPlain,
}
use migcontroller.Plain.Sets.{backup-IsPlain, delete_sts_orphan-IsPlain}
use migcontroller.Tracking.{
  Serves, IsServed, target_of, Stored, view_of, saved, Tracks, Tracks-after, Tracks-try, Tracks-if,
}
use migcontroller.Tracking.Moves.{Touches, nothing, kept, touched, IsAt, Move, worked, broke}

Touches-refl :
    (name : String) (replica : Int32) (ss : List VolumeStatus) → Touches name replica ss ss
Touches-refl name replica [] = nothing
Touches-refl name replica (vs ∷ rest) = kept vs (Touches-refl name replica rest)

pub Touches-update_first :
    (name : String) (replica : Int32) (phase : VolumePhase) (message : String)
    {ss ss' : List VolumeStatus}
    → Touches name replica ss ss'
    → Touches name replica ss (update_first name replica phase message ss')
unfolding update_first
Touches-update_first name replica phase message nothing = nothing
Touches-update_first name replica phase message (kept vs t) =
    elim (Bool-cases (is_for name replica vs)) [
      | inl e ↦ rw e (touched vs _ e e t)
      | inr e ↦ rw e (kept vs (Touches-update_first name replica phase message t))
    ]
Touches-update_first name replica phase message (touched vs vs' e e' t) =
    rw e' (touched vs _ e e' t)

Touches-update_volume_status_in_list :
    (name : String) (replica : Int32) (f : VolumeStatus → VolumeStatus) {ss ss' : List VolumeStatus}
    → ((vs : VolumeStatus) → is_for name replica vs ≡ true → is_for name replica (f vs) ≡ true)
    → Touches name replica ss ss'
    → Touches name replica ss (update_volume_status_in_list ss' name replica f)
unfolding update_volume_status_in_list
Touches-update_volume_status_in_list name replica f keeps nothing = nothing
Touches-update_volume_status_in_list name replica f keeps (kept vs t) =
    elim (Bool-cases (is_for name replica vs)) [
      | inl e ↦ rw e (
          touched vs (f vs) e (keeps vs e)
            (Touches-update_volume_status_in_list name replica f keeps t))
      | inr e ↦ rw e (kept vs (Touches-update_volume_status_in_list name replica f keeps t))
    ]
Touches-update_volume_status_in_list name replica f keeps (touched vs vs' e e' t) = rw e' (
    touched vs (f vs') e (keeps vs' e')
      (Touches-update_volume_status_in_list name replica f keeps t))

-- The handler works on an object whose stored status is at the volume and replica.
pub record Working (replica : Int32) (name : String) (s : Stored) (vr : VolumeResize) : Type 0 where
  pub target : target_of vr ≡ s.target
  pub here : IsAt replica name s.status
  pub there : IsAt replica name vr.status
  pub touches : Touches name replica s.status.volume_statuses vr.status.volume_statuses

-- the object that an answer shows
pub shown :
    (replica : Int32) (name : String) (s : Stored) (vr : VolumeResize)
    → view_of vr ≡ s
    → IsAt replica name s.status
    → Working replica name s vr
shown replica name s vr e =
    subst (λ (x : Stored). IsAt replica name x.status → Working replica name x vr) e
      (λ at. record {
        target = refl;
        here = at;
        there = at;
        touches = Touches-refl name replica vr.status.volume_statuses;
      })

module _ (served : Serves) (lib : Lib) where
  -- a handler that ends with a save of the status
  pub save_status-Tracks :
      (s : Stored) (o : Outcome) (vr : VolumeResize)
      → target_of vr ≡ s.target
      → Move (IsServed served s.target) s.target.2.volumes s.status vr.status
      → Tracks served lib s (save_status o vr) (λ _ _. Unit {0})
  unfolding save_status
  save_status-Tracks s o vr target move =
      (target, (move, elim [ ok _ ↦ λ _. tt | err _ ↦ (tt, tt) ]))

  module _ {replica : Int32} {name : String} (s : Stored) (vr : VolumeResize)
      (working : Working replica name s vr) where
    pub fail-Tracks :
        (A : Type 0) (message : String) (post : Stored → A → Type 0)
        → Tracks served lib s (fail {A = A} vr message) post
    unfolding set_failed save_status
    fail-Tracks A message post = (
      working.target,
      (broke working.here.in_syncing refl, elim [ ok _ ↦ λ _. tt | err _ ↦ (tt, tt) ]),
    )

    pub prepare_volumes-Tracks :
        (vol : VolumeResizeTarget)
        → Tracks served lib s (prepare_volumes vr vol name replica) (λ s' _. s' ≡ s)
    unfolding prepare_volumes
    prepare_volumes-Tracks vol =
        Tracks-try served lib s (get_pvc _ _) _ _ _ (get_pvc-IsPlain _ Outcome _ _)
          (λ e. fail-Tracks Pvc _ _)
          (λ p.
            Tracks-try served lib s (create_temp_pvc vr vol p replica) _ _ _
              (create_temp_pvc-IsPlain _ Outcome vr vol p replica) (λ e. fail-Tracks Pvc _ _)
              (λ temp.
                Tracks-after served lib s (wait_for_binding temp) _ _
                  (wait_for_binding-IsPlain _ temp)
                  (λ waits.
                    Tracks-after served lib s (if waits then _ else _) _ _
                      (IsPlain-if _ waits _ _ (IsPlain-if _ (is_bound temp.phase) _ _ tt tt) tt)
                      (λ _.
                        Tracks-try served lib s (set_retain_on_pv p.volume_name) _ _ _
                          (set_retain_on_pv-IsPlain _ Outcome p.volume_name)
                          (λ e. fail-Tracks (Unit {0}) _ _) (λ _. refl)))))

    -- a save of the object as it is in memory
    save-Tracks :
        Tracks served lib s
          (call (vr_update_status vr) (λ r. on_error r (λ e. stop (failure e))))
          (Working replica name)
    save-Tracks = (
      working.target,
      (
        worked replica name working.here working.there working.touches,
        elim [
          | ok x ↦ λ e. shown replica name (saved s vr.status) x e working.there
          | err _ ↦ (tt, tt)
        ],
      ),
    )

    -- a change of the object in memory, at its entry of the current volume
    pub changed :
        (ss : List VolumeStatus)
        → Touches name replica s.status.volume_statuses ss
        → Working replica name s (record vr { status = record vr.status { volume_statuses = ss } })
    changed ss touches = record {
      target = working.target;
      here = working.here;
      there = record {
        in_syncing = working.there.in_syncing;
        at_replica = working.there.at_replica;
        at_volume = working.there.at_volume;
      };
      touches = touches;
    }

    pub mark_syncing-Working :
        (old_pv_name : String) → Working replica name s (mark_syncing vr name replica old_pv_name)
    unfolding mark_syncing update_volume_status
    mark_syncing-Working old_pv_name = changed _ (
        Touches-update_volume_status_in_list name replica _ (λ vs e. e)
          (Touches-update_first name replica vol_syncing _ working.touches))

  -- The name of the backup is saved in the status.
  backup_saved :
      {replica : Int32} {name : String} (s : Stored) (vr : VolumeResize)
      → Working replica name s vr
      → (backup : String)
      → Tracks served lib s
          (call
            (vr_update_status
              (record vr { status = record vr.status { backup_config_map_name = backup } }))
            (λ r. on_error r (λ e. stop (failure e))))
          (Working replica name)
  backup_saved s vr working backup =
      save-Tracks s (record vr { status = record vr.status { backup_config_map_name = backup } })
        (record {
          target = working.target;
          here = working.here;
          there = record {
            in_syncing = working.there.in_syncing;
            at_replica = working.there.at_replica;
            at_volume = working.there.at_volume;
          };
          touches = working.touches;
        })

  module _ {replica : Int32} {name : String} (s : Stored) (vr : VolumeResize)
      (working : Working replica name s vr) where
    missing :
        (b : Bool) (o : Outcome)
        → Tracks served lib s (if b then ret vr else stop o) (Working replica name)
    missing true o = working
    missing false o = tt

    orphan_sts-Tracks :
        (sts : StatefulSet) → Tracks served lib s (orphan_sts lib vr sts) (Working replica name)
    unfolding orphan_sts annotate_deleted
    orphan_sts-Tracks sts =
        Tracks-try served lib s (backup_sts_to_config_map lib vr sts) _ _ _
          (backup-IsPlain _ lib vr sts) (λ e. fail-Tracks s vr working (Unit {0}) _ _)
          (λ _.
            Tracks-try served lib s (delete_sts_orphan sts) _ _ _ (delete_sts_orphan-IsPlain _ sts)
              (λ e. fail-Tracks s vr working StatefulSet _ _)
              (λ _. (
                working.target,
                elim [
                  | err _ ↦ tt
                  | ok x ↦ λ e. backup_saved s x (shown replica name s x e working.here) _
                ],
              )))

    pub detach_sts-Tracks : Tracks served lib s (detach_sts lib vr) (Working replica name)
    unfolding detach_sts
    detach_sts-Tracks = Tracks-if served lib s (sts_marked_deleted vr) _ _ _ working (elim [
      | ok sts ↦ λ _. orphan_sts-Tracks sts
      | err e ↦ λ _. missing (is_not_found e) (failure e)
    ])
