-- ===== src/Syncing/Restore.antt =====
-- The claim is swapped and saved, the StatefulSet comes back, and the handler goes on.
use mathlib.Core.List.{Memᴰ}
use migcontroller.Prelude.{
  String, refl, sym, subst, Option, none, some, Bool, true, false, List, ◌∷◌, ◌++◌,
}
use migcontroller.Prelude.Dict.{lookup}
use migcontroller.Prelude.Int32.{Int32}
use migcontroller.Objects.{
  GoError, ok, err, is_not_found, is_already_exists, Pvc, StatefulSet, new_error,
}
use migcontroller.VolumeResize.{
  VolumeResize, VolumePhase, vol_synced, vol_completed, config_map_key_sts_spec,
}
use migcontroller.Call.{Lib, now}
use migcontroller.Prog.{Prog, Log, ret, stop, panic, ask, ◌>>=◌, attempt, expect}
use migcontroller.Prog.Safe.{
  Spec, Safe, Extends, Has-Extends, Safe-bind, Safe-on_error, Safe-if, Safe-attempt, Safe-try, OnOk,
}
use migcontroller.Status.{update_volume_status, get_next_volume_replica}
use migcontroller.Pvc.{replace_pvc}
use migcontroller.Sts.{get_sts_from_backup_config_map, recreate_sts}
use migcontroller.Controller.Results.{Outcome, save_status, requeue}
use migcontroller.Controller.Syncing.{
  swap_claims, resize_templates, create_resized, clear_deleted, restore_sts, await_pod, is_running,
  advance, mark_completed, mark_current,
}
use migcontroller.Bookkeeping.{any-already_completed}
use migcontroller.Syncing.Guard.{
  Target, IsOf, sync_spec, KeepsVolume, IsOver, IsSwapped, original_name, FollowsSyncing,
}
use migcontroller.Syncing.Claims.{fail-Safe}
use migcontroller.Syncing.Swap.{inner, IsCreated, replace_pvc-Safe}
use migcontroller.Syncing.Detach.{IsOf-SameTarget}

IsSwapped-Extends : (t : Target) {l m : Log} → IsSwapped t l → Extends l m → IsSwapped t m
IsSwapped-Extends t (p, stored, vr, saved, n, r, h, k, of, marked) x =
    (p, stored, vr, saved, n, r, Has-Extends h x, Has-Extends k x, of, marked)

update_volume_status-IsOf :
    {t : Target} {vr : VolumeResize} (vol_name : String) (replica : Int32) (phase : VolumePhase)
    (message : String)
    → IsOf t vr
    → IsOf t (update_volume_status vr vol_name replica phase message)
unfolding update_volume_status
update_volume_status-IsOf vol_name replica phase message of = record {
  namespace = of.namespace;
  name = of.name;
  sts_name = of.sts_name;
  in_syncing = of.in_syncing;
}

clear_deleted-IsOf : {t : Target} {vr : VolumeResize} → IsOf t vr → IsOf t (clear_deleted vr)
unfolding clear_deleted
clear_deleted-IsOf of = record {
  namespace = of.namespace;
  name = of.name;
  sts_name = of.sts_name;
  in_syncing = of.in_syncing;
}

module _ (lib : Lib) (t : Target) where
  pub swap_claims-Safe :
      (l : Log) (vr : VolumeResize)
      → IsOf t vr
      → KeepsVolume t.namespace (original_name t) l
      → IsOver t t.namespace l
      → Safe
          (sync_spec lib t)
          l
          (swap_claims vr t.vol t.vol.name t.replica)
          (λ l' v. IsOf t v × IsSwapped t l')
  unfolding swap_claims update_volume_status
  swap_claims-Safe l vr of kept over =
      let synced = update_volume_status vr t.vol.name t.replica vol_synced "Migration complete" in
      let of₁ = update_volume_status-IsOf t.vol.name t.replica vol_synced "Migration complete" of in
      let of₂ = update_volume_status-IsOf t.vol.name t.replica vol_completed "PVC replaced" of₁ in
      Safe-try (sync_spec lib t) l (replace_pvc synced t.vol t.replica) _ _ (λ l' _. IsCreated t l')
        _ (replace_pvc-Safe lib t l synced of₁ kept over) (λ l' e _. fail-Safe lib t l' synced _ _)
        (λ l₁ _ x₁ (p, stored, n, r, h). (
          subst FollowsSyncing (sym of₂.in_syncing) tt,
          elim [
            | err e ↦ λ _. tt
            | ok saved ↦ λ same_as. (
              IsOf-SameTarget of₂ same_as,
              (
                p,
                stored,
                update_volume_status synced t.vol.name t.replica vol_completed "PVC replaced",
                saved,
                n,
                r,
                Memᴰ.tail h,
                Memᴰ.head refl,
                of₂,
                any-already_completed t.vol.name t.replica "PVC replaced"
                    synced.status.volume_statuses,
              ),
            )
          ],
        ))

  get_backup-Safe :
      (l : Log) (namespace vr_name : String)
      → Safe
          (sync_spec lib t)
          l
          (get_sts_from_backup_config_map lib namespace vr_name)
          (λ _ r. OnOk r (λ _. Unit {0}))
  unfolding get_sts_from_backup_config_map
  get_backup-Safe l namespace vr_name = (
    tt,
    elim [
      | err e ↦ λ _. tt
      | ok cm ↦ λ _. from_key ((_, _) ∷ l) (lookup config_map_key_sts_spec cm.entries)
    ],
  )
    where
      read_key : Option String → Prog GoError StatefulSet
      read_key o = do
        json ← elim o [
          | some json ↦ ret json
          | none ↦
              stop (new_error ("backup ConfigMap missing " ++ (config_map_key_sts_spec ++ " key")))
        ]
        expect "failed to deserialize StatefulSet: " (lib.unmarshal json)

      from_key :
          (m : Log) (o : Option String)
          → Safe (sync_spec lib t) m (attempt (read_key o)) (λ _ r. OnOk r (λ _. Unit {0}))
      from_key m none = tt
      from_key m (some json) =
          Safe-attempt (sync_spec lib t) m (read_key (some json)) (λ _ r. OnOk r (λ _. Unit {0}))
            (Safe-on_error (inner lib t) m (lib.unmarshal json) _ _ (λ _ _. tt) (λ _ _. tt))

  create_resized-Safe :
      (l : Log) (vr : VolumeResize) (sts : StatefulSet) (templates : List Pvc)
      → IsSwapped t l
      → Safe (sync_spec lib t) l (create_resized vr sts templates) (λ _ _. Unit {0})
  unfolding create_resized recreate_sts
  create_resized-Safe l vr sts templates swapped = (
    swapped,
    elim [
      | ok u ↦ λ _. tt
      | err e ↦ λ _.
          Safe-if (sync_spec lib t) _ (is_already_exists e) _ _ _ (λ _. tt)
            (λ _. fail-Safe lib t _ vr _ _)
    ],
  )

  pub restore_sts-Safe :
      (l : Log) (vr : VolumeResize)
      → IsOf t vr
      → IsSwapped t l
      → Safe (sync_spec lib t) l (restore_sts lib vr) (λ _ v. IsOf t v)
  unfolding restore_sts
  restore_sts-Safe l vr of swapped =
      Safe-try s l (get_sts_from_backup_config_map lib _ _) _ _ (λ _ _. Unit {0}) _
        (get_backup-Safe l _ _) (λ l' e _. fail-Safe lib t l' vr _ _)
        (λ l₁ sts x₁ _.
          Safe-bind s l₁
            (create sts (resize_templates vr.spec.volumes sts.spec.volume_claim_templates)) _
            (λ _ _. Unit {0}) _
            (created l₁ sts (resize_templates vr.spec.volumes sts.spec.volume_claim_templates)
              (IsSwapped-Extends t swapped x₁))
            (λ l₂ _ x₂ _. (
              tt,
              elim [
                | err e ↦ λ _. tt
                | ok v ↦ λ same_as. IsOf-SameTarget (clear_deleted-IsOf of) same_as
              ],
            )))
    where
      s : Spec Outcome
      s = sync_spec lib t

      create : StatefulSet → Option (List Pvc) → Prog Outcome (Unit {0})
      create sts o = elim o [ none ↦ panic | some templates ↦ create_resized vr sts templates ]

      created :
          (m : Log) (sts : StatefulSet) (o : Option (List Pvc))
          → IsSwapped t m
          → Safe s m (create sts o) (λ _ _. Unit {0})
      created m sts none h = tt
      created m sts (some templates) h = create_resized-Safe m vr sts templates h

  pub await_pod-Safe :
      (l : Log) (vr : VolumeResize) (replica : Int32)
      → Safe (sync_spec lib t) l (await_pod vr replica) (λ _ _. Unit {0})
  unfolding await_pod
  await_pod-Safe l vr replica = (
    tt,
    elim [
      | err e ↦ λ _. Safe-if (sync_spec lib t) _ (is_not_found e) _ _ _ (λ _. tt) (λ _. tt)
      | ok pod ↦ λ _. Safe-if (sync_spec lib t) _ (is_running pod.phase) _ _ _ (λ _. tt) (λ _. tt)
    ],
  )

  pub advance-Safe :
      (l : Log) (vr : VolumeResize) (replica : Int32) (vol_name : String)
      → IsOf t vr
      → Safe (sync_spec lib t) l (advance vr replica vol_name) (λ _ _. Unit {0})
  unfolding advance
  advance-Safe l vr replica vol_name of = at (get_next_volume_replica vr replica vol_name)
    where
      go : Option (Int32 × String × Bool) → Prog Outcome Outcome
      go o = elim o [
        | none ↦ panic
        | some (next_replica, next_vol, done) ↦ elim done [
          | true ↦ do time ← ask now; save_status requeue (mark_completed vr time)
          | false ↦ save_status requeue (mark_current vr next_replica next_vol)
        ]
      ]

      at : (o : Option (Int32 × String × Bool)) → Safe (sync_spec lib t) l (go o) (λ _ _. Unit {0})
      at none = tt
      at (some (next_replica, next_vol, true)) =
          (tt, λ time _. (tt, elim [ ok v ↦ λ _. tt | err e ↦ λ _. tt ]))
      at (some (next_replica, next_vol, false)) =
          (subst FollowsSyncing (sym of.in_syncing) tt, elim [ ok v ↦ λ _. tt | err e ↦ λ _. tt ])
