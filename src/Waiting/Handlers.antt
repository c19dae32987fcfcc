-- ===== src/Waiting/Handlers.antt =====
-- The other stages of handleSyncing, and the other handlers of
-- internal/controller/volumeresize_controller.go: they have no loop on fuel either.
use migcontroller.Prelude.{String, Option, none, some, List, Bool, true, false}
use migcontroller.Prelude.Int32.{Int32}
use migcontroller.Objects.{
  ok, err, is_not_found, is_already_exists, Pvc, StatefulSet, PodPhase, running, pod_pending,
  pod_failed, succeeded, phase_unknown,
}
use migcontroller.VolumeResize.{VolumeResize, VolumeResizeTarget}
use migcontroller.Call.{Lib, now}
use migcontroller.Prog.{Prog, panic, ◌>>=◌, ask}
use migcontroller.Status.{get_next_volume_replica}
use migcontroller.Pvc.{replace_pvc}
use migcontroller.Sts.{
  delete_sts_orphan, backup_sts_to_config_map, get_sts_from_backup_config_map, recreate_sts,
}
use migcontroller.Controller.Results.{Outcome, save_status, requeue}
use migcontroller.Controller.Syncing.{
  orphan_sts, detach_sts, sts_marked_deleted, after_wait_error, swap_claims, resize_templates,
  create_resized, restore_sts, advance, mark_completed, mark_current,
}
use migcontroller.Waiting.Total.{IsTotal, IsTotal-bind, IsTotal-if, IsTotal-elim, IsTotal-try}
use migcontroller.Waiting.Stages.{fail-IsTotal}
use migcontroller.Plain.{IsPlain-IsTotal}
use migcontroller.Plain.Claims.{replace_pvc-IsPlain}
use migcontroller.Plain.Sets.{backup-IsPlain, delete_sts_orphan-IsPlain, get_backup-IsPlain}

orphan_sts-IsTotal :
    (lib : Lib) (vr : VolumeResize) (sts : StatefulSet) → IsTotal (orphan_sts lib vr sts)
unfolding orphan_sts
orphan_sts-IsTotal lib vr sts =
    IsTotal-try (backup_sts_to_config_map lib vr sts) _ _
      (IsPlain-IsTotal _ (backup-IsPlain ⊥ lib vr sts)) (λ e. fail-IsTotal (Unit {0}) vr "")
      (λ _.
        IsTotal-try (delete_sts_orphan sts) _ _
          (IsPlain-IsTotal _ (delete_sts_orphan-IsPlain ⊥ sts))
          (λ e. fail-IsTotal StatefulSet vr "")
          (λ _. elim [ err _ ↦ tt | ok v ↦ elim [ err _ ↦ tt | ok _ ↦ tt ] ]))

pub detach_sts-IsTotal : (lib : Lib) (vr : VolumeResize) → IsTotal (detach_sts lib vr)
unfolding detach_sts
detach_sts-IsTotal lib vr = IsTotal-elim (sts_marked_deleted vr) _ _ tt (elim [
  | ok sts ↦ orphan_sts-IsTotal lib vr sts
  | err e ↦ IsTotal-if (is_not_found e) _ _ tt tt
])

phase-IsTotal :
    (phase : PodPhase) (m n p q : Prog Outcome (Unit {0}))
    → IsTotal m
    → IsTotal n
    → IsTotal p
    → IsTotal q
    → IsTotal (elim phase [ running ↦ m | pod_pending ↦ n | pod_failed ↦ p | _ ↦ q ])
phase-IsTotal running m n p q a b c d = a
phase-IsTotal pod_pending m n p q a b c d = b
phase-IsTotal pod_failed m n p q a b c d = c
phase-IsTotal succeeded m n p q a b c d = d
phase-IsTotal phase_unknown m n p q a b c d = d

pub after_wait_error-IsTotal :
    (vr : VolumeResize) (name : String) → IsTotal (after_wait_error vr name)
unfolding after_wait_error
after_wait_error-IsTotal vr name = elim [
  | err _ ↦ tt
  | ok pod ↦ phase-IsTotal pod.phase _ _ _ _ tt tt (fail-IsTotal (Unit {0}) vr "") tt
]

pub swap_claims-IsTotal :
    (vr : VolumeResize) (vol : VolumeResizeTarget) (name : String) (replica : Int32)
    → IsTotal (swap_claims vr vol name replica)
unfolding swap_claims
swap_claims-IsTotal vr vol name replica =
    IsTotal-try (replace_pvc _ vol replica) _ _
      (IsPlain-IsTotal _ (replace_pvc-IsPlain ⊥ Outcome _ vol replica))
      (λ e. fail-IsTotal (Unit {0}) vr "") (λ _. elim [ err _ ↦ tt | ok _ ↦ tt ])

create_resized-IsTotal :
    (vr : VolumeResize) (sts : StatefulSet) (templates : List Pvc)
    → IsTotal (create_resized vr sts templates)
unfolding create_resized recreate_sts
create_resized-IsTotal vr sts templates = elim [
  | ok _ ↦ tt
  | err e ↦ IsTotal-if (is_already_exists e) _ _ tt (fail-IsTotal (Unit {0}) vr "")
]

templates-IsTotal :
    (vr : VolumeResize) (sts : StatefulSet) (o : Option (List Pvc))
    → IsTotal (elim o [ none ↦ panic | some templates ↦ create_resized vr sts templates ])
templates-IsTotal vr sts none = tt
templates-IsTotal vr sts (some templates) = create_resized-IsTotal vr sts templates

pub restore_sts-IsTotal : (lib : Lib) (vr : VolumeResize) → IsTotal (restore_sts lib vr)
unfolding restore_sts
restore_sts-IsTotal lib vr =
    IsTotal-try (get_sts_from_backup_config_map lib _ _) _ _
      (IsPlain-IsTotal _ (get_backup-IsPlain ⊥ lib _ _)) (λ e. fail-IsTotal StatefulSet vr "")
      (λ sts.
        IsTotal-bind
          (elim (resize_templates vr.spec.volumes sts.spec.volume_claim_templates) [
            | none ↦ panic
            | some templates ↦ create_resized vr sts templates
          ])
          _
          (templates-IsTotal vr sts
            (resize_templates vr.spec.volumes sts.spec.volume_claim_templates))
          (λ _. elim [ err _ ↦ tt | ok _ ↦ tt ]))

pub save_status-IsTotal : (o : Outcome) (vr : VolumeResize) → IsTotal (save_status o vr)
unfolding save_status
save_status-IsTotal o vr = elim [ ok _ ↦ tt | err _ ↦ tt ]

next-IsTotal :
    (vr : VolumeResize) (o : Option (Int32 × String × Bool))
    → IsTotal (elim o [
      | none ↦ panic
      | some (next_replica, next_vol, done) ↦ elim done [
        | true ↦ do t ← ask now; save_status requeue (mark_completed vr t)
        | false ↦ save_status requeue (mark_current vr next_replica next_vol)
      ]
    ])
next-IsTotal vr none = tt
next-IsTotal vr (some (r, name, true)) = λ t. save_status-IsTotal requeue (mark_completed vr t)
next-IsTotal vr (some (r, name, false)) = save_status-IsTotal requeue (mark_current vr r name)

pub advance-IsTotal :
    (vr : VolumeResize) (replica : Int32) (name : String) → IsTotal (advance vr replica name)
unfolding advance
advance-IsTotal vr replica name = next-IsTotal vr (get_next_volume_replica vr replica name)
