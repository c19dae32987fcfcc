-- ===== src/Syncing/Detach.antt =====
-- The StatefulSet is backed up, deleted, and comes back.
use mathlib.Core.List.{Memᴰ}
use mathlib.Core.Path.{subst₂}
use migcontroller.Prelude.{
  ◌≡◌, refl, sym, subst, inl, inr, Bool, true, false, if◌then◌else◌, ◌∙◌, ap,
}
use migcontroller.Prelude.Dict.{lookup}
use migcontroller.Objects.{ok, err, is_not_found, StatefulSet, wrap}
use migcontroller.VolumeResize.{VolumeResize, VolumeResizeSpec}
use migcontroller.Call.{Lib, sts_get}
use migcontroller.Prog.{Prog, Log, ret, stop, ask, ◌>>=◌, expect}
use migcontroller.Prog.Safe.{
  Spec, Safe, Has-Extends, Safe-bind, Safe-on_error, Safe-if, Safe-attempt, Safe-try, OnOk,
}
use migcontroller.Sts.{
  backup_config_map, create_backup, backup_sts_to_config_map, delete_sts_orphan,
}
use migcontroller.Names.{get_sts_backup_config_map_name}
use migcontroller.Controller.Results.{Outcome, failure}
use migcontroller.Controller.Syncing.{sts_marked_deleted, annotate_deleted, orphan_sts, detach_sts}
use migcontroller.Syncing.Guard.{
  Has, Target, IsOf, SameTarget, sync_spec, IsBackedUp, FollowsSyncing,
}
use migcontroller.Syncing.Claims.{fail-Safe}
use migcontroller.Syncing.Swap.{inner, tolerated}

pub IsOf-SameTarget :
    {t : Target} {sent vr : VolumeResize} → IsOf t sent → SameTarget sent vr → IsOf t vr
IsOf-SameTarget of (e₁, e₂, e₃, e₄) = record {
  namespace = e₁ ∙ of.namespace;
  name = e₂ ∙ of.name;
  sts_name = ap (λ (s : VolumeResizeSpec). s.stateful_set_name) e₃ ∙ of.sts_name;
  in_syncing = e₄ ∙ of.in_syncing;
}

module _ (lib : Lib) (t : Target) where
  create_backup-Safe :
      (l : Log) (vr : VolumeResize) (sts : StatefulSet)
      → Safe
          (inner lib t)
          l
          (create_backup lib vr sts)
          (λ l' _. IsBackedUp lib vr.meta.namespace vr.meta.name sts l')
  unfolding create_backup lookup
  create_backup-Safe l vr sts =
      Safe-bind (inner lib t) l (expect "failed to serialize StatefulSet: " (lib.marshal sts)) _
        (λ l' json. lib.marshal sts ≡ ok json) _
        (Safe-on_error (inner lib t) l (lib.marshal sts) _ _ (λ json e. e) (λ _ _. tt))
        (λ l₁ json x₁ e. (
          tt,
          elim [
            | err _ ↦ λ _. tt
            | ok stored ↦ λ _.
                inr (backup_config_map vr json, stored, json, e, refl, refl, refl, Memᴰ.head refl)
          ],
        ))

  backup-Safe :
      (l : Log) (vr : VolumeResize) (sts : StatefulSet)
      → Safe
          (sync_spec lib t)
          l
          (backup_sts_to_config_map lib vr sts)
          (λ l' r. OnOk r (λ _. IsBackedUp lib vr.meta.namespace vr.meta.name sts l'))
  unfolding backup_sts_to_config_map
  backup-Safe l vr sts = (
    tt,
    elim [
      | ok cm ↦ λ _. inl (cm, Memᴰ.head refl)
      | err e ↦ λ _.
          Safe-if (sync_spec lib t) _ (is_not_found e) _ _ _
            (λ _.
              Safe-attempt (sync_spec lib t) _ (create_backup lib vr sts)
                (λ l' r. OnOk r (λ _. IsBackedUp lib vr.meta.namespace vr.meta.name sts l'))
                (create_backup-Safe _ vr sts))
            (λ _. tt)
    ],
  )

  delete_sts_orphan-Safe :
      (l : Log) (sts : StatefulSet)
      → Has l (sts_get t.namespace t.sts_name) (ok sts)
      → IsBackedUp lib t.namespace t.vr_name sts l
      → Safe (sync_spec lib t) l (delete_sts_orphan sts) (λ l' r. OnOk r (λ _. Unit {0}))
  unfolding delete_sts_orphan
  delete_sts_orphan-Safe l sts read backed = (
    (sts, read, refl, refl, backed),
    elim [
      | ok u ↦ λ _. tt
      | err e ↦ λ _.
          Safe-attempt (sync_spec lib t) _
            ((if is_not_found e then ret tt else stop (wrap _ e)) >>= λ _. ret sts)
            (λ l' r. OnOk r (λ _. Unit {0}))
            (Safe-bind (inner lib t) _ (if is_not_found e then ret tt else stop (wrap _ e)) _
              (λ _ _. Unit {0}) _ (tolerated lib t _ _ e) (λ _ _ _ _. tt))
    ],
  )

  orphan_sts-Safe :
      (l : Log) (vr : VolumeResize) (sts : StatefulSet)
      → IsOf t vr
      → Has l (sts_get vr.meta.namespace vr.spec.stateful_set_name) (ok sts)
      → Safe (sync_spec lib t) l (orphan_sts lib vr sts) (λ _ v. IsOf t v)
  unfolding orphan_sts
  orphan_sts-Safe l vr sts of read =
      Safe-try s l (backup_sts_to_config_map lib vr sts) _ _
        (λ l' _. IsBackedUp lib vr.meta.namespace vr.meta.name sts l') _ (backup-Safe l vr sts)
        (λ l' e _. fail-Safe lib t l' vr _ _)
        (λ l₁ _ x₁ backed.
          Safe-try s l₁ (delete_sts_orphan sts) _ _ (λ _ _. Unit {0}) _
            (delete_sts_orphan-Safe l₁ sts (at_target l₁ (Has-Extends read x₁))
              (subst₂ (λ n k. IsBackedUp lib n k sts l₁) of.namespace of.name backed))
            (λ l' e _. fail-Safe lib t l' vr _ _)
            (λ l₂ _ x₂ _. (
              tt,
              elim [
                | err e ↦ λ _. tt
                | ok updated ↦ λ same_as.
                    let of' : IsOf t updated = IsOf-SameTarget (annotated of) same_as in
                    (
                      subst FollowsSyncing (sym of'.in_syncing) tt,
                      elim [
                        | err e ↦ λ _. tt
                        | ok saved ↦ λ same_as'. IsOf-SameTarget (noted of') same_as'
                      ],
                    )
              ],
            )))
    where
      s : Spec Outcome
      s = sync_spec lib t

      at_target :
          (m : Log)
          → Has m (sts_get vr.meta.namespace vr.spec.stateful_set_name) (ok sts)
          → Has m (sts_get t.namespace t.sts_name) (ok sts)
      at_target m h = subst₂ (λ n k. Has m (sts_get n k) (ok sts)) of.namespace of.sts_name h

      annotated : IsOf t vr → IsOf t (annotate_deleted vr)
      annotated o = record {
        namespace = o.namespace;
        name = o.name;
        sts_name = o.sts_name;
        in_syncing = o.in_syncing;
      }

      noted :
          {v : VolumeResize}
          → IsOf t v
          → IsOf t (record v {
            status = record v.status {
              backup_config_map_name = get_sts_backup_config_map_name v.meta.name;
            };
          })
      noted o = record {
        namespace = o.namespace;
        name = o.name;
        sts_name = o.sts_name;
        in_syncing = o.in_syncing;
      }

  -- behind the detachment the object in hand is still the target's
  pub detach_sts-Safe :
      (l : Log) (vr : VolumeResize)
      → IsOf t vr
      → Safe (sync_spec lib t) l (detach_sts lib vr) (λ _ v. IsOf t v)
  unfolding detach_sts
  detach_sts-Safe l vr of = marked (sts_marked_deleted vr)
    where
      unmarked : Prog Outcome VolumeResize
      unmarked = do
        found ← ask (sts_get vr.meta.namespace vr.spec.stateful_set_name)
        elim found [
          | ok sts ↦ orphan_sts lib vr sts
          | err e ↦ if is_not_found e then ret vr else stop (failure e)
        ]

      marked :
          (b : Bool)
          → Safe (sync_spec lib t) l (elim b [ true ↦ ret vr | false ↦ unmarked ]) (λ _ v. IsOf t v)
      marked true = of
      marked false = (
        tt,
        elim [
          | ok sts ↦ λ _. orphan_sts-Safe _ vr sts of (Memᴰ.head refl)
          | err e ↦ λ _. Safe-if (sync_spec lib t) _ (is_not_found e) _ _ _ (λ _. of) (λ _. tt)
        ],
      )
