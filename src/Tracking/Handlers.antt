-- ===== src/Tracking/Handlers.antt =====
-- The other handlers, and Reconcile once the object is read: what they leave stored.
use migcontroller.Prelude.{
  ℕ, String, ◌≡◌, refl, ◌⊎◌, Option, none, some, Bool, true, false, inl, inr, get_elem?,
}
use migcontroller.Objects.{ok, err, StatefulSet}
use migcontroller.VolumeResize.{
  VolumeResize, VolumeResizeTarget, Phase, unset, pending, validating, syncing, replacing,
  completed, failed, unknown, finalizer_name,
}
use migcontroller.Call.{Lib}
use migcontroller.Prog.{ret, panic}
use migcontroller.Validation.{
  validate_stateful_set_exists, validate_volume_targets, validate_pdb_allows_disruption,
}
use migcontroller.Controller.{
  handle_pending, validate_sizes, start_syncing, validate_found, handle_validating,
  handle_replacing, delete_pvcs, delete_pods, without_finalizer, handle_deletion, require_finalizer,
  route, reconcile_found,
}
use migcontroller.Controller.Results.{
  Outcome, set_failed, save_status, requeue, mark_failed, finished,
}
use migcontroller.Plain.Sets.{
  validate_sizes-IsPlain, validate_pdb-IsPlain, listed_pvcs-IsPlain, listed_pods-IsPlain,
}
use migcontroller.Tracking.{
  Serves, IsServed, target_of, no_volume, Stored, view_of, Tracks, Tracks-after, Tracks-if,
}
use migcontroller.Tracking.Moves.{started, refused, accepted, replaced}
use migcontroller.Tracking.Stages.{save_status-Tracks}
use migcontroller.Tracking.Syncing.{handle_syncing-Tracks}

-- where the handler may end with anything
abbrev Anything : Stored → Outcome → Type 0
Anything _ _ = Unit {0}

module _ (served : Serves) (lib : Lib) where
  module _ (vr : VolumeResize) where
    handle_pending-Tracks :
        (vr.status.phase ≡ unset) ⊎ (vr.status.phase ≡ pending)
        → Tracks served lib (view_of vr) (handle_pending vr) Anything
    unfolding handle_pending save_status
    handle_pending-Tracks from =
        λ t. (refl, (started from refl refl, elim [ ok _ ↦ λ _. tt | err _ ↦ (tt, tt) ]))

    handle_replacing-Tracks :
        vr.status.phase ≡ replacing → Tracks served lib (view_of vr) (handle_replacing vr) Anything
    unfolding handle_replacing save_status
    handle_replacing-Tracks from =
        λ t. (refl, (replaced from refl, elim [ ok _ ↦ λ _. tt | err _ ↦ (tt, tt) ]))

    module _ (from : vr.status.phase ≡ validating) where
      refused-Tracks :
          (message : String) → Tracks served lib (view_of vr) (set_failed vr message) Anything
      unfolding set_failed
      refused-Tracks message =
          save_status-Tracks served lib (view_of vr) finished (mark_failed vr message) refl
            (refused from refl)

      first-Tracks :
          (sts : StatefulSet) (first : Option VolumeResizeTarget)
          → IsServed served (target_of vr) sts
          → get_elem? vr.spec.volumes 0 ≡ first
          → Tracks served lib
              (view_of vr)
              (elim first [
                | none ↦ panic
                | some v ↦ save_status requeue (start_syncing vr sts v.name)
              ])
              Anything
      unfolding start_syncing
      first-Tracks sts none is e = no_volume e
      first-Tracks sts (some v) is e =
          save_status-Tracks served lib (view_of vr) requeue (start_syncing vr sts v.name) refl (
            accepted sts v is from e
              (record { in_syncing = refl; at_replica = refl; at_volume = refl }) refl)

      validate_found-Tracks :
          (sts : StatefulSet)
          → IsServed served (target_of vr) sts
          → Tracks served lib (view_of vr) (validate_found lib vr sts) Anything
      unfolding validate_found
      validate_found-Tracks sts is =
          Tracks-if served lib (view_of vr) (validate_volume_targets lib sts vr.spec.volumes).valid
            _ _ _
            (Tracks-after served lib (view_of vr) (validate_sizes lib _ _ vr.spec.volumes) _ _
              (validate_sizes-IsPlain _ lib _ _ vr.spec.volumes)
              (λ sizes.
                Tracks-if served lib (view_of vr) sizes.valid _ _ _
                  (Tracks-after served lib (view_of vr) (validate_pdb_allows_disruption lib sts) _ _
                    (validate_pdb-IsPlain _ lib sts)
                    (λ budgets.
                      Tracks-if served lib (view_of vr) budgets.valid _ _ _
                        (first-Tracks sts (get_elem? vr.spec.volumes 0) is refl)
                        (refused-Tracks budgets.message)))
                  (refused-Tracks sizes.message)))
            (refused-Tracks (validate_volume_targets lib sts vr.spec.volumes).message)

      handle_validating-Tracks : Tracks served lib (view_of vr) (handle_validating lib vr) Anything
      unfolding handle_validating validate_stateful_set_exists
      handle_validating-Tracks = elim [
        | ok sts ↦ λ is. validate_found-Tracks sts is
        | err _ ↦ λ _. refused-Tracks _
      ]

    handle_deletion-Tracks : Tracks served lib (view_of vr) (handle_deletion lib vr) Anything
    unfolding handle_deletion without_finalizer
    handle_deletion-Tracks = λ pvcs.
        Tracks-after served lib {X = Outcome} {B = Outcome} (view_of vr)
          (elim pvcs [ ok items ↦ delete_pvcs items | err _ ↦ ret tt ]) _ _
          (listed_pvcs-IsPlain _ pvcs)
          (λ _ pods.
            Tracks-after served lib {X = Outcome} {B = Outcome} (view_of vr)
              (elim pods [ ok items ↦ delete_pods items | err _ ↦ ret tt ]) _ _
              (listed_pods-IsPlain _ pods) (λ _. (refl, elim [ ok _ ↦ λ _. tt | err _ ↦ tt ])))

    require_finalizer-Tracks : Tracks served lib (view_of vr) (require_finalizer lib vr) Anything
    unfolding require_finalizer
    require_finalizer-Tracks = (refl, elim [ ok _ ↦ λ _. tt | err _ ↦ tt ])

    route-Tracks :
        (phase : Phase)
        → vr.status.phase ≡ phase
        → Tracks served lib (view_of vr) (route lib phase vr) Anything
    unfolding route
    route-Tracks unset e = handle_pending-Tracks (inl e)
    route-Tracks pending e = handle_pending-Tracks (inr e)
    route-Tracks validating e = handle_validating-Tracks e
    route-Tracks syncing e = handle_syncing-Tracks served lib vr e
    route-Tracks replacing e = handle_replacing-Tracks e
    route-Tracks completed e = tt
    route-Tracks failed e = tt
    route-Tracks (unknown _) e = tt

    branch-Tracks :
        (deleted : Option ℕ) (marked : Bool)
        → Tracks served lib
            (view_of vr)
            (elim deleted [
              | some _ ↦ handle_deletion lib vr
              | none ↦ elim marked [
                | false ↦ require_finalizer lib vr
                | true ↦ route lib vr.status.phase vr
              ]
            ])
            Anything
    branch-Tracks (some t) marked = handle_deletion-Tracks
    branch-Tracks none false = require_finalizer-Tracks
    branch-Tracks none true = route-Tracks vr.status.phase refl

    pub reconcile_found-Tracks :
        Tracks served lib (view_of vr) (reconcile_found lib vr) (λ _ _. Unit {0})
    unfolding reconcile_found
    reconcile_found-Tracks =
        branch-Tracks vr.meta.deletion_timestamp
          (lib.contains_finalizer vr.meta.finalizers finalizer_name)
