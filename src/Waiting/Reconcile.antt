-- ===== src/Waiting/Reconcile.antt =====
-- Reconcile of internal/controller/volumeresize_controller.go comes to its end in every phase.
use migcontroller.Prelude.{
  ℕ, String, Option, none, some, Bool, true, false, get_elem?, if◌then◌else◌,
}
use migcontroller.Objects.{Except, ok, err, is_not_found, StatefulSet}
use migcontroller.VolumeResize.{
  VolumeResize, VolumeResizeTarget, Phase, unset, pending, validating, syncing, replacing,
  completed, failed, unknown, finalizer_name,
}
use migcontroller.Call.{Lib, vr_get}
use migcontroller.Prog.{ret, panic, Handler, run, Log}
use migcontroller.Validation.{
  validate_stateful_set_exists, validate_volume_targets, validate_pdb_allows_disruption,
}
use migcontroller.Controller.{
  handle_pending, validate_sizes, start_syncing, validate_found, handle_validating,
  handle_replacing, delete_pvcs, delete_pods, handle_deletion, require_finalizer, route,
  reconcile_found, reconcile,
}
use migcontroller.Controller.Results.{Outcome, set_failed, save_status, requeue, finished, failure}
use migcontroller.Waiting.{IsClock}
use migcontroller.Waiting.Total.{
  IsTotal, IsTotal-bind, IsTotal-elim, IsTotal-if, IsOver, Ends, IsTotal-Ends, Ends-call,
}
use migcontroller.Waiting.Handlers.{save_status-IsTotal}
use migcontroller.Waiting.Passes.{handle_syncing-Ends}
use migcontroller.Plain.{IsPlain-IsTotal}
use migcontroller.Plain.Sets.{
  validate_sizes-IsPlain, validate_pdb-IsPlain, listed_pvcs-IsPlain, listed_pods-IsPlain,
}

set_failed-IsTotal : (vr : VolumeResize) (message : String) → IsTotal (set_failed vr message)
unfolding set_failed save_status
set_failed-IsTotal vr message = elim [ ok _ ↦ tt | err _ ↦ tt ]

first-IsTotal :
    (vr : VolumeResize) (sts : StatefulSet) (first : Option VolumeResizeTarget)
    → IsTotal
        (elim first [ none ↦ panic | some v ↦ save_status requeue (start_syncing vr sts v.name) ])
first-IsTotal vr sts none = tt
first-IsTotal vr sts (some v) = save_status-IsTotal requeue (start_syncing vr sts v.name)

validate_found-IsTotal :
    (lib : Lib) (vr : VolumeResize) (sts : StatefulSet) → IsTotal (validate_found lib vr sts)
unfolding validate_found
validate_found-IsTotal lib vr sts =
    IsTotal-elim (validate_volume_targets lib sts vr.spec.volumes).valid _ _
      (IsTotal-bind (validate_sizes lib _ _ vr.spec.volumes) _
        (IsPlain-IsTotal _ (validate_sizes-IsPlain ⊥ lib _ _ vr.spec.volumes))
        (λ sizes.
          IsTotal-elim sizes.valid _ _
            (IsTotal-bind (validate_pdb_allows_disruption lib sts) _
              (IsPlain-IsTotal _ (validate_pdb-IsPlain ⊥ lib sts))
              (λ budgets.
                IsTotal-elim budgets.valid _ _ (first-IsTotal vr sts (get_elem? vr.spec.volumes 0))
                  (set_failed-IsTotal vr budgets.message)))
            (set_failed-IsTotal vr sizes.message)))
      (set_failed-IsTotal vr (validate_volume_targets lib sts vr.spec.volumes).message)

handle_validating-IsTotal : (lib : Lib) (vr : VolumeResize) → IsTotal (handle_validating lib vr)
unfolding handle_validating validate_stateful_set_exists
handle_validating-IsTotal lib vr = elim [
  | ok sts ↦ validate_found-IsTotal lib vr sts
  | err _ ↦ set_failed-IsTotal vr ""
]

handle_deletion-IsTotal : (lib : Lib) (vr : VolumeResize) → IsTotal (handle_deletion lib vr)
unfolding handle_deletion
handle_deletion-IsTotal lib vr = λ pvcs.
    IsTotal-bind {X = Outcome} {B = Outcome}
      (elim pvcs [ ok items ↦ delete_pvcs items | err _ ↦ ret tt ]) _
      (IsPlain-IsTotal _ (listed_pvcs-IsPlain ⊥ pvcs))
      (λ _ pods.
        IsTotal-bind {X = Outcome} {B = Outcome}
          (elim pods [ ok items ↦ delete_pods items | err _ ↦ ret tt ]) _
          (IsPlain-IsTotal _ (listed_pods-IsPlain ⊥ pods)) (λ _. elim [ ok _ ↦ tt | err _ ↦ tt ]))

handle_pending-IsTotal : (vr : VolumeResize) → IsTotal (handle_pending vr)
unfolding handle_pending save_status
handle_pending-IsTotal vr = λ t. elim [ ok _ ↦ tt | err _ ↦ tt ]

handle_replacing-IsTotal : (vr : VolumeResize) → IsTotal (handle_replacing vr)
unfolding handle_replacing save_status
handle_replacing-IsTotal vr = λ t. elim [ ok _ ↦ tt | err _ ↦ tt ]

require_finalizer-IsTotal : (lib : Lib) (vr : VolumeResize) → IsTotal (require_finalizer lib vr)
unfolding require_finalizer
require_finalizer-IsTotal lib vr = elim [ ok _ ↦ tt | err _ ↦ tt ]

module _ {W : Type 0} (h : Handler W) (time : W → ℕ) (clock : IsClock h time) where
  route-Ends : (lib : Lib) (phase : Phase) (vr : VolumeResize) → Ends h (route lib phase vr)
  unfolding route
  route-Ends lib unset vr = IsTotal-Ends h (handle_pending vr) (handle_pending-IsTotal vr)
  route-Ends lib pending vr = IsTotal-Ends h (handle_pending vr) (handle_pending-IsTotal vr)
  route-Ends lib validating vr =
      IsTotal-Ends h (handle_validating lib vr) (handle_validating-IsTotal lib vr)
  route-Ends lib syncing vr = handle_syncing-Ends h time clock lib vr
  route-Ends lib replacing vr = IsTotal-Ends h (handle_replacing vr) (handle_replacing-IsTotal vr)
  route-Ends lib completed vr = IsTotal-Ends h (route lib completed vr) tt
  route-Ends lib failed vr = IsTotal-Ends h (route lib failed vr) tt
  route-Ends lib (unknown s) vr = IsTotal-Ends h (route lib (unknown s) vr) tt

  branch-Ends :
      (lib : Lib) (vr : VolumeResize) (deleted : Option ℕ) (marked : Bool)
      → Ends h (elim deleted [
        | some _ ↦ handle_deletion lib vr
        | none ↦ elim marked [
          | false ↦ require_finalizer lib vr
          | true ↦ route lib vr.status.phase vr
        ]
      ])
  branch-Ends lib vr (some t) marked =
      IsTotal-Ends h (handle_deletion lib vr) (handle_deletion-IsTotal lib vr)
  branch-Ends lib vr none false =
      IsTotal-Ends h (require_finalizer lib vr) (require_finalizer-IsTotal lib vr)
  branch-Ends lib vr none true = route-Ends lib vr.status.phase vr

  read-Ends :
      (lib : Lib) (r : Except VolumeResize)
      → Ends h (elim r [
        | ok vr ↦ reconcile_found lib vr
        | err e ↦ if is_not_found e then ret finished else ret (failure e)
      ])
  unfolding reconcile_found
  read-Ends lib (ok vr) =
      branch-Ends lib vr vr.meta.deletion_timestamp
        (lib.contains_finalizer vr.meta.finalizers finalizer_name)
  read-Ends lib (err e) =
      IsTotal-Ends h (if is_not_found e then ret finished else ret (failure e))
        (IsTotal-if (is_not_found e) _ _ tt tt)

  -- Every run of Reconcile comes to its end, in every phase and whatever the requests answer,
  -- where the clock does not run backwards and advances by what is slept: no wait loop uses up its
  -- fuel; a run may end in a panic.
  pub reconcile-Ends :
      (lib : Lib) (namespace name : String) (w : W) (l : Log)
      → IsOver (run h (reconcile lib namespace name) w l).end
  unfolding reconcile
  reconcile-Ends lib namespace name = Ends-call h (vr_get namespace name) _ (λ r. read-Ends lib r)
