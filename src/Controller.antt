-- ===== src/Controller.antt =====
-- The handlers of internal/controller/volumeresize_controller.go but handleSyncing, and Reconcile.
pub mod Results
pub mod Syncing
use migcontroller.Prelude.{
  ℕ, String, Option, none, some, List, [], ◌∷◌, Bool, true, false, get_elem?, if◌then◌else◌,
}
use migcontroller.Prelude.Int32.{Int32}
use migcontroller.Objects.{Except, ok, err, is_not_found, StatefulSet, Pvc, Pod}
use migcontroller.VolumeResize.{
  VolumeResize, VolumeResizeTarget, Phase, unset, pending, validating, syncing, replacing,
  completed, failed, unknown, finalizer_name, label_migration_name, message_migration_completed,
}
use migcontroller.Call.{
  Lib, vr_get, vr_update, vr_update_status, pvc_list, pvc_delete, pod_list, pod_delete, now,
}
use migcontroller.Prog.{Prog, ret, panic, ◌>>=◌, ◌>>◌, ask}
use migcontroller.Status.{append_replicas, loop_rounds}
use migcontroller.Validation.{
  ValidationResult, passed, validate_stateful_set_exists, validate_volume_targets,
  validate_size_reduction, validate_pdb_allows_disruption,
}
use Results.{Outcome, finished, requeue, failure, set_failed, save_status}
use Syncing.{handle_syncing}

unfoldable pub handle_pending : VolumeResize → Prog Outcome Outcome
unfolding save_status
handle_pending vr = do
  t ← ask now
  save_status requeue (record vr {
    status = record vr.status {
      start_time = some t;
      volume_statuses = [];
      phase = validating;
      message = "Starting validation";
    };
  })

-- the loop over the volumes: the first refusal ends it
unfoldable pub validate_sizes :
    {X : Type 0} → Lib → String → String → List VolumeResizeTarget → Prog X ValidationResult
validate_sizes lib namespace sts_name [] = ret passed
validate_sizes lib namespace sts_name (vol ∷ rest) = do
  result ← validate_size_reduction lib namespace sts_name vol
  elim result.valid [ true ↦ validate_sizes lib namespace sts_name rest | false ↦ ret result ]

-- nil is one replica
abbrev pub replicas_of : StatefulSet → Int32
replicas_of sts = elim sts.spec.replicas [ none ↦ 1 | some n ↦ n ]

-- what handleValidating saves once all checks have passed; the last argument is Volumes[0].Name
unfoldable pub start_syncing : VolumeResize → StatefulSet → String → VolumeResize
start_syncing vr sts first = record vr {
  status = record vr.status {
    volume_statuses =
        append_replicas (loop_rounds (replicas_of sts)) 0 vr.spec.volumes vr.status.volume_statuses;
    phase = syncing;
    current_replica = some 0;
    current_volume = first;
    message = "Validation complete, starting sync";
  };
}

-- the checks of a StatefulSet that was found, and the transition
unfoldable pub validate_found : Lib → VolumeResize → StatefulSet → Prog Outcome Outcome
unfolding set_failed save_status start_syncing
validate_found lib vr sts =
    let targets = validate_volume_targets lib sts vr.spec.volumes in
    elim targets.valid [
      | false ↦ set_failed vr targets.message
      | true ↦ do
        sizes ← validate_sizes lib vr.meta.namespace vr.spec.stateful_set_name vr.spec.volumes
        elim sizes.valid [
          | false ↦ set_failed vr sizes.message
          | true ↦ do
            budgets ← validate_pdb_allows_disruption lib sts
            elim budgets.valid [
              | false ↦ set_failed vr budgets.message
              | true ↦ elim (get_elem? vr.spec.volumes 0) [
                | none ↦ panic
                | some v ↦ save_status requeue (start_syncing vr sts v.name)
              ]
            ]
        ]
    ]

unfoldable pub handle_validating : Lib → VolumeResize → Prog Outcome Outcome
unfolding set_failed validate_found
handle_validating lib vr = do
  found ← validate_stateful_set_exists vr.meta.namespace vr.spec.stateful_set_name
  elim found.0 [ none ↦ set_failed vr found.1.message | some sts ↦ validate_found lib vr sts ]

unfoldable pub handle_replacing : VolumeResize → Prog Outcome Outcome
unfolding save_status
handle_replacing vr = do
  t ← ask now
  save_status finished (record vr {
    status = record vr.status {
      phase = completed;
      completion_time = some t;
      message = message_migration_completed;
    };
  })

-- errors are only logged
unfoldable pub delete_pvcs : {X : Type 0} → List Pvc → Prog X (Unit {0})
delete_pvcs [] = ret tt
delete_pvcs (pvc ∷ rest) = do ask (pvc_delete pvc.meta.namespace pvc.meta.name); delete_pvcs rest

unfoldable pub delete_pods : {X : Type 0} → List Pod → Prog X (Unit {0})
delete_pods [] = ret tt
delete_pods (pod ∷ rest) = do ask (pod_delete pod.meta.namespace pod.meta.name); delete_pods rest

unfoldable pub without_finalizer : Lib → VolumeResize → VolumeResize
without_finalizer lib vr = record vr {
  meta = record vr.meta { finalizers = lib.remove_finalizer vr.meta.finalizers finalizer_name };
}

unfoldable pub handle_deletion : Lib → VolumeResize → Prog Outcome Outcome
unfolding delete_pvcs delete_pods without_finalizer
handle_deletion lib vr = do
  pvcs ← ask (pvc_list vr.meta.namespace ((label_migration_name, vr.meta.name) ∷ []))
  elim pvcs [ ok items ↦ delete_pvcs items | err _ ↦ ret tt ]
  pods ← ask (pod_list vr.meta.namespace ((label_migration_name, vr.meta.name) ∷ []))
  elim pods [ ok items ↦ delete_pods items | err _ ↦ ret tt ]
  updated ← ask (vr_update (without_finalizer lib vr))
  elim updated [ err e ↦ ret (failure e) | ok _ ↦ ret finished ]

unfoldable pub require_finalizer : Lib → VolumeResize → Prog Outcome Outcome
require_finalizer lib vr = do
  updated ← ask (
      vr_update (record vr {
        meta = record vr.meta { finalizers = lib.add_finalizer vr.meta.finalizers finalizer_name };
      }))
  elim updated [ err e ↦ ret (failure e) | ok _ ↦ ret requeue ]

-- the `switch` on the phase
unfoldable pub route : Lib → Phase → VolumeResize → Prog Outcome Outcome
unfolding handle_pending handle_validating handle_syncing handle_replacing
route lib unset vr = handle_pending vr
route lib pending vr = handle_pending vr
route lib validating vr = handle_validating lib vr
route lib syncing vr = handle_syncing lib vr
route lib replacing vr = handle_replacing vr
route lib completed vr = ret finished
route lib failed vr = ret finished
route lib (unknown _) vr = ret finished

-- Reconcile, once the object is read
unfoldable pub reconcile_found : Lib → VolumeResize → Prog Outcome Outcome
unfolding handle_deletion require_finalizer route
reconcile_found lib vr = elim vr.meta.deletion_timestamp [
  | some _ ↦ handle_deletion lib vr
  | none ↦ elim (lib.contains_finalizer vr.meta.finalizers finalizer_name) [
    | false ↦ require_finalizer lib vr
    | true ↦ route lib vr.status.phase vr
  ]
]

unfoldable pub reconcile : Lib → String → String → Prog Outcome Outcome
unfolding reconcile_found
reconcile lib namespace name = do
  found ← ask (vr_get namespace name)
  elim found [
    | ok vr ↦ reconcile_found lib vr
    | err e ↦ if is_not_found e then ret finished else ret (failure e)
  ]
