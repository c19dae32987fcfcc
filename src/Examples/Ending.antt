-- ===== src/Examples/Ending.antt =====
-- Instances of the theorems that a pass comes to its end: on the small cluster, whose clock only
-- sleeping moves.
use migcontroller.Prelude.{◌≤◌, [], arith}
use migcontroller.Call.{
  Call, vr_get, vr_update, vr_update_status, sts_get, sts_create, sts_delete_orphan, pvc_get,
  pvc_create, pvc_delete, pvc_list, pv_get, pv_update, pod_get, pod_create, pod_delete, pod_list,
  config_map_get, config_map_create, storage_class_get, pdb_list, now, sleep, wait_or_done,
  vr_create, vr_delete, vr_list, print, print_error,
}
use migcontroller.Prog.{run}
use migcontroller.Controller.{reconcile}
use migcontroller.Waiting.{IsClock}
use migcontroller.Waiting.Total.{IsOver}
use migcontroller.Waiting.Reconcile.{reconcile-Ends}
use migcontroller.Examples.Cluster.{Cluster, serve, lib}
use migcontroller.Examples.Passes.{syncing_cluster}

pub forward : (c : Call) (w : Cluster) → w.clock ≤ (serve c w).1.clock
unfolding serve
forward (vr_get _ _) w = ground arith
forward (vr_update _) w = ground arith
forward (vr_update_status _) w = ground arith
forward (sts_get _ _) w = ground arith
forward (sts_create _) w = ground arith
forward (sts_delete_orphan _ _) w = ground arith
forward (pvc_get _ _) w = ground arith
forward (pvc_create _) w = ground arith
forward (pvc_delete _ _) w = ground arith
forward (pvc_list _ _) w = ground arith
forward (pv_get _) w = ground arith
forward (pv_update _) w = ground arith
forward (pod_get _ _) w = ground arith
forward (pod_create _) w = ground arith
forward (pod_delete _ _) w = ground arith
forward (pod_list _ _) w = ground arith
forward (config_map_get _ _) w = ground arith
forward (config_map_create _) w = ground arith
forward (storage_class_get _) w = ground arith
forward (pdb_list _) w = ground arith
forward (vr_create _) w = ground arith
forward (vr_delete _ _) w = ground arith
forward (vr_list _) w = ground arith
forward (print _) w = ground arith
forward (print_error _) w = ground arith
forward now w = ground arith
forward (sleep d) w = ground arith
forward (wait_or_done d) w = ground arith

clock : IsClock serve (λ w. w.clock)
unfolding serve
clock = record {
  forward = forward;
  reads_after = λ w. omega arith;
  reads_before = λ w. omega arith;
  sleeps = λ d w. omega arith;
}

reconcile-Ends_example :
    IsOver (run serve (reconcile lib "default" "shrink") syncing_cluster []).end
reconcile-Ends_example =
    reconcile-Ends serve (λ w. w.clock) clock lib "default" "shrink" syncing_cluster []
