-- ===== src/Examples/Waiting.antt =====
-- Instances of the theorems on the wait loops: a cluster where a pod never ends, and where only
-- sleeping takes time.
use migcontroller.Prelude.{ℕ, ◌+◌, ◌*◌, ◌≤◌, [], arith}
use migcontroller.Objects.{ok, not_found}
use migcontroller.Call.{
  Call, vr_get, vr_update, vr_update_status, sts_get, sts_create, sts_delete_orphan, pvc_get,
  pvc_create, pvc_delete, pvc_list, pv_get, pv_update, pod_get, pod_create, pod_delete, pod_list,
  config_map_get, config_map_create, storage_class_get, pdb_list, now, sleep, wait_or_done,
  vr_create, vr_delete, vr_list, print, print_error,
}
use migcontroller.Prog.{Handler, run}
use migcontroller.Pvc.{second}
use migcontroller.Sts.{wait_for_pod_termination}
use migcontroller.Migrator.{wait_for_migration_complete}
use migcontroller.Controller.Results.{Outcome}
use migcontroller.Waiting.{
  HasReturned, IsClock, wait_for_pod_termination-HasReturned,
  wait_for_migration_complete-HasReturned,
}
use migcontroller.Examples.Cluster.{fault, running_pod}

abbrev stopwatch : Handler ℕ
stopwatch (vr_get _ _) t = (fault not_found, t)
stopwatch (vr_update _) t = (fault not_found, t)
stopwatch (vr_update_status _) t = (fault not_found, t)
stopwatch (sts_get _ _) t = (fault not_found, t)
stopwatch (sts_create _) t = (fault not_found, t)
stopwatch (sts_delete_orphan _ _) t = (fault not_found, t)
stopwatch (pvc_get _ _) t = (fault not_found, t)
stopwatch (pvc_create _) t = (fault not_found, t)
stopwatch (pvc_delete _ _) t = (fault not_found, t)
stopwatch (pvc_list _ _) t = (fault not_found, t)
stopwatch (pv_get _) t = (fault not_found, t)
stopwatch (pv_update _) t = (fault not_found, t)
stopwatch (pod_get _ _) t = (ok running_pod, t)
stopwatch (pod_create _) t = (fault not_found, t)
stopwatch (pod_delete _ _) t = (fault not_found, t)
stopwatch (pod_list _ _) t = (fault not_found, t)
stopwatch (config_map_get _ _) t = (fault not_found, t)
stopwatch (config_map_create _) t = (fault not_found, t)
stopwatch (storage_class_get _) t = (fault not_found, t)
stopwatch (pdb_list _) t = (fault not_found, t)
stopwatch (vr_create _) t = (fault not_found, t)
stopwatch (vr_delete _ _) t = (fault not_found, t)
stopwatch (vr_list _) t = (fault not_found, t)
stopwatch (print _) t = (tt, t)
stopwatch (print_error _) t = (tt, t)
stopwatch now t = (t, t)
stopwatch (sleep d) t = (tt, t + d)
stopwatch (wait_or_done d) t = (fault not_found, t)

forward : (c : Call) (t : ℕ) → t ≤ (stopwatch c t).1
forward (sleep d) t = omega arith
forward (vr_get _ _) t = omega arith
forward (vr_update _) t = omega arith
forward (vr_update_status _) t = omega arith
forward (sts_get _ _) t = omega arith
forward (sts_create _) t = omega arith
forward (sts_delete_orphan _ _) t = omega arith
forward (pvc_get _ _) t = omega arith
forward (pvc_create _) t = omega arith
forward (pvc_delete _ _) t = omega arith
forward (pvc_list _ _) t = omega arith
forward (pv_get _) t = omega arith
forward (pv_update _) t = omega arith
forward (pod_get _ _) t = omega arith
forward (pod_create _) t = omega arith
forward (pod_delete _ _) t = omega arith
forward (pod_list _ _) t = omega arith
forward (config_map_get _ _) t = omega arith
forward (config_map_create _) t = omega arith
forward (storage_class_get _) t = omega arith
forward (pdb_list _) t = omega arith
forward (vr_create _) t = omega arith
forward (vr_delete _ _) t = omega arith
forward (vr_list _) t = omega arith
forward (print _) t = omega arith
forward (print_error _) t = omega arith
forward now t = omega arith
forward (wait_or_done d) t = omega arith

clock : IsClock stopwatch (λ t. t)
clock = record {
  forward = forward;
  reads_after = λ t. omega arith;
  reads_before = λ t. omega arith;
  sleeps = λ d t. omega arith;
}

wait_for_pod_termination-HasReturned_example :
    HasReturned
      (run stopwatch {X = Outcome}
        (wait_for_pod_termination "default" "web-0" (120 * second))
        0
        []).end
wait_for_pod_termination-HasReturned_example =
    wait_for_pod_termination-HasReturned stopwatch (λ t. t) clock Outcome "default" "web-0"
      (120 * second) 0 []

wait_for_migration_complete-HasReturned_example :
    HasReturned
      (run stopwatch {X = Outcome}
        (wait_for_migration_complete "migrator" "default" (3600 * second))
        0
        []).end
wait_for_migration_complete-HasReturned_example =
    wait_for_migration_complete-HasReturned stopwatch (λ t. t) clock Outcome "migrator" "default"
      (3600 * second) 0 []
