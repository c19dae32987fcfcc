-- ===== src/Examples/Syncing.antt =====
-- Instances of the theorems on handleSyncing: the first replica of the StatefulSet "web".
use migcontroller.Prelude.{◌≡◌, refl, some, [], ◌∷◌}
use migcontroller.VolumeResize.{VolumeResize, syncing}
use migcontroller.Prog.{Log, run}
use migcontroller.Prog.Safe.{Guarded, AllFair}
use migcontroller.Status.{find_target, pending_status}
use migcontroller.Controller.Syncing.{handle_syncing}
use migcontroller.Syncing.Guard.{
  FairUpdate, RetainGuard, MigratedGuard, BackupGuard, PodGuard, SwapGuard,
}
use migcontroller.Syncing.Order.{
  target_of, claims_deleted_retained, claims_deleted_migrated, sts_deleted_backed_up,
  migrator_created_alone, sts_created_swapped,
}
use migcontroller.Examples.Opened.{opened}
use migcontroller.Examples.Cluster.{Cluster, serve, lib, cluster, resize}

abbrev pub started : VolumeResize
started = record resize {
  status = record resize.status {
    phase = syncing;
    current_replica = some 0;
    current_volume = "data";
    volume_statuses = pending_status "data" 0 ∷ pending_status "data" 1 ∷ [];
  };
}

abbrev pub started_cluster : Cluster
started_cluster = record cluster { vr = some started }

named : (find_target "data" started.spec.volumes).name ≡ "data"
unfolding find_target
named = refl

abbrev log : Log
log = (run serve (handle_syncing lib started) started_cluster []).log

fair : AllFair FairUpdate log
unfolding opened
fair = search

claims_deleted_retained_example : Guarded (RetainGuard (target_of started 0)) log
claims_deleted_retained_example =
    claims_deleted_retained serve lib started 0 started_cluster refl refl named fair

claims_deleted_migrated_example : Guarded (MigratedGuard (target_of started 0)) log
claims_deleted_migrated_example =
    claims_deleted_migrated serve lib started 0 started_cluster refl refl named fair

sts_deleted_backed_up_example : Guarded (BackupGuard lib (target_of started 0)) log
sts_deleted_backed_up_example =
    sts_deleted_backed_up serve lib started 0 started_cluster refl refl named fair

migrator_created_alone_example : Guarded (PodGuard (target_of started 0)) log
migrator_created_alone_example =
    migrator_created_alone serve lib started 0 started_cluster refl refl named fair

sts_created_swapped_example : Guarded (SwapGuard (target_of started 0)) log
sts_created_swapped_example =
    sts_created_swapped serve lib started 0 started_cluster refl refl named fair
