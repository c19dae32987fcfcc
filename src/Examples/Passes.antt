-- ===== src/Examples/Passes.antt =====
-- Instances of the theorems on a whole Reconcile, and on a pass behind a saved completion.
use migcontroller.Prelude.{some, [], ◌∷◌}
use migcontroller.VolumeResize.{VolumeResize, finalizer_name, vol_completed}
use migcontroller.Prog.{Log, run}
use migcontroller.Prog.Safe.{Guarded, AllFair}
use migcontroller.Status.{pending_status}
use migcontroller.Controller.{reconcile}
use migcontroller.Reconciling.{PassGuard, FairPass}
use migcontroller.Reconciling.Finalizer.{FinalizerGuard, finalizer_first}
use migcontroller.Reconciling.Phases.{passes_keep_phases}
use migcontroller.Examples.Opened.{opened}
use migcontroller.Examples.Cluster.{Cluster, serve, lib, cluster}
use migcontroller.Examples.Syncing.{started}

-- a VolumeResize in phase Syncing
abbrev pub syncing_cluster : Cluster
syncing_cluster = record cluster {
  vr = some (record started { meta = record started.meta { finalizers = finalizer_name ∷ [] } });
}

abbrev log : Log
log = (run serve (reconcile lib "default" "shrink") syncing_cluster []).log

fair : AllFair FairPass log
unfolding opened
fair = search

passes_keep_phases_example : Guarded (PassGuard "default" "shrink") log
passes_keep_phases_example = passes_keep_phases serve lib "default" "shrink" syncing_cluster fair

-- the first volume of replica 0 is done
abbrev resumed : VolumeResize
resumed = record started {
  status = record started.status {
    volume_statuses =
        record (pending_status "data" 0) { phase = vol_completed } ∷ pending_status "data" 1 ∷ [];
  };
}

finalizer_first_example :
    Guarded
      (FinalizerGuard lib "default" "shrink")
      (run serve (reconcile lib "default" "shrink") cluster []).log
finalizer_first_example = finalizer_first serve lib "default" "shrink" cluster
