-- ===== src/Examples/Checks.antt =====
-- Instances of the theorems on handleValidating and handleDeletion.
use migcontroller.Prelude.{[], ◌≡◌, ◌↔◌, refl}
use migcontroller.VolumeResize.{VolumeResize, validating}
use migcontroller.Objects.{ok}
use migcontroller.Call.{pvc_list, pod_list, pvc_get}
use migcontroller.Prog.{Handler, run, returned}
use migcontroller.Prog.Safe.{Guarded}
use migcontroller.Controller.{handle_validating, handle_deletion}
use migcontroller.Validating.{StartGuard}
use migcontroller.Validating.Start.{migrations_started_checked}
use migcontroller.Validating.Eligible.{View, IsView, HasStarted, IsEligible}
use migcontroller.Validating.Exact.{started-IsEligible}
use migcontroller.Deletion.{DeletionGuard, HasLetGo, deletions_listed, deletions_let_go}
use migcontroller.Controller.Results.{Outcome}
use migcontroller.Examples.Cluster.{Cluster, serve, lib, cluster, resize, web, data_target}

abbrev submitted : VolumeResize
submitted = record resize { status = record resize.status { phase = validating } }

migrations_started_checked_example :
    Guarded (StartGuard lib submitted) (run serve (handle_validating lib submitted) cluster []).log
migrations_started_checked_example = migrations_started_checked serve lib submitted cluster

-- the cluster where all claims and pods carry the label
abbrev labelled : Handler Cluster
labelled (pvc_list ns labels) w = (ok w.pvcs, w)
labelled (pod_list ns labels) w = (ok w.pods, w)
labelled c w = serve c w

deletions_listed_example :
    Guarded (DeletionGuard lib resize) (run labelled (handle_deletion lib resize) cluster []).log
deletions_listed_example = deletions_listed labelled lib resize cluster

deletions_let_go_example :
    (o : Outcome) × ((run labelled (handle_deletion lib resize) cluster []).end ≡ returned o)
    × HasLetGo lib resize (run labelled (handle_deletion lib resize) cluster []).log o
deletions_let_go_example = deletions_let_go labelled lib resize cluster

-- the cluster as it stands, whatever is asked of it
abbrev frozen : Handler Cluster
frozen c w = ((serve c cluster).0, w)

abbrev frozen_view : View
frozen_view = record {
  sts = ok web;
  pvc = λ name. (serve (pvc_get "default" name) cluster).0;
  budgets = λ namespace. ok [];
}

is_view : IsView frozen submitted frozen_view
unfolding serve
is_view = record {
  reads_sts = λ w. refl;
  reads_pvc = λ name w. refl;
  reads_budgets = λ namespace w. refl;
}

started-IsEligible_example :
    HasStarted (run frozen (handle_validating lib submitted) cluster []).log
    ↔ IsEligible lib submitted frozen_view
started-IsEligible_example =
    started-IsEligible frozen lib submitted frozen_view data_target cluster is_view refl
