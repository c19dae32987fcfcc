-- ===== src/Examples/Migration.antt =====
-- A whole migration by repeated reconciliation.
use migcontroller.Prelude.{ℕ, zero, suc, ◌≡◌, refl, Option, none, some, []}
use migcontroller.VolumeResize.{Phase, completed}
use migcontroller.Prog.{run}
use migcontroller.Controller.{reconcile}
use migcontroller.Examples.Opened.{opened}
use migcontroller.Examples.Cluster.{Cluster, serve, lib, cluster}

reconcile_times : ℕ → Cluster → Cluster
unfolding opened
reconcile_times zero w = w
reconcile_times (suc n) w =
    reconcile_times n (run serve (reconcile lib "default" "shrink") w []).world

after : ℕ → Option Phase
unfolding reconcile_times
after n = elim (reconcile_times n cluster).vr [ none ↦ none | some vr ↦ some vr.status.phase ]

-- Five passes complete a migration of two replicas: the finalizer, the start, the checks, and one
-- pass for each replica.
migration_completes : after 5 ≡ some completed
unfolding after
migration_completes = refl
