-- ===== src/Examples/Walk.antt =====
-- Instances of the theorems on the walk: two volumes on the two replicas of "web".
use migcontroller.Prelude.{
  String, get_elem?, ◌≡◌, refl, ap, ◌==◌, true, false, none, some, [], ◌∷◌, arith,
}
use migcontroller.VolumeResize.{VolumeResize, VolumeResizeTarget}
use migcontroller.Status.{get_next_volume_replica}
use migcontroller.Controller.{start_syncing}
use migcontroller.Walk.Index.{AreDistinct}
use migcontroller.Walk.Steps.{walk}
use migcontroller.Walk.Fresh.{started_walk_visits, started_walk_ends}
use migcontroller.Examples.Cluster.{resize, web, data_target}

abbrev logs_target : VolumeResizeTarget
logs_target = record { name = "logs"; new_size = "1Gi"; storage_class = none }

abbrev two_volumes : VolumeResize
two_volumes = record resize {
  spec = record { stateful_set_name = "web"; volumes = data_target ∷ logs_target ∷ [] };
}

distinct_names : false ≡ true → ⊥
distinct_names e = cc

distinct : AreDistinct two_volumes.spec.volumes
distinct = ((λ e. distinct_names (ap (λ (n : String). n == "data") e), tt), (tt, tt))

-- the second volume of the second replica is the fourth
started_walk_visits_example : walk (start_syncing two_volumes web "data") 3 ≡ some (1, "logs")
started_walk_visits_example =
    started_walk_visits two_volumes web "data" refl (omega arith) (omega arith) (omega arith)
      distinct 1 1 logs_target (omega arith) refl

started_walk_ends_example :
    (v : VolumeResizeTarget) × ((get_elem? two_volumes.spec.volumes 1 ≡ some v)
      × ((walk (start_syncing two_volumes web "data") 3 ≡ some (1, v.name))
          × (get_next_volume_replica (start_syncing two_volumes web "data") 1 v.name
              ≡ some (0, "", true))))
started_walk_ends_example =
    started_walk_ends two_volumes web "data" refl (omega arith) (omega arith) (omega arith) distinct
