-- ===== src/Examples/Templates.antt =====
-- Instances of the theorems on the templates and on the volume statuses.
use migcontroller.Prelude.{
  String, ◌≡◌, refl, ap, ◌==◌, inr, some, [], ◌∷◌, List, true, false, get_elem?, arith,
}
use migcontroller.Objects.{Pvc}
use migcontroller.VolumeResize.{vol_completed}
use migcontroller.Status.{already_completed, update_volume_status}
use migcontroller.Controller.Syncing.{resize_templates}
use migcontroller.Bookkeeping.{update_volume_status-already_completed}
use migcontroller.Templates.{storage_of, templates_resized, templates_kept}
use migcontroller.Examples.Cluster.{claim, data_target}
use migcontroller.Examples.Opened.{opened}
use migcontroller.Examples.Syncing.{started}

abbrev before : List Pvc
before = claim "logs" "" "2Gi" ∷ claim "data" "" "9Gi" ∷ []

abbrev after : List Pvc
after = claim "logs" "" "2Gi" ∷ claim "data" "" "5Gi" ∷ []

resized : resize_templates (data_target ∷ []) before ≡ some after
unfolding opened resize_templates
resized = refl

templates_resized_example :
    (t' : Pvc) × (get_elem? after 1 ≡ some t')
    × (t'.meta ≡ (claim "data" "" "9Gi").meta)
    × (storage_of t' ≡ some "5Gi")
templates_resized_example =
    templates_resized (data_target ∷ []) before after 1 0 (claim "data" "" "9Gi") data_target
      (tt, tt) resized refl refl refl

are_distinct : false ≡ true → ⊥
are_distinct e = cc

templates_kept_example : get_elem? after 0 ≡ some (claim "logs" "" "2Gi")
templates_kept_example =
    templates_kept (data_target ∷ []) before after 0 (claim "logs" "" "2Gi") resized refl
      ((λ e. are_distinct (ap (λ (n : String). n == "logs") e)), tt)

update_volume_status-already_completed_example :
    let marked = (update_volume_status started "data" 0 vol_completed "").status.volume_statuses in
    (already_completed "data" 0 marked ≡ true)
    × (already_completed "data" 1 marked
        ≡ already_completed "data" 1 started.status.volume_statuses)
update_volume_status-already_completed_example =
    update_volume_status-already_completed started "data" "data" 0 1 "" refl
      (inr (λ e. absurd (omega arith)))
