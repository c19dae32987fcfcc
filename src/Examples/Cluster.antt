-- ===== src/Examples/Cluster.antt =====
-- A small API server for the tests: it stores objects, binds a new claim at once, lets a migrator
-- pod succeed at once, and restarts the pods of a StatefulSet that is created.
use Prim.Native.String.{compare}
use migcontroller.Prelude.{
  ℕ, zero, suc, ◌+◌, String, ◌++◌, Option, none, some, List, [], ◌∷◌, ◌==◌, any, cons_last,
  if◌then◌else◌,
}
use migcontroller.Prelude.Dict.{lookup}
use migcontroller.Objects.{
  Reason, not_found, already_exists, Except, ok, err, ObjectMeta, new_meta, Pvc, bound, Pv,
  reclaim_delete, Pod, PodPhase, running, succeeded, StatefulSet, ConfigMap, immediate,
}
use migcontroller.VolumeResize.{VolumeResize, VolumeResizeTarget, VolumeResizeStatus, unset}
use migcontroller.Call.{
  Lib, vr_get, vr_update, vr_update_status, sts_get, sts_create, sts_delete_orphan, pvc_get,
  pvc_create, pvc_delete, pvc_list, pv_get, pv_update, pod_get, pod_create, pod_delete, pod_list,
  config_map_get, config_map_create, storage_class_get, pdb_list, now, sleep, wait_or_done,
  vr_create, vr_delete, vr_list, print, print_error,
}
use migcontroller.Prog.{Handler}
use migcontroller.Names.{get_pod_name}
use migcontroller.Prelude.Int32.{show}

pub record Cluster : Type 0 where
  pub vr : Option VolumeResize
  pub sts : Option StatefulSet
  pub pvcs : List Pvc
  pub pvs : List Pv
  pub pods : List Pod
  pub config_maps : List ConfigMap
  pub clock : ℕ

module _ {A : Type 0} (meta : A → ObjectMeta) where
  abbrev find_by : String → List A → Option A
  find_by name [] = none
  find_by name (x ∷ rest) = if (meta x).name == name then some x else find_by name rest

  abbrev remove_by : String → List A → List A
  remove_by name [] = []
  remove_by name (x ∷ rest) =
      let rest' = remove_by name rest in if (meta x).name == name then rest' else x ∷ rest'

abbrev pub fault : {A : Type 0} → Reason → Except A
fault reason = err (record { reason = reason; text = "refused" })

abbrev found : {A : Type 0} → Option A → Except A
found none = fault not_found
found (some a) = ok a

abbrev stored : {A : Type 0} → Option A → Except (Unit {0})
stored none = fault not_found
stored (some a) = ok tt

abbrev pod_of : String → String → PodPhase → Pod
pod_of namespace name phase = record {
  meta = new_meta name namespace none none;
  spec = record {
    restart_policy = "Always";
    run_as_user = 0;
    run_as_group = 0;
    container_name = "main";
    image = "main";
    image_pull_policy = "IfNotPresent";
    env = [];
    volume_mounts = [];
    volumes = [];
  };
  phase = phase;
}

abbrev pub running_pod : Pod
running_pod = pod_of "default" "web-0" running

abbrev restart_pods : ℕ → String → String → List Pod → List Pod
restart_pods zero namespace name pods = pods
restart_pods (suc n) namespace name pods =
    let pod = pod_of namespace (get_pod_name name n) running in
    restart_pods n namespace name (pod ∷ remove_by (λ (p : Pod). p.meta) pod.meta.name pods)

-- The stored object keeps its status; an update of the status keeps all else.
abbrev with_status : Option VolumeResize → VolumeResizeStatus → VolumeResize → VolumeResize
with_status stored_vr status sent = record sent { status = status }

unfoldable pub serve : Handler Cluster
unfolding get_pod_name show
serve (vr_get ns name) w = (found w.vr, w)
serve (vr_update vr) w = elim w.vr [
  | none ↦ (fault not_found, w)
  | some old ↦ let vr' = record vr { status = old.status } in (ok vr', record w { vr = some vr' })
]
serve (vr_create vr) w = elim w.vr [
  | some _ ↦ (fault already_exists, w)
  | none ↦ (ok vr, record w { vr = some vr })
]
serve (vr_delete ns name) w = (stored w.vr, record w { vr = none })
serve (vr_list ns) w = (ok (elim w.vr [ none ↦ [] | some vr ↦ vr ∷ [] ]), w)
serve (vr_update_status vr) w = elim w.vr [
  | none ↦ (fault not_found, w)
  | some old ↦ let vr' = record old { status = vr.status } in (ok vr', record w { vr = some vr' })
]
serve (sts_get ns name) w = (found w.sts, w)
serve (sts_create sts) w = elim w.sts [
  | some _ ↦ (fault already_exists, w)
  | none ↦ (
    ok sts,
    record w {
      sts = some sts;
      pods =
          restart_pods (elim sts.spec.replicas [ none ↦ 1 | some n ↦ n ]) sts.meta.namespace
            sts.meta.name w.pods;
    },
  )
]
serve (sts_delete_orphan ns name) w = (stored w.sts, record w { sts = none })
serve (pvc_get ns name) w = (found (find_by (λ (p : Pvc). p.meta) name w.pvcs), w)
serve (pvc_create pvc) w =
    let volume = if pvc.volume_name == "" then "pv-" ++ pvc.meta.name else pvc.volume_name in
    let pvc' = record pvc { volume_name = volume; phase = bound } in
    let pv : Pv = record {
      meta = new_meta volume "" none none;
      reclaim_policy = reclaim_delete;
      claim_ref = some pvc.meta.name;
    } in
    (
      ok pvc',
      record w {
        pvcs = pvc' ∷ w.pvcs;
        pvs = elim (find_by (λ (p : Pv). p.meta) volume w.pvs) [
          | none ↦ pv ∷ w.pvs
          | some _ ↦ w.pvs
        ];
      },
    )
serve (pvc_delete ns name) w = (
  stored (find_by (λ (p : Pvc). p.meta) name w.pvcs),
  record w { pvcs = remove_by (λ (p : Pvc). p.meta) name w.pvcs },
)
serve (pvc_list ns labels) w = (ok [], w)
serve (pv_get name) w = (found (find_by (λ (p : Pv). p.meta) name w.pvs), w)
serve (pv_update pv) w =
    (ok pv, record w { pvs = pv ∷ remove_by (λ (p : Pv). p.meta) pv.meta.name w.pvs })
serve (pod_get ns name) w = (found (find_by (λ (p : Pod). p.meta) name w.pods), w)
serve (pod_create pod) w =
    let pod' = record pod { phase = succeeded } in (ok pod', record w { pods = pod' ∷ w.pods })
serve (pod_delete ns name) w = (
  stored (find_by (λ (p : Pod). p.meta) name w.pods),
  record w { pods = remove_by (λ (p : Pod). p.meta) name w.pods },
)
serve (pod_list ns labels) w = (ok [], w)
serve (config_map_get ns name) w =
    (found (find_by (λ (c : ConfigMap). c.meta) name w.config_maps), w)
serve (config_map_create cm) w = (ok cm, record w { config_maps = cm ∷ w.config_maps })
serve (storage_class_get name) w = (ok (record { binding_mode = some immediate }), w)
serve (pdb_list ns) w = (ok [], w)
serve now w = (w.clock, w)
serve (sleep d) w = (tt, record w { clock = w.clock + d })
serve (wait_or_done d) w = (ok tt, record w { clock = w.clock + d })
serve (print s) w = (tt, w)
serve (print_error s) w = (tt, w)

-- The StatefulSet "web" with one volume, "data".
abbrev pub claim : String → String → String → Pvc
claim name volume size = record {
  meta = new_meta name "default" none none;
  access_modes = "ReadWriteOnce" ∷ [];
  storage_class_name = some "standard";
  volume_name = volume;
  requests = some (("storage", size) ∷ []);
  phase = bound;
}

abbrev pub web : StatefulSet
web = record {
  meta = new_meta "web" "default" none none;
  spec = record {
    replicas = some 2;
    template_labels = none;
    volume_claim_templates = claim "data" "" "9Gi" ∷ [];
    rest = "";
  };
}

abbrev pub lib : Lib
lib = record {
  marshal = λ sts. ok "web";
  unmarshal = λ s. ok web;
  quote = λ s. s;
  quantity_string = λ q. q;
  quantity_cmp = λ a b. compare a b;
  storage_request = λ r. elim r [ none ↦ some "0" | some m ↦ lookup "storage" m ];
  selector_from_set = λ m. none;
  contains_finalizer = λ fs f. any (λ g. g == f) fs;
  add_finalizer = λ fs f. cons_last fs f;
  remove_finalizer = λ fs f. [];
}

abbrev pub data_target : VolumeResizeTarget
data_target = record { name = "data"; new_size = "5Gi"; storage_class = none }

abbrev pub resize : VolumeResize
resize = record {
  meta = new_meta "shrink" "default" none none;
  spec = record { stateful_set_name = "web"; volumes = data_target ∷ [] };
  status = record {
    phase = unset;
    volume_statuses = [];
    current_replica = none;
    current_volume = "";
    message = "";
    start_time = none;
    completion_time = none;
    backup_config_map_name = "";
    conditions = [];
  };
}

abbrev volume : String → Pv
volume name = record {
  meta = new_meta name "" none none;
  reclaim_policy = reclaim_delete;
  claim_ref = none;
}

-- Two replicas, each with its claim of 9Gi.
abbrev pub cluster : Cluster
cluster = record {
  vr = some resize;
  sts = some web;
  pvcs = claim "data-web-0" "pv-a" "9Gi" ∷ claim "data-web-1" "pv-b" "9Gi" ∷ [];
  pvs = volume "pv-a" ∷ volume "pv-b" ∷ [];
  pods = pod_of "default" "web-0" running ∷ pod_of "default" "web-1" running ∷ [];
  config_maps = [];
  clock = 0;
}
