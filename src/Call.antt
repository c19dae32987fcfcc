-- ===== src/Call.antt =====
-- What the operator and its command line tool ask of code outside this repository: the requests to
-- the API server, the clock and the terminal, with the type of their answers, and the pure library functions that it calls.
use Prim.Native.Nat.{Ordering}
use migcontroller.Prelude.{ℕ, String, Option, List, Bool, StringMap}
use migcontroller.Objects.{
  Except, Quantity, ResourceList, Pvc, Pv, Pod, StatefulSet, ConfigMap, StorageClass, Pdb,
}
use migcontroller.VolumeResize.{VolumeResize}

-- A namespace stands before a name.
pub data Call : Type 0 where
  vr_get : String → String → Call
  vr_update : VolumeResize → Call
  vr_create : VolumeResize → Call
  vr_delete : String → String → Call
  -- of one namespace, or of all
  vr_list : Option String → Call
  vr_update_status : VolumeResize → Call
  sts_get : String → String → Call
  sts_create : StatefulSet → Call
  sts_delete_orphan : String → String → Call
  pvc_get : String → String → Call
  pvc_create : Pvc → Call
  pvc_delete : String → String → Call
  pvc_list : String → StringMap → Call
  pv_get : String → Call
  pv_update : Pv → Call
  pod_get : String → String → Call
  pod_create : Pod → Call
  pod_delete : String → String → Call
  pod_list : String → StringMap → Call
  config_map_get : String → String → Call
  config_map_create : ConfigMap → Call
  storage_class_get : String → Call
  pdb_list : String → Call
  now : Call
  -- time.Sleep
  sleep : ℕ → Call
  -- select on ctx.Done() and time.After: an error is ctx.Err()
  wait_or_done : ℕ → Call
  -- standard output and standard error
  print print_error : String → Call

-- An update or a creation answers with the object that the client decodes back into its argument.
abbrev pub Answer : Call → Type 0
Answer (vr_get ns name) = Except VolumeResize
Answer (vr_update vr) = Except VolumeResize
Answer (vr_create vr) = Except VolumeResize
Answer (vr_delete ns name) = Except (Unit {0})
Answer (vr_list ns) = Except (List VolumeResize)
Answer (vr_update_status vr) = Except VolumeResize
Answer (sts_get ns name) = Except StatefulSet
Answer (sts_create sts) = Except StatefulSet
Answer (sts_delete_orphan ns name) = Except (Unit {0})
Answer (pvc_get ns name) = Except Pvc
Answer (pvc_create pvc) = Except Pvc
Answer (pvc_delete ns name) = Except (Unit {0})
Answer (pvc_list ns labels) = Except (List Pvc)
Answer (pv_get name) = Except Pv
Answer (pv_update pv) = Except Pv
Answer (pod_get ns name) = Except Pod
Answer (pod_create pod) = Except Pod
Answer (pod_delete ns name) = Except (Unit {0})
Answer (pod_list ns labels) = Except (List Pod)
Answer (config_map_get ns name) = Except ConfigMap
Answer (config_map_create cm) = Except ConfigMap
Answer (storage_class_get name) = Except StorageClass
Answer (pdb_list ns) = Except (List Pdb)
Answer now = ℕ
Answer (sleep d) = Unit {0}
Answer (wait_or_done d) = Except (Unit {0})
Answer (print s) = Unit {0}
Answer (print_error s) = Unit {0}

-- The pure functions of libraries: encoding/json on a StatefulSet, `%q`, resource.Quantity,
-- label selectors (`none` is an invalid one), and controllerutil's finalizers.
pub record Lib : Type 0 where
  pub marshal : StatefulSet → Except String
  pub unmarshal : String → Except StatefulSet
  pub quote : String → String
  pub quantity_string : Quantity → String
  pub quantity_cmp : Quantity → Quantity → Ordering
  pub storage_request : Option ResourceList → Option Quantity
  pub selector_from_set : StringMap → Option (Option StringMap → Bool)
  pub contains_finalizer : List String → String → Bool
  pub add_finalizer : List String → String → List String
  pub remove_finalizer : List String → String → List String
