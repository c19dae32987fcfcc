-- ===== src/Objects.antt =====
-- The Kubernetes objects that the operator reads and writes: the fields of the API types that the
-- code of internal/controller names. Times are numbers of nanoseconds.
use migcontroller.Prelude.{ℕ, String, Option, List, StringMap, Bool, ◌++◌}
use migcontroller.Prelude.Int32.{Int32}

-- An `error`: what `apierrors` reads of it through `%w`, and its text.
pub data Reason : Type 0 where
  not_found already_exists conflict timeout other : Reason

pub record GoError : Type 0 where
  pub reason : Reason
  pub text : String

-- fmt.Errorf(prefix + "%w", err) keeps what `errors.As` finds.
abbrev pub wrap : String → GoError → GoError
wrap prefix e = record e { text = prefix ++ e.text }

-- fmt.Errorf of a text
abbrev pub new_error : String → GoError
new_error s = record { reason = other; text = s }

-- A result with an `error` beside it.
pub data Except {ℓ} (A : Type ℓ) : Type ℓ where
  ok : A → Except A
  err : GoError → Except A

abbrev pub is_not_found : GoError → Bool
is_not_found e = elim e.reason [ not_found ↦ Bool.true | _ ↦ Bool.false ]

abbrev pub is_already_exists : GoError → Bool
is_already_exists e = elim e.reason [ already_exists ↦ Bool.true | _ ↦ Bool.false ]

-- metav1.ObjectMeta
pub record ObjectMeta : Type 0 where
  pub name : String
  pub namespace : String
  pub labels : Option StringMap
  pub annotations : Option StringMap
  pub finalizers : List String
  pub deletion_timestamp : Option ℕ
  pub resource_version : String
  pub uid : String
  pub creation_timestamp : ℕ
  pub generation : ℕ
  pub managed_fields : List String

-- An ObjectMeta literal with the four fields that the code sets.
abbrev pub new_meta : String → String → Option StringMap → Option StringMap → ObjectMeta
new_meta name namespace labels annotations = record {
  name = name;
  namespace = namespace;
  labels = labels;
  annotations = annotations;
  finalizers = List.[];
  deletion_timestamp = Option.none;
  resource_version = "";
  uid = "";
  creation_timestamp = 0;
  generation = 0;
  managed_fields = List.[];
}

-- resource.Quantity, opaque: its serialised text. Its order is a parameter.
abbrev pub Quantity : Type 0
Quantity = String

-- corev1.ResourceList; a nil map is `none` where the code may meet one
abbrev pub ResourceList : Type 0
ResourceList = List (String × Quantity)

-- corev1.PersistentVolumeClaimPhase
pub data ClaimPhase : Type 0 where
  bound unbound : ClaimPhase

-- corev1.PersistentVolumeClaim, also the type of a volume claim template
pub record Pvc : Type 0 where
  pub meta : ObjectMeta
  pub access_modes : List String
  pub storage_class_name : Option String
  pub volume_name : String
  pub requests : Option ResourceList
  pub phase : ClaimPhase

-- corev1.PersistentVolumeReclaimPolicy
pub data ReclaimPolicy : Type 0 where
  retain reclaim_delete recycle : ReclaimPolicy

pub record Pv : Type 0 where
  pub meta : ObjectMeta
  pub reclaim_policy : ReclaimPolicy
  pub claim_ref : Option String

-- corev1.PodPhase; `phase_unknown` stands for "Unknown" and for a phase not yet set
pub data PodPhase : Type 0 where
  pod_pending running succeeded pod_failed phase_unknown : PodPhase

pub record PodSpec : Type 0 where
  pub restart_policy : String
  pub run_as_user : ℕ
  pub run_as_group : ℕ
  pub container_name : String
  pub image : String
  pub image_pull_policy : String
  pub env : List (String × String)
  -- name and mount path
  pub volume_mounts : List (String × String)
  -- name and claim name
  pub volumes : List (String × String)

pub record Pod : Type 0 where
  pub meta : ObjectMeta
  pub spec : PodSpec
  pub phase : PodPhase

-- appsv1.StatefulSetSpec; `rest` stands for the fields that are only passed on
pub record StatefulSetSpec : Type 0 where
  pub replicas : Option Int32
  pub template_labels : Option StringMap
  pub volume_claim_templates : List Pvc
  pub rest : String

pub record StatefulSet : Type 0 where
  pub meta : ObjectMeta
  pub spec : StatefulSetSpec

-- corev1.ConfigMap
pub record ConfigMap : Type 0 where
  pub meta : ObjectMeta
  pub entries : StringMap

-- storagev1.StorageClass: its binding mode, where `none` is a nil pointer
pub data BindingMode : Type 0 where
  immediate wait_for_first_consumer : BindingMode

pub record StorageClass : Type 0 where
  pub binding_mode : Option BindingMode

-- policyv1.PodDisruptionBudget
pub record Pdb : Type 0 where
  pub name : String
  -- `none` is a nil selector; otherwise its MatchLabels
  pub selector : Option StringMap
  pub disruptions_allowed : Int32
