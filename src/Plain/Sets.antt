-- ===== src/Plain/Sets.antt =====
-- The functions of internal/controller/statefulset.go, migrator.go and validation.go, and the
-- loops of handleDeletion; all but the two wait loops.
use migcontroller.Prelude.{String, ◌++◌, Option, none, some, List, [], ◌∷◌}
use migcontroller.Prelude.Dict.{lookup}
use migcontroller.Prelude.Int32.{Int32}
use migcontroller.Objects.{Except, ok, err, is_not_found, new_error, Pvc, Pod, StatefulSet}
use migcontroller.VolumeResize.{VolumeResize, VolumeResizeTarget, config_map_key_sts_spec}
use migcontroller.Call.{Lib}
use migcontroller.Prog.{ret, stop, ◌>>=◌, expect}
use migcontroller.Names.{get_pod_name}
use migcontroller.Pvc.{get_pvc}
use migcontroller.Sts.{
  delete_sts_orphan, create_backup, backup_sts_to_config_map, get_sts_from_backup_config_map,
  delete_pod,
}
use migcontroller.Migrator.{create_migrator_pod, create_new_migrator_pod, cleanup_migrator_pod}
use migcontroller.Validation.{validate_size_reduction, validate_pdb_allows_disruption}
use migcontroller.Controller.{validate_sizes, delete_pvcs, delete_pods}
use migcontroller.Controller.Results.{Outcome}
use migcontroller.Controller.Syncing.{is_running, await_pod}
use migcontroller.Plain.{
  IsPlain, IsPlain-bind, IsPlain-attempt, IsPlain-if, IsPlain-elim, IsPlain-expect,
  IsPlain-tolerate_not_found,
}
use migcontroller.Plain.Claims.{expected, tolerated}

module _ (loops : Type 0) where
  pub backup-IsPlain :
      (lib : Lib) (vr : VolumeResize) (sts : StatefulSet)
      → IsPlain loops {X = Outcome} (backup_sts_to_config_map lib vr sts)
  unfolding backup_sts_to_config_map create_backup
  backup-IsPlain lib vr sts = elim [
    | ok _ ↦ tt
    | err e ↦
        IsPlain-if loops (is_not_found e) _ _
          (IsPlain-attempt loops Outcome (create_backup lib vr sts)
            (expected loops _ (lib.marshal sts) _ (λ json r. expected loops _ r _ (λ _. tt))))
          tt
  ]

  pub delete_sts_orphan-IsPlain :
      (sts : StatefulSet) → IsPlain loops {X = Outcome} (delete_sts_orphan sts)
  unfolding delete_sts_orphan
  delete_sts_orphan-IsPlain sts = λ r. IsPlain-attempt loops Outcome _ (
      tolerated loops "failed to delete StatefulSet with orphan policy: " r (λ _. ret sts)
        (λ _. tt))

  pub create_migrator_pod-IsPlain :
      (vr : VolumeResize) (vol : VolumeResizeTarget) (replica : Int32) (original temp : String)
      → IsPlain loops {X = Outcome} (create_migrator_pod vr vol replica original temp)
  unfolding create_migrator_pod create_new_migrator_pod
  create_migrator_pod-IsPlain vr vol replica original temp = elim [
    | ok _ ↦ tt
    | err e ↦ IsPlain-if loops (is_not_found e) _ _ (elim [ ok _ ↦ tt | err _ ↦ tt ]) tt
  ]

  key-IsPlain :
      (lib : Lib) (o : Option String)
      → IsPlain loops (
          (elim o [
            | some json ↦ ret json
            | none ↦
                stop
                  (new_error ("backup ConfigMap missing " ++ (config_map_key_sts_spec ++ " key")))
          ])
          >>= λ json. expect "failed to deserialize StatefulSet: " (lib.unmarshal json))
  key-IsPlain lib none = tt
  key-IsPlain lib (some json) = IsPlain-expect loops _ (lib.unmarshal json)

  pub get_backup-IsPlain :
      (lib : Lib) (namespace name : String)
      → IsPlain loops {X = Outcome} (get_sts_from_backup_config_map lib namespace name)
  unfolding get_sts_from_backup_config_map
  get_backup-IsPlain lib namespace name = λ r. IsPlain-attempt loops Outcome _ (
      expected loops "failed to get backup ConfigMap: " r _
        (λ cm. key-IsPlain lib (lookup config_map_key_sts_spec cm.entries)))

  pub await_pod-IsPlain :
      (vr : VolumeResize) (replica : Int32) → IsPlain loops (await_pod vr replica)
  unfolding await_pod
  await_pod-IsPlain vr replica = elim [
    | ok pod ↦ IsPlain-if loops (is_running pod.phase) _ _ tt tt
    | err e ↦ IsPlain-if loops (is_not_found e) _ _ tt tt
  ]

  pub delete_pod-IsPlain :
      (namespace name : String) (replica : Int32)
      → IsPlain loops {X = Outcome} (delete_pod namespace name replica)
  unfolding delete_pod
  delete_pod-IsPlain namespace name replica = λ r. IsPlain-attempt loops Outcome _ (
      IsPlain-tolerate_not_found loops
        ("failed to delete pod " ++ (get_pod_name name replica ++ ": ")) r)

  pub cleanup_migrator_pod-IsPlain :
      (name namespace : String) → IsPlain loops {X = Outcome} (cleanup_migrator_pod name namespace)
  unfolding cleanup_migrator_pod
  cleanup_migrator_pod-IsPlain name namespace = λ r.
      IsPlain-attempt loops Outcome _
        (IsPlain-tolerate_not_found loops "failed to delete migrator pod: " r)

  validate_size_reduction-IsPlain :
      (lib : Lib) (namespace name : String) (vol : VolumeResizeTarget)
      → IsPlain loops {X = Outcome} (validate_size_reduction lib namespace name vol)
  unfolding validate_size_reduction get_pvc
  validate_size_reduction-IsPlain lib namespace name vol = elim [ ok _ ↦ tt | err _ ↦ tt ]

  pub validate_sizes-IsPlain :
      (lib : Lib) (namespace name : String) (vols : List VolumeResizeTarget)
      → IsPlain loops {X = Outcome} (validate_sizes lib namespace name vols)
  unfolding validate_sizes
  validate_sizes-IsPlain lib namespace name [] = tt
  validate_sizes-IsPlain lib namespace name (vol ∷ rest) =
      IsPlain-bind loops (validate_size_reduction lib namespace name vol) _
        (validate_size_reduction-IsPlain lib namespace name vol)
        (λ r. IsPlain-elim loops r.valid _ _ (validate_sizes-IsPlain lib namespace name rest) tt)

  pub validate_pdb-IsPlain :
      (lib : Lib) (sts : StatefulSet)
      → IsPlain loops {X = Outcome} (validate_pdb_allows_disruption lib sts)
  unfolding validate_pdb_allows_disruption
  validate_pdb-IsPlain lib sts = elim [ ok _ ↦ tt | err _ ↦ tt ]

  delete_pvcs-IsPlain : (items : List Pvc) → IsPlain loops {X = Outcome} (delete_pvcs items)
  unfolding delete_pvcs
  delete_pvcs-IsPlain [] = tt
  delete_pvcs-IsPlain (p ∷ rest) = λ r. delete_pvcs-IsPlain rest

  delete_pods-IsPlain : (items : List Pod) → IsPlain loops {X = Outcome} (delete_pods items)
  unfolding delete_pods
  delete_pods-IsPlain [] = tt
  delete_pods-IsPlain (p ∷ rest) = λ r. delete_pods-IsPlain rest

  pub listed_pvcs-IsPlain :
      (r : Except (List Pvc))
      → IsPlain loops {X = Outcome} (elim r [ ok items ↦ delete_pvcs items | err _ ↦ ret tt ])
  listed_pvcs-IsPlain (ok items) = delete_pvcs-IsPlain items
  listed_pvcs-IsPlain (err _) = tt

  pub listed_pods-IsPlain :
      (r : Except (List Pod))
      → IsPlain loops {X = Outcome} (elim r [ ok items ↦ delete_pods items | err _ ↦ ret tt ])
  listed_pods-IsPlain (ok items) = delete_pods-IsPlain items
  listed_pods-IsPlain (err _) = tt
