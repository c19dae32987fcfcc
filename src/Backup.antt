-- ===== src/Backup.antt =====
-- The backup of the StatefulSet and what is read back from it: backupSTSToConfigMap and
-- getSTSFromBackupConfigMap of internal/controller/statefulset.go.
use migcontroller.Prelude.{
  String, ◌++◌, ◌≡◌, refl, ◌∙◌, ap, subst, ◌⊎◌, inl, inr, Option, none, some, Option-cases, [], ◌∷◌,
  true,
}
use migcontroller.Prelude.Dict.{lookup}
use migcontroller.Objects.{
  Except, ok, err, wrap, new_error, GoError, is_not_found, ConfigMap, StatefulSet,
}
use migcontroller.VolumeResize.{VolumeResize, config_map_key_sts_spec}
use migcontroller.Call.{Call, Lib, config_map_get, config_map_create}
use migcontroller.Prog.{
  Prog, Log, Run, returned, Handler, run, ret, stop, panic, out_of_fuel, call, ◌>>=◌, ◌>>◌, attempt,
  expect,
}
use migcontroller.Names.{get_sts_backup_config_map_name}
use migcontroller.Sts.{
  backup_config_map, create_backup, backup_sts_to_config_map, get_sts_from_backup_config_map,
}

-- How the API server keeps the ConfigMap of one name: `stored` is what a state holds. No request
-- of the operator updates or deletes a ConfigMap.
pub record IsStore {W : Type 0} (h : Handler W) (namespace name : String)
    (stored : W → Option ConfigMap) : Type 0 where
  pub reads :
      (w : W) (cm : ConfigMap)
      → stored w ≡ some cm
      → (h (config_map_get namespace name) w).0 ≡ ok cm
  pub misses :
      (w : W)
      → stored w ≡ none
      → (e : GoError) × ((h (config_map_get namespace name) w).0 ≡ err e) × (is_not_found e ≡ true)
  pub stays : (c : Call) (w : W) (cm : ConfigMap) → stored w ≡ some cm → stored (h c w).1 ≡ some cm
  pub creates :
      (cm made : ConfigMap) (w : W)
      → cm.meta.namespace ≡ namespace
      → cm.meta.name ≡ name
      → (h (config_map_create cm) w).0 ≡ ok made
      → (kept : ConfigMap) × (stored (h (config_map_create cm) w).1 ≡ some kept)
        × (kept.entries ≡ cm.entries)

module _ {W : Type 0} (h : Handler W) (namespace name : String) (stored : W → Option ConfigMap)
    (store : IsStore h namespace name stored) where
  -- A stored ConfigMap outlives every run.
  run-stays :
      {X A : Type 0} (m : Prog X A) (w : W) (l : Log) (cm : ConfigMap)
      → stored w ≡ some cm
      → stored (run h m w l).world ≡ some cm
  unfolding run
  run-stays (ret a) w l cm e = e
  run-stays (stop x) w l cm e = e
  run-stays panic w l cm e = e
  run-stays out_of_fuel w l cm e = e
  run-stays (call c k) w l cm e = run-stays (k (h c w).0) (h c w).1 _ cm (store.stays c w cm e)

-- What is read back from the answer to the read of the ConfigMap.
abbrev parsed : Lib → Option String → Except StatefulSet
parsed lib none =
    err (new_error ("backup ConfigMap missing " ++ (config_map_key_sts_spec ++ " key")))
parsed lib (some json) = elim (lib.unmarshal json) [
  | ok sts ↦ ok sts
  | err e ↦ err (wrap "failed to deserialize StatefulSet: " e)
]

abbrev pub read_back : Lib → Except ConfigMap → Except StatefulSet
read_back lib (ok cm) = parsed lib (lookup config_map_key_sts_spec cm.entries)
read_back lib (err e) = err (wrap "failed to get backup ConfigMap: " e)

-- the three steps of the read, each on what the one before it gave
module _ {W X : Type 0} (h : Handler W) (lib : Lib) where
  json-run :
      (answer : Except StatefulSet) (w : W) (l : Log)
      → (run h {X = X} (attempt (expect "failed to deserialize StatefulSet: " answer)) w l).end
        ≡ returned (elim answer [
          | ok sts ↦ ok sts
          | err e ↦ err (wrap "failed to deserialize StatefulSet: " e)
        ])
  unfolding run
  json-run (ok sts) w l = refl
  json-run (err e) w l = refl

  entry-run :
      (entry : Option String) (w : W) (l : Log)
      → (run h {X = X}
          (attempt (
            ◌>>=◌ {X = GoError} {A = String}
              (elim entry [
                | some json ↦ ret json
                | none ↦
                    stop (
                      new_error
                        ("backup ConfigMap missing " ++ (config_map_key_sts_spec ++ " key")))
              ])
              (λ json. expect "failed to deserialize StatefulSet: " (lib.unmarshal json))))
          w
          l).end
        ≡ returned (parsed lib entry)
  unfolding run
  entry-run none w l = refl
  entry-run (some json) w l = json-run (lib.unmarshal json) w l

  answer-run :
      (answer : Except ConfigMap) (w : W) (l : Log)
      → (run h {X = X}
          (attempt (
            expect "failed to get backup ConfigMap: " answer >>= (λ cm.
              ◌>>=◌ {X = GoError} {A = String}
                (elim (lookup config_map_key_sts_spec cm.entries) [
                  | some json ↦ ret json
                  | none ↦ stop (
                      new_error
                        ("backup ConfigMap missing " ++ (config_map_key_sts_spec ++ " key")))
                ])
                (λ json. expect "failed to deserialize StatefulSet: " (lib.unmarshal json)))))
          w
          l).end
        ≡ returned (read_back lib answer)
  unfolding run
  answer-run (ok cm) w l = entry-run (lookup config_map_key_sts_spec cm.entries) w l
  answer-run (err e) w l = refl

  get_sts_from_backup_config_map-run :
      (namespace vr_name : String) (w : W) (l : Log)
      → (run h (get_sts_from_backup_config_map {X = X} lib namespace vr_name) w l).end
        ≡ returned (
            read_back lib
              (h (config_map_get namespace (get_sts_backup_config_map_name vr_name)) w).0)
  unfolding get_sts_from_backup_config_map run
  get_sts_from_backup_config_map-run namespace vr_name w l = answer-run _ _ _

module _ {W : Type 0} (h : Handler W) (lib : Lib) (vr : VolumeResize) (sts : StatefulSet)
    (stored : W → Option ConfigMap)
    (store : IsStore h vr.meta.namespace (get_sts_backup_config_map_name vr.meta.name) stored) where
  -- an answer to the creation of the ConfigMap
  answer-stored :
      (json : String) (w : W) (l : Log) (answer : Except ConfigMap)
      → (h (config_map_create (backup_config_map vr json)) w).0 ≡ answer
      → let w' = (h (config_map_create (backup_config_map vr json)) w).1 in
        let m =
          attempt {X = Unit {0}} (expect "failed to create backup ConfigMap: " answer >> ret tt) in
        (run h m w' l).end ≡ returned (ok tt)
        → (kept : ConfigMap) × (stored (run h m w' l).world ≡ some kept)
          × (lookup config_map_key_sts_spec kept.entries ≡ some json)
  unfolding run backup_config_map lookup
  answer-stored json w l (ok made) e saved =
      let (kept, stays, same) = store.creates (backup_config_map vr json) made w refl refl e in
      (kept, stays, rw same refl)
  answer-stored json w l (err x) e saved = absurd cc

  -- what the backup leaves behind, where there was none before
  created-stored :
      (json : String) (w : W) (l : Log)
      → lib.marshal sts ≡ ok json
      → (run h {X = Unit {0}} (attempt (create_backup lib vr sts)) w l).end ≡ returned (ok tt)
      → (kept : ConfigMap) × (stored
            (run h {X = Unit {0}} (attempt (create_backup lib vr sts)) w l).world
          ≡ some kept)
        × (lookup config_map_key_sts_spec kept.entries ≡ some json)
  unfolding create_backup run
  created-stored json w l marshalled = rw marshalled (answer-stored json w _ _ refl)

  -- where there is none, the backup is created
  backup-run :
      (w : W) (l : Log)
      → stored w ≡ none
      → (w' : W) × (l' : Log) × (run h {X = Unit {0}} (backup_sts_to_config_map lib vr sts) w l
          ≡ run h {X = Unit {0}} (attempt (create_backup lib vr sts)) w' l')
  unfolding backup_sts_to_config_map run
  backup-run w l absent =
      let (e, missed, gone) = store.misses w absent in
      (
        (h (config_map_get vr.meta.namespace (get_sts_backup_config_map_name vr.meta.name)) w).1,
        (config_map_get vr.meta.namespace (get_sts_backup_config_map_name vr.meta.name), err e) ∷ l,
        rw (missed, gone) refl,
      )

  -- what the backup leaves behind: an existing one as it was, or one with the JSON text
  backup-stored :
      (json : String) (w : W) (l : Log)
      → lib.marshal sts ≡ ok json
      → (run h {X = Unit {0}} (backup_sts_to_config_map lib vr sts) w l).end ≡ returned (ok tt)
      → (kept : ConfigMap) × (stored
            (run h {X = Unit {0}} (backup_sts_to_config_map lib vr sts) w l).world
          ≡ some kept)
        × ((stored w ≡ some kept)
            ⊎ ((stored w ≡ none) × (lookup config_map_key_sts_spec kept.entries ≡ some json)))
  backup-stored json w l marshalled saved = elim (Option-cases (stored w)) [
    | inr (cm, e) ↦ (cm, run-stays h _ _ stored store _ w l cm e, inl e)
    | inl e ↦
        let (w', l', same) = backup-run w l e in
        let (kept, stays, has) = created-stored json w' l' marshalled (
          subst (λ (r : Run W (Unit {0}) (Except (Unit {0}))). r.end ≡ returned (ok tt)) same
            saved) in
        (kept, rw same stays, inr (e, has))
  ]

-- Where an API server keeps the backup's ConfigMap, the JSON text of the StatefulSet reads back as
-- it, and backupSTSToConfigMap succeeded, getSTSFromBackupConfigMap returns that StatefulSet after
-- any further requests if there was no ConfigMap of that name before, and otherwise what the older
-- one holds.
pub backup_restored :
    {W A : Type 0} (h : Handler W) (lib : Lib) (vr : VolumeResize) (sts : StatefulSet)
    (stored : W → Option ConfigMap) (json : String) (between : Prog (Unit {0}) A) (w : W)
    → IsStore h vr.meta.namespace (get_sts_backup_config_map_name vr.meta.name) stored
    → lib.marshal sts ≡ ok json
    → lib.unmarshal json ≡ ok sts
    → (run h {X = Unit {0}} (backup_sts_to_config_map lib vr sts) w []).end ≡ returned (ok tt)
    → let backed = (run h {X = Unit {0}} (backup_sts_to_config_map lib vr sts) w []).world in
      let later = (run h between backed []).world in
      ((stored w ≡ none)
        × ((run h {X = Unit {0}}
              (get_sts_from_backup_config_map lib vr.meta.namespace vr.meta.name)
              later
              []).end
            ≡ returned (ok sts)))
      ⊎ ((older : ConfigMap) × (stored w ≡ some older)
          × ((run h {X = Unit {0}}
                (get_sts_from_backup_config_map lib vr.meta.namespace vr.meta.name)
                later
                []).end
              ≡ returned (read_back lib (ok older))))
backup_restored h lib vr sts stored json between w store marshalled parses saved =
    let (kept, stays, what) = backup-stored h lib vr sts stored store json w [] marshalled saved in
    let later = run-stays h _ _ stored store between _ [] kept stays in
    let read = store.reads _ kept later in
    elim what [
      | inl e ↦ inr (
        kept,
        e,
        get_sts_from_backup_config_map-run h lib _ _ _ _
            ∙ ap (λ r. returned (read_back lib r)) read,
      )
      | inr (e, has) ↦ inl (
        e,
        get_sts_from_backup_config_map-run h lib _ _ _ _
            ∙ (ap (λ r. returned (read_back lib r)) read ∙ rw (has, parses, parsed) refl),
      )
    ]
