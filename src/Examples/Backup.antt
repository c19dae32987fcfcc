-- ===== src/Examples/Backup.antt =====
-- An instance of the theorem on the backup: a handler that keeps one ConfigMap, in a run that
-- deletes the StatefulSet in between.
use migcontroller.Prelude.{◌≡◌, refl, ◌⊎◌, Option, none, some, true, []}
use migcontroller.Objects.{ok, err, is_not_found, GoError, not_found, already_exists, ConfigMap}
use migcontroller.Call.{Call, Answer, config_map_get, config_map_create}
use migcontroller.Prog.{returned, Handler, run}
use migcontroller.Names.{get_sts_backup_config_map_name}
use migcontroller.Sts.{backup_sts_to_config_map, get_sts_from_backup_config_map, delete_sts_orphan}
use migcontroller.Backup.{IsStore, read_back, backup_restored}
use migcontroller.Examples.Opened.{opened}
use migcontroller.Examples.Cluster.{serve, lib, cluster, resize, web, fault}

abbrev answers : (c : Call) → Option ConfigMap → Answer c
answers (config_map_get ns name) none = fault not_found
answers (config_map_get ns name) (some cm) = ok cm
answers (config_map_create cm) none = ok cm
answers (config_map_create cm) (some old) = fault already_exists
answers c w = (serve c cluster).0

abbrev made : Call → Option ConfigMap
made (config_map_create cm) = some cm
made c = none

abbrev keeps : Handler (Option ConfigMap)
keeps c w = (answers c w, elim w [ some cm ↦ some cm | none ↦ made c ])

misses :
    (w : Option ConfigMap)
    → w ≡ none
    → (e : GoError) × ((keeps
          (config_map_get "default" (get_sts_backup_config_map_name "shrink"))
          w).0
        ≡ err e)
      × (is_not_found e ≡ true)
misses none e = (_, refl, refl)
misses (some cm) e = absurd cc

stays : (c : Call) (w : Option ConfigMap) (cm : ConfigMap) → w ≡ some cm → (keeps c w).1 ≡ some cm
stays c none cm e = absurd cc
stays c (some old) cm e = e

creates :
    (cm created : ConfigMap) (w : Option ConfigMap)
    → (keeps (config_map_create cm) w).0 ≡ ok created
    → (kept : ConfigMap) × ((keeps (config_map_create cm) w).1 ≡ some kept)
      × (kept.entries ≡ cm.entries)
creates cm created none e = (cm, refl, refl)
creates cm created (some old) e = absurd cc

store : IsStore keeps "default" (get_sts_backup_config_map_name "shrink") (λ w. w)
store = record {
  reads = λ w cm e. rw e refl;
  misses = misses;
  stays = stays;
  creates = λ cm created w own named e. creates cm created w e;
}

abbrev empty : Option ConfigMap
empty = none

abbrev backed : Option ConfigMap
backed = (run keeps {X = Unit {0}} (backup_sts_to_config_map lib resize web) empty []).world

abbrev later : Option ConfigMap
later = (run keeps {X = Unit {0}} (delete_sts_orphan web) backed []).world

saved :
    (run keeps {X = Unit {0}} (backup_sts_to_config_map lib resize web) empty []).end
    ≡ returned (ok tt)
unfolding opened
saved = refl

backup_restored_example :
    ((empty ≡ none)
      × ((run keeps {X = Unit {0}}
            (get_sts_from_backup_config_map lib "default" "shrink")
            later
            []).end
          ≡ returned (ok web)))
    ⊎ ((older : ConfigMap) × (empty ≡ some older)
        × ((run keeps {X = Unit {0}}
              (get_sts_from_backup_config_map lib "default" "shrink")
              later
              []).end
            ≡ returned (read_back lib (ok older))))
backup_restored_example =
    backup_restored keeps lib resize web (λ w. w) "web" (delete_sts_orphan web) empty store refl
      refl saved
