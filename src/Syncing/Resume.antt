-- ===== src/Syncing/Resume.antt =====
-- handleSyncing on a volume and replica that the status already has as Completed, as after a
-- reconcile that was interrupted or requeued behind the save of that status.
use migcontroller.Prelude.{ℕ, String, ◌++◌, ◌≡◌, ◌⊎◌, none, some, true, false}
use migcontroller.Prelude.Int32.{Int32, show}
use migcontroller.VolumeResize.{VolumeResize, completed}
use migcontroller.Call.{Call, vr_update_status, now}
use migcontroller.Prog.{Prog, Log, ◌>>=◌}
use migcontroller.Prog.Safe.{Spec, Safe}
use migcontroller.Status.{get_next_volume_replica}
use migcontroller.Controller.Results.{Outcome}
use migcontroller.Syncing.Guard.{Has}

-- The only change: on to what getNextVolumeReplica gives, or to the end at the time that was read.
abbrev pub AdvanceGuard : VolumeResize → Int32 → Log → Call → Type 0
AdvanceGuard vr replica l now = Unit {0}
AdvanceGuard vr replica l (vr_update_status v) =
    ((r : Int32) × (name : String) × (get_next_volume_replica vr replica vr.status.current_volume
        ≡ some (r, name, false))
      × (v ≡ record vr {
        status = record vr.status {
          current_replica = some r;
          current_volume = name;
          message = "Migrating replica " ++ (show r ++ (" volume " ++ name));
        };
      }))
    ⊎ ((r : Int32) × (name : String) × (t : ℕ) × (get_next_volume_replica vr replica
            vr.status.current_volume
          ≡ some (r, name, true))
        × Has l now t
        × (v ≡ record vr {
          status = record vr.status {
            phase = completed;
            completion_time = some t;
            message = "Migration completed successfully";
            current_replica = none;
            current_volume = "";
          };
        }))
AdvanceGuard vr replica l _ = ⊥

abbrev advance_spec : VolumeResize → Int32 → Spec Outcome
advance_spec vr replica = record {
  guard = AdvanceGuard vr replica;
  fair = λ _ _. Unit {0};
  stops = λ _ _. Unit {0};
  panics = Unit {0};
  exhausts = Unit {0};
}
