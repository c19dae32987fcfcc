-- ===== src/Examples/Commands.antt =====
-- Instances of the theorems on the commands of volmig, run on the small cluster.
use migcontroller.Prelude.{
  ℕ, zero, suc, ◌-◌, ◌≤◌, ◌≡◌, refl, inl, none, some, false, [], arith, ◌↔◌, ◌+◌, ◌*◌,
}
use migcontroller.Prelude.Int32.{show}
use migcontroller.Objects.{ok}
use migcontroller.VolumeResize.{VolumeResize, completed}
use migcontroller.Call.{Call, sleep}
use migcontroller.Prog.{Handler, run}
use migcontroller.Prog.Safe.{Guarded, Ends}
use migcontroller.Volmig.Text.{phase_failed, since}
use migcontroller.Volmig.Age.{format_age, hour}
use migcontroller.Volmig.Client.{Host, Flags}
use migcontroller.Volmig.Create.{run_create}
use migcontroller.Volmig.Creating.{CreateGuard, create_spec, WasCreated, creates_once}
use migcontroller.Volmig.Delete.{run_delete}
use migcontroller.Volmig.Deleting.{DeleteGuard, delete_spec, WasDeleted, deletes_read}
use migcontroller.Volmig.Watch.{Seen, run_watch, has_changed, seen_of}
use migcontroller.Volmig.Watching.{WatchGuard, watch_spec, watches_exit}
use migcontroller.Volmig.Status.{run_status}
use migcontroller.Volmig.Showing.{WasReadNot, statuses_exit}
use migcontroller.Volmig.Describe.{run_describe}
use migcontroller.Volmig.Describing.{describe_spec, WasFound, describes_exit}
use migcontroller.Volmig.WatchEnds.{Settles, HasExited, watch_ends}
use migcontroller.Volmig.Changes.{has_changed-seen_of}
use migcontroller.Examples.Cluster.{Cluster, serve, cluster}
use migcontroller.Examples.Syncing.{started}

abbrev host : Host
host = record {
  in_cluster_config = ok "in cluster";
  build_config = λ path. ok path;
  new_client = λ config. ok tt;
  parse_quantity = λ s. ok s;
  quantity_string = λ q. q;
  split_text = λ s n. "";
  format_date = λ t. "2026-01-01 00:00:00";
  format_clock = λ t. "00:00:00";
  round_string = λ d unit. "1s";
  tabulate = λ rows. "";
}

abbrev flags : Flags
flags = record {
  kubeconfig = "";
  namespace = "default";
  stateful_set_name = "web";
  volume_name = "data";
  new_size = "5Gi";
  storage_class = "";
  watch = false;
  all_namespaces = false;
  output_format = "";
  follow_status = false;
}

-- no VolumeResize yet
abbrev bare : Cluster
bare = record cluster { vr = none }

creates_once_example :
    Guarded
      (CreateGuard host flags "shrink")
      (run serve (run_create 0 host flags "shrink") bare []).log
    × Ends
        (create_spec host flags "shrink")
        (λ l _. WasCreated host flags "shrink" l)
        (run serve (run_create 0 host flags "shrink") bare []).log
        (run serve (run_create 0 host flags "shrink") bare []).end
creates_once_example = creates_once serve host flags "shrink" 0 bare refl

deletes_read_example :
    Guarded
      (DeleteGuard host flags "shrink")
      (run serve (run_delete host flags "shrink") cluster []).log
    × Ends
        (delete_spec host flags "shrink")
        (λ l _. WasDeleted host flags "shrink" l)
        (run serve (run_delete host flags "shrink") cluster []).log
        (run serve (run_delete host flags "shrink") cluster []).end
deletes_read_example = deletes_read serve host flags "shrink" cluster

abbrev done : VolumeResize
done = record started { status = record started.status { phase = completed } }

abbrev done_cluster : Cluster
done_cluster = record cluster { vr = some done }

watches_exit_example :
    Guarded
      (WatchGuard host flags "shrink")
      (run serve (run_watch 1 host flags "shrink") done_cluster []).log
    × Ends
        (watch_spec host flags "shrink")
        (λ _ _. ⊥)
        (run serve (run_watch 1 host flags "shrink") done_cluster []).log
        (run serve (run_watch 1 host flags "shrink") done_cluster []).end
watches_exit_example = watches_exit serve host flags "shrink" 1 done_cluster

statuses_exit_example :
    Guarded
      (WatchGuard host flags "shrink")
      (run serve (run_status 0 host flags "shrink") done_cluster []).log
    × Ends
        (watch_spec host flags "shrink")
        (λ l _. WasReadNot host flags "shrink" phase_failed l)
        (run serve (run_status 0 host flags "shrink") done_cluster []).log
        (run serve (run_status 0 host flags "shrink") done_cluster []).end
statuses_exit_example = statuses_exit serve host flags "shrink" 0 done_cluster

-- a migration that is over after a number of waits
abbrev at_wait : ℕ → Cluster
at_wait zero = done_cluster
at_wait (suc n) = record cluster { vr = some started }

abbrev counts_down : Call → ℕ → ℕ
counts_down (sleep d) n = n - 1
counts_down c n = n

abbrev countdown : Handler ℕ
countdown c n = ((serve c (at_wait n)).0, counts_down c n)

counts_down-grows : (c : Call) (n : ℕ) → counts_down c n ≤ n
counts_down-grows (sleep d) n = omega arith
counts_down-grows c n = omega arith

settles : Settles countdown flags "shrink" (λ n. n)
unfolding serve
settles = record {
  grows = counts_down-grows;
  waits = λ d n. ground arith;
  settled = λ n e. rw e (inl refl);
}

watch_ends_example : HasExited (run countdown (run_watch 4 host flags "shrink") 3 []).end
watch_ends_example = watch_ends countdown host flags "shrink" (λ n. n) settles 4 3 (omega arith)

abbrev seen : Seen
seen = record { phase = "Syncing"; message = ""; replica = none }

has_changed-seen_of_example : (has_changed seen started ≡ false) ↔ (seen_of started ≡ seen)
has_changed-seen_of_example = has_changed-seen_of seen started

-- in the wide format, a run that prints a row
abbrev wide_flags : Flags
wide_flags = record flags { output_format = "wide" }

describes_exit_example :
    Guarded
      (WatchGuard host flags "shrink")
      (run serve (run_describe host flags "shrink") cluster []).log
    × Ends
        (describe_spec host flags "shrink")
        (λ l _. WasFound host flags "shrink" l)
        (run serve (run_describe host flags "shrink") cluster []).log
        (run serve (run_describe host flags "shrink") cluster []).end
describes_exit_example = describes_exit serve host flags "shrink" cluster

-- Ages in days: exact at a day, and a nanosecond below one, which float64 keeps for 30 days and
-- rounds up for 365.
year_age : format_age (since (365 * 24 * hour)) ≡ "365d"
unfolding format_age show
year_age = refl

month_age : format_age (since (30 * 24 * hour + (24 * hour - 1))) ≡ "30d"
unfolding format_age show
month_age = refl

almost_year_age : format_age (since (365 * 24 * hour - 1)) ≡ "365d"
unfolding format_age show
almost_year_age = refl
