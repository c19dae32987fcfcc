-- ===== src/Tracking/Good.antt =====
-- What the moves of the stored status keep: in Syncing, the entries of the volumes that the
-- migration has gone past are completed, and in Completed all are.
use mathlib.Core.List.{Memᴰ}
use mathlib.Mathlib.Logic.Relation.{ReflTransGenᴰ}
use migcontroller.Prelude.{
  ℕ, ◌+◌, ◌^◌, ◌≤◌, ◌<◌, String, ◌≡◌, refl, sym, ap, ◌∙◌, subst, some, List, [], get_elem?, arith,
}
use migcontroller.Prelude.Int32.{Int32, inc}
use migcontroller.VolumeResize.{
  VolumeResizeTarget, VolumeStatus, VolumeResizeStatus, Phase, validating, syncing, replacing,
  completed, failed,
}
use migcontroller.Status.{volume_index, append_replicas, loop_rounds}
use migcontroller.Walk.Names.{volume_index?-first, volume_index-some}
use migcontroller.Tracking.Moves.{
  IsAt, Move, started, refused, accepted, worked, to_volume, to_replica, ended, broke, replaced,
}
use migcontroller.Tracking.{Target, Stored, IsServed}
use migcontroller.Objects.{StatefulSet, ok}
use migcontroller.Call.{sts_get}
use migcontroller.Prog.{Handler}
use migcontroller.Controller.{replicas_of}
use migcontroller.Tracking.Refines.{serves, Follows}
use migcontroller.Tracking.Past.{
  keys, IsDone, IsAt-unique, IsFull, IsBefore, on_earlier, on_this, AtWork, IsFull-key, before_next,
  before_next_replica, before_end, worked_on, IsFull-same, moved_on,
}

module _ (volumes : List VolumeResizeTarget) where
  -- What holds of a status in each phase.
  abbrev IsGoodFor : VolumeResizeStatus → Phase → Type 0
  IsGoodFor st validating = st.volume_statuses ≡ []
  IsGoodFor st syncing =
      (r : Int32) × ((name : String) × (IsAt r name st × AtWork volumes r name st))
  IsGoodFor st completed =
      IsFull volumes st
      × ((k : String × Int32) → Memᴰ k (keys st.volume_statuses) → IsDone k st.volume_statuses)
  IsGoodFor st replacing = ⊥
  IsGoodFor st _ = Unit {0}

  abbrev pub IsGood : VolumeResizeStatus → Type 0
  IsGood st = IsGoodFor st st.phase

  pub at_phase : (st : VolumeResizeStatus) (p : Phase) → st.phase ≡ p → IsGood st → IsGoodFor st p
  at_phase st p e good = subst (IsGoodFor st) e good

  pub in_phase : (st : VolumeResizeStatus) (p : Phase) → st.phase ≡ p → IsGoodFor st p → IsGood st
  in_phase st p e good = subst (IsGoodFor st) (sym e) good

  -- the work at the place that a move names
  work_at :
      (st : VolumeResizeStatus) (r : Int32) (name : String)
      → IsAt r name st
      → IsGood st
      → AtWork volumes r name st
  work_at st r name at good =
      let (r', (name', (at', work))) = at_phase st syncing at.in_syncing good in
      let (e, e') = IsAt-unique st r' r name' name at' at in
      subst (λ (x : Int32). AtWork volumes x name st) e
        (subst (λ (x : String). AtWork volumes r' x st) e' work)

  goes_on :
      (st : VolumeResizeStatus) (r : Int32) (name : String)
      → IsAt r name st
      → AtWork volumes r name st
      → IsGood st
  goes_on st r name at work = in_phase st syncing at.in_syncing (r, (name, (at, work)))

  begun :
      (st' : VolumeResizeStatus) (replicas : Int32) (v : VolumeResizeTarget)
      → replicas < 2 ^ 32
      → get_elem? volumes 0 ≡ some v
      → st'.volume_statuses ≡ append_replicas (loop_rounds replicas) 0 volumes []
      → AtWork volumes 0 v.name st'
  begun st' replicas v fits is_first e =
      let (i, (found, below)) = volume_index?-first volumes 0 v is_first in
      let full : IsFull volumes st' = record {
        replicas = replicas;
        fits = fits;
        has_keys = ap keys e;
      } in
      record {
        in_range = omega arith;
        index = i;
        found = found;
        full = full;
        done = λ k m before. absurd (nothing_before k i full m below before);
      }
    where
      nothing_before :
          (k : String × Int32) (i : ℕ)
          → IsFull volumes st'
          → Memᴰ k (keys st'.volume_statuses)
          → i ≤ 0
          → IsBefore volumes 0 i k
          → ⊥
      nothing_before k i full m low (on_earlier e) =
          ground (arith, (IsFull-key volumes st' k full m).0, e)
      nothing_before k i full m low (on_this j e found below) = omega (arith, low, below)

  Move-IsGood :
      (runs : StatefulSet → Type 0)
      → ((sts : StatefulSet) → runs sts → replicas_of sts < 2 ^ 32)
      → (st st' : VolumeResizeStatus) → Move runs volumes st st'
      → IsGood st
      → IsGood st'
  Move-IsGood runs fits st st' (started from e empty) good = in_phase st' validating e empty
  Move-IsGood runs fits st st' (refused from e) good = in_phase st' failed e tt
  Move-IsGood runs fits st st' (broke from e) good = in_phase st' failed e tt
  Move-IsGood runs fits st st' (replaced from e) good = absurd (at_phase st replacing from good)
  Move-IsGood runs fits st st' (accepted sts v is from is_first at e) good =
      let empty = at_phase st validating from good in
      goes_on st' 0 v.name at (
        begun st' (replicas_of sts) v (fits sts is) is_first
          (e ∙ ap (append_replicas (loop_rounds (replicas_of sts)) 0 volumes) empty))
  Move-IsGood runs fits st st' (worked r name at at' t) good =
      goes_on st' r name at' (worked_on volumes st st' r name (work_at st r name at good) t)
  Move-IsGood runs fits st st' (to_volume r name v at settled next at' e) good =
      let work = work_at st r name at good in
      let (i, (found, below)) =
        volume_index?-first volumes (volume_index name volumes + 1) v next in
      goes_on st' r v.name at' (
        moved_on volumes st st' r v i work.in_range found e work.full (λ k m.
          before_next volumes st r name work settled i k
            (rw (sym (volume_index-some volumes name work.index work.found)) below) m))
  Move-IsGood runs fits st st' (to_replica r name v at settled last more is_first at' e) good =
      let work = work_at st r name at good in
      let (i, (found, below)) = volume_index?-first volumes 0 v is_first in
      goes_on st' (inc r) v.name at' (
        moved_on volumes st st' (inc r) v i (omega arith) found e work.full
          (λ k m. before_next_replica volumes st r name work settled last i k more below m))
  Move-IsGood runs fits st st' (ended r name at settled last over e same_entries) good =
      let work = work_at st r name at good in
      in_phase st' completed e (
        IsFull-same volumes st st' same_entries work.full,
        subst (λ (ss : List VolumeStatus). (k : String × Int32) → Memᴰ k (keys ss) → IsDone k ss)
            (sym same_entries) (λ k m. before_end volumes st r name work settled last k over m),
      )

module _ {W : Type 0} (h : Handler W)
    (fits : (w : W) (ns name : String) (sts : StatefulSet)
      → (h (sts_get ns name) w).0 ≡ ok sts
      → replicas_of sts < 2 ^ 32) where
  pub Follows-IsGood :
      (s s' : Stored)
      → Follows h s s'
      → IsGood s.target.2.volumes s.status
      → (s'.target ≡ s.target) × IsGood s.target.2.volumes s'.status
  Follows-IsGood s _ ReflTransGenᴰ.refl good = (refl, good)
  Follows-IsGood s s' (ReflTransGenᴰ.tail {b = t} before (kept, move)) good =
      let (e, good') = Follows-IsGood s t before good in
      (
        kept ∙ e,
        Move-IsGood s.target.2.volumes (IsServed (serves h) s.target)
            (λ sts is. fits is.0 s.target.0 s.target.2.stateful_set_name sts is.1) t.status
            s'.status
            (subst (λ (x : Target). Move (IsServed (serves h) x) x.2.volumes t.status s'.status) e
              move)
            good',
      )
