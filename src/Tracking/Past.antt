-- ===== src/Tracking/Past.antt =====
-- The volumes that a migration of internal/controller/volumeresize_controller.go has gone past: what
-- holds of their entries while it works on another.
use mathlib.Core.List.{Memᴰ}
use migcontroller.Prelude.{
  ℕ, ◌+◌, ◌^◌, ◌≤◌, ◌<◌, String, ◌≡◌, ◌≢◌, sym, ap, ◌∙◌, subst, ◌⊎◌, inl, inr, none, some, List, [],
  true, false, map, get_elem?, arith, Bool-cases, ltb,
}
use migcontroller.Bookkeeping.{IsTracked}
use migcontroller.Prelude.Int32.{Int32, inc, lt}
use migcontroller.VolumeResize.{VolumeResizeTarget, VolumeStatus, VolumeResizeStatus}
use migcontroller.Status.{
  volume_index?, volume_index, max_replica_from, append_replicas, loop_rounds, already_completed,
}
use migcontroller.Walk.Names.{volume_index?-injective, volume_index?-bound, volume_index-some}
use migcontroller.Tracking.Moves.{IsAt, IsSettled, Touches}
use migcontroller.Tracking.Entries.{
  key_of, Mem-IsTracked, Touches-keys, Touches-already_completed, Mem-max_replica_from,
  Mem-append_replicas, IsListed,
}

abbrev pub keys : List VolumeStatus → List (String × Int32)
keys ss = map key_of ss

abbrev pub IsDone : String × Int32 → List VolumeStatus → Type 0
IsDone k ss = already_completed k.0 k.1 ss ≡ true

pub IsAt-unique :
    (st : VolumeResizeStatus) (r r' : Int32) (name name' : String)
    → IsAt r name st
    → IsAt r' name' st
    → (r ≡ r') × (name ≡ name')
IsAt-unique st r r' name name' at at' =
    let e : some r ≡ some r' = sym at.at_replica ∙ at'.at_replica in
    (cc, sym at.at_volume ∙ at'.at_volume)

pair : (a b : String) (r s : Int32) → a ≡ b → r ≡ s → ◌≡◌ {A = String × Int32} (a, r) (b, s)
pair a b r s e e' = cc

module _ (volumes : List VolumeResizeTarget) where
  -- An entry for each volume of the spec on each replica of the StatefulSet.
  pub record IsFull (st : VolumeResizeStatus) : Type 0 where
    pub replicas : Int32
    pub fits : replicas < 2 ^ 32
    pub has_keys :
        keys st.volume_statuses ≡ keys (append_replicas (loop_rounds replicas) 0 volumes [])

  -- on an earlier replica, or an earlier volume on this one
  pub data IsBefore (r : Int32) (i : ℕ) (k : String × Int32) : Type 0 where
    on_earlier : lt k.1 r ≡ true → IsBefore r i k
    on_this : (j : ℕ) → k.1 ≡ r → volume_index? k.0 volumes ≡ some j → j < i → IsBefore r i k

  pub record AtWork (r : Int32) (name : String) (st : VolumeResizeStatus) : Type 0 where
    pub in_range : r < 2 ^ 32
    pub index : ℕ
    pub found : volume_index? name volumes ≡ some index
    pub full : IsFull st
    pub done :
        (k : String × Int32)
        → Memᴰ k (keys st.volume_statuses)
        → IsBefore r index k
        → IsDone k st.volume_statuses

  pub IsFull-key :
      (st : VolumeResizeStatus) (k : String × Int32)
      → IsFull st
      → Memᴰ k (keys st.volume_statuses)
      → (k.1 < 2 ^ 31) × IsListed volumes k.0
  IsFull-key st k full m =
      let rounds : loop_rounds full.replicas < 2 ^ 31 = ground (arith, full.fits) in
      elim (Mem-append_replicas (loop_rounds full.replicas) 0 volumes [] (omega (arith, rounds))
        (subst (λ (ks : List (String × Int32)). Memᴰ k ks) full.has_keys m)) [
          | inl nowhere ↦ elim nowhere [ ]
          | inr (below, listed) ↦ (omega (arith, below, rounds), listed)
        ]

  module _ (st : VolumeResizeStatus) (r : Int32) (name : String) (work : AtWork r name st)
      (settled : IsSettled r name st.volume_statuses) where
    -- the entries of this replica, up to the current volume
    passed :
        (k : String × Int32) (j : ℕ)
        → Memᴰ k (keys st.volume_statuses)
        → k.1 ≡ r
        → volume_index? k.0 volumes ≡ some j
        → j < work.index + 1
        → IsDone k st.volume_statuses
    passed k j m e found below = elim (Bool-cases (ltb j work.index)) [
      | inl earlier ↦ work.done k m (on_this j e found (ground (arith, earlier)))
      | inr later ↦
          let here : j ≡ work.index = ground (arith, later, below) in
          let named : name ≡ k.0 =
            volume_index?-injective volumes name k.0 work.index work.found
              (found ∙ ap (λ (x : ℕ). some x) here) in
          subst
            (λ (x : String × Int32).
              IsTracked x.0 x.1 st.volume_statuses → IsDone x st.volume_statuses)
            (pair name k.0 r k.1 named (sym e)) settled (Mem-IsTracked st.volume_statuses m)
    ]

    -- the entries up to this replica, at its last volume
    passed_all :
        (k : String × Int32)
        → Memᴰ k (keys st.volume_statuses)
        → get_elem? volumes (volume_index name volumes + 1) ≡ none
        → lt r k.1 ≡ false
        → IsDone k st.volume_statuses
    passed_all k m last above =
        let (small, (j, found)) = IsFull-key st k work.full m in
        elim (Bool-cases (lt k.1 r)) [
          | inl below ↦ work.done k m (on_earlier below)
          | inr below ↦
              let bound =
                volume_index?-bound volumes k.0 j (volume_index name volumes + 1) found last in
              passed k j m (ground (arith, small, below, above, work.in_range)) found
                (omega (arith, bound, volume_index-some volumes name work.index work.found))
        ]

    pub before_next :
        (i : ℕ) (k : String × Int32)
        → i ≤ work.index + 1
        → Memᴰ k (keys st.volume_statuses)
        → IsBefore r i k
        → IsDone k st.volume_statuses
    before_next i k low m (on_earlier e) = work.done k m (on_earlier e)
    before_next i k low m (on_this j e found below) =
        passed k j m e found (omega (arith, low, below))

    module _ (last : get_elem? volumes (volume_index name volumes + 1) ≡ none) where
      pub before_next_replica :
          (i : ℕ) (k : String × Int32)
          → lt r (max_replica_from 0 st.volume_statuses) ≡ true
          → i ≤ 0
          → Memᴰ k (keys st.volume_statuses)
          → IsBefore (inc r) i k
          → IsDone k st.volume_statuses
      before_next_replica i k more low m (on_earlier e) =
          let small = (IsFull-key st k work.full m).0 in
          passed_all k m last (ground (arith, e, more, small, work.in_range))
      before_next_replica i k more low m (on_this j e found below) =
          absurd (omega (arith, low, below))

      pub before_end :
          (k : String × Int32)
          → lt r (max_replica_from 0 st.volume_statuses) ≡ false
          → Memᴰ k (keys st.volume_statuses)
          → IsDone k st.volume_statuses
      before_end k over m =
          let least = Mem-max_replica_from 0 st.volume_statuses m in
          passed_all k m last (ground (arith, over, least))

  -- the work goes on where it was
  pub worked_on :
      (st st' : VolumeResizeStatus) (r : Int32) (name : String)
      → AtWork r name st
      → Touches name r st.volume_statuses st'.volume_statuses
      → AtWork r name st'
  worked_on st st' r name work t = record {
    in_range = work.in_range;
    index = work.index;
    found = work.found;
    full = record {
      replicas = work.full.replicas;
      fits = work.full.fits;
      has_keys = Touches-keys t ∙ work.full.has_keys;
    };
    done = λ k m before.
        Touches-already_completed k.0 k.1 t (elsewhere k before)
        ∙ work.done k (subst (λ (ks : List (String × Int32)). Memᴰ k ks) (Touches-keys t) m) before;
  }
    where
      elsewhere : (k : String × Int32) → IsBefore r work.index k → (k.0 ≢ name) ⊎ (k.1 ≢ r)
      elsewhere k (on_earlier e) = inr (λ is. ground (arith, e, is))
      elsewhere k (on_this j e found below) = inl (λ is.
          let found' : volume_index? name volumes ≡ some j =
            subst (λ (n : String). volume_index? n volumes ≡ some j) is found in
          let here : some j ≡ some work.index = sym found' ∙ work.found in
          ground (arith, below, here))

  pub IsFull-same :
      (st st' : VolumeResizeStatus)
      → st'.volume_statuses ≡ st.volume_statuses
      → IsFull st
      → IsFull st'
  IsFull-same st st' e full = record {
    replicas = full.replicas;
    fits = full.fits;
    has_keys = ap keys e ∙ full.has_keys;
  }

  -- the entries are as they were, and the work goes on elsewhere
  pub moved_on :
      (st st' : VolumeResizeStatus) (r' : Int32) (v : VolumeResizeTarget) (i : ℕ)
      → r' < 2 ^ 32
      → volume_index? v.name volumes ≡ some i
      → st'.volume_statuses ≡ st.volume_statuses
      → IsFull st
      → ((k : String × Int32)
          → Memᴰ k (keys st.volume_statuses)
          → IsBefore r' i k
          → IsDone k st.volume_statuses)
      → AtWork r' v.name st'
  moved_on st st' r' v i range found e full done = record {
    in_range = range;
    index = i;
    found = found;
    full = IsFull-same st st' e full;
    done =
        subst
          (λ (ss : List VolumeStatus).
            (k : String × Int32) → Memᴰ k (keys ss) → IsBefore r' i k → IsDone k ss)
          (sym e) done;
  }
