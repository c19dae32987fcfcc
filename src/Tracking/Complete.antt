-- ===== src/Tracking/Complete.antt =====
-- What any number of passes of Reconcile of internal/controller/volumeresize_controller.go makes of
-- the entries of a new migration.
use mathlib.Core.List.{Memᴰ}
use mathlib.Mathlib.Logic.Relation.{ReflTransGenᴰ}
use migcontroller.Prelude.{
  ℕ, String, ◌≡◌, refl, sym, ◌∙◌, subst, ◌⊎◌, inl, inr, some, List, [], ◌∷◌, Bool, true, false, map,
  all, not, ◌||◌, ◌&&◌, arith, Bool-cases, ltb,
}
use migcontroller.Prelude.Tests.{eqb}
use migcontroller.Prelude.Int32.{Int32, lt}
use migcontroller.VolumeResize.{
  VolumeResizeTarget, VolumeStatus, VolumeResizeStatus, unset, pending, syncing, completed,
}
use migcontroller.Status.{
  volume_index?, volume_index, append_replicas, loop_rounds, already_completed,
}
use migcontroller.Walk.Names.{volume_index-some}
use migcontroller.Call.{Lib}
use migcontroller.Prog.{Handler}
use migcontroller.Tracking.{Stored}
use migcontroller.Tracking.Refines.{KeepsObject, Turn, passes_move}
use migcontroller.Tracking.Past.{keys, IsFull, IsBefore, on_earlier, on_this, IsFull-key}
use migcontroller.Tracking.Entries.{key_of}
use migcontroller.Tracking.Good.{IsGood, at_phase, in_phase, Follows-IsGood}

-- each entry is that of a completed volume
all_done :
    (p : VolumeStatus → Bool) (done : String × Int32 → Bool) (ss : List VolumeStatus)
    → ((vs : VolumeStatus) → p vs ≡ done (key_of vs))
    → ((k : String × Int32) → Memᴰ k (keys ss) → done k ≡ true)
    → all p ss ≡ true
all_done p done [] says each = refl
all_done p done (vs ∷ rest) says each =
    rw (says vs ∙ each (key_of vs) (Memᴰ.head refl))
      (all_done p done rest says (λ k m. each k (Memᴰ.tail m)))

-- on an earlier replica, or at an earlier target on this one
abbrev pub is_before : Int32 → ℕ → List VolumeResizeTarget → String × Int32 → Bool
is_before r i volumes k = lt k.1 r || (eqb k.1 r && ltb (volume_index k.0 volumes) i)

implied : (b c : Bool) → (b ≡ true → c ≡ true) → (not b || c) ≡ true
implied true c f = f refl
implied false c f = refl

is_before-IsBefore :
    (volumes : List VolumeResizeTarget) (st : VolumeResizeStatus)
    → IsFull volumes st
    → (r : Int32) (i : ℕ) (k : String × Int32) → Memᴰ k (keys st.volume_statuses)
    → is_before r i volumes k ≡ true
    → IsBefore volumes r i k
is_before-IsBefore volumes st full r i k m before = elim (Bool-cases (lt k.1 r)) [
  | inl e ↦ on_earlier e
  | inr e ↦
      let (j, found) = (IsFull-key volumes st k full m).1 in
      let at = volume_index-some volumes k.0 j found in
      on_this j (ground (arith, e, before)) found (ground (arith, e, before, at))
]

-- where a migration begins
abbrev pub IsNew : Stored → Type 0
IsNew s = (s.status.phase ≡ unset) ⊎ (s.status.phase ≡ pending)

module _ {W : Type 0} (h : Handler W) (lib : Lib) (namespace name : String) (stored : W → Stored)
    (keeps : KeepsObject h namespace name stored) (w w' : W)
    (turns : ReflTransGenᴰ (Turn h lib namespace name stored keeps) w w')
    (new : IsNew (stored w)) where
  abbrev volumes : List VolumeResizeTarget
  volumes = (stored w).target.2.volumes

  -- namespace, name and spec are kept, and the status is a good one
  pub passes_keep-IsGood :
      ((stored w').target ≡ (stored w).target)
      × IsGood (stored w).target.2.volumes (stored w').status
  passes_keep-IsGood =
      Follows-IsGood h keeps.fits (stored w) (stored w')
        (passes_move h lib namespace name stored keeps w w' turns)
        (elim new [
          | inl e ↦ in_phase volumes (stored w).status unset e tt
          | inr e ↦ in_phase volumes (stored w).status pending e tt
        ])

  passes-IsGood : IsGood (stored w).target.2.volumes (stored w').status
  passes-IsGood = passes_keep-IsGood.1

  -- Where an API server keeps the VolumeResize as for passes_move, and it is in the phase unset or
  -- Pending, if any sequence of passes of Reconcile, and of changes by others that leave
  -- namespace, name, spec and status, takes it to Completed, then for some number of replicas its
  -- status has exactly one entry for each volume of the spec on each of them, in the order of
  -- handleValidating, and each entry's volume and replica pass the test for a completed volume.
  pub passes_complete :
      (stored w').status.phase ≡ completed
      → let ss = (stored w').status.volume_statuses in
        (replicas : Int32) × ((map key_of ss
            ≡ map key_of (append_replicas (loop_rounds replicas) 0 (stored w).target.2.volumes []))
          × (all (λ vs. already_completed vs.volume_name vs.replica ss) ss ≡ true))
  passes_complete e =
      let ss = (stored w').status.volume_statuses in
      let (full, done) = at_phase volumes (stored w').status completed e passes-IsGood in
      (
        full.replicas,
        (full.has_keys, all_done _ (λ k. already_completed k.0 k.1 ss) ss (λ vs. refl) done),
      )

  -- Where an API server keeps the VolumeResize as for passes_move, and it is in the phase unset or
  -- Pending, if any sequence of passes of Reconcile, and of changes by others that leave
  -- namespace, name, spec and status, takes it to Syncing, then its status has a current replica
  -- and names a volume of the spec as the current one, and every entry of an earlier replica, or
  -- of this replica and a volume that the spec has earlier, is of a volume and replica that pass
  -- the test for a completed volume.
  pub passes_in_order :
      (stored w').status.phase ≡ syncing
      → let st = (stored w').status in
        (r : Int32) × ((i : ℕ) × ((st.current_replica ≡ some r)
            × ((volume_index? st.current_volume (stored w).target.2.volumes ≡ some i)
                × (all
                      (λ vs.
                        not (is_before r i (stored w).target.2.volumes (key_of vs))
                        || already_completed vs.volume_name vs.replica st.volume_statuses)
                      st.volume_statuses
                    ≡ true))))
  passes_in_order e =
      let st = (stored w').status in
      let (r, (name, (at, work))) = at_phase volumes st syncing e passes-IsGood in
      let found =
        subst (λ (n : String). volume_index? n volumes ≡ some work.index) (sym at.at_volume)
          work.found in
      (
        r,
        (
          work.index,
          (
            at.at_replica,
            (
              found,
              all_done _
                  (λ k.
                    not (is_before r work.index volumes k)
                    || already_completed k.0 k.1 st.volume_statuses)
                  st.volume_statuses (λ vs. refl)
                  (λ k m. implied (is_before r work.index volumes k) _ (λ before.
                    work.done k m
                      (is_before-IsBefore volumes st work.full r work.index k m before))),
            ),
          ),
        ),
      )
