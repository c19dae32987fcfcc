-- ===== src/Walk/Steps.antt =====
-- The walk of a migration: from replica 0 and the first volume, by getNextVolumeReplica.
use migcontroller.Prelude.{
  ℕ, zero, suc, ◌+◌, ◌-◌, ◌*◌, ◌^◌, ◌≤◌, ◌<◌, String, ◌≡◌, subst, sym, ◌∙◌, ap, Option, none, some,
  true, false, arith, length, get_elem?, if◌then◌else◌,
}
use migcontroller.Prelude.Int32.{Int32}
use migcontroller.VolumeResize.{VolumeResize, VolumeResizeTarget}
use migcontroller.Status.{max_replica_from, next_replica, get_next_volume_replica}
use migcontroller.Walk.Index.{
  AreDistinct, volume_index-get_elem?, get_elem?-lt, get_elem?-length, get_elem?-some,
  get_elem?-pos,
}
use native.Mathlib.Nat.{add-zero}
use native.Mathlib.Numerals.{add-one}

-- one call of getNextVolumeReplica, where `none` is the end
abbrev step : VolumeResize → Option (Int32 × String) → Option (Int32 × String)
step vr none = none
step vr (some (r, v)) = elim (get_next_volume_replica vr r v) [
  | none ↦ none
  | some (r', v', done) ↦ if done then none else some (r', v')
]

-- the replica and volume after `k` calls
unfoldable pub walk : VolumeResize → ℕ → Option (Int32 × String)
walk vr zero = elim (get_elem? vr.spec.volumes 0) [ none ↦ none | some v ↦ some (0, v.name) ]
walk vr (suc k) = step vr (walk vr k)

module _ (vr : VolumeResize) (m : ℕ) (small : m < 2 ^ 31)
    (greatest : max_replica_from 0 vr.status.volume_statuses ≡ m)
    (distinct : AreDistinct vr.spec.volumes) where
  next_volume :
      (r i : ℕ) (v v' : VolumeResizeTarget)
      → get_elem? vr.spec.volumes i ≡ some v
      → get_elem? vr.spec.volumes (i + 1) ≡ some v'
      → get_next_volume_replica vr r v.name ≡ some (r, v'.name, false)
  unfolding get_next_volume_replica
  next_volume r i v v' e e' = ground (arith, volume_index-get_elem? vr.spec.volumes i v distinct e)

  next_row :
      (r i : ℕ) (v v' : VolumeResizeTarget)
      → r < m
      → get_elem? vr.spec.volumes i ≡ some v
      → get_elem? vr.spec.volumes (i + 1) ≡ none
      → get_elem? vr.spec.volumes 0 ≡ some v'
      → get_next_volume_replica vr r v.name ≡ some (r + 1, v'.name, false)
  unfolding get_next_volume_replica next_replica
  next_row r i v v' h e e' e₀ =
      ground (arith, volume_index-get_elem? vr.spec.volumes i v distinct e)

  next_end :
      (i : ℕ) (v : VolumeResizeTarget)
      → get_elem? vr.spec.volumes i ≡ some v
      → get_elem? vr.spec.volumes (i + 1) ≡ none
      → get_next_volume_replica vr m v.name ≡ some (0, "", true)
  unfolding get_next_volume_replica next_replica
  next_end i v e e' = ground (arith, volume_index-get_elem? vr.spec.volumes i v distinct e)

  abbrev n : ℕ
  n = length vr.spec.volumes

  -- one step of the walk, from what getNextVolumeReplica gives
  walk_step :
      (k r r' : ℕ) (v v' : String)
      → walk vr k ≡ some (r, v)
      → get_next_volume_replica vr r v ≡ some (r', v', false)
      → walk vr (suc k) ≡ some (r', v')
  unfolding walk
  walk_step k r r' v v' at next = ground arith

  walk_stop :
      (k r : ℕ) (v : String)
      → walk vr k ≡ some (r, v)
      → get_next_volume_replica vr r v ≡ some (0, "", true)
      → walk vr (suc k) ≡ none
  unfolding walk
  walk_stop k r v at next = ground arith

  along_row :
      (r : ℕ)
      → ((v : VolumeResizeTarget)
          → get_elem? vr.spec.volumes 0 ≡ some v
          → walk vr (r * n) ≡ some (r, v.name))
      → (i : ℕ) (v : VolumeResizeTarget) → get_elem? vr.spec.volumes i ≡ some v
      → walk vr (r * n + i) ≡ some (r, v.name)
  along_row r first zero v e = rw add-zero (first v e)
  along_row r first (suc i) v' e' =
      let (v, e) = get_elem?-lt vr.spec.volumes i (before i v' e') in
      rw (← suc_of_add) (
        walk_step (r * n + i) r r v.name v'.name (along_row r first i v e)
          (next_volume r i v v' e (rw add-one e')))
    where
      suc_of_add : suc (r * n + i) ≡ r * n + suc i
      suc_of_add = omega arith

      before :
          (j : ℕ) (x : VolumeResizeTarget)
          → get_elem? vr.spec.volumes (suc j) ≡ some x
          → j < length vr.spec.volumes
      before j x h = get_elem?-some vr.spec.volumes j x h

  row_start :
      (r : ℕ) (v : VolumeResizeTarget)
      → r ≤ m
      → get_elem? vr.spec.volumes 0 ≡ some v
      → walk vr (r * n) ≡ some (r, v.name)
  unfolding walk
  row_start zero v h e = ground arith
  row_start (suc r) v h e =
      let (p, pos) = get_elem?-pos vr.spec.volumes v e in
      let (x, ex) = get_elem?-lt vr.spec.volumes p (omega (arith, pos)) in
      let to : suc (r * n + p) ≡ suc r * n = omega (arith, pos) in
      let past : get_elem? vr.spec.volumes (p + 1) ≡ none =
        subst (λ k. get_elem? vr.spec.volumes k ≡ none) (pos ∙ sym (add-one p))
          (get_elem?-length vr.spec.volumes) in
      rw (← to) (
        walk_step (r * n + p) r (suc r) x.name v.name
          (along_row r (λ y ey. row_start r y (omega arith) ey) p x ex)
          (next_row r p x v (omega arith) ex past e
            ∙ ap (λ (k : ℕ). some (k, v.name, false)) (add-one r)))

  -- Distinct names, and a greatest replica `m` below 2^31: the walk is at replica `r`, volume `i`
  -- after exactly `r * n + i` steps.
  pub walk_visits :
      (r i : ℕ) (v : VolumeResizeTarget)
      → r ≤ m
      → get_elem? vr.spec.volumes i ≡ some v
      → walk vr (r * n + i) ≡ some (r, v.name)
  walk_visits r i v h e = along_row r (λ y ey. row_start r y h ey) i v e

  -- the last volume of the greatest replica is the last step's, and is told to be the end
  pub walk_ends :
      0 < n
      → (v : VolumeResizeTarget) × ((get_elem? vr.spec.volumes (n - 1) ≡ some v)
          × ((walk vr (m * n + (n - 1)) ≡ some (m, v.name))
              × (get_next_volume_replica vr m v.name ≡ some (0, "", true))))
  walk_ends pos =
      let (x, ex) = get_elem?-lt vr.spec.volumes (n - 1) (omega (arith, pos)) in
      let size : n ≡ n - 1 + 1 = omega (arith, pos) in
      let past : get_elem? vr.spec.volumes (n - 1 + 1) ≡ none =
        subst (λ k. get_elem? vr.spec.volumes k ≡ none) size (get_elem?-length vr.spec.volumes) in
      (x, (ex, (walk_visits m (n - 1) x (omega arith) ex, next_end (n - 1) x ex past)))
