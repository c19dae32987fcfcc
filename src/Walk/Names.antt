-- ===== src/Walk/Names.antt =====
-- The index at which handleSyncing finds a volume of the spec by its name.
use migcontroller.Prelude.{
  ℕ, zero, suc, ◌≤◌, ◌<◌, String, ◌≡◌, refl, subst, none, some, List, [], ◌∷◌, ◌==◌, Bool-cases,
  inl, inr, arith, eq_iff, eq_refl, get_elem?,
}
use migcontroller.VolumeResize.{VolumeResizeTarget}
use migcontroller.Status.{volume_index?, volume_index}

-- the target at the index that is found by name has the name
volume_index?-name :
    (vols : List VolumeResizeTarget) (name : String) (i : ℕ)
    → volume_index? name vols ≡ some i
    → (v : VolumeResizeTarget) × ((get_elem? vols i ≡ some v) × (v.name ≡ name))
unfolding volume_index?
volume_index?-name [] name i e = absurd cc
volume_index?-name (v ∷ rest) name zero e = elim (Bool-cases (v.name == name)) [
  | inl own ↦ (v, (refl, (eq_iff v.name name).0 own))
  | inr other ↦ absurd (ground (arith, other, e))
]
volume_index?-name (v ∷ rest) name (suc i) e = volume_index?-name rest name i (ground (arith, e))

-- names that are found at one index are equal
pub volume_index?-injective :
    (vols : List VolumeResizeTarget) (name name' : String) (i : ℕ)
    → volume_index? name vols ≡ some i
    → volume_index? name' vols ≡ some i
    → name ≡ name'
volume_index?-injective vols name name' i e e' =
    let (v, (at, is)) = volume_index?-name vols name i e in
    let (v', (at', is')) = volume_index?-name vols name' i e' in cc

-- no name is found behind the last target
pub volume_index?-bound :
    (vols : List VolumeResizeTarget) (name : String) (i j : ℕ)
    → volume_index? name vols ≡ some i
    → get_elem? vols j ≡ none
    → i < j
unfolding volume_index?
volume_index?-bound [] name i j e past = absurd cc
volume_index?-bound (v ∷ rest) name i zero e past = absurd cc
volume_index?-bound (v ∷ rest) name zero (suc j) e past = omega arith
volume_index?-bound (v ∷ rest) name (suc i) (suc j) e past =
    ground (arith, volume_index?-bound rest name i j, e, past)

-- the name of the target at an index is found there or before
pub volume_index?-first :
    (vols : List VolumeResizeTarget) (j : ℕ) (v : VolumeResizeTarget)
    → get_elem? vols j ≡ some v
    → (i : ℕ) × ((volume_index? v.name vols ≡ some i) × (i ≤ j))
unfolding volume_index?
volume_index?-first [] j v e = absurd cc
volume_index?-first (x ∷ rest) zero v e =
    let is_first : x ≡ v = cc in
    let found =
      subst (λ (y : VolumeResizeTarget). volume_index? y.name (x ∷ rest) ≡ some 0) is_first
        (rw (eq_refl x.name) refl) in
    (0, (found, omega arith))
volume_index?-first (x ∷ rest) (suc j) v e = elim (Bool-cases (x.name == v.name)) [
  | inl own ↦ (0, (rw own refl, omega arith))
  | inr other ↦
      let (i, (found, before)) = volume_index?-first rest j v e in
      (suc i, (rw (other, found) refl, omega (arith, before)))
]

pub volume_index-some :
    (vols : List VolumeResizeTarget) (name : String) (i : ℕ)
    → volume_index? name vols ≡ some i
    → volume_index name vols ≡ i
unfolding volume_index
volume_index-some vols name i e = rw (e, volume_index) refl
