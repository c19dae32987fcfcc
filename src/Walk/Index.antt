-- ===== src/Walk/Index.antt =====
-- The position of a volume in the spec.
use migcontroller.Prelude.{
  ℕ, zero, suc, ◌<◌, String, ◌≡◌, ◌≢◌, refl, none, some, List, [], ◌∷◌, arith, eq_iff, length,
  get_elem?,
}
use migcontroller.VolumeResize.{VolumeResizeTarget}
use migcontroller.Status.{volume_index?, volume_index}

-- No target has that name.
abbrev pub NotNamed : String → List VolumeResizeTarget → Type 0
NotNamed name [] = Unit {0}
NotNamed name (v ∷ rest) = (v.name ≢ name) × NotNamed name rest

-- No two targets have one name.
abbrev pub AreDistinct : List VolumeResizeTarget → Type 0
AreDistinct [] = Unit {0}
AreDistinct (v ∷ rest) = NotNamed v.name rest × AreDistinct rest

pub get_elem?-NotNamed :
    (name : String) (vs : List VolumeResizeTarget) (i : ℕ) (v : VolumeResizeTarget)
    → NotNamed name vs
    → get_elem? vs i ≡ some v
    → v.name ≢ name
get_elem?-NotNamed name [] i v h e = cc
get_elem?-NotNamed name (x ∷ rest) zero v h e = λ p. h.0 (cc)
get_elem?-NotNamed name (x ∷ rest) (suc i) v h e = get_elem?-NotNamed name rest i v h.1 e

volume_index?-get_elem? :
    (vs : List VolumeResizeTarget) (i : ℕ) (v : VolumeResizeTarget)
    → AreDistinct vs
    → get_elem? vs i ≡ some v
    → volume_index? v.name vs ≡ some i
unfolding volume_index?
volume_index?-get_elem? [] i v d e = cc
volume_index?-get_elem? (x ∷ rest) zero v d e = ground (arith, eq_iff x.name v.name)
volume_index?-get_elem? (x ∷ rest) (suc i) v d e = ground (
  arith,
  eq_iff x.name v.name,
  volume_index?-get_elem? rest i v d.1 e,
  get_elem?-NotNamed x.name rest i v d.0 e,
)

-- Among targets with distinct names the index that is found by name is the target's own.
pub volume_index-get_elem? :
    (vs : List VolumeResizeTarget) (i : ℕ) (v : VolumeResizeTarget)
    → AreDistinct vs
    → get_elem? vs i ≡ some v
    → volume_index v.name vs ≡ i
unfolding volume_index
volume_index-get_elem? vs i v d e = ground (arith, volume_index?-get_elem? vs i v d e)

pub get_elem?-lt {ℓ} :
    {A : Type ℓ} (xs : List A) (i : ℕ) → i < length xs → (x : A) × (get_elem? xs i ≡ some x)
get_elem?-lt [] i h = elim h [ ]
get_elem?-lt (x ∷ rest) zero h = (x, refl)
get_elem?-lt (x ∷ rest) (suc i) h = get_elem?-lt rest i (omega arith)

pub get_elem?-length {ℓ} : {A : Type ℓ} (xs : List A) → get_elem? xs (length xs) ≡ none
get_elem?-length [] = refl
get_elem?-length (x ∷ rest) = get_elem?-length rest

pub get_elem?-some {ℓ} :
    {A : Type ℓ} (xs : List A) (i : ℕ) (x : A) → get_elem? xs (suc i) ≡ some x → i < length xs
get_elem?-some [] i x h = cc
get_elem?-some (y ∷ []) i x h = cc
get_elem?-some (y ∷ z ∷ rest) zero x h = omega arith
get_elem?-some (y ∷ z ∷ rest) (suc i) x h = omega (arith, get_elem?-some (z ∷ rest) i x h)

-- a list with a first element has a last index
pub get_elem?-pos {ℓ} :
    {A : Type ℓ} (xs : List A) (x : A) → get_elem? xs 0 ≡ some x → (p : ℕ) × (length xs ≡ suc p)
get_elem?-pos [] x h = cc
get_elem?-pos (y ∷ rest) x h = (length rest, refl)
