-- ===== src/Tracking/Entries.antt =====
-- The entries of the volume statuses of internal/controller/volumeresize_controller.go: which are
-- there, and which the work on one volume of one replica leaves alone.
use mathlib.Core.List.{Memᴰ}
use migcontroller.Prelude.{
  ℕ, zero, suc, ◌+◌, ◌^◌, ◌<◌, String, ◌≡◌, ◌≢◌, refl, sym, ap, subst, ◌⊎◌, inl, inr, some, List,
  [], ◌∷◌, true, false, ◌==◌, Bool-cases, arith, eq_iff, eq_refl, map, cons_last, if◌then◌else◌,
}
use migcontroller.Prelude.Int32.{Int32, inc, lt}
use migcontroller.VolumeResize.{VolumeResizeTarget, VolumeStatus}
use migcontroller.Status.{
  is_for, already_completed, max_replica_from, volume_index?, append_pending, append_replicas,
  pending_status,
}
use migcontroller.Bookkeeping.{IsTracked}
use migcontroller.Tracking.Moves.{Touches, nothing, kept, touched}

-- what an entry is about
abbrev pub key_of : VolumeStatus → String × Int32
key_of vs = (vs.volume_name, vs.replica)

is_for-true :
    (name : String) (replica : Int32) (vs : VolumeStatus)
    → is_for name replica vs ≡ true
    → (vs.volume_name ≡ name) × (vs.replica ≡ replica)
is_for-true name replica vs e =
    (ground (arith, e, eq_iff vs.volume_name name), ground (arith, e, eq_iff vs.volume_name name))

is_for-own : (vs : VolumeStatus) → is_for vs.volume_name vs.replica vs ≡ true
is_for-own vs = ground (arith, eq_refl vs.volume_name)

pub Mem-IsTracked :
    {k : String × Int32} (ss : List VolumeStatus) → Memᴰ k (map key_of ss) → IsTracked k.0 k.1 ss
Mem-IsTracked [] m = elim m [ ]
Mem-IsTracked (x ∷ rest) (Memᴰ.head e) =
    subst (λ (k : String × Int32). IsTracked k.0 k.1 (x ∷ rest)) (sym e) (rw (is_for-own x) refl)
Mem-IsTracked (x ∷ rest) (Memᴰ.tail m) = ground (arith, Mem-IsTracked rest m)

pub Touches-keys :
    {name : String} {replica : Int32} {ss ss' : List VolumeStatus}
    → Touches name replica ss ss'
    → map key_of ss' ≡ map key_of ss
Touches-keys nothing = refl
Touches-keys (kept vs t) = ap (λ l. key_of vs ∷ l) (Touches-keys t)
Touches-keys {name} {replica} (touched vs vs' e e' t) =
    let before = is_for-true name replica vs e in
    let after = is_for-true name replica vs' e' in
    let same_key : key_of vs' ≡ key_of vs = cc in cc (Touches-keys t)

pub Touches-already_completed :
    {name : String} {replica : Int32} (name' : String) (replica' : Int32)
    {ss ss' : List VolumeStatus}
    → Touches name replica ss ss'
    → (name' ≢ name) ⊎ (replica' ≢ replica)
    → already_completed name' replica' ss' ≡ already_completed name' replica' ss
unfolding already_completed
Touches-already_completed name' replica' nothing other = refl
Touches-already_completed name' replica' (kept vs t) other =
    ground (arith, Touches-already_completed name' replica' t other)
Touches-already_completed {name} {replica} name' replica' (touched vs vs' e e' t) other =
    let before = is_for-true name replica vs e in
    let after = is_for-true name replica vs' e' in
    ground (
      arith,
      other,
      eq_iff vs.volume_name name',
      eq_iff vs'.volume_name name',
      Touches-already_completed name' replica' t other,
    )

-- the greatest replica is not below any other
max_replica_from-best :
    (best : Int32) (ss : List VolumeStatus) → lt (max_replica_from best ss) best ≡ false
unfolding max_replica_from
max_replica_from-best best [] = ground arith
max_replica_from-best best (vs ∷ rest) = elim (Bool-cases (lt best vs.replica)) [
  | inl e ↦ rw e (ground (arith, e, max_replica_from-best vs.replica rest))
  | inr e ↦ rw e (max_replica_from-best best rest)
]

pub Mem-max_replica_from :
    {k : String × Int32} (best : Int32) (ss : List VolumeStatus)
    → Memᴰ k (map key_of ss)
    → lt (max_replica_from best ss) k.1 ≡ false
unfolding max_replica_from
Mem-max_replica_from best [] m = elim m [ ]
Mem-max_replica_from best (x ∷ rest) (Memᴰ.head e) =
    subst (λ (k : String × Int32). lt (max_replica_from best (x ∷ rest)) k.1 ≡ false) (sym e)
      (elim (Bool-cases (lt best x.replica)) [
        | inl less ↦ rw less (max_replica_from-best x.replica rest)
        | inr less ↦ rw less (ground (arith, less, max_replica_from-best best rest))
      ])
Mem-max_replica_from best (x ∷ rest) (Memᴰ.tail m) =
    Mem-max_replica_from (if lt best x.replica then x.replica else best) rest m

-- the name is that of a target
abbrev pub IsListed : List VolumeResizeTarget → String → Type 0
IsListed volumes name = (i : ℕ) × (volume_index? name volumes ≡ some i)

-- which keys the statuses of a migration have
Mem-cons_last :
    {k : String × Int32} (ss : List VolumeStatus) (vs : VolumeStatus)
    → Memᴰ k (map key_of (cons_last ss vs))
    → Memᴰ k (map key_of ss) ⊎ (k ≡ key_of vs)
Mem-cons_last [] vs (Memᴰ.head e) = inr e
Mem-cons_last [] vs (Memᴰ.tail m) = elim m [ ]
Mem-cons_last (x ∷ rest) vs (Memᴰ.head e) = inl (Memᴰ.head e)
Mem-cons_last (x ∷ rest) vs (Memᴰ.tail m) = elim (Mem-cons_last rest vs m) [
  | inl m' ↦ inl (Memᴰ.tail m')
  | inr e ↦ inr e
]

IsListed-tail :
    (v : VolumeResizeTarget) (rest : List VolumeResizeTarget) (name : String)
    → IsListed rest name
    → IsListed (v ∷ rest) name
unfolding volume_index?
IsListed-tail v rest name (i, e) = elim (Bool-cases (v.name == name)) [
  | inl own ↦ (0, rw (e, own) refl)
  | inr other ↦ (suc i, rw (e, other) refl)
]

IsListed-head :
    (v : VolumeResizeTarget) (rest : List VolumeResizeTarget)
    → volume_index? v.name (v ∷ rest) ≡ some 0
unfolding volume_index?
IsListed-head v rest = rw (eq_refl v.name) refl

Mem-append_pending :
    {k : String × Int32} (i : Int32) (vols : List VolumeResizeTarget) (ss : List VolumeStatus)
    → Memᴰ k (map key_of (append_pending i vols ss))
    → Memᴰ k (map key_of ss) ⊎ ((k.1 ≡ i) × IsListed vols k.0)
unfolding append_pending
Mem-append_pending i [] ss m = inl m
Mem-append_pending {k} i (v ∷ rest) ss m =
    elim (Mem-append_pending i rest (cons_last ss (pending_status v.name i)) m) [
      | inr (e, listed) ↦ inr (e, IsListed-tail v rest k.0 listed)
      | inl m' ↦ elim (Mem-cons_last ss (pending_status v.name i) m') [
        | inl before ↦ inl before
        | inr e ↦ inr (
          ap (λ (x : String × Int32). x.1) e,
          (0, rw (ap (λ (x : String × Int32). x.0) e) (IsListed-head v rest)),
        )
      ]
    ]

pub Mem-append_replicas :
    {k : String × Int32} (n : ℕ) (i : Int32) (vols : List VolumeResizeTarget)
    (ss : List VolumeStatus)
    → i + n < 2 ^ 32
    → Memᴰ k (map key_of (append_replicas n i vols ss))
    → Memᴰ k (map key_of ss) ⊎ ((k.1 < i + n) × IsListed vols k.0)
unfolding append_replicas
Mem-append_replicas zero i vols ss small m = inl m
Mem-append_replicas {k} (suc n) i vols ss small m =
    let next : inc i ≡ suc i = omega (arith, small) in
    let later =
      Mem-append_replicas n (suc i) vols (append_pending i vols ss) (omega (arith, small)) (
        subst (λ (j : ℕ). Memᴰ k (map key_of (append_replicas n j vols (append_pending i vols ss))))
          next m) in
    elim later [
      | inr (below, listed) ↦ inr (omega (arith, below), listed)
      | inl m' ↦ elim (Mem-append_pending i vols ss m') [
        | inl before ↦ inl before
        | inr (e, listed) ↦ inr (omega (arith, e), listed)
      ]
    ]
