-- ===== src/Walk/Fresh.antt =====
-- The statuses that handleValidating starts a migration with, and the walk over them.
use migcontroller.Prelude.{
  ℕ, zero, suc, ◌+◌, ◌-◌, ◌*◌, ◌^◌, ◌≤◌, ◌<◌, String, ◌≡◌, refl, ap, ◌∙◌, true, some, List, [], ◌∷◌,
  arith, length, get_elem?, cons_last, if◌then◌else◌,
}
use migcontroller.Prelude.Int32.{Int32, inc, lt}
use migcontroller.Objects.{StatefulSet}
use migcontroller.VolumeResize.{VolumeResize, VolumeResizeTarget, VolumeStatus}
use migcontroller.Status.{
  max_replica_from, append_pending, append_replicas, pending_status, loop_rounds,
  get_next_volume_replica,
}
use migcontroller.Controller.{start_syncing, replicas_of}
use migcontroller.Walk.Index.{AreDistinct}
use migcontroller.Walk.Steps.{walk, walk_visits, walk_ends}

-- one more status at the end
max_replica_from-cons_last :
    (best : Int32) (ss : List VolumeStatus) (s : VolumeStatus)
    → max_replica_from best (cons_last ss s)
      ≡ (if lt (max_replica_from best ss) s.replica then s.replica else max_replica_from best ss)
unfolding max_replica_from
max_replica_from-cons_last best [] s = refl
max_replica_from-cons_last best (x ∷ rest) s =
    max_replica_from-cons_last (if lt best x.replica then x.replica else best) rest s

-- one replica's statuses, for at least one volume
max_replica_from-append_pending :
    (i : Int32) (vols : List VolumeResizeTarget) (ss : List VolumeStatus)
    → i < 2 ^ 31
    → max_replica_from 0 ss ≤ i
    → 0 < length vols
    → max_replica_from 0 (append_pending i vols ss) ≡ i
unfolding append_pending
max_replica_from-append_pending i [] ss small below pos = absurd (omega arith)
max_replica_from-append_pending i (v ∷ []) ss small below pos =
    ground (arith, max_replica_from-cons_last 0 ss (pending_status v.name i))
max_replica_from-append_pending i (v ∷ w ∷ rest) ss small below pos =
    max_replica_from-append_pending i (w ∷ rest) (cons_last ss (pending_status v.name i)) small
      (ground (arith, max_replica_from-cons_last 0 ss (pending_status v.name i))) (omega arith)

-- all replicas from `i` on
max_replica_from-append_replicas :
    (n i : ℕ) (vols : List VolumeResizeTarget) (ss : List VolumeStatus)
    → i + n < 2 ^ 31
    → max_replica_from 0 ss ≤ i
    → 0 < length vols
    → max_replica_from 0 (append_replicas (suc n) i vols ss) ≡ i + n
unfolding append_replicas
max_replica_from-append_replicas zero i vols ss small below pos =
    max_replica_from-append_pending i vols ss (omega arith) below pos ∙ omega arith
max_replica_from-append_replicas (suc n) i vols ss small below pos =
    let one : inc i ≡ suc i = omega arith in
    rw one (
      max_replica_from-append_replicas n (suc i) vols (append_pending i vols ss) (omega arith)
        (omega (arith, max_replica_from-append_pending i vols ss (omega arith) below pos)) pos
      ∙ omega arith)

module _ (vr : VolumeResize) (sts : StatefulSet) (first : String)
    (empty : vr.status.volume_statuses ≡ []) (some_replica : 0 < replicas_of sts)
    (in_range : replicas_of sts < 2 ^ 31) (some_volume : 0 < length vr.spec.volumes)
    (distinct : AreDistinct vr.spec.volumes) where
  greatest :
      (m : ℕ)
      → replicas_of sts ≡ suc m
      → max_replica_from 0 (start_syncing vr sts first).status.volume_statuses ≡ m
  unfolding start_syncing max_replica_from
  greatest m e =
      let loops : loop_rounds (replicas_of sts) ≡ suc m = ground arith in
      rw (empty, loops)
        (max_replica_from-append_replicas m 0 vr.spec.volumes [] (omega arith) (omega arith)
            some_volume
          ∙ omega arith)

  predecessor : replicas_of sts ≡ suc (replicas_of sts - 1)
  predecessor = omega arith

  -- From the status that handleValidating starts a migration with, where it was empty, the spec
  -- has volumes with distinct names, and the StatefulSet has between 1 and 2^31 - 1 replicas,
  -- getNextVolumeReplica comes to the volume at index i on replica r after r times the number of
  -- volumes plus i calls, for every replica r and every index i.
  pub started_walk_visits :
      (r i : ℕ) (v : VolumeResizeTarget)
      → r < replicas_of sts
      → get_elem? vr.spec.volumes i ≡ some v
      → walk (start_syncing vr sts first) (r * length vr.spec.volumes + i) ≡ some (r, v.name)
  unfolding start_syncing
  started_walk_visits r i v h e =
      walk_visits (start_syncing vr sts first) (replicas_of sts - 1) (omega arith)
        (greatest (replicas_of sts - 1) predecessor) distinct r i v (omega arith) e

  -- From the status that handleValidating starts a migration with, where it was empty, the spec
  -- has volumes with distinct names, and the StatefulSet has between 1 and 2^31 - 1 replicas,
  -- getNextVolumeReplica comes, after one call less than there are replicas times volumes, to the
  -- last volume of the last replica, from which it reports the end.
  pub started_walk_ends :
      let end = replicas_of sts * length vr.spec.volumes - 1 in
      (v : VolumeResizeTarget) × ((get_elem? vr.spec.volumes (length vr.spec.volumes - 1) ≡ some v)
        × ((walk (start_syncing vr sts first) end ≡ some (replicas_of sts - 1, v.name))
            × (get_next_volume_replica (start_syncing vr sts first) (replicas_of sts - 1) v.name
                ≡ some (0, "", true))))
  unfolding start_syncing
  started_walk_ends =
      let (v, (last, (there, is_end))) =
        walk_ends (start_syncing vr sts first) (replicas_of sts - 1) (omega arith)
          (greatest (replicas_of sts - 1) predecessor) distinct some_volume in
      (v, (last, (ap (walk (start_syncing vr sts first)) steps ∙ there, is_end)))
    where
      steps :
          replicas_of sts * length vr.spec.volumes - 1
          ≡ (replicas_of sts - 1) * length vr.spec.volumes + (length vr.spec.volumes - 1)
      steps =
          ap (λ (k : ℕ). k * length vr.spec.volumes - 1) predecessor ∙ omega (arith, some_volume)
