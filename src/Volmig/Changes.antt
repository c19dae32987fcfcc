-- ===== src/Volmig/Changes.antt =====
-- When `volmig watch` prints: what it remembers of the object, and what it reads.
use migcontroller.Prelude.{◌≡◌, refl, ◌↔◌, Option, none, some, false, eq_iff, arith}
use migcontroller.Prelude.Int32.{Int32}
use migcontroller.VolumeResize.{VolumeResize}
use migcontroller.Volmig.Text.{phase_text}
use migcontroller.Volmig.Watch.{Seen, replica_changed, has_changed, seen_of}

replica_changed-eq : (a b : Option Int32) → (replica_changed a b ≡ false) ↔ (b ≡ a)
unfolding replica_changed
replica_changed-eq none none = (λ _. refl, λ _. refl)
replica_changed-eq none (some b) = (λ e. absurd cc, λ e. absurd cc)
replica_changed-eq (some a) none = (λ e. absurd cc, λ e. absurd cc)
replica_changed-eq (some a) (some b) = (λ e. ground arith, λ e. ground arith)

-- The test by which volmig watch decides to print is false exactly if the phase, message and
-- replica that it would remember of the object are those that it remembers.
pub has_changed-seen_of :
    (last : Seen) (vr : VolumeResize) → (has_changed last vr ≡ false) ↔ (seen_of vr ≡ last)
unfolding has_changed seen_of
has_changed-seen_of last vr = (
  λ e. ground (
    arith,
    eq_iff (phase_text vr.status.phase) last.phase,
    eq_iff vr.status.message last.message,
    replica_changed-eq last.replica vr.status.current_replica,
  ),
  λ e. ground (
    arith,
    eq_iff (phase_text vr.status.phase) last.phase,
    eq_iff vr.status.message last.message,
    replica_changed-eq last.replica vr.status.current_replica,
  ),
)
