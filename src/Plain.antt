-- ===== src/Plain.antt =====
-- Parts of the handlers of internal/controller that ask the API server for no change of a
-- VolumeResize and do not panic: rules by which a program is seen to be such a part.
pub mod Claims
pub mod Sets
pub mod Loops
use migcontroller.Prelude.{String, Bool, true, false, if◌then◌else◌}
use migcontroller.Objects.{GoError, Except, ok, err, is_not_found, wrap}
use migcontroller.Call.{Call, Answer, vr_update, vr_update_status, vr_create, vr_delete}
use migcontroller.Prog.{
  Prog, ret, stop, panic, out_of_fuel, call, ◌>>=◌, on_error, attempt, tolerate_not_found, expect,
}
use migcontroller.Waiting.Total.{IsTotal}

-- what is asked after the request, where the request itself changes no VolumeResize
abbrev pub AfterPlain : Call → Type 0 → Type 0
AfterPlain (vr_update _) T = ⊥
AfterPlain (vr_update_status _) T = ⊥
AfterPlain (vr_create _) T = ⊥
AfterPlain (vr_delete _ _) T = ⊥
AfterPlain _ T = T

-- No request of the program changes a VolumeResize, and it does not panic; `loops` says whether it may be out of fuel.
abbrev pub IsPlain : Type 0 → {X A : Type 0} → Prog X A → Type 0
IsPlain loops (ret a) = Unit {0}
IsPlain loops (stop x) = Unit {0}
IsPlain loops panic = ⊥
IsPlain loops out_of_fuel = loops
IsPlain loops (call c k) = AfterPlain c ((r : Answer c) → IsPlain loops (k r))

after_plain : (c : Call) {T U : Type 0} → AfterPlain c T → (T → U) → AfterPlain c U
after_plain (vr_update _) t f = absurd t
after_plain (vr_update_status _) t f = absurd t
after_plain (vr_create _) t f = absurd t
after_plain (vr_delete _ _) t f = absurd t
after_plain _ t f = f t

left_plain : (c : Call) {T : Type 0} → AfterPlain c T → T
left_plain (vr_update _) t = absurd t
left_plain (vr_update_status _) t = absurd t
left_plain (vr_create _) t = absurd t
left_plain (vr_delete _ _) t = absurd t
left_plain _ t = t

pub IsPlain-IsTotal : {X A : Type 0} (m : Prog X A) → IsPlain ⊥ m → IsTotal m
IsPlain-IsTotal (ret a) p = tt
IsPlain-IsTotal (stop x) p = tt
IsPlain-IsTotal panic p = absurd p
IsPlain-IsTotal out_of_fuel p = p
IsPlain-IsTotal (call c k) p = λ r. IsPlain-IsTotal (k r) (left_plain c p r)

module _ (loops : Type 0) where
  pub IsPlain-bind :
      {X A B : Type 0} (m : Prog X A) (f : A → Prog X B)
      → IsPlain loops m
      → ((a : A) → IsPlain loops (f a))
      → IsPlain loops (m >>= f)
  IsPlain-bind (ret a) f p k = k a
  IsPlain-bind (stop x) f p k = tt
  IsPlain-bind panic f p k = p
  IsPlain-bind out_of_fuel f p k = p
  IsPlain-bind (call c g) f p k = after_plain c p (λ q r. IsPlain-bind (g r) f (q r) k)

  pub IsPlain-attempt :
      (X : Type 0) {A : Type 0} (m : Prog GoError A)
      → IsPlain loops m
      → IsPlain loops {X = X} (attempt m)
  IsPlain-attempt X (ret a) p = tt
  IsPlain-attempt X (stop x) p = tt
  IsPlain-attempt X panic p = p
  IsPlain-attempt X out_of_fuel p = p
  IsPlain-attempt X (call c g) p = after_plain c p (λ q r. IsPlain-attempt X (g r) (q r))

  IsPlain-on_error :
      {X A : Type 0} (r : Except A) (f : GoError → Prog X A)
      → ((e : GoError) → IsPlain loops (f e))
      → IsPlain loops (on_error r f)
  IsPlain-on_error (ok a) f p = tt
  IsPlain-on_error (err e) f p = p e

  pub IsPlain-if :
      {X A : Type 0} (b : Bool) (m n : Prog X A)
      → IsPlain loops m
      → IsPlain loops n
      → IsPlain loops (if b then m else n)
  IsPlain-if true m n p q = p
  IsPlain-if false m n p q = q

  -- the same, for a `switch` on a Boolean
  pub IsPlain-elim :
      {X A : Type 0} (b : Bool) (m n : Prog X A)
      → IsPlain loops m
      → IsPlain loops n
      → IsPlain loops (elim b [ true ↦ m | false ↦ n ])
  IsPlain-elim true m n p q = p
  IsPlain-elim false m n p q = q

  -- a call of a function that returns an `error`, and what follows
  pub IsPlain-try :
      {X A B : Type 0} (m : Prog X (Except A)) (f : GoError → Prog X A) (k : A → Prog X B)
      → IsPlain loops m
      → ((e : GoError) → IsPlain loops (f e))
      → ((a : A) → IsPlain loops (k a))
      → IsPlain loops (m >>= λ r. on_error r f >>= k)
  IsPlain-try m f k p u v =
      IsPlain-bind m (λ r. on_error r f >>= k) p
        (λ r. IsPlain-bind (on_error r f) k (IsPlain-on_error r f u) v)

  pub IsPlain-tolerate_not_found :
      (message : String) (r : Except (Unit {0})) → IsPlain loops (tolerate_not_found message r)
  IsPlain-tolerate_not_found message r =
      IsPlain-on_error r _ (λ e. IsPlain-if (is_not_found e) (ret tt) (stop (wrap message e)) tt tt)

  pub IsPlain-expect :
      {A : Type 0} (message : String) (r : Except A) → IsPlain loops (expect message r)
  IsPlain-expect message r = IsPlain-on_error r _ (λ _. tt)
