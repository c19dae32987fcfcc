-- ===== src/Waiting/Total.antt =====
-- Programs without a loop on fuel, and the rules by which a program is seen to be one.
use migcontroller.Prelude.{String, ◌∷◌, Bool, true, false, if◌then◌else◌}
use migcontroller.Objects.{GoError, Except, ok, err, is_not_found, wrap}
use migcontroller.Call.{Call, Answer}
use migcontroller.Prog.{
  Prog, ret, stop, panic, out_of_fuel, call, ◌>>=◌, on_error, attempt, tolerate_not_found, expect,
  End, exhausted, Log, Handler, run,
}

-- No branch of the program is out of fuel.
abbrev pub IsTotal : {X A : Type 0} → Prog X A → Type 0
IsTotal (ret a) = Unit {0}
IsTotal (stop x) = Unit {0}
IsTotal panic = Unit {0}
IsTotal out_of_fuel = ⊥
IsTotal (call c k) = (r : _) → IsTotal (k r)

pub IsTotal-bind :
    {X A B : Type 0} (m : Prog X A) (f : A → Prog X B)
    → IsTotal m
    → ((a : A) → IsTotal (f a))
    → IsTotal (m >>= f)
IsTotal-bind (ret a) f t k = k a
IsTotal-bind (stop x) f t k = tt
IsTotal-bind panic f t k = tt
IsTotal-bind out_of_fuel f t k = t
IsTotal-bind (call c g) f t k = λ r. IsTotal-bind (g r) f (t r) k

pub IsTotal-attempt :
    (X : Type 0) {A : Type 0} (m : Prog GoError A) → IsTotal m → IsTotal {X = X} (attempt m)
IsTotal-attempt X (ret a) t = tt
IsTotal-attempt X (stop x) t = tt
IsTotal-attempt X panic t = tt
IsTotal-attempt X out_of_fuel t = t
IsTotal-attempt X (call c g) t = λ r. IsTotal-attempt X (g r) (t r)

pub IsTotal-on_error :
    {X A : Type 0} (r : Except A) (f : GoError → Prog X A)
    → ((e : GoError) → IsTotal (f e))
    → IsTotal (on_error r f)
IsTotal-on_error (ok a) f t = tt
IsTotal-on_error (err e) f t = t e

pub IsTotal-if :
    {X A : Type 0} (b : Bool) (m n : Prog X A)
    → IsTotal m
    → IsTotal n
    → IsTotal (if b then m else n)
IsTotal-if true m n t u = t
IsTotal-if false m n t u = u

-- the same, for a `switch` on a Boolean
pub IsTotal-elim :
    {X A : Type 0} (b : Bool) (m n : Prog X A)
    → IsTotal m
    → IsTotal n
    → IsTotal (elim b [ true ↦ m | false ↦ n ])
IsTotal-elim true m n t u = t
IsTotal-elim false m n t u = u

-- a call of a function that returns an `error`, and what follows
pub IsTotal-try :
    {X A B : Type 0} (m : Prog X (Except A)) (f : GoError → Prog X A) (k : A → Prog X B)
    → IsTotal m
    → ((e : GoError) → IsTotal (f e))
    → ((a : A) → IsTotal (k a))
    → IsTotal (m >>= λ r. on_error r f >>= k)
IsTotal-try m f k t u v =
    IsTotal-bind m (λ r. on_error r f >>= k) t
      (λ r. IsTotal-bind (on_error r f) k (IsTotal-on_error r f u) v)

pub IsTotal-tolerate_not_found :
    (message : String) (r : Except (Unit {0})) → IsTotal (tolerate_not_found message r)
IsTotal-tolerate_not_found message r =
    IsTotal-on_error r _ (λ e. IsTotal-if (is_not_found e) (ret tt) (stop (wrap message e)) tt tt)

pub IsTotal-expect : {A : Type 0} (message : String) (r : Except A) → IsTotal (expect message r)
IsTotal-expect message r = IsTotal-on_error r _ (λ _. tt)

-- The run did not use up its fuel.
abbrev pub IsOver : {X A : Type 0} → End X A → Type 0
IsOver exhausted = ⊥
IsOver _ = Unit {0}

module _ {W : Type 0} (h : Handler W) where
  -- Every run of the program is over, from any state.
  abbrev pub Ends : {X A : Type 0} → Prog X A → Type 0
  Ends m = (w : W) (l : Log) → IsOver (run h m w l).end

  pub IsTotal-Ends : {X A : Type 0} (m : Prog X A) → IsTotal m → Ends m
  unfolding run
  IsTotal-Ends (ret a) t w l = tt
  IsTotal-Ends (stop x) t w l = tt
  IsTotal-Ends panic t w l = tt
  IsTotal-Ends out_of_fuel t w l = t
  IsTotal-Ends (call c k) t w l = let (r, w') = h c w in IsTotal-Ends (k r) (t r) w' ((c, r) ∷ l)

  pub Ends-bind-from :
      {X A B : Type 0} (m : Prog X A) (f : A → Prog X B) (w : W) (l : Log)
      → IsOver (run h m w l).end
      → ((a : A) → Ends (f a))
      → IsOver (run h (m >>= f) w l).end
  unfolding run
  Ends-bind-from (ret a) f w l t k = k a w l
  Ends-bind-from (stop x) f w l t k = tt
  Ends-bind-from panic f w l t k = tt
  Ends-bind-from out_of_fuel f w l t k = t
  Ends-bind-from (call c g) f w l t k =
      let (r, w') = h c w in Ends-bind-from (g r) f w' ((c, r) ∷ l) t k

  pub Ends-bind :
      {X A B : Type 0} (m : Prog X A) (f : A → Prog X B)
      → Ends m
      → ((a : A) → Ends (f a))
      → Ends (m >>= f)
  Ends-bind m f t k w l = Ends-bind-from m f w l (t w l) k

  pub Ends-try :
      {X A B : Type 0} (m : Prog X (Except A)) (f : GoError → Prog X A) (k : A → Prog X B)
      → Ends m
      → ((e : GoError) → IsTotal (f e))
      → ((a : A) → Ends (k a))
      → Ends (m >>= λ r. on_error r f >>= k)
  Ends-try m f k t u v =
      Ends-bind m (λ r. on_error r f >>= k) t
        (λ r. Ends-bind (on_error r f) k (IsTotal-Ends (on_error r f) (IsTotal-on_error r f u)) v)

  pub Ends-call :
      {X A : Type 0} (c : Call) (k : Answer c → Prog X A)
      → ((r : Answer c) → Ends (k r))
      → Ends (call c k)
  unfolding run
  Ends-call c k t w l = let (r, w') = h c w in t r w' ((c, r) ∷ l)
