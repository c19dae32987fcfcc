-- ===== src/Prog.antt =====
-- A Go function that talks to the API server, as the tree of its requests: it may return, return
-- early from the handler, panic, or run out of the fuel of a loop.
pub mod Safe
use migcontroller.Prelude.{List, ◌∷◌, String, if◌then◌else◌}
use migcontroller.Objects.{Except, ok, err, GoError, wrap, is_not_found}
use migcontroller.Call.{Call, Answer}

pub data Prog (X : Type 0) (A : Type 0) : Type 0 where
  ret : A → Prog X A
  -- the handler around the call returns `X`
  stop : X → Prog X A
  panic : Prog X A
  out_of_fuel : Prog X A
  call : (c : Call) → (Answer c → Prog X A) → Prog X A

infixl 10 ◌>>=◌ ◌>>◌
abbrev pub ◌>>=◌ : {X A B : Type 0} → Prog X A → (A → Prog X B) → Prog X B
ret a >>= f = f a
stop x >>= f = stop x
panic >>= f = panic
out_of_fuel >>= f = out_of_fuel
call c k >>= f = call c (λ r. k r >>= f)

abbrev pub ◌>>◌ : {X A B : Type 0} → Prog X A → Prog X B → Prog X B
m >> n = m >>= λ _. n

abbrev pub ask : {X : Type 0} (c : Call) → Prog X (Answer c)
ask c = call c ret

-- `if err != nil { … }`
abbrev pub on_error : {X A : Type 0} → Except A → (GoError → Prog X A) → Prog X A
on_error (ok a) f = ret a
on_error (err e) f = f e

-- In a function that returns an `error`: `if err != nil { return fmt.Errorf("…: %w", err) }`.
abbrev pub expect : {A : Type 0} → String → Except A → Prog GoError A
expect message r = on_error r (λ e. stop (wrap message e))

-- the same, with the error as it is
abbrev pub or_stop : {A : Type 0} → Except A → Prog GoError A
or_stop r = on_error r stop

-- `if err != nil && !apierrors.IsNotFound(err) { return fmt.Errorf("…: %w", err) }`
abbrev pub tolerate_not_found : String → Except (Unit {0}) → Prog GoError (Unit {0})
tolerate_not_found message r =
    on_error r (λ e. if is_not_found e then ret tt else stop (wrap message e))

-- The body of such a function, as the caller sees it.
abbrev pub attempt : {X A : Type 0} → Prog GoError A → Prog X (Except A)
attempt (ret a) = ret (ok a)
attempt (stop e) = ret (err e)
attempt panic = panic
attempt out_of_fuel = out_of_fuel
attempt (call c k) = call c (λ r. attempt (k r))

-- One request with its answer; a log has the latest first.
abbrev pub Event : Type 0
Event = (c : Call) × Answer c

abbrev pub Log : Type 0
Log = List Event

-- How a run ends.
pub data End (X A : Type 0) : Type 0 where
  returned : A → End X A
  stopped : X → End X A
  panicked exhausted : End X A

-- The API server, the other controllers and the clock: any function of a state of theirs.
abbrev pub Handler : Type 0 → Type 0
Handler W = (c : Call) → W → Answer c × W

pub record Run (W X A : Type 0) : Type 0 where
  pub end : End X A
  pub world : W
  pub log : Log

module _ {W : Type 0} (h : Handler W) where
  unfoldable pub run : {X A : Type 0} → Prog X A → W → Log → Run W X A
  run (ret a) w l = record { end = returned a; world = w; log = l }
  run (stop x) w l = record { end = stopped x; world = w; log = l }
  run panic w l = record { end = panicked; world = w; log = l }
  run out_of_fuel w l = record { end = exhausted; world = w; log = l }
  run (call c k) w l = let (r, w') = h c w in run (k r) w' ((c, r) ∷ l)
