-- ===== src/Prog/Safe.antt =====
-- What holds of every run of a program, whatever the API server answers: a guard at each request,
-- which may look at the log so far, and a postcondition. One rule for each way to build a program.
use mathlib.Core.List.{Memᴰ}
use migcontroller.Prelude.{◌≡◌, refl, Bool, true, false, [], ◌∷◌, if◌then◌else◌}
use migcontroller.Objects.{GoError, Except, ok, err}
use migcontroller.Call.{Call, Answer}
use migcontroller.Prog.{
  Prog, ret, stop, panic, out_of_fuel, call, ◌>>=◌, on_error, attempt, Event, Log, End, returned,
  stopped, panicked, exhausted, Handler, run,
}

-- The log `m` goes on from the log `l`.
pub data Extends (l : Log) : Log → Type 0 where
  same : Extends l l
  later : {m : Log} {e : Event} → Extends l m → Extends l (e ∷ m)

pub Extends-trans : {l m n : Log} → Extends l m → Extends m n → Extends l n
Extends-trans p same = p
Extends-trans p (later q) = later (Extends-trans p q)

pub Has-Extends : {l m : Log} {e : Event} → Memᴰ e l → Extends l m → Memᴰ e m
Has-Extends h same = h
Has-Extends h (later q) = Memᴰ.tail (Has-Extends h q)

-- What is asked of a program of handlers that return early with an `X`.
pub record Spec (X : Type 0) : Type 1 where
  -- at each request, with the log before it
  pub guard : Log → Call → Type 0
  -- the answers that the API server may give
  pub fair : (c : Call) → Answer c → Type 0
  pub stops : Log → X → Type 0
  pub panics : Type 0
  -- a loop runs out of fuel
  pub exhausts : Type 0

-- the same demands inside a function whose early returns are errors
abbrev pub inside : {X : Type 0} → Spec X → (Log → GoError → Type 0) → Spec GoError
inside s stops = record {
  guard = s.guard;
  fair = s.fair;
  stops = stops;
  panics = s.panics;
  exhausts = s.exhausts;
}

abbrev pub Safe : {X A : Type 0} → Spec X → Log → Prog X A → (Log → A → Type 0) → Type 0
Safe s l (ret a) post = post l a
Safe s l (stop x) post = s.stops l x
Safe s l panic post = s.panics
Safe s l out_of_fuel post = s.exhausts
Safe s l (call c k) post =
    s.guard l c × ((r : Answer c) → s.fair c r → Safe s ((c, r) ∷ l) (k r) post)

-- What holds of the value, if there is no error.
abbrev pub OnOk : {A : Type 0} → Except A → (A → Type 0) → Type 0
OnOk (ok a) post = post a
OnOk (err e) post = Unit {0}

module _ {X : Type 0} (s : Spec X) where
  pub Safe-bind-from :
      {A B : Type 0} (l₀ l : Log) (m : Prog X A) (f : A → Prog X B) (mid : Log → A → Type 0)
      (post : Log → B → Type 0)
      → Extends l₀ l
      → Safe s l m mid
      → ((l' : Log) (a : A) → Extends l₀ l' → mid l' a → Safe s l' (f a) post)
      → Safe s l (m >>= f) post
  Safe-bind-from l₀ l (ret a) f mid post x h k = k l a x h
  Safe-bind-from l₀ l (stop e) f mid post x h k = h
  Safe-bind-from l₀ l panic f mid post x h k = h
  Safe-bind-from l₀ l out_of_fuel f mid post x h k = h
  Safe-bind-from l₀ l (call c g) f mid post x h k =
      (h.0, λ r a. Safe-bind-from l₀ ((c, r) ∷ l) (g r) f mid post (later x) (h.1 r a) k)

  -- the rest of the block may use what holds after `m`, and that the log has only grown
  pub Safe-bind :
      {A B : Type 0} (l : Log) (m : Prog X A) (f : A → Prog X B) (mid : Log → A → Type 0)
      (post : Log → B → Type 0)
      → Safe s l m mid
      → ((l' : Log) (a : A) → Extends l l' → mid l' a → Safe s l' (f a) post)
      → Safe s l (m >>= f) post
  Safe-bind l m f mid post h k = Safe-bind-from l l m f mid post same h k

  pub Safe-mono :
      {A : Type 0} (l : Log) (m : Prog X A) (mid post : Log → A → Type 0)
      → Safe s l m mid
      → ((l' : Log) (a : A) → mid l' a → post l' a)
      → Safe s l m post
  Safe-mono l (ret a) mid post h k = k l a h
  Safe-mono l (stop e) mid post h k = h
  Safe-mono l panic mid post h k = h
  Safe-mono l out_of_fuel mid post h k = h
  Safe-mono l (call c g) mid post h k =
      (h.0, λ r a. Safe-mono ((c, r) ∷ l) (g r) mid post (h.1 r a) k)

  -- the same, where the log has only grown
  pub Safe-mono-from :
      {A : Type 0} (l₀ l : Log) (m : Prog X A) (mid post : Log → A → Type 0)
      → Extends l₀ l
      → Safe s l m mid
      → ((l' : Log) (a : A) → Extends l₀ l' → mid l' a → post l' a)
      → Safe s l m post
  Safe-mono-from l₀ l (ret a) mid post x h k = k l a x h
  Safe-mono-from l₀ l (stop e) mid post x h k = h
  Safe-mono-from l₀ l panic mid post x h k = h
  Safe-mono-from l₀ l out_of_fuel mid post x h k = h
  Safe-mono-from l₀ l (call c g) mid post x h k =
      (h.0, λ r a. Safe-mono-from l₀ ((c, r) ∷ l) (g r) mid post (later x) (h.1 r a) k)

  pub Safe-on_error :
      {A : Type 0} (l : Log) (r : Except A) (f : GoError → Prog X A) (post : Log → A → Type 0)
      → ((a : A) → r ≡ ok a → post l a)
      → ((e : GoError) → r ≡ err e → Safe s l (f e) post)
      → Safe s l (on_error r f) post
  Safe-on_error l (ok a) f post h k = h a refl
  Safe-on_error l (err e) f post h k = k e refl

  -- `a, err := m(); if err != nil { f(err) }; k(a)`
  pub Safe-try :
      {A B : Type 0} (l : Log) (m : Prog X (Except A)) (f : GoError → Prog X A) (k : A → Prog X B)
      (mid : Log → A → Type 0) (post : Log → B → Type 0)
      → Safe s l m (λ l' r. OnOk r (mid l'))
      → ((l' : Log) (e : GoError) → Extends l l' → Safe s l' (f e) mid)
      → ((l' : Log) (a : A) → Extends l l' → mid l' a → Safe s l' (k a) post)
      → Safe s l (m >>= λ r. on_error r f >>= k) post
  Safe-try {A} l m f k mid post h onerr rest =
      Safe-bind l m (λ r. on_error r f >>= k) (λ l' r. OnOk r (mid l')) post h after
    where
      after :
          (l' : Log) (r : Except A)
          → Extends l l'
          → OnOk r (mid l')
          → Safe s l' (on_error r f >>= k) post
      after l' (ok a) x q = rest l' a x q
      after l' (err e) x q = Safe-bind-from l l' (f e) k mid post x (onerr l' e x) rest

  pub Safe-if :
      {A : Type 0} (l : Log) (b : Bool) (m n : Prog X A) (post : Log → A → Type 0)
      → (b ≡ true → Safe s l m post)
      → (b ≡ false → Safe s l n post)
      → Safe s l (if b then m else n) post
  Safe-if l true m n post h k = h refl
  Safe-if l false m n post h k = k refl

  pub Safe-attempt :
      {A : Type 0} (l : Log) (m : Prog GoError A) (post : Log → Except A → Type 0)
      → Safe (inside s (λ l' e. post l' (err e))) l m (λ l' a. post l' (ok a))
      → Safe s l (attempt m) post
  Safe-attempt l (ret a) post h = h
  Safe-attempt l (stop e) post h = h
  Safe-attempt l panic post h = h
  Safe-attempt l out_of_fuel post h = h
  Safe-attempt l (call c g) post h = (h.0, λ r a. Safe-attempt ((c, r) ∷ l) (g r) post (h.1 r a))

-- A program is safe for a second spec that demands no more and takes no more answers for fair.
pub Safe-spec :
    {X A : Type 0} (s s' : Spec X) (l₀ l : Log) (m : Prog X A) (post : Log → A → Type 0)
    → Extends l₀ l
    → ((l' : Log) (c : Call) → Extends l₀ l' → s.guard l' c → s'.guard l' c)
    → ((c : Call) (r : Answer c) → s'.fair c r → s.fair c r)
    → ((l' : Log) (x : X) → s.stops l' x → s'.stops l' x)
    → (s.panics → s'.panics)
    → (s.exhausts → s'.exhausts)
    → Safe s l m post
    → Safe s' l m post
Safe-spec s s' l₀ l (ret a) post x guards fair stops panics exhausts h = h
Safe-spec s s' l₀ l (stop e) post x guards fair stops panics exhausts h = stops l e h
Safe-spec s s' l₀ l panic post x guards fair stops panics exhausts h = panics h
Safe-spec s s' l₀ l out_of_fuel post x guards fair stops panics exhausts h = exhausts h
Safe-spec s s' l₀ l (call c k) post x guards fair stops panics exhausts h = (
  guards l c x h.0,
  λ r a.
      Safe-spec s s' l₀ ((c, r) ∷ l) (k r) post (later x) guards fair stops panics exhausts
        (h.1 r (fair c r a)),
)

-- Every request of a log had its guard when it was made; the latest stands first.
abbrev pub Guarded : (Log → Call → Type 0) → Log → Type 0
Guarded guard [] = Unit {0}
Guarded guard (e ∷ l) = guard l e.0 × Guarded guard l

-- What holds at the end of a run.
abbrev pub Ends : {X A : Type 0} → Spec X → (Log → A → Type 0) → Log → End X A → Type 0
Ends s post l (returned a) = post l a
Ends s post l (stopped x) = s.stops l x
Ends s post l panicked = s.panics
Ends s post l exhausted = s.exhausts

-- Every answer of a log is fair.
abbrev pub AllFair : ((c : Call) → Answer c → Type 0) → Log → Type 0
AllFair fair [] = Unit {0}
AllFair fair (e ∷ l) = fair e.0 e.1 × AllFair fair l

AllFair-Extends :
    (fair : (c : Call) → Answer c → Type 0) {l m : Log}
    → AllFair fair m
    → Extends l m
    → AllFair fair l
AllFair-Extends fair a same = a
AllFair-Extends fair a (later x) = AllFair-Extends fair a.1 x

module _ {W : Type 0} (h : Handler W) where
  run-Extends-from :
      {X A : Type 0} (l₀ : Log) (m : Prog X A) (w : W) (l : Log)
      → Extends l₀ l
      → Extends l₀ (run h m w l).log
  unfolding run
  run-Extends-from l₀ (ret a) w l x = x
  run-Extends-from l₀ (stop e) w l x = x
  run-Extends-from l₀ panic w l x = x
  run-Extends-from l₀ out_of_fuel w l x = x
  run-Extends-from l₀ (call c k) w l x =
      let (r, w') = h c w in run-Extends-from l₀ (k r) w' ((c, r) ∷ l) (later x)

  -- A safe program keeps its guards and its postcondition in every run with fair answers.
  pub run-Safe :
      {X A : Type 0} (s : Spec X) (m : Prog X A) (post : Log → A → Type 0) (w : W) (l : Log)
      → AllFair s.fair (run h m w l).log
      → Safe s l m post
      → Guarded s.guard l
      → Guarded s.guard (run h m w l).log × Ends s post (run h m w l).log (run h m w l).end
  unfolding run
  run-Safe s (ret a) post w l fair safe before = (before, safe)
  run-Safe s (stop x) post w l fair safe before = (before, safe)
  run-Safe s panic post w l fair safe before = (before, safe)
  run-Safe s out_of_fuel post w l fair safe before = (before, safe)
  run-Safe s (call c k) post w l fair safe before =
      let (r, w') = h c w in
      let past =
        AllFair-Extends s.fair fair (run-Extends-from ((c, r) ∷ l) (k r) w' ((c, r) ∷ l) same) in
      run-Safe s (k r) post w' ((c, r) ∷ l) fair (safe.1 r past.0) (safe.0, before)
