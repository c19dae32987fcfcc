-- ===== src/Volmig/Prints.antt =====
-- Parts of commands that only print and read the clock, and come back.
use migcontroller.Prelude.{Bool, true, false, Option, none, some, ◌∷◌, if◌then◌else◌}
use migcontroller.Call.{Call, Answer, now, print, print_error}
use migcontroller.Prog.{Prog, Log, ret, stop, panic, out_of_fuel, call, ◌>>=◌}
use migcontroller.Prog.Safe.{Spec, Safe, Extends, same, later, Safe-bind, Safe-mono-from}

abbrev pub IsPrint : Call → Type 0
IsPrint now = Unit {0}
IsPrint (print _) = Unit {0}
IsPrint (print_error _) = Unit {0}
IsPrint _ = ⊥

abbrev pub Prints : {X A : Type 0} → Prog X A → Type 0
Prints (ret a) = Unit {0}
Prints (stop x) = ⊥
Prints panic = ⊥
Prints out_of_fuel = ⊥
Prints (call c k) = IsPrint c × ((r : Answer c) → Prints (k r))

pub Prints-bind :
    {X A B : Type 0} (m : Prog X A) (f : A → Prog X B)
    → Prints m
    → ((a : A) → Prints (f a))
    → Prints (m >>= f)
Prints-bind (ret a) f p q = q a
Prints-bind (stop x) f p q = absurd p
Prints-bind panic f p q = absurd p
Prints-bind out_of_fuel f p q = absurd p
Prints-bind (call c k) f p q = (p.0, λ r. Prints-bind (k r) f (p.1 r) q)

pub Prints-if :
    {X A : Type 0} (b : Bool) (m n : Prog X A) → Prints m → Prints n → Prints (if b then m else n)
Prints-if true m n p q = p
Prints-if false m n p q = q

pub Prints-option :
    {X A B : Type 0} (o : Option B) (m : Prog X A) (n : B → Prog X A)
    → Prints m
    → ((b : B) → Prints (n b))
    → Prints (elim o [ none ↦ m | some b ↦ n b ])
Prints-option none m n p q = p
Prints-option (some b) m n p q = q b

module _ {X : Type 0} (s : Spec X) (allowed : (l : Log) (c : Call) → IsPrint c → s.guard l c) where
  Prints-Safe-from :
      {A : Type 0} (l₀ l : Log) (m : Prog X A)
      → Extends l₀ l
      → Prints m
      → Safe s l m (λ l' _. Extends l₀ l')
  Prints-Safe-from l₀ l (ret a) x p = x
  Prints-Safe-from l₀ l (stop e) x p = absurd p
  Prints-Safe-from l₀ l panic x p = absurd p
  Prints-Safe-from l₀ l out_of_fuel x p = absurd p
  Prints-Safe-from l₀ l (call c k) x p =
      (allowed l c p.0, λ r _. Prints-Safe-from l₀ ((c, r) ∷ l) (k r) (later x) (p.1 r))

  -- what follows such a part sees a longer log
  pub Prints-then :
      {A B : Type 0} (l : Log) (m : Prog X A) (f : A → Prog X B) (post : Log → B → Type 0)
      → Prints m
      → ((l' : Log) (a : A) → Extends l l' → Safe s l' (f a) post)
      → Safe s l (m >>= f) post
  Prints-then l m f post p k =
      Safe-bind s l m f (λ l' _. Extends l l') post (Prints-Safe-from l l m same p)
        (λ l' a x _. k l' a x)

  -- and such a part may come last
  pub Prints-last :
      {A : Type 0} (l : Log) (m : Prog X A) (post : Log → A → Type 0)
      → Prints m
      → ((l' : Log) (a : A) → Extends l l' → post l' a)
      → Safe s l m post
  Prints-last l m post p k =
      Safe-mono-from s l l m (λ l' _. Extends l l') post same (Prints-Safe-from l l m same p)
        (λ l' a x _. k l' a x)
