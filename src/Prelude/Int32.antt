-- ===== src/Prelude/Int32.antt =====
-- Go's `int32` as its bit pattern, a number below 2^32: order and decimal text read it signed.
use Prim.Native.Nat.{ℕ, zero, suc, ◌+◌, ◌-◌, ◌/◌, ◌%◌, ◌^◌}
use Prim.Native.String.{String, ◌++◌}
use mathlib.Core.Bool.{Bool}
use mathlib.Core.Path.{◌≡◌, refl}
use migcontroller.Prelude.Tests.{ltb, if◌then◌else◌}

abbrev pub Int32 : Type 0
Int32 = ℕ

-- a + 1, which wraps
abbrev pub inc : Int32 → Int32
inc a = (a + 1) % 2 ^ 32

-- a < b: adding 2^31 takes the signed order to the order of the patterns
abbrev pub lt : Int32 → Int32 → Bool
lt a b = ltb ((a + 2 ^ 31) % 2 ^ 32) ((b + 2 ^ 31) % 2 ^ 32)

digit : ℕ → String
digit zero = "0"
digit (suc zero) = "1"
digit (suc (suc zero)) = "2"
digit (suc (suc (suc zero))) = "3"
digit (suc (suc (suc (suc zero)))) = "4"
digit (suc (suc (suc (suc (suc zero))))) = "5"
digit (suc (suc (suc (suc (suc (suc zero)))))) = "6"
digit (suc (suc (suc (suc (suc (suc (suc zero))))))) = "7"
digit (suc (suc (suc (suc (suc (suc (suc (suc zero)))))))) = "8"
digit _ = "9"

-- Ten digits hold every number below 2^32.
decimal_fuel : ℕ → ℕ → String
unfolding digit
decimal_fuel zero n = digit (n % 10)
decimal_fuel (suc f) n =
    let higher = decimal_fuel f (n / 10) in if ltb n 10 then digit n else higher ++ digit (n % 10)

-- the text of `%d`
unfoldable pub show : Int32 → String
unfolding decimal_fuel
show a = if ltb a (2 ^ 31) then decimal_fuel 9 a else "-" ++ decimal_fuel 9 (2 ^ 32 - a)

show_runs : show 1203 ≡ "1203"
unfolding show
show_runs = refl
