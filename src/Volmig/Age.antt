-- ===== src/Volmig/Age.antt =====
-- formatAge of cmd/volmig/cmd/list.go, and the float64 arithmetic of time.Duration behind it.
use migcontroller.Prelude.{
  ℕ, zero, suc, ◌+◌, ◌*◌, ◌/◌, ◌%◌, ◌^◌, String, ◌++◌, ltb, leb, if◌then◌else◌,
}
use migcontroller.Prelude.Int32.{show}
use migcontroller.Prelude.Tests.{eqb}
use migcontroller.Pvc.{second}
use migcontroller.Volmig.Text.{Duration, since, until}

abbrev minute : ℕ
minute = 60 * second

abbrev pub hour : ℕ
hour = 60 * minute

-- A float64 that is not negative, as a numerator and a denominator.
abbrev Float64 : Type 0
Float64 = ℕ × ℕ

-- n / d to the nearest integer, and halfway to the even one
unfoldable round_even : ℕ → ℕ → ℕ
round_even n d =
    if ltb (2 * (n % d)) d
    then n / d
    else if ltb d (2 * (n % d))
    then n / d + 1
    else n / d + (n / d) % 2

-- how often n / d is doubled until it has 53 bits
unfoldable doublings : ℕ → ℕ → ℕ → ℕ
doublings zero n d = 0
doublings (suc fuel) n d =
    let more = doublings fuel (2 * n) d in if leb (2 ^ 52 * d) n then 0 else more + 1

-- The float64 nearest to n / d. No age has a quotient of 2 ^ 53 or more, or one that takes more
-- than 94 doublings: the least is a nanosecond in hours.
unfoldable nearest : ℕ → ℕ → Float64
unfolding round_even doublings
nearest n d =
    let k = doublings 128 n d in if eqb n 0 then (0, 1) else (round_even (n * 2 ^ k) d, 2 ^ k)

-- d.Hours(): `float64(hour) + float64(nsec)/(60*60*1e9)`, where both integers are exact
unfoldable hours : ℕ → Float64
unfolding nearest
hours d = let part = nearest (d % hour) hour in nearest ((d / hour) * part.1 + part.0) part.1

-- int(d.Hours() / 24)
unfoldable pub days : ℕ → ℕ
unfolding hours nearest
days d = let h = hours d in let q = nearest h.0 (h.1 * 24) in q.0 / q.1

-- A time to come is a negative Duration, and less than a minute. Below a day, a float64 of seconds,
-- minutes or hours has the bits for every nanosecond, and truncates to the whole ones.
unfoldable pub format_age : Duration → String
unfolding days
format_age (until d) = (if ltb d second then "0" else "-" ++ show (d / second)) ++ "s"
format_age (since d) =
    if ltb d minute
    then show (d / second) ++ "s"
    else if ltb d hour
    then show (d / minute) ++ "m"
    else if ltb d (24 * hour)
    then show (d / hour) ++ "h"
    else show (days d) ++ "d"
