-- ===== src/Prelude/Dict.antt =====
-- Go's `map[string]string` as an association list.
use Prim.Native.String.{String}
use mathlib.Core.Path.{◌≡◌}
use mathlib.Core.Option.{Option, none, some}
use mathlib.Core.List.{List, [], ◌∷◌}
use native.Mathlib.Omega.{arith}
use text.Mathlib.Text.{◌==◌}
use text.Mathlib.TextEquality.{eq_iff}
use migcontroller.Prelude.Tests.{if◌then◌else◌}

abbrev pub StringMap : Type 0
StringMap = List (String × String)

-- m[k], with its second result
unfoldable pub lookup : String → StringMap → Option String
lookup k [] = none
lookup k ((j, v) ∷ m) = if j == k then some v else lookup k m

-- delete(m, k)
unfoldable pub remove : String → StringMap → StringMap
remove k [] = []
remove k ((j, v) ∷ m) = let rest = remove k m in if j == k then rest else (j, v) ∷ rest

-- m[k] = v
unfoldable pub insert : String → String → StringMap → StringMap
unfolding remove
insert k v m = (k, v) ∷ remove k m

pub lookup-remove :
    (k j : String) (m : StringMap) → lookup j (remove k m) ≡ (if k == j then none else lookup j m)
unfolding lookup remove
lookup-remove k j [] = ground arith
lookup-remove k j ((i, v) ∷ m) =
    ground (arith, lookup-remove k j m, eq_iff i k, eq_iff i j, eq_iff k j)

pub lookup-insert :
    (k j v : String) (m : StringMap)
    → lookup j (insert k v m) ≡ (if k == j then some v else lookup j m)
unfolding lookup insert
lookup-insert k j v m = ground (arith, lookup-remove k j m)
