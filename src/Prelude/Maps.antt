-- ===== src/Prelude/Maps.antt =====
-- Go's `map[string]string` as an association list with at most one entry for a key.
use Prim.Native.String.{String, ◌++◌}
use mathlib.Core.Path.{◌≡◌, refl}
use mathlib.Core.Option.{Option, none, some}
use mathlib.Core.List.{List}
use native.Mathlib.Omega.{arith}
use text.Mathlib.Text.{◌==◌}
use text.Mathlib.TextEquality.{eq_iff}
use sesame_operator.Prelude.Tests.{if◌then◌else◌}

abbrev pub StringMap : Type 0
StringMap = List (String × String)

-- `fmt.Sprintf` with its pieces in their order.
abbrev pub sprintf : List String → String
sprintf List.[] = ""
sprintf (List.◌∷◌ s rest) = s ++ sprintf rest

abbrev pub lookup : String → StringMap → Option String
lookup k List.[] = none
lookup k (List.◌∷◌ (j, v) m) = if j == k then some v else lookup k m

abbrev pub insert : String → String → StringMap → StringMap
insert k v List.[] = List.◌∷◌ (k, v) List.[]
insert k v (List.◌∷◌ (j, w) m) =
    if j == k then List.◌∷◌ (k, v) m else List.◌∷◌ (j, w) (insert k v m)

-- `for key, value := range m { target[key] = value }`
abbrev pub insert_all : StringMap → StringMap → StringMap
insert_all List.[] target = target
insert_all (List.◌∷◌ (k, v) m) target = insert_all m (insert k v target)

pub lookup-insert :
    (k j v : String) (m : StringMap)
    → lookup j (insert k v m) ≡ (if k == j then some v else lookup j m)
lookup-insert k j v List.[] = refl
lookup-insert k j v (List.◌∷◌ (i, w) m) =
    ground (arith, eq_iff k j, eq_iff i k, eq_iff i j, lookup-insert k j v m)
