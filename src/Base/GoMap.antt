-- ===== src/Base/GoMap.antt =====
-- A Go `map[string]string`. `none` is the nil map: reading it finds nothing, and writing to it
-- panics, which the caller sees as `none`.
use Prim.Native.String.{String}
use mathlib.Core.Path.{◌≡◌, refl}
use mathlib.Core.Option.{Option, none, some}
use mathlib.Core.List.{List, [], ◌∷◌}
use native.Mathlib.Omega.{arith}
use x_cluster_link.Base.Tests.{if◌then◌else◌, ◌==◌, ==_iff_eq, ==-refl}

abbrev pub Entries : Type 0
Entries = List (String × String)

abbrev pub GoMap : Type 0
GoMap = Option Entries

unfoldable pub find : String → Entries → Option String
find k [] = none
find k ((j, v) ∷ m) = if j == k then some v else find k m

unfoldable pub put : String → String → Entries → Entries
put k v [] = (k, v) ∷ []
put k v ((j, w) ∷ m) = if j == k then (k, v) ∷ m else (j, w) ∷ put k v m

-- `v, ok := m[k]`
unfoldable pub lookup : String → GoMap → Option String
lookup k none = none
lookup k (some m) = find k m

abbrev pub or_empty : Option String → String
or_empty none = ""
or_empty (some v) = v

-- `m[k]`
unfoldable pub index : GoMap → String → String
unfolding lookup
index m k = or_empty (lookup k m)

-- `m[k] = v`
unfoldable pub insert : String → String → GoMap → Option GoMap
insert k v none = none
insert k v (some m) = some (some (put k v m))

pub find-put :
    (j k v : String) (m : Entries) → find j (put k v m) ≡ (if k == j then some v else find j m)
unfolding find put if◌then◌else◌
find-put j k v [] = refl
find-put j k v ((i, w) ∷ m) =
    ground
      (arith, ==_iff_eq k j, ==_iff_eq i k, ==_iff_eq i j, ==-refl i, ==-refl j, find-put j k v m)
