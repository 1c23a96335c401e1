-- ===== src/Base/Text.antt =====
-- The functions of Go's `strings` package that the program calls, on code points. On valid UTF-8
-- they agree with Go's, which work on bytes: no code point's bytes begin inside another's.
pub mod Laws
pub mod Removal
pub mod Search
use Prim.Native.Nat.{ℕ, zero, suc}
use Prim.Native.Char.{Char, code}
use Prim.Native.String.{String, [], ◌∷◌, ◌++◌}
use mathlib.Core.Bool.{Bool, true, false, ◌&&◌, ◌||◌}
use mathlib.Core.Option.{Option, none, some}
use mathlib.Core.List.{List}
use x_cluster_link.Base.Tests.{if◌then◌else◌, ◌=ℕ=◌, leb}

-- The text after the prefix, if `s` begins with it.
unfoldable pub strip : String → String → Option String
strip [] s = some s
strip (c ∷ p) [] = none
strip (c ∷ p) (d ∷ s) = if code c =ℕ= code d then strip p s else none

abbrev pub or_else : Option String → String → String
or_else none s = s
or_else (some rest) _ = rest

-- strings.TrimPrefix(s, prefix)
unfoldable pub trim_prefix : String → String → String
trim_prefix s prefix = or_else (strip prefix s) s

abbrev pub is_some : Option String → Bool
is_some none = false
is_some (some _) = true

-- strings.Contains(s, sub)
unfoldable pub contains : String → String → Bool
contains [] sub = is_some (strip sub [])
contains (c ∷ s) sub = is_some (strip sub (c ∷ s)) || contains s sub

abbrev pub prepend : Char → Option (String × String) → Option (String × String)
prepend c none = none
prepend c (some (before, after)) = some (c ∷ before, after)

abbrev pub cut_at : Option String → Option (String × String) → Option (String × String)
cut_at none later = later
cut_at (some rest) later = some ([], rest)

-- The text before and after the first occurrence of `sub`.
unfoldable pub cut : String → String → Option (String × String)
cut [] sub = cut_at (strip sub []) none
cut (c ∷ s) sub = let later = prepend c (cut s sub) in cut_at (strip sub (c ∷ s)) later

abbrev pub splice : String → String → Option (String × String) → String
splice s new none = s
splice s new (some (before, after)) = before ++ (new ++ after)

-- strings.Replace(s, old, new, 1)
unfoldable pub replace_first : String → String → String → String
replace_first s old new = splice s new (cut s old)

abbrev pub pieces : String → Option (String × String) → List String
pieces s none = List.◌∷◌ s List.[]
pieces s (some (before, after)) = List.◌∷◌ before (List.◌∷◌ after List.[])

-- strings.SplitN(s, sep, 2)
unfoldable pub split_in_two : String → String → List String
split_in_two s sep = pieces s (cut s sep)

abbrev pub length : String → ℕ
length [] = 0
length (c ∷ s) = suc (length s)

abbrev pub is_empty : String → Bool
is_empty [] = true
is_empty (c ∷ s) = false

-- How much of a match is left after its first code point.
abbrev pub rest_length : String → ℕ
rest_length [] = 0
rest_length (c ∷ s) = length s

-- The choice at each code point of the walk below.
abbrev pub keep_or_skip : Option String → Bool → String → String → String
keep_or_skip none empty kept skipped = kept
keep_or_skip (some _) true kept skipped = kept
keep_or_skip (some _) false kept skipped = skipped

-- The walk behind `remove_all`, with the number of code points of a match that are still to be
-- skipped.
unfoldable pub remove_from : String → ℕ → String → String
remove_from old skip [] = []
remove_from old (suc skip) (c ∷ s) = remove_from old skip s
remove_from old zero (c ∷ s) =
    let kept = c ∷ remove_from old zero s in
    let skipped = remove_from old (rest_length old) s in
    keep_or_skip (strip old (c ∷ s)) (is_empty old) kept skipped

-- strings.Replace(s, old, "", -1): every occurrence goes, from the left, without overlap.
unfoldable pub remove_all : String → String → String
unfolding remove_from
remove_all s old = remove_from old 0 s

-- unicode.IsSpace
unfoldable pub is_space : Char → Bool
is_space c =
    let n = code c in
    (leb 9 n && leb n 13)
    || n =ℕ= 32
    || n =ℕ= 0x85
    || n =ℕ= 0xa0
    || n =ℕ= 0x1680
    || (leb 0x2000 n && leb n 0x200a)
    || n =ℕ= 0x2028
    || n =ℕ= 0x2029
    || n =ℕ= 0x202f
    || n =ℕ= 0x205f
    || n =ℕ= 0x3000

unfoldable pub trim_left : String → String
unfolding is_space
trim_left [] = []
trim_left (c ∷ s) = let rest = trim_left s in if is_space c then rest else c ∷ s

unfoldable pub trim_right : String → String
unfolding is_space
trim_right [] = []
trim_right (c ∷ s) = let rest = trim_right s in if is_space c && is_empty rest then [] else c ∷ rest

-- strings.TrimSpace(s)
unfoldable pub trim_space : String → String
unfolding trim_left trim_right
trim_space s = trim_right (trim_left s)
