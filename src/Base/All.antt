-- ===== src/Base/All.antt =====
-- A predicate that holds of each item of a list.
use mathlib.Core.Path.{subst, sym}
use mathlib.Core.List.{List, [], ◌∷◌, ◌++◌, Memᴰ}

module _ {A : Type 0} (P : A → Type 0) where
  abbrev pub All : List A → Type 0
  All [] = Unit
  All (x ∷ xs) = P x × All xs

  pub All-append : (xs ys : List A) → All (xs ++ ys) → All ys
  All-append [] ys h = h
  All-append (_ ∷ xs) ys (_, h) = All-append xs ys h

  pub All-Mem : (x : A) (xs : List A) → Memᴰ x xs → All xs → P x
  All-Mem x [] m _ = elim m [ ]
  All-Mem x (y ∷ xs) (Memᴰ.head e) (h, _) = subst P (sym e) h
  All-Mem x (y ∷ xs) (Memᴰ.tail m) (_, h) = All-Mem x xs m h
