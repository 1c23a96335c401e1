-- ===== src/Base/Text/Laws.antt =====
-- Laws of the text functions.
use Prim.Native.Nat.{ℕ}
use Prim.Native.Char.{Char, code}
use Prim.Native.String.{String, [], ◌∷◌, ◌++◌}
use mathlib.Core.Path.{◌≡◌, refl, sym, ◌∙◌, ap}
use mathlib.Core.Logic.{◌≢◌, inl, inr}
use mathlib.Core.Bool.{true, false}
use mathlib.Core.Option.{none, some}
use mathlib.Core.List.{List}
use native.Mathlib.Omega.{arith}
use text.Mathlib.TextLemmas.{nil-append, cons-append}
use text.Mathlib.TextEquality.{Char-path}
use x_cluster_link.Base.Tests.{if◌then◌else◌, ◌=ℕ=◌, Bool-cases}
use x_cluster_link.Base.Text.{
  or_else, cut_at, pieces, prepend, strip, cut, trim_prefix, split_in_two,
}

-- No code point of the text is `n`.
abbrev pub Lacks : ℕ → String → Type 0
Lacks n [] = Unit
Lacks n (c ∷ s) = (code c ≢ n) × Lacks n s

pub same : (n : ℕ) → (n =ℕ= n) ≡ true
same n = ground arith

pub other : (m n : ℕ) → m ≢ n → (m =ℕ= n) ≡ false
other m n h = ground arith

equal : (m n : ℕ) → (m =ℕ= n) ≡ true → m ≡ n
equal m n h = ground arith

pub strip-append : (p s : String) → strip p (p ++ s) ≡ some s
unfolding strip if◌then◌else◌
strip-append [] s = rw nil-append refl
strip-append (c ∷ p) s = rw cons-append (rw (same (code c)) (strip-append p s))

pub trim_prefix-append : (p s : String) → trim_prefix (p ++ s) p ≡ s
unfolding trim_prefix
trim_prefix-append p s = ap (λ o. or_else o (p ++ s)) (strip-append p s)

pub strip_sound : (p s r : String) → strip p s ≡ some r → s ≡ p ++ r
unfolding strip if◌then◌else◌
strip_sound [] s r h = rw nil-append (ground arith)
strip_sound (c ∷ p) [] r h = cc
strip_sound (c ∷ p) (d ∷ s) r h = elim (Bool-cases (code c =ℕ= code d)) [
  | inl e ↦
      let rest : strip p s ≡ some r = ground arith in
      rw cons-append (
        ap (λ x. x ∷ s) (sym (Char-path c d (equal _ _ e)))
        ∙ ap (λ t. c ∷ t) (strip_sound p s r rest))
  | inr e ↦ let never : none ≡ some r = ground arith in cc never
]

strip_dot : (c : Char) (s : String) → code c ≢ b'.' → strip "." (c ∷ s) ≡ none
unfolding strip if◌then◌else◌
strip_dot c s h = ground (arith, other b'.' (code c) (λ e. h (sym e)))

-- A text that has no dot is what stands before the first dot.
pub cut-dot : (s t : String) → Lacks b'.' s → cut (s ++ ("." ++ t)) "." ≡ some (s, t)
unfolding cut strip if◌then◌else◌
cut-dot [] t h = rw nil-append (first t)
  where
    first : (t : String) → cut ("." ++ t) "." ≡ some ([], t)
    first t = ap (λ x. cut x ".") (cons-append "." [] t) ∙ ap (λ x. some ([], x)) (nil-append t)
cut-dot (c ∷ s) t (hc, h) = rw (cons-append c s ("." ++ t)) (
    ap (λ o. cut_at o (prepend c (cut (s ++ ("." ++ t)) "."))) (strip_dot c _ hc)
    ∙ ap (prepend c) (cut-dot s t h))

pub split_in_two-dot :
    (s t : String)
    → Lacks b'.' s
    → split_in_two (s ++ ("." ++ t)) "." ≡ List.◌∷◌ s (List.◌∷◌ t List.[])
unfolding split_in_two
split_in_two-dot s t h = ap (pieces (s ++ ("." ++ t))) (cut-dot s t h)
