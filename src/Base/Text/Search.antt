-- ===== src/Base/Text/Search.antt =====
-- When one text contains another, and what replacing an occurrence leaves.
use Prim.Native.Char.{code}
use Prim.Native.String.{String, [], ◌∷◌, ◌++◌}
use mathlib.Core.Path.{◌≡◌, refl, sym, ◌∙◌, ap, subst}
use mathlib.Core.Logic.{inl, inr}
use mathlib.Core.Bool.{Bool, true, false, ◌||◌}
use mathlib.Core.Option.{Option, none, some}
use native.Mathlib.Omega.{arith}
use text.Mathlib.TextLemmas.{nil-append, cons-append, append-nil}
use x_cluster_link.Base.Tests.{if◌then◌else◌, ◌=ℕ=◌, Bool-cases, Option-cases}
use x_cluster_link.Base.Text.{is_some, prepend, cut_at, strip, cut, contains}
use x_cluster_link.Base.Text.Laws.{strip-append}

strip-append_right : (p s r t : String) → strip p s ≡ some r → strip p (s ++ t) ≡ some (r ++ t)
unfolding strip if◌then◌else◌
strip-append_right [] s r t h = ap (λ x. some (x ++ t)) (ground arith)
strip-append_right (c ∷ p) [] r t h = cc
strip-append_right (c ∷ p) (d ∷ s) r t h = rw cons-append (elim (Bool-cases (code c =ℕ= code d)) [
  | inl e ↦ rw e (strip-append_right p s r t (rw e at h))
  | inr e ↦ let never : none ≡ some r = rw e at h in cc never
])

contains-nil : (s : String) → contains s [] ≡ true
unfolding contains strip
contains-nil [] = refl
contains-nil (c ∷ s) = refl

or_true : (b : Bool) → (b || true) ≡ true
or_true true = refl
or_true false = refl

pub contains-append_right : (s t x : String) → contains t x ≡ true → contains (s ++ t) x ≡ true
unfolding contains
contains-append_right [] t x h = rw nil-append h
contains-append_right (c ∷ s) t x h =
    rw cons-append
      (ap (λ b. is_some (strip x (c ∷ (s ++ t))) || b) (contains-append_right s t x h) ∙ or_true _)

strip_cases : (x s : String) → (is_some (strip x s) ≡ true) → (r : String) × (strip x s ≡ some r)
strip_cases x s h = elim (Option-cases (strip x s)) [
  | inl e ↦ let never : false ≡ true = ap is_some (sym e) ∙ h in cc never
  | inr (r, e) ↦ (r, e)
]

pub contains-append_left : (s t x : String) → contains s x ≡ true → contains (s ++ t) x ≡ true
unfolding contains
contains-append_left [] t [] h = rw nil-append (contains-nil t)
contains-append_left [] t (y ∷ x) h = let never : false ≡ true = unfold strip in h in cc never
contains-append_left (c ∷ s) t x h = rw cons-append (elim (Bool-cases (is_some (strip x (c ∷ s)))) [
  | inl e ↦
      let (r, e') = strip_cases x (c ∷ s) e in
      let found : strip x (c ∷ (s ++ t)) ≡ some (r ++ t) =
        subst (λ u. strip x u ≡ some (r ++ t)) (cons-append c s t)
          (strip-append_right x (c ∷ s) r t e') in
      ap (λ o. is_some o || contains (s ++ t) x) found
  | inr e ↦
      ap (λ b. is_some (strip x (c ∷ (s ++ t))) || b)
        (contains-append_left s t x (ap (λ b. b || contains s x) (sym e) ∙ h))
      ∙ or_true _
])

pub contains_self : (x : String) → contains x x ≡ true
unfolding contains strip
contains_self [] = refl
contains_self (c ∷ x) =
    ap (λ o. is_some o || contains x (c ∷ x))
      (ap (strip (c ∷ x)) (sym (append-nil (c ∷ x))) ∙ strip-append (c ∷ x) [])

-- `cut` finds what `contains` says is there.
pub cut_of_contains :
    (s x : String)
    → contains s x ≡ true
    → (before : String) × (after : String) × (cut s x ≡ some (before, after))
unfolding contains cut
cut_of_contains [] x h = let (r, e) = strip_cases x [] h in ([], r, ap (λ o. cut_at o none) e)
cut_of_contains (c ∷ s) x h = elim (Bool-cases (is_some (strip x (c ∷ s)))) [
  | inl e ↦
      let (r, e') = strip_cases x (c ∷ s) e in ([], r, ap (λ o. cut_at o (prepend c (cut s x))) e')
  | inr e ↦
      let (b, a, e') = cut_of_contains s x (ap (λ b. b || contains s x) (sym e) ∙ h) in
      (c ∷ b, a, ap (λ o. cut_at o (prepend c (cut s x))) (no_strip e) ∙ ap (prepend c) e')
]
  where
    no_strip : is_some (strip x (c ∷ s)) ≡ false → strip x (c ∷ s) ≡ none
    no_strip e = ground arith

pub cut_of_not_contains : (s x : String) → contains s x ≡ false → cut s x ≡ none
unfolding contains cut
cut_of_not_contains [] x h = ap (λ o. cut_at o none) (no_strip (strip x []) h)
  where
    no_strip : (o : Option String) → is_some o ≡ false → o ≡ none
    no_strip o e = ground arith
cut_of_not_contains (c ∷ s) x h = ground (arith, cut_of_not_contains s x)
