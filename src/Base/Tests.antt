-- ===== src/Base/Tests.antt =====
-- Tests and conditionals, and case splits that keep the equation.
use Prim.Native.Nat.{ℕ, compare, Ordering}
use Prim.Native.String.{String}
use mathlib.Core.Path.{◌≡◌, sym, ap, ◌∙◌, refl}
use mathlib.Core.Logic.{◌≢◌, ◌⊎◌, inl, inr}
use mathlib.Core.Bool.{Bool, true, false, ◌||◌, not, true≢false}
use mathlib.Core.Option.{Option, none, some}
use mathlib.Core.List.{List, [], ◌∷◌}
use text.Mathlib.Text
use text.Mathlib.TextEquality.{eq_iff}

-- Shut, so that the rules of proof find the test and the two branches.
infix 1 if◌then◌else◌
unfoldable pub if◌then◌else◌ {ℓ} : {A : Type ℓ} → Bool → A → A → A
if true then x else y = x
if false then x else y = y

infix 50 ◌=ℕ=◌
abbrev pub ◌=ℕ=◌ : ℕ → ℕ → Bool
a =ℕ= b = elim (compare a b) [ Ordering.eq ↦ true | _ ↦ false ]

abbrev pub leb : ℕ → ℕ → Bool
leb a b = elim (compare a b) [ Ordering.gt ↦ false | _ ↦ true ]

-- Go's `==` and `!=` on strings. Shut in proofs, which go by `==_iff` and `==-refl`.
infix 50 ◌==◌ ◌!=◌
unfoldable pub ◌==◌ : String → String → Bool
s == t = Text.◌==◌ s t

abbrev pub ◌!=◌ : String → String → Bool
s != t = not (s == t)

pub ==_iff_eq : (s t : String) → (s == t) ≡ true → s ≡ t
unfolding ◌==◌
==_iff_eq s t h = (eq_iff s t).0 h

pub ==-refl : (s : String) → (s == s) ≡ true
unfolding ◌==◌
==-refl s = (eq_iff s s).1 refl

pub ==-eq_false : (s t : String) → s ≢ t → (s == t) ≡ false
==-eq_false s t h = go (s == t) (==_iff_eq s t)
  where
    go : (b : Bool) → (b ≡ true → s ≡ t) → b ≡ false
    go true f = absurd (h (f refl))
    go false f = refl

-- `containsString` of internal/controller/vpcnattunnel_controller.go
unfoldable pub contains_string : List String → String → Bool
contains_string [] s = false
contains_string (item ∷ slice) s = item == s || contains_string slice s

pub Bool-cases : (b : Bool) → (b ≡ true) ⊎ (b ≡ false)
Bool-cases true = inl refl
Bool-cases false = inr refl

pub Option-cases {ℓ} : {A : Type ℓ} (o : Option A) → (o ≡ none) ⊎ ((a : A) × (o ≡ some a))
Option-cases none = inl refl
Option-cases (some a) = inr (a, refl)

pub not-true : (b : Bool) → not b ≡ true → b ≡ false
not-true false _ = refl
not-true true h = sym h

pub not-false : (b : Bool) → not b ≡ false → b ≡ true
not-false true _ = refl
not-false false h = sym h

-- Two texts that the program's test takes for different are.
pub differs : (a b : String) → (a == b) ≡ false → a ≢ b
differs a b h e = true≢false (sym (==-refl b) ∙ sym (ap (λ x. x == b) e) ∙ h)
