-- ===== src/Base/Text/Removal.antt =====
-- Removing a text from where it was added. The text ends with a code point that it has nowhere else,
-- so that no occurrence can reach over the seam.
use Prim.Native.Nat.{ℕ, ◌+◌, ◌<◌}
use Prim.Native.Char.{Char, code}
use Prim.Native.String.{String, [], ◌∷◌, ◌++◌}
use mathlib.Core.Path.{◌≡◌, refl, sym, ◌∙◌, ap}
use mathlib.Core.Logic.{inl, inr}
use mathlib.Core.Bool.{Bool, true, false, ◌||◌, ◌&&◌, not, true≢false}
use mathlib.Core.Option.{Option, none, some}
use native.Mathlib.Omega.{arith}
use text.Mathlib.TextLemmas.{nil-append, cons-append, append-nil}
use x_cluster_link.Base.Tests.{if◌then◌else◌, ◌=ℕ=◌, Bool-cases}
use x_cluster_link.Base.Text.{
  is_some, keep_or_skip, strip, contains, remove_from, remove_all, length, is_empty, rest_length,
}
use x_cluster_link.Base.Text.Laws.{Lacks, same, other, strip-append}

pub Lacks-append : (n : ℕ) (s t : String) → Lacks n s → Lacks n t → Lacks n (s ++ t)
Lacks-append n [] t h k = rw nil-append k
Lacks-append n (c ∷ s) t (hc, h) k = rw cons-append (hc, Lacks-append n s t h k)

module _ (e : Char) where
  -- A shorter text that ends with `e` does not begin one that has no `e` for longer.
  strip_early :
      (p q t : String)
      → length p < length q
      → Lacks (code e) q
      → strip (p ++ (e ∷ [])) (q ++ t) ≡ none
  unfolding strip if◌then◌else◌
  strip_early [] [] t h k = absurd (omega arith)
  strip_early [] (c ∷ q) t h (kc, k) =
      rw (nil-append (e ∷ []))
        (rw cons-append (rw (other (code e) (code c) (λ x. kc (sym x))) refl))
  strip_early (a ∷ p) [] t h k = absurd (omega arith)
  strip_early (a ∷ p) (c ∷ q) t h (kc, k) = rw (cons-append a p (e ∷ [])) (
      rw (cons-append c q t) (elim (Bool-cases (code a =ℕ= code c)) [
        | inl x ↦ rw x (strip_early p q t (omega arith) k)
        | inr x ↦ rw x refl
      ]))

  -- Nor one that begins with a part in which it was not found.
  strip_over :
      (p s q t : String)
      → strip (p ++ (e ∷ [])) s ≡ none
      → length p < length s + length q
      → Lacks (code e) q
      → strip (p ++ (e ∷ [])) (s ++ (q ++ t)) ≡ none
  unfolding strip if◌then◌else◌
  strip_over p [] q t h l k = rw (nil-append (q ++ t)) (strip_early p q t (omega arith) k)
  strip_over [] (d ∷ s) q t h l k = rw (nil-append (e ∷ [])) (
      rw (cons-append d s (q ++ t)) (elim (Bool-cases (code e =ℕ= code d)) [
        | inl x ↦ cc (rw x at (rw (nil-append (e ∷ [])) at h))
        | inr x ↦ rw x refl
      ]))
  strip_over (a ∷ p) (d ∷ s) q t h l k = rw (cons-append a p (e ∷ [])) (
      rw (cons-append d s (q ++ t)) (elim (Bool-cases (code a =ℕ= code d)) [
        | inl x ↦
            rw x (strip_over p s q t (rw x at (rw (cons-append a p (e ∷ [])) at h)) (omega arith) k)
        | inr x ↦ rw x refl
      ]))

-- A match that is skipped to the end leaves nothing.
skip_rest : (old s : String) → remove_from old (length s) s ≡ []
unfolding remove_from
skip_rest old [] = refl
skip_rest old (c ∷ s) = skip_rest old s

whole : (s : String) → strip s s ≡ some []
whole s = ap (strip s) (sym (append-nil s)) ∙ strip-append s []

remove_self : (c : Char) (s : String) → remove_all (c ∷ s) (c ∷ s) ≡ []
unfolding remove_all remove_from
remove_self c s =
    ap (λ o. keep_or_skip o false (c ∷ remove_from (c ∷ s) 0 s) (remove_from (c ∷ s) (length s) s))
      (whole (c ∷ s))
    ∙ skip_rest (c ∷ s) s

remove_ended : (e : Char) (q : String) → remove_all (q ++ (e ∷ [])) (q ++ (e ∷ [])) ≡ []
remove_ended e [] = rw (nil-append (e ∷ [])) (remove_self e [])
remove_ended e (a ∷ q) = rw (cons-append a q (e ∷ [])) (remove_self a (q ++ (e ∷ [])))

found_first : (o : Option String) (b : Bool) → (is_some o || b) ≡ false → (o ≡ none) × (b ≡ false)
found_first none b h = (refl, h)
found_first (some s) b h = absurd (true≢false h)

-- What ends with a code point that it has nowhere else goes again from where it was appended, if the
-- text before did not contain it.
pub remove_all-append :
    (e : Char) (q c : String)
    → Lacks (code e) q
    → contains c (q ++ (e ∷ [])) ≡ false
    → remove_all (c ++ (q ++ (e ∷ []))) (q ++ (e ∷ [])) ≡ c
unfolding remove_all remove_from contains
remove_all-append e q [] k h = rw (nil-append (q ++ (e ∷ []))) (remove_ended e q)
remove_all-append e q (d ∷ c) k h =
    let (at_d, later) =
      found_first (strip (q ++ (e ∷ [])) (d ∷ c)) (contains c (q ++ (e ∷ []))) h in
    let r = q ++ (e ∷ []) in
    ap (λ s. remove_from r 0 s) (cons-append d c r)
    ∙ ap
        (λ o.
          keep_or_skip o (is_empty r) (d ∷ remove_from r 0 (c ++ r))
            (remove_from r (rest_length r) (c ++ r)))
        (sym (ap (strip r) (cons-append d c r))
          ∙ strip_over e q (d ∷ c) q (e ∷ []) at_d (omega arith) k)
    ∙ ap (λ s. d ∷ s) (remove_all-append e q c k later)

-- A text that is nowhere in `c` takes nothing from it.
pub remove_all_of_not_contains : (r c : String) → contains c r ≡ false → remove_all c r ≡ c
unfolding remove_all remove_from contains
remove_all_of_not_contains r [] h = refl
remove_all_of_not_contains r (d ∷ c) h =
    let (at_d, later) = found_first (strip r (d ∷ c)) (contains c r) h in
    ap (λ o. keep_or_skip o (is_empty r) (d ∷ remove_from r 0 c) (remove_from r (rest_length r) c))
      at_d
    ∙ ap (λ s. d ∷ s) (remove_all_of_not_contains r c later)

-- `Lacks` as a test.
abbrev pub lacks : ℕ → String → Bool
lacks n [] = true
lacks n (c ∷ s) = not (code c =ℕ= n) && lacks n s

pub lacks-Lacks : (n : ℕ) (s : String) → lacks n s ≡ true → Lacks n s
lacks-Lacks n [] h = tt
lacks-Lacks n (c ∷ s) h =
    let (here, later) = both _ _ h in
    ((λ e. true≢false (sym here ∙ ap not (ap (λ m. m =ℕ= n) e ∙ same n))), lacks-Lacks n s later)
  where
    both : (a b : Bool) → (a && b) ≡ true → (a ≡ true) × (b ≡ true)
    both true b h = (refl, h)
    both false b h = absurd (true≢false (sym h))
