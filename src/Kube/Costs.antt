-- ===== src/Kube/Costs.antt =====
-- How many requests an action makes at most, one rule for each way to build an action.
use x_cluster_link.Base.{
  ℕ, ◌≡◌, refl, ◌+◌, ◌≤◌, arith, Bool, true, false, Option, none, some, List, [], ◌∷◌,
  if◌then◌else◌,
}
use x_cluster_link.Kube.Calls.{Kube, Call, Reply, answer, refuse}
use x_cluster_link.Kube.Monad.{
  Effect, World, Outcome, ok, err, panic, M, pure, throw, or_panic, read, request, attempt, ◌>>=◌,
  ◌>>◌,
}

abbrev pub length {ℓ} : {A : Type ℓ} → List A → ℕ
length [] = 0
length (_ ∷ l) = length l + 1

module _ {K : Kube} {A : Type 0} where
  -- In any cluster, and whether the action returns, fails or panics.
  pub record Costs (n : ℕ) (m : M K A) : Type 0 where
    pub at : (w : World K) → length (m w).1.log ≤ length w.log + n

  pub Costs-pure : (a : A) → Costs 0 (pure a)
  unfolding pure
  Costs-pure a = record { at = λ w. omega arith }

  pub Costs-throw : (e : K.Err) → Costs 0 (throw e)
  unfolding throw
  Costs-throw e = record { at = λ w. omega arith }

  pub Costs-or_panic : (o : Option A) → Costs 0 (or_panic o)
  unfolding or_panic
  Costs-or_panic none = record { at = λ w. omega arith }
  Costs-or_panic (some a) = record { at = λ w. omega arith }

  pub Costs-read : (call : Call K.State K.Err A) → Costs 0 (read call)
  unfolding read
  Costs-read call = record { at = λ w. omega arith }

  pub Costs-request : (e : Effect) (call : Call K.State K.Err A) → Costs 1 (request e call)
  unfolding request
  Costs-request e call = record { at = λ w. omega arith }

  pub Costs-most : {k : ℕ} {m : M K A} (n : ℕ) → k ≤ n → Costs k m → Costs n m
  Costs-most n h c = record { at = λ w. omega (arith, c.at w) }

  pub Costs-if :
      {k : ℕ} (b : Bool) (m m' : M K A) → Costs k m → Costs k m' → Costs k (if b then m else m')
  unfolding if◌then◌else◌
  Costs-if true m m' c d = c
  Costs-if false m m' c d = d

module _ {K : Kube} {A B : Type 0} {k l : ℕ} where
  pub Costs-bind :
      (m : M K A) (f : A → M K B) → Costs k m → ((a : A) → Costs l (f a)) → Costs (k + l) (m >>= f)
  unfolding ◌>>=◌
  Costs-bind m f c d = record { at = λ w. go w (m w) (c.at w) }
    where
      go :
          (w : World K) (x : Outcome K.Err A × World K)
          → length x.1.log ≤ length w.log + k
          → length (◌>>=◌ {K = K} (λ _. x) f w).1.log ≤ length w.log + (k + l)
      go w (ok a, w') h = omega (arith, (d a).at w')
      go w (err e, w') h = omega arith
      go w (panic, w') h = omega arith

  pub Costs-then : (m : M K A) (n : M K B) → Costs k m → Costs l n → Costs (k + l) (m >> n)
  unfolding ◌>>◌
  Costs-then m n c d = Costs-bind m (λ _. n) c (λ _. d)

module _ {K : Kube} {A B : Type 0} {l : ℕ} where
  -- What asks for nothing counts for nothing.
  pub Costs-after :
      (m : M K A) (f : A → M K B) → Costs 0 m → ((a : A) → Costs l (f a)) → Costs l (m >>= f)
  unfolding ◌>>=◌
  Costs-after m f c d = record { at = λ w. go w (m w) (c.at w) }
    where
      go :
          (w : World K) (x : Outcome K.Err A × World K)
          → length x.1.log ≤ length w.log + 0
          → length (◌>>=◌ {K = K} (λ _. x) f w).1.log ≤ length w.log + l
      go w (ok a, w') h = omega (arith, (d a).at w')
      go w (err e, w') h = omega arith
      go w (panic, w') h = omega arith

module _ {K : Kube} {A B : Type 0} {k : ℕ} where
  -- The rest of the block may use that the cluster answered so.
  pub Costs-bind-read :
      (call : Call K.State K.Err A) (f : A → M K B)
      → ((a : A) (s s' : K.State) → call s ≡ (answer a, s') → Costs k (f a))
      → Costs k (read call >>= f)
  unfolding read ◌>>=◌
  Costs-bind-read call f c = record { at = λ w. go w (call w.state) (λ a s'. c a w.state s') }
    where
      go :
          (w : World K) (x : Reply K.Err A × K.State)
          → ((a : A) (s' : K.State) → x ≡ (answer a, s') → Costs k (f a))
          → length (◌>>=◌ {K = K} (read {K = K} (λ _. x)) f w).1.log ≤ length w.log + k
      go w (answer a, s') c = (c a s' refl).at (record w { state = s' })
      go w (refuse e, s') c = omega arith

module _ {K : Kube} {A : Type 0} {k : ℕ} where
  pub Costs-attempt : (m : M K A) → Costs k m → Costs k (attempt m)
  unfolding attempt
  Costs-attempt m c = record { at = λ w. go w (m w) (c.at w) }
    where
      go :
          (w : World K) (x : Outcome K.Err A × World K)
          → length x.1.log ≤ length w.log + k
          → length (attempt {K = K} (λ _. x) w).1.log ≤ length w.log + k
      go w (ok a, w') h = h
      go w (err e, w') h = h
      go w (panic, w') h = h
