-- ===== src/Kube/Post.antt =====
-- What holds where an action ends: `Q` of its value and the cluster if it returns, `F` of the
-- cluster if it ends with an error or a panic. One rule for each way to build an action.
use x_cluster_link.Base.{◌≡◌, refl, Bool, true, false, Option, none, some, ◌∷◌, if◌then◌else◌}
use x_cluster_link.Kube.Calls.{Kube, Call, Reply, answer, refuse}
use x_cluster_link.Kube.Monad.{
  Effect, did, failed, World, Outcome, ok, err, panic, M, pure, throw, or_panic, read, request,
  attempt, ◌>>=◌, ◌>>◌,
}

module _ {K : Kube} {A : Type 0} where
  abbrev pub Ends : (A → World K → Type 0) → (World K → Type 0) → Outcome K.Err A × World K → Type 0
  Ends Q F (ok a, w) = Q a w
  Ends Q F (err e, w) = F w
  Ends Q F (panic, w) = F w

  -- The same as a record, from which the rules read `Q` and `F`.
  pub record Post (Q : A → World K → Type 0) (F : World K → Type 0) (x : Outcome K.Err A × World K)
      : Type 0 where
    pub at : Ends Q F x

module _ {K : Kube} {A : Type 0} {Q : A → World K → Type 0} {F : World K → Type 0} where
  pub Post-pure : (a : A) (w : World K) → Q a w → Post Q F (pure a w)
  unfolding pure
  Post-pure a w q = record { at = q }

  pub Post-throw : (e : K.Err) (w : World K) → F w → Post Q F (throw e w)
  unfolding throw
  Post-throw e w f = record { at = f }

  pub Post-or_panic :
      (o : Option A) (w : World K)
      → ((a : A) → o ≡ some a → Q a w)
      → (o ≡ none → F w)
      → Post Q F (or_panic o w)
  unfolding or_panic
  Post-or_panic none w q f = record { at = f refl }
  Post-or_panic (some a) w q f = record { at = q a refl }

  pub Post-if :
      (b : Bool) (m n : M K A) (w : World K)
      → (b ≡ true → Post Q F (m w))
      → (b ≡ false → Post Q F (n w))
      → Post Q F ((if b then m else n) w)
  unfolding if◌then◌else◌
  Post-if true m n w p q = p refl
  Post-if false m n w p q = q refl

  pub Post-read :
      (call : Call K.State K.Err A) (w : World K)
      → ((a : A) (s : K.State) → call w.state ≡ (answer a, s) → Q a (record w { state = s }))
      → ((s : K.State) → F (record w { state = s }))
      → Post Q F (read call w)
  unfolding read
  Post-read call w q f = go (call w.state) q
    where
      go :
          (r : Reply K.Err A × K.State)
          → ((a : A) (s : K.State) → r ≡ (answer a, s) → Q a (record w { state = s }))
          → Post Q F (read {K = K} (λ _. r) w)
      go (answer a, s) h = record { at = h a s refl }
      go (refuse e, s) h = record { at = f s }

  -- The same where the error matters.
  pub Post-read_or :
      (call : Call K.State K.Err A) (w : World K)
      → ((a : A) (s : K.State) → call w.state ≡ (answer a, s) → Q a (record w { state = s }))
      → ((e : K.Err) (s : K.State) → call w.state ≡ (refuse e, s) → F (record w { state = s }))
      → Post Q F (read call w)
  unfolding read
  Post-read_or call w q f = go (call w.state) q f
    where
      go :
          (r : Reply K.Err A × K.State)
          → ((a : A) (s : K.State) → r ≡ (answer a, s) → Q a (record w { state = s }))
          → ((e : K.Err) (s : K.State) → r ≡ (refuse e, s) → F (record w { state = s }))
          → Post Q F (read {K = K} (λ _. r) w)
      go (answer a, s) h k = record { at = h a s refl }
      go (refuse e, s) h k = record { at = k e s refl }

  pub Post-request :
      (e : Effect) (call : Call K.State K.Err A) (w : World K)
      → ((a : A) (s : K.State)
          → call w.state ≡ (answer a, s)
          → Q a (record { state = s; log = did e ∷ w.log }))
      → ((s : K.State) → F (record { state = s; log = failed e ∷ w.log }))
      → Post Q F (request e call w)
  unfolding request
  Post-request e call w q f = go (call w.state) q
    where
      go :
          (r : Reply K.Err A × K.State)
          → ((a : A) (s : K.State)
              → r ≡ (answer a, s)
              → Q a (record { state = s; log = did e ∷ w.log }))
          → Post Q F (request {K = K} e (λ _. r) w)
      go (answer a, s) h = record { at = h a s refl }
      go (refuse e', s) h = record { at = f s }

module _ {K : Kube} {A B : Type 0} {Q : B → World K → Type 0} {F : World K → Type 0} where
  pub Post-bind :
      (m : M K A) (f : A → M K B) (w : World K)
      → Post (λ a w'. Post Q F (f a w')) F (m w)
      → Post Q F ((m >>= f) w)
  unfolding ◌>>=◌
  Post-bind m f w p = go (m w) p
    where
      go :
          (x : Outcome K.Err A × World K)
          → Post (λ a w'. Post Q F (f a w')) F x
          → Post Q F (◌>>=◌ {K = K} (λ _. x) f w)
      go (ok a, w') h = h.at
      go (err e, w') h = record { at = h.at }
      go (panic, w') h = record { at = h.at }

  pub Post-then :
      (m : M K A) (n : M K B) (w : World K)
      → Post (λ _ w'. Post Q F (n w')) F (m w)
      → Post Q F ((m >> n) w)
  unfolding ◌>>◌
  Post-then m n w p = Post-bind m (λ _. n) w p

module _ {K : Kube} {A : Type 0} where
  pub Post-weaken :
      {Q Q' : A → World K → Type 0} {F F' : World K → Type 0} (x : Outcome K.Err A × World K)
      → Post Q F x
      → ((a : A) (w : World K) → Q a w → Q' a w)
      → ((w : World K) → F w → F' w)
      → Post Q' F' x
  Post-weaken (ok a, w) h q f = record { at = q a w h.at }
  Post-weaken (err e, w) h q f = record { at = f w h.at }
  Post-weaken (panic, w) h q f = record { at = f w h.at }

  -- Both hold, if each does.
  pub Post-both :
      {Q Q' : A → World K → Type 0} {F F' : World K → Type 0} (x : Outcome K.Err A × World K)
      → Post Q F x
      → Post Q' F' x
      → Post (λ a w. Q a w × Q' a w) (λ w. F w × F' w) x
  Post-both (ok a, w) h h' = record { at = (h.at, h'.at) }
  Post-both (err e, w) h h' = record { at = (h.at, h'.at) }
  Post-both (panic, w) h h' = record { at = (h.at, h'.at) }

module _ {K : Kube} {A : Type 0} {Q : Reply K.Err A → World K → Type 0} {F : World K → Type 0} where
  -- A call whose error is looked at.
  pub Post-attempt-read :
      (call : Call K.State K.Err A) (w : World K)
      → ((a : A) (s : K.State)
          → call w.state ≡ (answer a, s)
          → Q (answer a) (record w { state = s }))
      → ((e : K.Err) (s : K.State)
          → call w.state ≡ (refuse e, s)
          → Q (refuse e) (record w { state = s }))
      → Post Q F (attempt (read call) w)
  unfolding read attempt
  Post-attempt-read call w q r = go (call w.state) q r
    where
      go :
          (x : Reply K.Err A × K.State)
          → ((a : A) (s : K.State) → x ≡ (answer a, s) → Q (answer a) (record w { state = s }))
          → ((e : K.Err) (s : K.State) → x ≡ (refuse e, s) → Q (refuse e) (record w { state = s }))
          → Post Q F (attempt {K = K} (read {K = K} (λ _. x)) w)
      go (answer a, s) h k = record { at = h a s refl }
      go (refuse e, s) h k = record { at = k e s refl }

-- The action does not panic.
abbrev pub NeverPanics : {K : Kube} {A : Type 0} → Outcome K.Err A × World K → Type 0
NeverPanics (ok _, _) = Unit
NeverPanics (err _, _) = Unit
NeverPanics (panic, _) = ⊥

module _ {K : Kube} {A : Type 0} where
  pub NeverPanics-read :
      (call : Call K.State K.Err A) (w : World K) → NeverPanics {K = K} (read call w)
  unfolding read
  NeverPanics-read call w = go (call w.state)
    where
      go : (x : Reply K.Err A × K.State) → NeverPanics {K = K} (read {K = K} (λ _. x) w)
      go (answer _, _) = tt
      go (refuse _, _) = tt

  pub NeverPanics-request :
      (e : Effect) (call : Call K.State K.Err A) (w : World K)
      → NeverPanics {K = K} (request e call w)
  unfolding request
  NeverPanics-request e call w = go (call w.state)
    where
      go : (x : Reply K.Err A × K.State) → NeverPanics {K = K} (request {K = K} e (λ _. x) w)
      go (answer _, _) = tt
      go (refuse _, _) = tt

module _ {K : Kube} {A B : Type 0} where
  pub NeverPanics-bind :
      (m : M K A) (f : A → M K B) (w : World K)
      → NeverPanics {K = K} (m w)
      → ((a : A) (w' : World K) → NeverPanics {K = K} (f a w'))
      → NeverPanics {K = K} ((m >>= f) w)
  unfolding ◌>>=◌
  NeverPanics-bind m f w h k = go (m w) h
    where
      go :
          (x : Outcome K.Err A × World K)
          → NeverPanics {K = K} x
          → NeverPanics {K = K} (◌>>=◌ {K = K} (λ _. x) f w)
      go (ok a, w') h = k a w'
      go (err _, _) h = tt
      go (panic, _) h = h

module _ {K : Kube} {A : Type 0} {Q : Reply K.Err A → World K → Type 0} {F : World K → Type 0} where
  -- The error of an action that does not panic is looked at.
  pub Post-attempt :
      (m : M K A) (w : World K)
      → Post (λ a. Q (answer a)) (λ w'. (e : K.Err) → Q (refuse e) w') (m w)
      → NeverPanics {K = K} (m w)
      → Post Q F (attempt m w)
  unfolding attempt
  Post-attempt m w p n = go (m w) p n
    where
      go :
          (x : Outcome K.Err A × World K)
          → Post (λ a. Q (answer a)) (λ w'. (e : K.Err) → Q (refuse e) w') x
          → NeverPanics {K = K} x
          → Post Q F (attempt {K = K} (λ _. x) w)
      go (ok a, w') p n = record { at = p.at }
      go (err e, w') p n = record { at = p.at e }
      go (panic, w') p n = absurd n
