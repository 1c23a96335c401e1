-- ===== src/System/Keeps.antt =====
-- Actions that keep a property of the log, one rule for each way to build an action.
use x_cluster_link.Base.{◌≡◌, refl, Bool, true, false, Option, some, List, ◌∷◌, if◌then◌else◌}
use x_cluster_link.Kube.{
  Kube, Call, Reply, answer, refuse, World, Effect, Entry, did, failed, Outcome, ok, err, panic, M,
  pure, throw, or_panic, read, request, attempt, ◌>>=◌, ◌>>◌,
}
use x_cluster_link.Kube.Post.{
  Post, Post-pure, Post-throw, Post-or_panic, Post-read, Post-request, Post-bind, Post-then,
  Post-weaken, Post-attempt-read,
}

-- The call answered with `a` in some state.
abbrev pub Gives : {S E A : Type 0} → Call S E A → A → Type 0
Gives {S} call a = (s : S) × (s' : S) × (call s ≡ (answer a, s'))

-- `I` goes on to hold when `e` is asked for.
abbrev pub Permits : (List Entry → Type 0) → Effect → Type 0
Permits I e = (l : List Entry) → I l → I (did e ∷ l) × I (failed e ∷ l)

module _ {K : Kube} (I : List Entry → Type 0) where
  -- `m` keeps `I`, whether it returns, fails or panics.
  pub record Keeps {A : Type 0} (m : M K A) : Type 0 where
    pub at : (w : World K) → I w.log → Post (λ _ w'. I w'.log) (λ w'. I w'.log) (m w)

module _ {K : Kube} {I : List Entry → Type 0} {A : Type 0} where
  pub Keeps-pure : (a : A) → Keeps {K = K} I (pure a)
  Keeps-pure a = record { at = λ w h. Post-pure a w h }

  pub Keeps-throw : (e : K.Err) → Keeps {K = K} I (throw {A = A} e)
  Keeps-throw e = record { at = λ w h. Post-throw e w h }

  pub Keeps-or_panic : (o : Option A) → Keeps {K = K} I (or_panic o)
  Keeps-or_panic o = record { at = λ w h. Post-or_panic o w (λ _ _. h) (λ _. h) }

  pub Keeps-if :
      (b : Bool) (m n : M K A)
      → (b ≡ true → Keeps {K = K} I m)
      → (b ≡ false → Keeps {K = K} I n)
      → Keeps {K = K} I (if b then m else n)
  unfolding if◌then◌else◌
  Keeps-if true m n km kn = km refl
  Keeps-if false m n km kn = kn refl

  pub Keeps-read : (call : Call K.State K.Err A) → Keeps {K = K} I (read call)
  Keeps-read call = record { at = λ w h. Post-read call w (λ _ _ _. h) (λ _. h) }

  pub Keeps-request :
      (e : Effect) (call : Call K.State K.Err A) → Permits I e → Keeps {K = K} I (request e call)
  Keeps-request e call p = record {
    at = λ w h. Post-request e call w (λ _ _ _. (p w.log h).0) (λ _. (p w.log h).1);
  }

module _ {K : Kube} {I : List Entry → Type 0} {A B : Type 0} where
  pub Keeps-bind :
      (m : M K A) (f : A → M K B)
      → Keeps {K = K} I m
      → ((a : A) → Keeps {K = K} I (f a))
      → Keeps {K = K} I (m >>= f)
  Keeps-bind m f km kf = record {
    at = λ w h.
        Post-bind m f w (Post-weaken _ (km.at w h) (λ a w' h'. (kf a).at w' h') (λ _ h'. h'));
  }

  pub Keeps-then :
      (m : M K A) (n : M K B) → Keeps {K = K} I m → Keeps {K = K} I n → Keeps {K = K} I (m >> n)
  Keeps-then m n km kn = record {
    at = λ w h. Post-then m n w (Post-weaken _ (km.at w h) (λ a w' h'. kn.at w' h') (λ _ h'. h'));
  }

  -- The rest of the block may use that the cluster answered so.
  pub Keeps-bind-read :
      (call : Call K.State K.Err A) (f : A → M K B)
      → ((a : A) → Gives call a → Keeps {K = K} I (f a))
      → Keeps {K = K} I (read call >>= f)
  Keeps-bind-read call f kf = record {
    at =
        λ w h. Post-bind _ f w (Post-read call w (λ a s e. (kf a (w.state, s, e)).at _ h) (λ _. h));
  }

  pub Keeps-bind-or_panic :
      (o : Option A) (f : A → M K B)
      → ((a : A) → o ≡ some a → Keeps {K = K} I (f a))
      → Keeps {K = K} I (or_panic o >>= f)
  Keeps-bind-or_panic o f kf = record {
    at = λ w h. Post-bind _ f w (Post-or_panic o w (λ a e. (kf a e).at w h) (λ _. h));
  }

  pub Keeps-bind-request :
      (e : Effect) (call : Call K.State K.Err A) (f : A → M K B)
      → Permits I e
      → ((a : A) → Gives call a → Keeps {K = K} I (f a))
      → Keeps {K = K} I (request e call >>= f)
  Keeps-bind-request e call f p kf = record {
    at = λ w h. Post-bind _ f w (
        Post-request e call w (λ a s e'. (kf a (w.state, s, e')).at _ (p w.log h).0)
          (λ _. (p w.log h).1));
  }

module _ {K : Kube} {I : List Entry → Type 0} {A : Type 0} where
  pub Keeps-attempt : (m : M K A) → Keeps {K = K} I m → Keeps {K = K} I (attempt m)
  unfolding attempt
  Keeps-attempt m km = record { at = λ w h. go (m w) w (km.at w h) }
    where
      go :
          (x : Outcome K.Err A × World K) (w : World K)
          → Post (λ _ w'. I w'.log) (λ w'. I w'.log) x
          → Post (λ _ w'. I w'.log) (λ w'. I w'.log) (attempt {K = K} (λ _. x) w)
      go (ok a, w') w p = record { at = p.at }
      go (err e, w') w p = record { at = p.at }
      go (panic, w') w p = record { at = p.at }

-- A block that reads, tests and returns, and asks for nothing.
pub ruleset keeps_rules = (
  Keeps-pure, Keeps-throw, Keeps-or_panic, Keeps-if, Keeps-read, Keeps-bind, Keeps-then,
  Keeps-attempt,
)

module _ {K : Kube} {I : List Entry → Type 0} {A B : Type 0} where
  -- The same where the error of the call is looked at.
  pub Keeps-bind-attempt-read :
      (call : Call K.State K.Err A) (f : Reply K.Err A → M K B)
      → ((a : A) → Gives call a → Keeps {K = K} I (f (answer a)))
      → ((e : K.Err) → Keeps {K = K} I (f (refuse e)))
      → Keeps {K = K} I (attempt (read call) >>= f)
  Keeps-bind-attempt-read call f ka kr = record {
    at = λ w h. Post-bind _ f w (
        Post-attempt-read call w (λ a s e. (ka a (w.state, s, e)).at _ h) (λ e s _. (kr e).at _ h));
  }

  -- What is known of how `m` ends may be used in the rest of the block.
  pub Keeps-bind-Post :
      (P : A → List Entry → List Entry → Type 0) (m : M K A) (f : A → M K B)
      → ((w : World K) → I w.log → Post (λ a w'. P a w.log w'.log) (λ w'. I w'.log) (m w))
      → ((a : A) (l : List Entry) (w' : World K)
          → I l
          → P a l w'.log
          → Post (λ _ w''. I w''.log) (λ w''. I w''.log) (f a w'))
      → Keeps {K = K} I (m >>= f)
  Keeps-bind-Post P m f km kf = record {
    at = λ w h. Post-bind m f w (Post-weaken _ (km w h) (λ a w' p. kf a w.log w' h p) (λ _ h'. h'));
  }
