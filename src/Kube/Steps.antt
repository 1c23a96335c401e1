-- ===== src/Kube/Steps.antt =====
-- One step of an action whose outcome is known.
use x_cluster_link.Base.{◌≡◌, refl, ap, Option, none, some, ◌∷◌, if◌then◌else◌, Bool, true, false}
use x_cluster_link.Kube.Calls.{Kube, Call, answer, refuse}
use x_cluster_link.Kube.Monad.{
  Effect, did, World, ok, err, panic, M, or_panic, read, request, attempt, ◌>>=◌, ◌>>◌,
}

module _ {K : Kube} {A : Type 0} where
  pub read-answer :
      (call : Call K.State K.Err A) (w : World K) {a : A} {s : K.State}
      → call w.state ≡ (answer a, s)
      → read call w ≡ (ok a, record w { state = s })
  unfolding read
  read-answer call w e = rw (e, read) refl

  pub read-refuse :
      (call : Call K.State K.Err A) (w : World K) {e : K.Err} {s : K.State}
      → call w.state ≡ (refuse e, s)
      → read call w ≡ (err e, record w { state = s })
  unfolding read
  read-refuse call w e = rw (e, read) refl

  pub request-answer :
      (c : Effect) (call : Call K.State K.Err A) (w : World K) {a : A} {s : K.State}
      → call w.state ≡ (answer a, s)
      → request c call w ≡ (ok a, record { state = s; log = did c ∷ w.log })
  unfolding request
  request-answer c call w e = rw (e, request) refl

  pub if-true : (b : Bool) (m n : M K A) (w : World K) → b ≡ true → (if b then m else n) w ≡ m w
  unfolding if◌then◌else◌
  if-true b m n w e = rw e refl

  pub if-false : (b : Bool) (m n : M K A) (w : World K) → b ≡ false → (if b then m else n) w ≡ n w
  unfolding if◌then◌else◌
  if-false b m n w e = rw e refl

  pub or_panic-some : (o : Option A) (w : World K) {a : A} → o ≡ some a → or_panic o w ≡ (ok a, w)
  unfolding or_panic
  or_panic-some o w e = rw (e, or_panic) refl

  pub or_panic-none : (o : Option A) (w : World K) → o ≡ none → or_panic o w ≡ (panic, w)
  unfolding or_panic
  or_panic-none o w e = rw (e, or_panic) refl

module _ {K : Kube} {A B : Type 0} where
  pub bind-ok :
      (m : M K A) (f : A → M K B) (w : World K) {a : A} {w' : World K}
      → m w ≡ (ok a, w')
      → (m >>= f) w ≡ f a w'
  unfolding ◌>>=◌
  bind-ok m f w e = ap (λ x. ◌>>=◌ {K = K} (λ _. x) f w) e

  pub bind-err :
      (m : M K A) (f : A → M K B) (w : World K) {e : K.Err} {w' : World K}
      → m w ≡ (err e, w')
      → (m >>= f) w ≡ (err e, w')
  unfolding ◌>>=◌
  bind-err m f w e = ap (λ x. ◌>>=◌ {K = K} (λ _. x) f w) e

  pub bind-panic :
      (m : M K A) (f : A → M K B) (w : World K) {w' : World K}
      → m w ≡ (panic, w')
      → (m >>= f) w ≡ (panic, w')
  unfolding ◌>>=◌
  bind-panic m f w e = ap (λ x. ◌>>=◌ {K = K} (λ _. x) f w) e

  pub then-ok :
      (m : M K A) (n : M K B) (w : World K) {a : A} {w' : World K}
      → m w ≡ (ok a, w')
      → (m >> n) w ≡ n w'
  unfolding ◌>>◌
  then-ok m n w e = bind-ok m (λ _. n) w e

module _ {K : Kube} {A : Type 0} where
  pub attempt-ok :
      (m : M K A) (w : World K) {a : A} {w' : World K}
      → m w ≡ (ok a, w')
      → attempt m w ≡ (ok (answer a), w')
  unfolding attempt
  attempt-ok m w e = ap (λ x. attempt {K = K} (λ _. x) w) e

  pub attempt-err :
      (m : M K A) (w : World K) {e : K.Err} {w' : World K}
      → m w ≡ (err e, w')
      → attempt m w ≡ (ok (refuse e), w')
  unfolding attempt
  attempt-err m w e = ap (λ x. attempt {K = K} (λ _. x) w) e
