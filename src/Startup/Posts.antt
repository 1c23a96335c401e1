-- ===== src/Startup/Posts.antt =====
-- What holds where a start ends: `Q` of its value and the machine if it goes on, `F` of the machine if
-- it exits or panics.
use x_cluster_link.Base.{String, ◌≡◌, refl, ◌∙◌, ap, Option, none, some, ◌∷◌}
use x_cluster_link.Kube.{Kube, Call, Reply, answer, refuse}
use x_cluster_link.Startup.{
  Libraries, Component, Note, Machine, Ending, next, exit, panic, Boot, set, pure, call, or_exit,
  or_panic, get_config, setenv, environment, add, start_manager, ◌>>=◌, ◌>>◌,
}

module _ {K : Kube} {L : Libraries K} {A : Type 0} where
  abbrev pub Ends : (A → Machine L → Type 0) → (Machine L → Type 0) → Ending A × Machine L → Type 0
  Ends Q F (next a, m) = Q a m
  Ends Q F (exit, m) = F m
  Ends Q F (panic, m) = F m

  -- The same as a record, from which the rules read `Q` and `F`.
  pub record Boots (Q : A → Machine L → Type 0) (F : Machine L → Type 0) (x : Ending A × Machine L)
      : Type 0 where
    pub at : Ends Q F x

module _ {K : Kube} {L : Libraries K} {A : Type 0} {Q : A → Machine L → Type 0}
    {F : Machine L → Type 0} where
  pub Boots-pure : (a : A) (m : Machine L) → Q a m → Boots Q F (pure a m)
  unfolding pure
  Boots-pure a m q = record { at = q }

  pub Boots-or_exit :
      (r : Reply L.Err A) (m : Machine L)
      → ((a : A) → r ≡ answer a → Q a m)
      → ((e : L.Err) → r ≡ refuse e → F m)
      → Boots Q F (or_exit r m)
  unfolding or_exit
  Boots-or_exit (answer a) m q f = record { at = q a refl }
  Boots-or_exit (refuse e) m q f = record { at = f e refl }

  pub Boots-or_panic :
      (o : Option A) (m : Machine L)
      → ((a : A) → o ≡ some a → Q a m)
      → (o ≡ none → F m)
      → Boots Q F (or_panic o m)
  unfolding or_panic
  Boots-or_panic none m q f = record { at = f refl }
  Boots-or_panic (some a) m q f = record { at = q a refl }

module _ {K : Kube} {L : Libraries K} {A : Type 0} {Q : Reply L.Err A → Machine L → Type 0}
    {F : Machine L → Type 0} where
  pub Boots-call :
      (c : Call L.State L.Err A) (m : Machine L)
      → ((r : Reply L.Err A) (s : L.State) → c m.state ≡ (r, s) → Q r (record m { state = s }))
      → Boots Q F (call c m)
  unfolding call
  Boots-call c m q = record { at = q _ _ refl }

module _ {K : Kube} {L : Libraries K} {A B : Type 0} {Q : B → Machine L → Type 0}
    {F : Machine L → Type 0} where
  pub Boots-bind :
      (x : Boot L A) (f : A → Boot L B) (m : Machine L)
      → Boots (λ a m'. Boots Q F (f a m')) F (x m)
      → Boots Q F ((x >>= f) m)
  unfolding ◌>>=◌
  Boots-bind x f m p = go (x m) p
    where
      go :
          (r : Ending A × Machine L)
          → Boots (λ a m'. Boots Q F (f a m')) F r
          → Boots Q F (◌>>=◌ {L = L} (λ _. r) f m)
      go (next a, m') h = h.at
      go (exit, m') h = record { at = h.at }
      go (panic, m') h = record { at = h.at }

  pub Boots-then :
      (x : Boot L A) (y : Boot L B) (m : Machine L)
      → Boots (λ _ m'. Boots Q F (y m')) F (x m)
      → Boots Q F ((x >> y) m)
  unfolding ◌>>◌
  Boots-then x y m p = Boots-bind x (λ _. y) m p

module _ {K : Kube} {L : Libraries K} {A B : Type 0} {Q : B → Machine L → Type 0}
    {F : Machine L → Type 0} where
  -- A reply that is looked into.
  pub Boots-elim :
      (r : Reply L.Err A) (found : A → Boot L B) (failed : L.Err → Boot L B) (m : Machine L)
      → ((a : A) → r ≡ answer a → Boots Q F (found a m))
      → ((e : L.Err) → r ≡ refuse e → Boots Q F (failed e m))
      → Boots Q F ((elim r as (λ _. Boot L B) [ answer a ↦ found a | refuse e ↦ failed e ]) m)
  Boots-elim (answer a) found failed m y n = y a refl
  Boots-elim (refuse e) found failed m y n = n e refl

module _ {K : Kube} {L : Libraries K} {A : Type 0} where
  pub Boots-weaken :
      {Q Q' : A → Machine L → Type 0} {F F' : Machine L → Type 0} (x : Ending A × Machine L)
      → Boots Q F x
      → ((a : A) (m : Machine L) → Q a m → Q' a m)
      → ((m : Machine L) → F m → F' m)
      → Boots Q' F' x
  Boots-weaken (next a, m) h q f = record { at = q a m h.at }
  Boots-weaken (exit, m) h q f = record { at = f m h.at }
  Boots-weaken (panic, m) h q f = record { at = f m h.at }

module _ {K : Kube} {L : Libraries K} {A B : Type 0} {Q : B → Machine L → Type 0}
    {F : Machine L → Type 0} where
  -- A call whose error ends the program, and how it goes on.
  pub Boots-call-or_exit :
      (c : Call L.State L.Err A) (rest : A → Boot L B) (m : Machine L)
      → ((a : A) (s : L.State) → Boots Q F (rest a (record m { state = s })))
      → ((e : L.Err) (s : L.State) → c m.state ≡ (refuse e, s) → F (record m { state = s }))
      → Boots Q F ((call c >>= λ r. or_exit r >>= rest) m)
  Boots-call-or_exit c rest m q f = Boots-bind _ _ m (
      Boots-call c m (λ r s called. Boots-bind _ _ _ (
        Boots-or_exit r _ (λ a _. q a s) (λ e refused. f e s (called ∙ ap (λ r. (r, s)) refused)))))

module _ {K : Kube} {L : Libraries K} {F : Machine L → Type 0} where
  pub Boots-get_config :
      {Q : L.RestConfig → Machine L → Type 0} (m : Machine L)
      → ((cfg : L.RestConfig) (s : L.State) → Q cfg (record m { state = s }))
      → ((s : L.State) → L.get_config m.state ≡ (none, s) → F (record m { state = s }))
      → Boots Q F (get_config m)
  unfolding get_config
  Boots-get_config {Q} m q f = go (L.get_config m.state) f
    where
      go :
          (r : Option L.RestConfig × L.State)
          → ((s : L.State) → r ≡ (none, s) → F (record m { state = s }))
          → Boots Q F (elim r.0 [
            | some cfg ↦ (next cfg, record m { state = r.1 })
            | none ↦ (exit, record m { state = r.1 })
          ])
      go (some cfg, s) h = record { at = q cfg s }
      go (none, s) h = record { at = h s refl }

  pub Boots-setenv :
      {Q : Unit {0} → Machine L → Type 0} (name value : String) (m : Machine L)
      → Q tt (record m { env = set name value m.env })
      → Boots Q F (setenv name value m)
  unfolding setenv
  Boots-setenv name value m q = record { at = q }

  pub Boots-environment :
      {Q : _ → Machine L → Type 0} (m : Machine L) → Q m.env m → Boots Q F (environment m)
  unfolding environment
  Boots-environment m q = record { at = q }

module _ {K : Kube} {L : Libraries K} {Q : Reply L.Err (Unit {0}) → Machine L → Type 0}
    {F : Machine L → Type 0} where
  -- A component is handed over, or refused.
  Boots-offer :
      (c : Component L.Syncer) (m : Machine L)
      → ((a : Unit {0}) (s : L.State)
          → Q (answer a) (record m { state = s; log = Note.added c ∷ m.log }))
      → ((e : L.Err) (s : L.State)
          → L.add c m.state ≡ (refuse e, s)
          → Q (refuse e) (record m { state = s }))
      → Boots Q F (add c m)
  unfolding add
  Boots-offer c m q f = go (L.add c m.state) f
    where
      go :
          (x : Reply L.Err (Unit {0}) × L.State)
          → ((e : L.Err) (s : L.State) → x ≡ (refuse e, s) → Q (refuse e) (record m { state = s }))
          → Boots Q F (elim x.0 as (λ _. Ending (Reply L.Err (Unit {0})) × Machine L) [
            | answer a ↦ (next (answer a), record m { state = x.1; log = Note.added c ∷ m.log })
            | refuse e ↦ (next (refuse e), record m { state = x.1 })
          ])
      go (answer a, s) h = record { at = q a s }
      go (refuse e, s) h = record { at = h e s refl }

module _ {K : Kube} {L : Libraries K} {B : Type 0} {Q : B → Machine L → Type 0}
    {F : Machine L → Type 0} where
  -- A refusal ends the program.
  pub Boots-add :
      (c : Component L.Syncer) (rest : Boot L B) (m : Machine L)
      → ((s : L.State) → Boots Q F (rest (record m { state = s; log = Note.added c ∷ m.log })))
      → ((e : L.Err) (s : L.State) → L.add c m.state ≡ (refuse e, s) → F (record m { state = s }))
      → Boots Q F ((add c >>= λ r. or_exit r >> rest) m)
  unfolding or_exit
  Boots-add c rest m q f = Boots-bind _ _ m (
      Boots-offer c m (λ _ s. Boots-then _ _ _ (record { at = q s }))
        (λ e s refused. Boots-then _ _ _ (record { at = f e s refused })))

module _ {K : Kube} {L : Libraries K} {Q : Unit {0} → Machine L → Type 0}
    {F : Machine L → Type 0} where
  pub Boots-add_last :
      (c : Component L.Syncer) (m : Machine L)
      → ((u : Unit {0}) (s : L.State) → Q u (record m { state = s; log = Note.added c ∷ m.log }))
      → ((e : L.Err) (s : L.State) → L.add c m.state ≡ (refuse e, s) → F (record m { state = s }))
      → Boots Q F ((add c >>= λ r. or_exit r) m)
  unfolding or_exit
  Boots-add_last c m q f = Boots-bind _ _ m (
      Boots-offer c m (λ a s. record { at = q a s }) (λ e s refused. record { at = f e s refused }))

module _ {K : Kube} {L : Libraries K} {Q : Reply L.Err (Unit {0}) → Machine L → Type 0}
    {F : Machine L → Type 0} where
  pub Boots-start_manager :
      (m : Machine L)
      → ((r : Reply L.Err (Unit {0})) (s : L.State)
          → Q r (record m { state = s; log = Note.manager_started ∷ m.log }))
      → Boots Q F (start_manager m)
  unfolding start_manager
  Boots-start_manager m q = record { at = q _ _ }
