-- ===== src/Startup/Steps.antt =====
-- The steps of cmd/main.go, one by one: where they end, and what the manager has been given there.
use mathlib.Core.Int.{ℤ}
use x_cluster_link.Base.{◌≡◌, refl, Option, List, [], ◌∷◌, ◌++◌, inl, inr, ◌∙◌, ap, sym}
use x_cluster_link.Kube.{Kube, Reply, answer, refuse}
use x_cluster_link.Startup.{
  Libraries, Api, Scheme, must, ServiceDiscovery, AgentSpecification, Controller, Component, Note,
  Machine, next, setenv, environment, or_exit, ◌>>=◌, ◌>>◌,
}
use x_cluster_link.Startup.Posts.{
  Boots, Boots-pure, Boots-call, Boots-or_exit, Boots-or_panic, Boots-bind, Boots-then,
  Boots-weaken, Boots-environment, Boots-add, Boots-elim, Boots-add_last,
}
use x_cluster_link.Startup.Environment.{set_variables, init_env_vars}
use x_cluster_link.Startup.Agent.{Config, new_gw_ex_ip_syner}
use x_cluster_link.Startup.Main.{initial_spec, init, register, configure, add_parts}
use x_cluster_link.Startup.Wired.{
  set_all, variables, Discovered, AgentOf, Configured, Refusal, RefusedPart, six_parts,
}

module _ {K : Kube} (L : Libraries K) where
  set_variables-set_all :
      (cr : ServiceDiscovery) (m : Machine L)
      → set_variables L cr m ≡ (next tt, record m { env = set_all (variables L cr) m.env })
  unfolding set_variables setenv ◌>>=◌ ◌>>◌
  set_variables-set_all cr m = refl

  module _ (debug_level : ℤ) where
    -- A library refused before the manager was given a part.
    abbrev pub Failed : Machine L → Machine L → Type 0
    Failed m m' = Refusal L debug_level m.env × (m'.log ≡ m.log)

    -- What is known where the variables are set.
    abbrev Initialised : Machine L → Reply L.Err (Unit {0}) → Machine L → Type 0
    Initialised m (refuse _) m' = Failed m m'
    Initialised m (answer _) m' =
        (cr : ServiceDiscovery) × Discovered L cr
        × (m'.env ≡ set_all (variables L cr) m.env)
        × (m'.log ≡ m.log)

    pub Boots-init_env_vars :
        (client : L.DynamicClient) (m : Machine L)
        → Boots (Initialised m) (Failed m) (init_env_vars L client m)
    unfolding init_env_vars
    Boots-init_env_vars client m = Boots-bind _ _ m (
        Boots-call _ m (λ r s e.
          Boots-elim r _ _ _
            (λ obj found. Boots-bind _ _ _ (
              Boots-or_panic _ _
                (λ cr converted. Boots-then _ _ _ (
                  rw (set_variables-set_all cr) (record {
                    at = Boots-pure _ _ (
                      cr,
                      (client, m.state, s, obj, e ∙ ap (λ r. (r, s)) found, converted),
                      refl,
                      refl,
                    );
                  })))
                (λ unknown. (
                  Refusal.conversion client obj m.state s (e ∙ ap (λ r. (r, s)) found) unknown,
                  refl,
                ))))
            (λ err refused.
              Boots-pure _ _
                (Refusal.discovery client err m.state s (e ∙ ap (λ r. (r, s)) refused), refl))))

    pub Boots-configure :
        (client : L.DynamicClient) (m : Machine L)
        → Boots
            (λ spec m'. Configured L debug_level m.env spec × (m'.log ≡ m.log))
            (Failed m)
            (configure L debug_level client m)
    unfolding configure
    Boots-configure client m =
        Boots-bind _ _ m (Boots-weaken _ (Boots-init_env_vars client m) go (λ _ h. h))
      where
        go :
            (r : Reply L.Err (Unit {0})) (m' : Machine L)
            → Initialised m r m'
            → Boots
                (λ spec m'. Configured L debug_level m.env spec × (m'.log ≡ m.log))
                (Failed m)
                ((or_exit r
                    >> (environment >>= λ env. or_exit (L.process env (initial_spec debug_level))))
                  m')
        go (refuse _) m' failed =
            Boots-then _ _ m' (Boots-or_exit _ m' (λ _ e. cc e) (λ _ _. failed))
        go (answer _) m' (cr, found, variables, same) = Boots-then _ _ m' (
            Boots-or_exit _ m'
              (λ _ _. Boots-bind _ _ m' (
                Boots-environment m' (
                  Boots-or_exit _ m'
                    (λ spec made. (
                      (
                        cr,
                        found,
                        ap (λ env. L.process env (initial_spec debug_level)) (sym variables) ∙ made,
                      ),
                      same,
                    ))
                    (λ e refused. (
                      Refusal.specification cr e found (
                          ap (λ env. L.process env (initial_spec debug_level)) (sym variables)
                          ∙ refused),
                      same,
                    )))))
              (λ _ e. cc e))

    -- A part of the list was refused, and those before it are in the log.
    abbrev pub Refused : (all before log : List (Note L.Syncer)) → Type 0
    Refused all before log =
        (given : List (Note L.Syncer)) × (part : Component L.Syncer) × RefusedPart L debug_level
          part
        × (later : List (Note L.Syncer)) × (later ++ (Note.added part ∷ given) ≡ all)
        × (log ≡ given ++ before)

    pub Boots-add_parts :
        (spec : AgentSpecification) (c : Option (Controller L.Syncer)) (m : Machine L)
        → Boots
            (λ _ m'. m'.log ≡ six_parts L debug_level c spec.cluster_id ++ m.log)
            (λ m'. Refused (six_parts L debug_level c spec.cluster_id) m.log m'.log)
            (add_parts L debug_level spec c m)
    unfolding add_parts
    Boots-add_parts spec c m =
        let id = spec.cluster_id in
        let p₁ = Note.added (Component.agent c) in
        let p₂ = Note.added (Component.tunnel_reconciler id) in
        let p₃ = Note.added Component.forward_reconciler in
        let p₄ = Note.added (Component.gateway_informer id) in
        let p₅ = Note.added Component.healthz in
        let p₆ = Note.added Component.readyz in
        Boots-add _ _ m
          (λ _.
            Boots-add _ _ _
              (λ _.
                Boots-add _ _ _
                  (λ _.
                    Boots-add _ _ _
                      (λ _.
                        Boots-add _ _ _
                          (λ _.
                            Boots-add_last _ _ (λ _ _. refl)
                              (λ e s refused. (
                                p₅ ∷ p₄ ∷ p₃ ∷ p₂ ∷ p₁ ∷ [],
                                Component.readyz,
                                (e, _, s, refused),
                                [],
                                refl,
                                refl,
                              )))
                          (λ e s refused. (
                            p₄ ∷ p₃ ∷ p₂ ∷ p₁ ∷ [],
                            Component.healthz,
                            (e, _, s, refused),
                            p₆ ∷ [],
                            refl,
                            refl,
                          )))
                      (λ e s refused. (
                        p₃ ∷ p₂ ∷ p₁ ∷ [],
                        Component.gateway_informer id,
                        (e, _, s, refused),
                        p₆ ∷ p₅ ∷ [],
                        refl,
                        refl,
                      )))
                  (λ e s refused. (
                    p₂ ∷ p₁ ∷ [],
                    Component.forward_reconciler,
                    (e, _, s, refused),
                    p₆ ∷ p₅ ∷ p₄ ∷ [],
                    refl,
                    refl,
                  )))
              (λ e s refused. (
                p₁ ∷ [],
                Component.tunnel_reconciler id,
                (e, _, s, refused),
                p₆ ∷ p₅ ∷ p₄ ∷ p₃ ∷ [],
                refl,
                refl,
              )))
          (λ e s refused.
            ([], Component.agent c, (e, _, s, refused), p₆ ∷ p₅ ∷ p₄ ∷ p₃ ∷ p₂ ∷ [], refl, refl))

    pub Boots-new_gw_ex_ip_syner :
        (spec : AgentSpecification) (config : Config L) (m : Machine L)
        → Boots
            (λ c m'. AgentOf L spec c × (m'.log ≡ m.log))
            (λ _. ⊥)
            (new_gw_ex_ip_syner L spec config m)
    unfolding new_gw_ex_ip_syner
    Boots-new_gw_ex_ip_syner spec config m = Boots-bind _ _ m (
        Boots-call _ m (λ r s e.
          Boots-elim r _ _ _
            (λ syncer made.
              Boots-pure _ _
                ((config, m.state, s, inr (syncer, e ∙ ap (λ r. (r, s)) made, refl)), refl))
            (λ err made.
              Boots-pure _ _
                ((config, m.state, s, inl (err, e ∙ ap (λ r. (r, s)) made, refl)), refl))))

    pub Boots-register :
        {Q : Unit {0} → Machine L → Type 0} {F : Machine L → Type 0} (api : Api) (scheme : Scheme)
        (m : Machine L)
        → ((s : L.State) → Q tt (record m { state = s }))
        → ((e : L.Err) (s : L.State)
            → L.add_to_scheme api scheme m.state ≡ (refuse e, s)
            → F (record m { state = s }))
        → Boots Q F (register L api scheme m)
    unfolding register must
    Boots-register {Q} {F} api scheme m q f =
        Boots-bind _ _ m (Boots-call _ m (λ r s e. done r s e))
      where
        done :
            (r : Reply L.Err (Unit {0})) (s : L.State)
            → L.add_to_scheme api scheme m.state ≡ (r, s)
            → Boots Q F (must r (record m { state = s }))
        done (answer tt) s e = record { at = q s }
        done (refuse err) s e = record { at = f err s e }

    pub Boots-init :
        (m : Machine L) → Boots (λ _ m'. (m'.env ≡ m.env) × (m'.log ≡ m.log)) (Failed m) (init L m)
    unfolding init
    Boots-init m = Boots-then _ _ _ (
        Boots-register _ _ _
          (λ _. Boots-then _ _ _ (
            Boots-register _ _ _
              (λ _. Boots-then _ _ _ (
                Boots-register _ _ _
                  (λ _. Boots-then _ _ _ (
                    Boots-register _ _ _
                      (λ _. Boots-then _ _ _ (
                        Boots-register _ _ _
                          (λ _. Boots-then _ _ _ (
                            Boots-register _ _ _
                              (λ _. Boots-then _ _ _ (
                                Boots-register _ _ _
                                  (λ _.
                                    Boots-register _ _ _ (λ _. (refl, refl))
                                      (λ e s r. (Refusal.types _ _ e _ s r, refl)))
                                  (λ e s r. (Refusal.types _ _ e _ s r, refl))))
                              (λ e s r. (Refusal.types _ _ e _ s r, refl))))
                          (λ e s r. (Refusal.types _ _ e _ s r, refl))))
                      (λ e s r. (Refusal.types _ _ e _ s r, refl))))
                  (λ e s r. (Refusal.types _ _ e _ s r, refl))))
              (λ e s r. (Refusal.types _ _ e _ s r, refl))))
          (λ e s r. (Refusal.types _ _ e _ s r, refl)))
