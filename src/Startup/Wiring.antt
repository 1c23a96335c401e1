-- ===== src/Startup/Wiring.antt =====
-- cmd/main.go: what the manager has been given where main ends, and with which cluster id.
use mathlib.Core.Int.{ℤ}
use mathlib.Core.List.{append-nil, append_assoc}
use x_cluster_link.Base.{◌≡◌, Option, List, [], ◌∷◌, ◌++◌, ◌⊎◌, inl, inr, ◌∙◌, ap, subst}
use x_cluster_link.Kube.{Kube}
use x_cluster_link.Startup.{
  Libraries, AgentSpecification, Controller, Note, Machine, Ending, next, exit, panic, or_exit,
  start_manager, ◌>>=◌, ◌>>◌,
}
use x_cluster_link.Startup.Posts.{
  Boots, Boots-or_exit, Boots-bind, Boots-then, Boots-weaken, Boots-get_config, Boots-start_manager,
  Boots-call-or_exit,
}
use x_cluster_link.Startup.Agent.{Config, new_gw_ex_ip_syner}
use x_cluster_link.Startup.Main.{Flags, program, configure, add_parts, main}
use x_cluster_link.Startup.Wired.{AgentOf, Configured, Refusal, six_parts, Wired}
use x_cluster_link.Startup.Steps.{
  Boots-configure, Boots-add_parts, Boots-new_gw_ex_ip_syner, Boots-init,
}

module _ {K : Kube} (L : Libraries K) where
  module _ (debug_level : ℤ) where
    -- From the specification on.
    Boots-run :
        (client : L.DynamicClient) (config : Config L) (m₀ m : Machine L)
        → m.env ≡ m₀.env
        → m.log ≡ m₀.log
        → Boots
            (λ _. Wired L debug_level m₀)
            (Wired L debug_level m₀)
            ((configure L debug_level client >>= λ spec. new_gw_ex_ip_syner L spec config >>= λ c.
                add_parts L debug_level spec c >> (start_manager >>= λ r. or_exit r))
              m)
    Boots-run client config m₀ m same_env same_log = Boots-bind _ _ m (
        Boots-weaken _ (Boots-configure L debug_level client m)
          (λ spec m₁ (configured, e₁). Boots-bind _ _ m₁ (
            Boots-weaken _ (Boots-new_gw_ex_ip_syner L debug_level spec config m₁)
              (λ c m₂ (made, e₂).
                let e = e₂ ∙ e₁ ∙ same_log in
                let known = subst (λ env. Configured L debug_level env spec) same_env configured in
                Boots-then _ _ m₂ (
                  Boots-weaken _ (Boots-add_parts L debug_level spec c m₂)
                    (λ _ m₃ all.
                      let all_started =
                        ap (λ l. Note.manager_started ∷ l)
                          (all ∙ ap (λ l. six_parts L debug_level c spec.cluster_id ++ l) e) in
                      Boots-bind _ _ m₃ (
                        Boots-start_manager m₃ (λ r s.
                          Boots-or_exit r _ (λ _ _. Wired.started spec c known made all_started)
                            (λ _ _. Wired.started spec c known made all_started))))
                    (λ m₃ (given, part, refused, later, all, l).
                      Wired.some_parts spec c given part later known made refused all
                        (l ∙ ap (λ l. given ++ l) e))))
              (λ _ none_left. absurd none_left)))
          (λ _ (refused, e).
            Wired.nothing (subst (λ env. Refusal L debug_level env) same_env refused)
              (e ∙ same_log)))

    Boots-main :
        (flags : Flags) (m₀ m : Machine L)
        → m.env ≡ m₀.env
        → m.log ≡ m₀.log
        → Boots (λ _. Wired L debug_level m₀) (Wired L debug_level m₀) (main L debug_level flags m)
    unfolding main
    Boots-main flags m₀ m same_env same_log =
        let early : (s : L.State)
            → Refusal L debug_level m₀.env
            → Wired L debug_level m₀ (record m { state = s }) =
          λ _ refused. Wired.nothing refused same_log in
        Boots-bind _ _ m (
          Boots-get_config m
            (λ cfg _.
              Boots-call-or_exit _ _ _
                (λ _ _.
                  Boots-call-or_exit _ _ _
                    (λ _ _.
                      Boots-call-or_exit _ _ _ (λ _ _. Boots-run _ _ m₀ _ same_env same_log)
                        (λ e s r. early s (Refusal.dynamic_client _ e _ s r)))
                    (λ e s r. early s (Refusal.rest_mapper _ e _ s r)))
                (λ e s r. early s (Refusal.manager _ _ e _ s r)))
            (λ s r. early s (Refusal.rest_config _ s r)))

    Boots-program :
        (flags : Flags) (m : Machine L)
        → Boots (λ _. Wired L debug_level m) (Wired L debug_level m) (program L debug_level flags m)
    unfolding program
    Boots-program flags m = Boots-then _ _ m (
        Boots-weaken _ (Boots-init L debug_level m)
          (λ _ m' (same_env, same_log). Boots-main flags m m' same_env same_log)
          (λ _ (refused, same_log). Wired.nothing refused same_log))

    ends :
        {A : Type 0} (m : Machine L) (x : Ending A × Machine L)
        → Boots (λ _. Wired L debug_level m) (Wired L debug_level m) x
        → Wired L debug_level m x.1
    ends m (next _, m') h = h.at
    ends m (exit, m') h = h.at
    ends m (panic, m') h = h.at

    -- Wherever the program ends, by returning, by exiting or by a panic: either a library refused (the
    -- registration of a type, the configuration, the manager, a client, the ServiceDiscovery or its
    -- conversion, or envconfig), and the manager was given nothing and not started; or it refused
    -- one of the six parts, was given just those before it, in the order of the code, and not started;
    -- or it was given all six and then started. The syncer, the tunnel reconciler and the informer have
    -- one cluster id, that of the specification which envconfig makes of the environment once the
    -- variables of a ServiceDiscovery that the cluster answered are set; the agent is nil just where
    -- NewSyncer failed.
    pub program-Wired :
        (flags : Flags) (m : Machine L) → Wired L debug_level m (program L debug_level flags m).1
    program-Wired flags m = ends m _ (Boots-program flags m)

    -- A log of a fresh program is empty, or a beginning of the whole start.
    pub Wired-first :
        (m m' : Machine L)
        → m.log ≡ []
        → Wired L debug_level m m'
        → (m'.log ≡ [])
          ⊎ ((spec : AgentSpecification) × (c : Option (Controller L.Syncer)) × Configured L
                debug_level m.env spec
              × AgentOf L spec c
              × (later : List (Note L.Syncer)) × (later ++ m'.log
                  ≡ Note.manager_started ∷ six_parts L debug_level c spec.cluster_id))
    Wired-first m m' fresh (Wired.nothing _ e) = inl (e ∙ fresh)
    Wired-first m m' fresh (Wired.some_parts spec c given part later known made _ all l) = inr (
      spec,
      c,
      known,
      made,
      Note.manager_started ∷ (later ++ (Note.added part ∷ [])),
      ap (λ l. Note.manager_started ∷ l)
          (ap (λ l. (later ++ (Note.added part ∷ [])) ++ l)
              (l ∙ ap (λ l. given ++ l) fresh ∙ append-nil given)
            ∙ append_assoc later (Note.added part ∷ []) given
            ∙ all),
    )
    Wired-first m m' fresh (Wired.started spec c known made e) = inr (
      spec,
      c,
      known,
      made,
      [],
      e ∙ ap (λ l. Note.manager_started ∷ (six_parts L debug_level c spec.cluster_id ++ l)) fresh,
    )
