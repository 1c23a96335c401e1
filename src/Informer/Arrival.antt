-- ===== src/Informer/Arrival.antt =====
-- What the informer does when a gateway is added, or comes up again.
use x_cluster_link.Base.{String, ◌≡◌, refl, ◌⊎◌, inl, inr, ◌∙◌, ap, some, List, [], ◌∷◌, arith}
use x_cluster_link.Base.GoMap.{index, lookup}
use x_cluster_link.Objects.{VpcNatTunnel, GatewayExIp, StatefulSet, Pod}
use x_cluster_link.Kube.{Kube, World, Effect, did, failed, answer}
use x_cluster_link.Kube.Log.{changes}
use x_cluster_link.Kube.Post.{
  Post, Post-pure, Post-if, Post-or_panic, Post-read, Post-request, Post-bind, Post-then,
  Post-weaken, Post-attempt-read,
}
use x_cluster_link.NatTunnel.Gateway.{get_gw_extern_ip}
use x_cluster_link.NatTunnel.Runs.{IsGatewayPod, Post-get_nat_gw_pod}
use x_cluster_link.NatTunnel.Phases.{Post-or_error}
use x_cluster_link.Informer.Lookup.{gateway_of}
use x_cluster_link.Informer.Switch.{set_internal_ip, set_external_ip, list_tunnels_of}
use x_cluster_link.Informer.Moves.{after, Partly, Partly-cons, writes, Post-update_tunnels}
use x_cluster_link.Informer.Failover.{TunnelsOf}
use x_cluster_link.Informer.Handlers.{new_ex_ip, register, on_add, refresh}
use x_cluster_link.Informer.Registration.{Registered, Passed}

module _ (K : Kube) (cluster_id : String) (st : StatefulSet) (w : World K) where
  -- A gateway is added, in any cluster: if the handler returns, then either its one request was to
  -- create the GatewayExIp of the VPC of the gateway, as `Registered` says; or it made none, and then the
  -- gateway is not available, or the cluster answered that this GatewayExIp exists, or refused it with
  -- another error than "not found", or the VPC has a route to another gateway. If it ends with an error
  -- or a panic, no request was made, or the one to create it was refused.
  pub on_add-Registered :
      Post
        (λ _ w'.
          (Passed K cluster_id st w × (w'.log ≡ w.log))
          ⊎ ((e : Effect) × Registered K cluster_id st w e × (w'.log ≡ did e ∷ w.log)))
        (λ w'.
          (w'.log ≡ w.log)
          ⊎ ((e : Effect) × Registered K cluster_id st w e × (w'.log ≡ failed e ∷ w.log)))
        (on_add K cluster_id st w)
  unfolding on_add register get_gw_extern_ip
  on_add-Registered =
      Post-if _ _ _ w
        (λ up. Post-bind _ _ w (
          Post-read _ w
            (λ nat_gw s₁ nat_gw_found. Post-bind _ _ _ (
              Post-get_nat_gw_pod _ _
                (λ pod w₂ found l₂. Post-bind _ _ w₂ (
                  Post-attempt-read _ w₂
                    (λ x s₃ exists.
                      Post-pure tt _
                        (inl (Passed.exists nat_gw x s₃ (s₁, nat_gw_found) (w₂.state, exists), l₂)))
                    (λ error s₃ missing.
                      Post-if _ _ _ _
                        (λ not_found. Post-bind _ _ _ (
                          Post-read _ _
                            (λ vpc s₄ vpc_found.
                              Post-if _ _ _ _
                                (λ routed. Post-bind _ _ _ (
                                  Post-read _ _
                                    (λ cluster s₅ cluster_found. Post-bind _ _ _ (
                                      Post-or_error _ _ _
                                        (λ ip is_ip. Post-bind _ _ _ (
                                          Post-or_panic _ _
                                            (λ cidr is_cidr.
                                              let seen : Registered K cluster_id st w (
                                                  Effect.create_ex_ip
                                                    (new_ex_ip K cluster_id nat_gw pod ip cidr)) =
                                                record {
                                                  available = ground arith;
                                                  nat_gw = nat_gw;
                                                  nat_gw_at = s₁;
                                                  nat_gw_found = nat_gw_found;
                                                  pod = pod;
                                                  is_gateway_pod = found;
                                                  error = error;
                                                  at = w₂.state;
                                                  then_at = s₃;
                                                  missing = missing;
                                                  not_found = not_found;
                                                  vpc = vpc;
                                                  vpc_at = s₄;
                                                  vpc_found = vpc_found;
                                                  routed = routed;
                                                  ip = ip;
                                                  extern_ip = is_ip;
                                                  cluster = cluster;
                                                  cluster_at = s₅;
                                                  cluster_found = cluster_found;
                                                  cidr = cidr;
                                                  is_cidr = is_cidr;
                                                  created = refl;
                                                } in
                                              Post-then _ _ _ (
                                                Post-request _ _ _
                                                  (λ _ s₆ _. Post-pure tt _ (inr (_, seen, cc)))
                                                  (λ s₆. inr (_, seen, cc))))
                                            (λ _. inl l₂)))
                                        (inl l₂)))
                                    (λ s₅. inl l₂)))
                                (λ routed. Post-pure tt _ (
                                  inl (
                                    Passed.elsewhere nat_gw error s₃ s₄ vpc (s₁, nat_gw_found)
                                        (w₂.state, missing) vpc_found routed,
                                    l₂,
                                  ))))
                            (λ s₄. inl l₂)))
                        (λ other. Post-pure tt _ (
                          inl (
                            Passed.unknown nat_gw error s₃ (s₁, nat_gw_found) (w₂.state, missing)
                                other,
                            l₂,
                          ))))))
                (λ w₂ l₂. inl l₂)))
            (λ s₁. inl refl)))
        (λ down. Post-pure tt w (inl (Passed.unavailable (λ e. ground arith), refl)))

module _ (K : Kube) (cluster_id : String) (st : StatefulSet) (ex_ip : GatewayExIp)
    (w : World K) where
  abbrev pub refresh_plan : String → List VpcNatTunnel → List Effect
  refresh_plan ip tunnels =
      Effect.update_ex_ip (set_external_ip ip ex_ip) ∷ writes (set_internal_ip ip) tunnels

  -- The address of the gateway's pod.
  abbrev pub AddressOf : String → Type 0
  AddressOf ip =
      (pod : Pod) × IsGatewayPod K (gateway_of st) pod
      × (lookup "ovn-vpc-external-network.kube-system.kubernetes.io/ip_address"
            pod.metadata.annotations
          ≡ some ip)

  -- The server's answer to an accepted write of the GatewayExIp.
  abbrev pub Stored : GatewayExIp → GatewayExIp → Type 0
  Stored x stored = (s : K.State) × (s' : K.State) × (K.update_ex_ip x s ≡ (answer stored, s'))

  -- The gateway in use comes up again, in any cluster: if the handler returns, the GatewayExIp and
  -- then every tunnel listed for the VPC that the
  -- stored GatewayExIp names were given the external address of
  -- the gateway's one running pod. If it ends with an error or a panic, some first part of that was
  -- done.
  pub refresh-plan :
      Post
        (λ _ w'.
          (ip : String) × AddressOf ip
          × (stored : GatewayExIp) × Stored (set_external_ip ip ex_ip) stored
          × (tunnels : List VpcNatTunnel) × TunnelsOf K
              (index stored.metadata.labels "localVpc")
              tunnels
          × (changes w'.log ≡ after (refresh_plan ip tunnels) (changes w.log)))
        (λ w'.
          (changes w'.log ≡ changes w.log)
          ⊎ ((ip : String) × (tunnels : List VpcNatTunnel) × AddressOf ip
              × Partly (refresh_plan ip tunnels) w.log w'.log))
        (refresh K cluster_id st ex_ip w)
  unfolding refresh get_gw_extern_ip list_tunnels_of
  refresh-plan = Post-bind _ _ w (
      Post-get_nat_gw_pod _ w
        (λ pod w₁ found l₁. Post-bind _ _ w₁ (
          Post-or_error _ _ w₁
            (λ ip is_ip. Post-bind _ _ w₁ (
              Post-request _ _ w₁
                (λ stored s₂ answered. Post-bind _ _ _ (
                  Post-read _ _
                    (λ tunnels s₃ listed.
                      Post-weaken _ (Post-update_tunnels (set_internal_ip ip) tunnels _)
                        (λ _ w₄ c₄. (
                          ip,
                          (pod, found, is_ip),
                          stored,
                          (w₁.state, s₂, answered),
                          tunnels,
                          (s₂, s₃, listed),
                          c₄ ∙ ap (λ l. after (refresh_plan ip tunnels) (changes l)) l₁,
                        ))
                        (λ w₄ part. inr (
                          ip,
                          tunnels,
                          (pod, found, is_ip),
                          Partly-cons _ _ w.log
                              (did (Effect.update_ex_ip (set_external_ip ip ex_ip)) ∷ w₁.log) w₄.log
                              (ap (λ l. Effect.update_ex_ip (set_external_ip ip ex_ip) ∷ changes l)
                                l₁)
                              part,
                        )))
                    (λ s₃. inr (
                      ip,
                      [],
                      (pod, found, is_ip),
                      (
                        refresh_plan ip [],
                        [],
                        refl,
                        ap (λ l. after (refresh_plan ip []) (changes l)) l₁,
                      ),
                    ))))
                (λ s₂. inl (ap changes l₁))))
            (inl (ap changes l₁))))
        (λ w₁ l₁. inl (ap changes l₁)))
