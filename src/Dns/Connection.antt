-- ===== src/Dns/Connection.antt =====
-- The order of `handleCreateOrUpdate`.
use x_cluster_link.Base.{
  not-true, not-false, ◌⊎◌, inl, inr, ◌<>◌, ◌≡◌, refl, true, false, not, some, List, [], ◌∷◌,
  contains_string, if◌then◌else◌, Option,
}
use x_cluster_link.Base.GoMap.{Entries, index, insert}
use x_cluster_link.Objects.{
  ConfigMap, Service, Subnet, VpcDns, VpcDnsForward, Deployment, Container,
}
use x_cluster_link.Kube.{Kube, World, Call, Effect, Entry, did, M, answer, pure, ◌>>=◌, ◌>>◌}
use x_cluster_link.Kube.Log.{changes}
use x_cluster_link.Kube.Post.{
  Post, Post-pure, Post-if, Post-or_panic, Post-read, Post-request, Post-bind, Post-then,
}
use x_cluster_link.Dns.Corefile.{
  corefile_key, kube_dns_key, forwards_clusterset, add_forward, check_dns_corefile,
  update_dns_corefile,
}
use x_cluster_link.Dns.Route.{
  route_to, add_route, pick_vpc_dns, gen_route_to_core_dns, get_vpc_dns_deployment,
}
use x_cluster_link.Dns.Handlers.{
  finalizer, with_finalizer, edit_first, edit_deployment, create_dns_connection,
  handle_create_or_update,
}
use x_cluster_link.Dns.Effects.{Forwards, add_forward-Forwards, RoutesFirst, edit_first-RoutesFirst}
use x_cluster_link.Dns.Forwarding.{Post-edit_deployment}

-- The cluster answered so.
abbrev pub Answered : {S E A : Type 0} → Call S E A → A → Type 0
Answered {S} call a = (s : S) × (s' : S) × (call s ≡ (answer a, s'))

module _ (K : Kube) where
  -- A forward without the finalizer was written with it, and the code goes on with the answer.
  abbrev pub Claimed : VpcDnsForward → List Entry → VpcDnsForward → List Entry → Type 0
  Claimed d l d' l' =
      ((contains_string d.metadata.finalizers finalizer ≡ true) × (d' ≡ d) × (l' ≡ l))
      ⊎ ((contains_string d.metadata.finalizers finalizer ≡ false)
          × Answered (K.update_dns_forward (with_finalizer K d)) d'
          × (l' ≡ did (Effect.update_dns_forward (with_finalizer K d)) ∷ l))

  -- A Corefile that does not forward the names of the cluster set was edited, and no other was.
  abbrev pub Edited : List Entry → List Entry → Type 0
  Edited l l' =
      (cm : ConfigMap) × Answered (K.get_config_map corefile_key) cm
      × (((forwards_clusterset (index cm.content "Corefile") ≡ true) × (l' ≡ l))
          ⊎ ((forwards_clusterset (index cm.content "Corefile") ≡ false)
              × (cm' : ConfigMap) × Answered (K.get_config_map corefile_key) cm'
              × (svc : Service) × Answered (K.get_service kube_dns_key) svc
              × (content : Option Entries) × (insert "Corefile"
                    (add_forward svc.cluster_ip (index cm'.content "Corefile")) cm'.content
                  ≡ some content)
              × Forwards svc.cluster_ip (index cm'.content "Corefile")
                  (add_forward svc.cluster_ip (index cm'.content "Corefile"))
              × (l' ≡ did (Effect.update_config_map (record cm' { content = content })) ∷ l)))

  -- The route to the cluster's DNS, through the default subnet's gateway, was put into the commands
  -- that add routes, of the deployment of the VPC's active VpcDns.
  abbrev pub Routed : VpcDnsForward → List Entry → List Entry → Type 0
  Routed d l l' =
      (svc : Service) × Answered (K.get_service kube_dns_key) svc
      × (subnet : Subnet) × Answered
          (K.get_subnet (record { name = "ovn-default"; namespace = "" })) subnet
      × (items : List VpcDns) × Answered (K.list_vpc_dnses "" []) items
      × (deployment : Deployment) × Answered
          (K.get_deployment (record {
            name = "vpc-dns-" <> (pick_vpc_dns d.spec.vpc items).metadata.name;
            namespace = "kube-system";
          }))
          deployment
      × (cs : List Container) × (edit_first (add_route (route_to svc.cluster_ip subnet.gateway))
            deployment.init_containers
          ≡ some cs)
      × RoutesFirst (route_to svc.cluster_ip subnet.gateway) deployment.init_containers cs
      × (l' ≡ did (Effect.update_deployment (record deployment { init_containers = cs })) ∷ l)

  module _ {Q : Unit {0} → World K → Type 0} {F : World K → Type 0} where
    Post-Edited :
        (rest : M K (Unit {0})) (w : World K)
        → ((w' : World K) → Edited w.log w'.log → Post Q F (rest w'))
        → ((w' : World K) → changes w'.log ≡ changes w.log → F w')
        → Post Q F (
            (check_dns_corefile K >>= λ state.
            (if not state then update_dns_corefile K else pure tt) >> rest)
              w)
    unfolding check_dns_corefile update_dns_corefile
    Post-Edited rest w q f = Post-bind _ _ w (
        Post-bind _ _ w (
          Post-read _ w
            (λ cm s given. Post-pure _ _ (
              Post-then _ _ _ (
                Post-if _ _ _ _
                  (λ silent. Post-bind _ _ _ (
                    Post-read _ _
                      (λ cm' s₁ given₁. Post-bind _ _ _ (
                        Post-read _ _
                          (λ svc s₂ given₂. Post-bind _ _ _ (
                            Post-or_panic _ _
                              (λ content e. Post-then _ _ _ (
                                Post-request _ _ _
                                  (λ _ s₃ _. Post-pure tt _ (
                                    q _ (
                                      cm,
                                      (_, s, given),
                                      inr (
                                        not-true _ silent,
                                        cm',
                                        (_, s₁, given₁),
                                        svc,
                                        (_, s₂, given₂),
                                        content,
                                        e,
                                        add_forward-Forwards svc.cluster_ip
                                            (index cm'.content "Corefile"),
                                        refl,
                                      ),
                                    )))
                                  (λ _. f _ refl)))
                              (λ _. f _ refl)))
                          (λ _. f _ refl)))
                      (λ _. f _ refl)))
                  (λ known.
                    Post-pure tt _ (q _ (cm, (_, s, given), inl (not-false _ known, refl)))))))
            (λ _. f _ refl)))

    Post-Routed :
        (d : VpcDnsForward) (w : World K)
        → ((w' : World K) → Routed d w.log w'.log → Q tt w')
        → ((w' : World K) → changes w'.log ≡ changes w.log → F w')
        → Post Q F (
            (gen_route_to_core_dns K >>= λ route. get_vpc_dns_deployment K d >>= λ deployment.
            edit_deployment K (add_route route) deployment)
              w)
    unfolding gen_route_to_core_dns get_vpc_dns_deployment
    Post-Routed d w q f = Post-bind _ _ w (
        Post-bind _ _ w (
          Post-read _ w
            (λ svc s₁ given₁. Post-bind _ _ _ (
              Post-read _ _
                (λ subnet s₂ given₂. Post-pure _ _ (
                  Post-bind _ _ _ (
                    Post-bind _ _ _ (
                      Post-read _ _
                        (λ items s₃ given₃.
                          Post-read _ _
                            (λ deployment s₄ given₄.
                              Post-edit_deployment _ deployment _
                                (λ cs w₅ e l₅. q w₅ (
                                  svc,
                                  (_, s₁, given₁),
                                  subnet,
                                  (_, s₂, given₂),
                                  items,
                                  (_, s₃, given₃),
                                  deployment,
                                  (_, s₄, given₄),
                                  cs,
                                  e,
                                  edit_first-RoutesFirst _ _ cs e,
                                  l₅,
                                ))
                                f)
                            (λ _. f _ refl))
                        (λ _. f _ refl)))))
                (λ _. f _ refl)))
            (λ _. f _ refl)))

  -- How far it came, where it ended without the deployment.
  pub data Stopped (d : VpcDnsForward) (w w' : World K) : Type 0 where
    at_once : changes w'.log ≡ changes w.log → Stopped d w w'
    claimed :
        (d' : VpcDnsForward) (l₁ : List Entry)
        → Claimed d w.log d' l₁
        → changes w'.log ≡ changes l₁
        → Stopped d w w'
    edited :
        (d' : VpcDnsForward) (l₁ l₂ : List Entry)
        → Claimed d w.log d' l₁
        → Edited l₁ l₂
        → changes w'.log ≡ changes l₂
        → Stopped d w w'

  abbrev pub Connected : VpcDnsForward → World K → World K → Type 0
  Connected d w w' =
      (d' : VpcDnsForward) × (l₁ : List Entry) × (l₂ : List Entry) × Claimed d w.log d' l₁
      × Edited l₁ l₂
      × Routed d' l₂ w'.log

  Post-create_dns_connection :
      (d d' : VpcDnsForward) (w w₁ : World K)
      → Claimed d w.log d' w₁.log
      → Post (λ _. Connected d w) (Stopped d w) (create_dns_connection K d' w₁)
  unfolding create_dns_connection
  Post-create_dns_connection d d' w w₁ c =
      Post-Edited _ w₁
        (λ w₂ e.
          Post-Routed d' w₂ (λ w₃ r. (d', w₁.log, w₂.log, c, e, r))
            (λ w₃ same. Stopped.edited d' w₁.log w₂.log c e same))
        (λ w₂ same. Stopped.claimed d' w₁.log c same)

  -- handleCreateOrUpdate of a forward, in any cluster. If it returns, then its requests were, in this
  -- order: the forward with the finalizer, if it had none; if the Corefile did not name the cluster set,
  -- as the cluster answered it, the Corefile, which then has the block with the forward to the
  -- cluster's DNS, or is as it was if it has no text ".:53 {"; and the deployment of the active VpcDns of
  -- the forward's VPC, in which each command of the first init container that has the text
  -- "ip -4 route add" has the route to the cluster's DNS through the gateway of the default subnet, and
  -- every other command is as it was. All three were accepted and there was no other. If it ends with
  -- an error or a panic, then the accepted ones are a beginning of these, without the deployment.
  pub handle_create_or_update-Connected :
      (d : VpcDnsForward) (w : World K)
      → Post (λ _. Connected d w) (Stopped d w) (handle_create_or_update K d w)
  unfolding handle_create_or_update
  handle_create_or_update-Connected d w = Post-bind _ _ w (
      Post-if _ _ _ w
        (λ free.
          Post-request _ _ w
            (λ d' s given.
              Post-create_dns_connection d d' w _ (inr (not-true _ free, (_, s, given), refl)))
            (λ _. Stopped.at_once refl))
        (λ held.
          Post-pure d w (Post-create_dns_connection d d w w (inl (not-false _ held, refl, refl)))))
