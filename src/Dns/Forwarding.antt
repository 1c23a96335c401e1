-- ===== src/Dns/Forwarding.antt =====
-- The Corefile after `updateDnsCorefile`, and the order of `handleDelete`.
use x_cluster_link.Base.{
  ◌⊎◌, inl, inr, String, ◌<>◌, ◌≡◌, refl, ◌∙◌, ap, true, false, some, List, ◌∷◌, contains_string,
  if◌then◌else◌,
}
use x_cluster_link.Base.Text.{contains, strip, splice, replace_first}
use x_cluster_link.Base.Text.Search.{
  contains-append_left, contains-append_right, cut_of_contains, cut_of_not_contains,
}
use x_cluster_link.Objects.{Service, Subnet, VpcDnsForward, Deployment, Container}
use x_cluster_link.Kube.{answer, Kube, World, Effect, did}
use x_cluster_link.Kube.Log.{changes}
use x_cluster_link.Kube.Post.{
  Post, Post-pure, Post-or_panic, Post-read, Post-request, Post-bind, Post-then,
}
use x_cluster_link.Dns.Corefile.{
  kube_dns_key, root_block, forward_block, forwards_clusterset, add_forward,
}
use x_cluster_link.Dns.Route.{route_to, remove_route, gen_route_to_core_dns, get_vpc_dns_deployment}
use x_cluster_link.Dns.Handlers.{
  finalizer, without_finalizer, edit_first, edit_deployment, delete_dns_connection, handle_delete,
}

forward_block-forwards : (ip : String) → contains (forward_block ip) "clusterset.local" ≡ true
unfolding contains strip if◌then◌else◌
forward_block-forwards ip =
    contains-append_left "clusterset.local:53 {\n    forward . " (ip <> "\n  }\n  .:53 {")
      "clusterset.local" refl

-- A Corefile that has the block of the root zone names the cluster set after the edit, so that the
-- next reconciliation does not edit it again.
pub add_forward-forwards :
    (ip corefile : String)
    → contains corefile root_block ≡ true
    → forwards_clusterset (add_forward ip corefile) ≡ true
unfolding forwards_clusterset add_forward replace_first
add_forward-forwards ip corefile h =
    let (before, after, e) = cut_of_contains corefile root_block h in
    ap (λ o. contains (splice corefile (forward_block ip) o) "clusterset.local") e
    ∙ contains-append_right before (forward_block ip <> after) "clusterset.local" (
        contains-append_left (forward_block ip) after "clusterset.local"
          (forward_block-forwards ip))

-- A Corefile that has no such block is left as it is, whatever the address.
pub add_forward_of_no_block :
    (ip corefile : String)
    → contains corefile root_block ≡ false
    → add_forward ip corefile ≡ corefile
unfolding add_forward replace_first
add_forward_of_no_block ip corefile h =
    ap (splice corefile (forward_block ip)) (cut_of_not_contains corefile root_block h)

module _ {K : Kube} {Q : Unit {0} → World K → Type 0} {F : World K → Type 0} where
  pub Post-edit_deployment :
      (change : String → String) (d : Deployment) (w : World K)
      → ((cs : List Container) (w' : World K)
          → edit_first change d.init_containers ≡ some cs
          → w'.log ≡ did (Effect.update_deployment (record d { init_containers = cs })) ∷ w.log
          → Q tt w')
      → ((w' : World K) → changes w'.log ≡ changes w.log → F w')
      → Post Q F (edit_deployment K change d w)
  unfolding edit_deployment
  Post-edit_deployment change d w q f = Post-bind _ _ w (
      Post-or_panic _ w
        (λ cs e.
          Post-then _ _ w
            (Post-request _ _ w (λ _ s _. Post-pure tt _ (q cs _ e refl)) (λ s. f _ refl)))
        (λ _. f w refl))

module _ (K : Kube) (d : VpcDnsForward) (w : World K) where
  -- What the cluster answered for the service of its DNS and for the default subnet.
  abbrev pub IsDns : Service → Type 0
  IsDns svc = (s : K.State) × (s' : K.State) × (K.get_service kube_dns_key s ≡ (answer svc, s'))

  abbrev pub IsDefault : Subnet → Type 0
  IsDefault subnet =
      (s : K.State) × (s' : K.State) × (K.get_subnet
          (record { name = "ovn-default"; namespace = "" }) s
        ≡ (answer subnet, s'))

  -- Nothing was changed, or only a deployment.
  abbrev pub Kept : World K → Type 0
  Kept w' =
      (changes w'.log ≡ changes w.log)
      ⊎ ((x : Deployment) × (changes w'.log ≡ Effect.update_deployment x ∷ changes w.log))

  -- The log when the finalizer has gone.
  abbrev pub Disconnected : World K → Type 0
  Disconnected w' =
      (svc : Service) × IsDns svc
      × (subnet : Subnet) × IsDefault subnet
      × (deployment : Deployment) × (cs : List Container) × (edit_first
            (remove_route (route_to svc.cluster_ip subnet.gateway)) deployment.init_containers
          ≡ some cs)
      × (w'.log
          ≡ did (Effect.update_dns_forward (without_finalizer K d))
            ∷ did (Effect.update_deployment (record deployment { init_containers = cs }))
            ∷ w.log)

  -- handleDelete of a forward with the finalizer, in any cluster: if it returns, then a deployment
  -- was written back whose commands have lost the route to the cluster's DNS through the gateway of
  -- the default subnet, and after that the forward without the finalizer, and no other request was
  -- made. If it ends with an error or a panic, the forward was not changed and keeps its finalizer.
  pub handle_delete-Disconnected :
      contains_string d.metadata.finalizers finalizer ≡ true
      → Post (λ _. Disconnected) Kept (handle_delete K d w)
  unfolding handle_delete delete_dns_connection gen_route_to_core_dns get_vpc_dns_deployment
      if◌then◌else◌
  handle_delete-Disconnected held = rw held (
      Post-then _ _ w (
        Post-bind _ _ w (
          Post-bind _ _ w (
            Post-read _ w
              (λ svc s₁ is_dns. Post-bind _ _ _ (
                Post-read _ _
                  (λ subnet s₂ is_default. Post-pure _ _ (
                    Post-bind _ _ _ (
                      Post-bind _ _ _ (
                        Post-read _ _
                          (λ items s₃ _.
                            Post-read _ _
                              (λ deployment s₄ _.
                                Post-edit_deployment _ deployment _
                                  (λ cs w₅ e l₅. Post-then _ _ w₅ (
                                    Post-request _ _ w₅
                                      (λ _ s₆ _. Post-pure tt _ (
                                        svc,
                                        (_, s₁, is_dns),
                                        subnet,
                                        (_, s₂, is_default),
                                        deployment,
                                        cs,
                                        e,
                                        cc,
                                      ))
                                      (λ _. inr (_, ap changes l₅))))
                                  (λ _ c. inl c))
                              (λ _. inl refl))
                          (λ _. inl refl)))))
                  (λ _. inl refl)))
              (λ _. inl refl)))))
