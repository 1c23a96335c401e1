-- ===== src/Dns/Repetition.antt =====
-- A creation that is repeated: what a second run of `handleCreateOrUpdate` asks for.
use x_cluster_link.Base.{
  String, ◌<>◌, ◌≡◌, refl, ap, subst, ◌∙◌, true, not, Option, none, some, List, [], ◌∷◌,
  contains_string,
}
use x_cluster_link.Base.GoMap.{index}
use x_cluster_link.Objects.{
  ConfigMap, Service, Subnet, VpcDns, VpcDnsForward, Deployment, Container,
}
use x_cluster_link.Kube.{Kube, World, Effect, did, failed, answer, pure}
use x_cluster_link.Kube.Steps.{read-answer, bind-ok, then-ok, if-false, or_panic-some}
use x_cluster_link.Kube.Post.{Post, Post-pure, Post-request, Post-then}
use x_cluster_link.Dns.Corefile.{
  corefile_key, kube_dns_key, forwards_clusterset, check_dns_corefile,
}
use x_cluster_link.Dns.Route.{
  route_to, add_route, each, pick_vpc_dns, gen_route_to_core_dns, get_vpc_dns_deployment,
}
use x_cluster_link.Dns.Handlers.{
  finalizer, edit_first, edit_deployment, create_dns_connection, handle_create_or_update,
}
use x_cluster_link.Dns.Commands.{add_route_twice}

each-add_route_twice :
    (route : String) (cs : List String)
    → each (add_route route) (each (add_route route) cs) ≡ each (add_route route) cs
unfolding each
each-add_route_twice route [] = refl
each-add_route_twice route (c ∷ cs) =
    ap (λ x. x ∷ each (add_route route) (each (add_route route) cs)) (add_route_twice route c)
    ∙ ap (λ xs. add_route route c ∷ xs) (each-add_route_twice route cs)

abbrev IsEdited : String → Option (List Container) → Type 0
IsEdited route none = Unit
IsEdited route (some cs) = edit_first (add_route route) cs ≡ some cs

edit_first-IsEdited :
    (route : String) (old : List Container) → IsEdited route (edit_first (add_route route) old)
edit_first-IsEdited route [] = tt
edit_first-IsEdited route (c ∷ old) =
    ap (λ x. some (record c { command = x } ∷ old)) (each-add_route_twice route c.command)

-- Containers that were edited once are edited to themselves.
edit_first_twice :
    (route : String) (old cs : List Container)
    → edit_first (add_route route) old ≡ some cs
    → edit_first (add_route route) cs ≡ some cs
edit_first_twice route old cs e = subst (IsEdited route) e (edit_first-IsEdited route old)

module _ (K : Kube) (d : VpcDnsForward) (w : World K) (cm : ConfigMap) (svc : Service)
    (subnet : Subnet) (items : List VpcDns) (deployment : Deployment) (s₁ s₂ s₃ s₄ s₅ : K.State)
    (held : contains_string d.metadata.finalizers finalizer ≡ true)
    (config : K.get_config_map corefile_key w.state ≡ (answer cm, s₁))
    (forwards : forwards_clusterset (index cm.content "Corefile") ≡ true)
    (service : K.get_service kube_dns_key s₁ ≡ (answer svc, s₂))
    (default : K.get_subnet (record { name = "ovn-default"; namespace = "" }) s₂
      ≡ (answer subnet, s₃))
    (listed : K.list_vpc_dnses "" [] s₃ ≡ (answer items, s₄))
    (found : K.get_deployment
        (record {
          name = "vpc-dns-" <> (pick_vpc_dns d.spec.vpc items).metadata.name;
          namespace = "kube-system";
        })
        s₄
      ≡ (answer deployment, s₅)) where
  handle_create_or_update-found :
      handle_create_or_update K d w
      ≡ edit_deployment K
          (add_route (route_to svc.cluster_ip subnet.gateway))
          deployment
          (record w { state = s₅ })
  unfolding handle_create_or_update create_dns_connection check_dns_corefile gen_route_to_core_dns
      get_vpc_dns_deployment pure
  handle_create_or_update-found =
      bind-ok _ _ w (if-false _ _ _ _ (ap not held))
      ∙ bind-ok _ _ w (bind-ok _ _ w (read-answer _ w config))
      ∙ then-ok _ _ _ (if-false _ _ _ _ (ap not forwards))
      ∙ bind-ok _ _ _
          (bind-ok _ _ _ (read-answer _ _ service) ∙ bind-ok _ _ _ (read-answer _ _ default))
      ∙ bind-ok _ _ _ (bind-ok _ _ _ (read-answer _ _ listed) ∙ read-answer _ _ found)

  -- handleCreateOrUpdate of a forward with the finalizer, where the Corefile names the cluster set and
  -- the deployment's commands are what an earlier creation with the same addresses has made of some
  -- others: the one request is to write the deployment as it is, and the handler ends with an error
  -- if and only if that request is refused.
  pub handle_create_or_update_twice :
      (old : List Container)
      → edit_first (add_route (route_to svc.cluster_ip subnet.gateway)) old
        ≡ some deployment.init_containers
      → Post
          (λ _ w'. w'.log ≡ did (Effect.update_deployment deployment) ∷ w.log)
          (λ w'. w'.log ≡ failed (Effect.update_deployment deployment) ∷ w.log)
          (handle_create_or_update K d w)
  unfolding edit_deployment
  handle_create_or_update_twice old edited =
      let again = edit_first_twice (route_to svc.cluster_ip subnet.gateway) old _ edited in
      rw (handle_create_or_update-found ∙ bind-ok _ _ _ (or_panic-some _ _ again))
        (Post-then _ _ _ (Post-request _ _ _ (λ _ _ _. Post-pure tt _ refl) (λ _. refl)))
