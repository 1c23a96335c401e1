-- ===== src/System/Forwards.antt =====
-- The reconciler of VpcDnsForward asks for nothing but what is allowed.
use x_cluster_link.Base.{String, ◌≡◌, ◌⊎◌, refl, inl, inr, Option, none, some, List, ◌∷◌}
use x_cluster_link.Objects.{ObjectKey, VpcDnsForward, Deployment, Container}
use x_cluster_link.Kube.{Kube, World, Effect, Entry, did, M, pure, request, ◌>>=◌, ◌>>◌}
use x_cluster_link.Kube.Post.{
  Post, Post-pure, Post-read, Post-request, Post-bind, Post-then, Post-weaken, Post-both,
}
use x_cluster_link.Dns.Forwarding.{Post-edit_deployment}
use x_cluster_link.Dns.Corefile.{check_dns_corefile, update_dns_corefile}
use x_cluster_link.Dns.Route.{
  add_route, remove_route, gen_route_to_core_dns, get_vpc_dns_deployment,
}
use x_cluster_link.Dns.Handlers.{
  with_finalizer, without_finalizer, edit_first, edit_deployment, create_dns_connection,
  delete_dns_connection, handle_create_or_update, handle_delete, fail_with, reconcile,
}
use x_cluster_link.System.Keeps.{
  Gives, Keeps, Keeps-pure, Keeps-throw, Keeps-if, Keeps-request, Keeps-bind, Keeps-then,
  Keeps-bind-read, Keeps-bind-or_panic, Keeps-bind-attempt-read, keeps_rules,
}
use x_cluster_link.System.Rules.{DnsRoute, ForwardFrom, ForwardWrite, Allowed, Lawful}
use x_cluster_link.System.Tunnels.{permits}

-- A deployment was written last.
abbrev Written : List Entry → List Entry → Type 0
Written l l' = (d : Deployment) × (l' ≡ did (Effect.update_deployment d) ∷ l)

module _ (K : Kube) (cluster_id : String) where
  Keeps-check_dns_corefile : Keeps (Lawful K cluster_id) (check_dns_corefile K)
  unfolding check_dns_corefile
  Keeps-check_dns_corefile = search keeps_rules

  Keeps-update_dns_corefile : Keeps (Lawful K cluster_id) (update_dns_corefile K)
  unfolding update_dns_corefile
  Keeps-update_dns_corefile = Keeps-bind-read _ _ (λ cm given. Keeps-bind-read _ _ (λ svc answered.
      Keeps-bind-or_panic _ _ (λ content e.
        Keeps-then _ _
          (Keeps-request _ _ (
            permits K cluster_id (Effect.update_config_map (record cm { content = content }))
              (λ l. (cm, given, svc, answered, e, refl))))
          (Keeps-pure tt))))

  Post-gen_route_to_core_dns :
      (w : World K)
      → Lawful K cluster_id w.log
      → Post
          (λ route w'. DnsRoute K route × Lawful K cluster_id w'.log)
          (λ w'. Lawful K cluster_id w'.log)
          (gen_route_to_core_dns K w)
  unfolding gen_route_to_core_dns
  Post-gen_route_to_core_dns w h = Post-bind _ _ w (
      Post-read _ w
        (λ svc s e. Post-bind _ _ _ (
          Post-read _ _
            (λ subnet s' e'. Post-pure _ _ (((svc, (w.state, s, e), subnet, (s, s', e'), refl), h)))
            (λ _. h)))
        (λ _. h))

  -- The route, for the rest of a block.
  Keeps-bind-route :
      {B : Type 0} (f : String → M K B)
      → ((route : String) → DnsRoute K route → Keeps (Lawful K cluster_id) (f route))
      → Keeps (Lawful K cluster_id) (gen_route_to_core_dns K >>= f)
  Keeps-bind-route f kf = record {
    at = λ w h. Post-bind _ f w (
        Post-weaken _ (Post-gen_route_to_core_dns w h)
          (λ route w' (dns, h'). (kf route dns).at w' h') (λ _ h'. h'));
  }

  -- The deployment, for the rest of a block.
  Keeps-bind-deployment :
      {B : Type 0} (d : VpcDnsForward) (f : Deployment → M K B)
      → ((key : ObjectKey) (deployment : Deployment)
          → Gives (K.get_deployment key) deployment
          → Keeps (Lawful K cluster_id) (f deployment))
      → Keeps (Lawful K cluster_id) (get_vpc_dns_deployment K d >>= f)
  unfolding get_vpc_dns_deployment
  Keeps-bind-deployment d f kf = record {
    at = λ w h. Post-bind _ f w (
        Post-bind _ _ w (
          Post-read _ w
            (λ items s _.
              Post-read _ _ (λ deployment s' e. (kf _ deployment (s, s', e)).at _ h) (λ _. h))
            (λ _. h)));
  }

  Keeps-edit_deployment :
      (key : ObjectKey) (d : Deployment) (route : String) (change : String → String)
      → Gives (K.get_deployment key) d
      → DnsRoute K route
      → ((cs : List Container)
          → edit_first change d.init_containers ≡ some cs
          → (edit_first (add_route route) d.init_containers ≡ some cs)
            ⊎ (edit_first (remove_route route) d.init_containers ≡ some cs))
      → Keeps (Lawful K cluster_id) (edit_deployment K change d)
  unfolding edit_deployment
  Keeps-edit_deployment key d route change given dns known = Keeps-bind-or_panic _ _ (λ cs e.
      Keeps-then _ _
        (Keeps-request _ _ (
          permits K cluster_id (Effect.update_deployment (record d { init_containers = cs }))
            (λ l. (key, d, given, route, dns, cs, known cs e, refl))))
        (Keeps-pure tt))

  Keeps-create_dns_connection :
      (d : VpcDnsForward) → Keeps (Lawful K cluster_id) (create_dns_connection K d)
  unfolding create_dns_connection
  Keeps-create_dns_connection d = Keeps-bind _ _ Keeps-check_dns_corefile (λ state.
      Keeps-then _ _ (Keeps-if _ _ _ (λ _. Keeps-update_dns_corefile) (λ _. Keeps-pure tt)) (
        Keeps-bind-route _ (λ route dns. Keeps-bind-deployment d _ (λ key deployment given.
          Keeps-edit_deployment key deployment route (add_route route) given dns (λ cs e. inl e)))))

  -- The finalizer goes right after the deployment was written.
  Keeps-edit_deployment-release :
      (key : ObjectKey) (deployment : Deployment) (route : String) (d : VpcDnsForward)
      → Gives (K.get_deployment key) deployment
      → DnsRoute K route
      → ForwardFrom K d
      → (w : World K) → Lawful K cluster_id w.log
      → Post
          (λ _ w'.
            Post
              (λ _ w''. Lawful K cluster_id w''.log)
              (λ w''. Lawful K cluster_id w''.log)
              ((request
                    (Effect.update_dns_forward (without_finalizer K d))
                    (K.update_dns_forward (without_finalizer K d))
                  >> pure tt)
                w'))
          (λ w'. Lawful K cluster_id w'.log)
          (edit_deployment K (remove_route route) deployment w)
  Keeps-edit_deployment-release key deployment route d given dns known w h =
      Post-weaken _
        (Post-both _
          ((Keeps-edit_deployment key deployment route (remove_route route) given dns
              (λ cs e. inr e)).at
            w h)
          (Post-edit_deployment {Q = λ _ w'. Written w.log w'.log} {F = λ _. Unit {0}}
            (remove_route route) deployment w (λ cs w' _ e. (_, e)) (λ _ _. tt)))
        (λ _ w₁ (h₁, (written, e)).
          let allowed : Allowed K cluster_id (Effect.update_dns_forward (without_finalizer K d))
              w₁.log =
            (d, known, ForwardWrite.releases written w.log e refl) in
          Post-then _ _ w₁
            (Post-request _ _ w₁ (λ _ _ _. Post-pure tt _ (allowed, h₁)) (λ _. (allowed, h₁))))
        (λ _ (h₁, _). h₁)

  Keeps-handle_delete :
      (d : VpcDnsForward) → ForwardFrom K d → Keeps (Lawful K cluster_id) (handle_delete K d)
  unfolding handle_delete delete_dns_connection get_vpc_dns_deployment
  Keeps-handle_delete d known =
      Keeps-if _ _ _
        (λ _. record {
          at = λ w h. Post-then _ _ w (
              Post-bind _ _ w (
                Post-weaken _ (Post-gen_route_to_core_dns w h)
                  (λ route w₁ (dns, h₁). Post-bind _ _ w₁ (
                    Post-bind _ _ w₁ (
                      Post-read _ w₁
                        (λ items s _.
                          Post-read _ _
                            (λ deployment s' e.
                              Keeps-edit_deployment-release _ deployment route d (s, s', e) dns
                                known _ h₁)
                            (λ _. h₁))
                        (λ _. h₁))))
                  (λ _ h₁. h₁)));
        })
        (λ _. Keeps-pure tt)

  Keeps-handle_create_or_update :
      (d : VpcDnsForward)
      → ForwardFrom K d
      → Keeps (Lawful K cluster_id) (handle_create_or_update K d)
  unfolding handle_create_or_update
  Keeps-handle_create_or_update d known =
      Keeps-bind _ _
        (Keeps-if _ _ _
          (λ _. Keeps-request _ _ (
            permits K cluster_id (Effect.update_dns_forward (with_finalizer K d))
              (λ l. (d, known, ForwardWrite.claims refl))))
          (λ _. Keeps-pure d))
        Keeps-create_dns_connection

  Keeps-fail_with : (e : Option K.Err) → Keeps (Lawful K cluster_id) (fail_with K e)
  Keeps-fail_with none = Keeps-pure tt
  Keeps-fail_with (some e) = Keeps-throw e

  pub Keeps-reconcile : (key : ObjectKey) → Keeps (Lawful K cluster_id) (reconcile K key)
  unfolding reconcile
  Keeps-reconcile key =
      Keeps-bind-attempt-read _ _
        (λ d given.
          let known : ForwardFrom K d = ForwardFrom.fetched key given in
          Keeps-if _ _ _ (λ _. Keeps-handle_delete d known)
            (λ _. Keeps-handle_create_or_update d known))
        (λ e. Keeps-fail_with (K.ignore_not_found e))
