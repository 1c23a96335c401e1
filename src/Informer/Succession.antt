-- ===== src/Informer/Succession.antt =====
-- What the informer does when the gateway in use is deleted.
use x_cluster_link.Base.{String, ◌≡◌, refl, ◌⊎◌, inl, inr, ◌∙◌, ap, [], ◌∷◌, ==_iff_eq}
use x_cluster_link.Base.GoMap.{index}
use x_cluster_link.Objects.{GatewayExIp, StatefulSet}
use x_cluster_link.Kube.{Kube, World, Effect, did}
use x_cluster_link.Kube.Post.{Post, Post-if, Post-read, Post-request, Post-bind, Post-weaken}
use x_cluster_link.Informer.Lookup.{gateway_of, can_succeed, pick_gateway, list_gateways}
use x_cluster_link.Informer.Switch.{set_gateway, list_tunnels_of}
use x_cluster_link.Informer.Moves.{after, writes, Post-update_tunnels, Post-switch_to}
use x_cluster_link.Informer.Handlers.{hand_over}
use x_cluster_link.Informer.Failover.{
  Moved, NoGateway, Interrupted, no_gateway, named_first, Partly-plan,
}

module _ (K : Kube) (cluster_id : String) (gone : StatefulSet) (ex_ip : GatewayExIp)
    (w : World K) where
  -- The gateway in use is deleted, in any cluster: if the handler returns, then either the VPC's
  -- routes, the GatewayExIp and the listed tunnels were moved, in this order, to the first listed
  -- gateway that passes the test of DeleteFunc; or there is no such gateway with a name, and the one
  -- request was to delete the GatewayExIp. If it ends with an error or a panic, some first part of
  -- such a plan was carried out.
  pub hand_over-Moved :
      Post
        (λ _ w'.
          Moved K
            (can_succeed gone)
            ex_ip
            w.log
            (λ _. index ex_ip.metadata.labels "localVpc")
            w'.log
          ⊎ (NoGateway K (can_succeed gone) ex_ip w.log
              × (w'.log ≡ did (Effect.delete_ex_ip ex_ip) ∷ w.log)))
        (λ w'. Interrupted K (can_succeed gone) ex_ip w.log w'.log)
        (hand_over K cluster_id gone ex_ip w)
  unfolding hand_over list_tunnels_of list_gateways
  hand_over-Moved = Post-bind _ _ w (
      Post-read _ w
        (λ vpc s₁ vpc_found. Post-bind _ _ _ (
          Post-read _ _
            (λ items s₂ listed.
              Post-if _ _ _ _
                (λ e.
                  Post-request _ _ _
                    (λ _ s₃ _.
                      inr
                        (no_gateway K _ ex_ip w.log items (s₁, s₂, listed) (==_iff_eq _ _ e), refl))
                    (λ s₃. inl refl))
                (λ e.
                  let gw = pick_gateway (can_succeed gone) items in
                  Post-bind _ _ _ (
                    Post-switch_to gw vpc ex_ip _
                      (λ target labels w₃ relabelled c₃. Post-bind _ _ _ (
                        Post-read _ _
                          (λ tunnels s₄ tunnels_listed.
                            Post-weaken _
                              (Post-update_tunnels (set_gateway target.ip (gateway_of gw)) tunnels
                                _)
                              (λ _ w₅ c₅. inl (record {
                                items = items;
                                listed = (s₁, s₂, listed);
                                gw = gw;
                                is_first = named_first _ items e;
                                vpc = vpc;
                                vpc_found = (w.state, s₁, vpc_found);
                                target = target;
                                labels = labels;
                                relabelled = relabelled;
                                tunnels = tunnels;
                                tunnels_listed = (w₃.state, s₄, tunnels_listed);
                                changed = c₅ ∙ ap (after (writes _ tunnels)) c₃;
                              }))
                              (λ w₅ h. inr (
                                inr (
                                  gw,
                                  vpc,
                                  target,
                                  labels,
                                  tunnels,
                                  Partly-plan gw vpc ex_ip target.ip labels tunnels w.log w₃.log
                                      w₅.log c₃ h,
                                ))))
                          (λ s₄. inr (
                            inr (
                              gw,
                              vpc,
                              target,
                              labels,
                              [],
                              Partly-plan gw vpc ex_ip target.ip labels [] w.log w₃.log w₃.log c₃
                                  ([], [], refl, refl),
                            )))))
                      (λ w₃ c₃. inl c₃) (λ w₃ c₃. inr (inl (gw, vpc, c₃))))))
            (λ s₂. inl refl)))
        (λ s₁. inl refl))
