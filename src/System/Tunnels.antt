-- ===== src/System/Tunnels.antt =====
-- The reconciler of VpcNatTunnel asks for nothing but what is allowed.
use x_cluster_link.Base.{◌≡◌, String, refl, sym, subst, List}
use x_cluster_link.Base.GoMap.{index}
use x_cluster_link.Objects.{Pod, VpcNatTunnel, GatewayExIp}
use x_cluster_link.Kube.{Kube, Effect, Entry, M, pure, request, ◌>>=◌, ◌>>◌}
use x_cluster_link.Kube.Post.{Post-pure, Post-request, Post-bind, Post-then, Post-weaken, Post-both}
use x_cluster_link.NatTunnel.Gateway.{get_nat_gw_pod}
use x_cluster_link.NatTunnel.Exec.{check_stderr, exec_command_in_pod}
use x_cluster_link.NatTunnel.Runs.{command_in, IsGatewayPod, Post-get_nat_gw_pod}
use x_cluster_link.NatTunnel.Setup.{
  run_in, build, tear_down, save_status, complete_status, begin_status, initialise, stamp_spec,
}
use x_cluster_link.NatTunnel.Deletion.{TornDown, Post-tear_down}
use x_cluster_link.NatTunnel.Phases.{Built, Post-build, Describes, filled, Post-complete_status}
use x_cluster_link.NatTunnel.Handlers.{without_finalizer}
use x_cluster_link.System.Keeps.{
  Keeps, Permits, Keeps-pure, Keeps-request, Keeps-then, Keeps-bind-read, keeps_rules,
}
use x_cluster_link.System.Rules.{TunnelFrom, Edits, Edits-moved, TunnelWrite, Allowed, Lawful}

module _ (K : Kube) (cluster_id : String) where
  pub permits :
      (e : Effect) → ((l : List Entry) → Allowed K cluster_id e l) → Permits (Lawful K cluster_id) e
  permits e allowed l h = ((allowed l, h), (allowed l, h))

  pub Keeps-run_in :
      (gateway : String) (p : Pod) (command : String)
      → IsGatewayPod K gateway p
      → Keeps (Lawful K cluster_id) (run_in K p command)
  unfolding exec_command_in_pod check_stderr
  Keeps-run_in gateway p command ready =
      let asked : Permits (Lawful K cluster_id) (command_in p command) =
        permits (command_in p command) (λ l. (gateway, p, ready, command, refl)) in
      search (keeps_rules, Keeps-request, asked) depth 9

  pub Keeps-build :
      (gateway : String) (p : Pod) (t : VpcNatTunnel)
      → IsGatewayPod K gateway p
      → Keeps (Lawful K cluster_id) (build K p t)
  unfolding build
  Keeps-build gateway p t ready = search (keeps_rules, Keeps-run_in gateway p)

  pub Keeps-tear_down :
      (gateway : String) (p : Pod) (t : VpcNatTunnel)
      → IsGatewayPod K gateway p
      → Keeps (Lawful K cluster_id) (tear_down K p t)
  unfolding tear_down
  Keeps-tear_down gateway p t ready = search (keeps_rules, Keeps-run_in gateway p)

  -- The pod of a gateway, for the rest of a block.
  pub Keeps-bind-pod :
      {B : Type 0} (gateway : String) (f : Pod → M K B)
      → ((p : Pod) → IsGatewayPod K gateway p → Keeps (Lawful K cluster_id) (f p))
      → Keeps (Lawful K cluster_id) (get_nat_gw_pod K gateway >>= f)
  Keeps-bind-pod gateway f kf = record {
    at = λ w h. Post-bind _ f w (
        Post-get_nat_gw_pod gateway w
          (λ p w' ready e. (kf p ready).at w' (subst (Lawful K cluster_id) (sym e) h))
          (λ w' e. subst (Lawful K cluster_id) (sym e) h));
  }

  -- A status that is saved right after the build.
  pub Keeps-build-save_status :
      {B : Type 0} (p : Pod) (x t : VpcNatTunnel) (f : VpcNatTunnel → M K B)
      → TunnelFrom K x
      → t.metadata ≡ x.metadata
      → IsGatewayPod K t.status.local_gw p
      → ((stored : VpcNatTunnel) → TunnelFrom K stored → Keeps (Lawful K cluster_id) (f stored))
      → Keeps (Lawful K cluster_id) (build K p t >> (save_status K t >>= f))
  Keeps-build-save_status p x t f from same ready kf = record {
    at = λ w h. Post-then _ _ w (
        Post-weaken _
          (Post-both _ ((Keeps-build _ p t ready).at w h) (
            Post-build {Q = λ _ w'. Built p t w.log w'.log} {F = λ _. Unit {0}} p t w (λ _ b. b)
              (λ _ _. tt)))
          (λ _ w₁ (h₁, built).
            let allowed : Allowed K cluster_id (Effect.update_tunnel_status t) w₁.log =
              (p, w.log, ready, built) in
            Post-bind _ f w₁ (
              Post-request _ _ w₁
                (λ stored s e.
                  (kf stored (TunnelFrom.status_stored x t from same (w₁.state, s, e))).at _
                    (allowed, h₁))
                (λ _. (allowed, h₁))))
          (λ _ (h₁, _). h₁));
  }

  -- A finalizer that goes right after the tear-down.
  pub Keeps-tear_down-release :
      (p : Pod) (t : VpcNatTunnel)
      → IsGatewayPod K t.status.local_gw p
      → TunnelFrom K t
      → Keeps (Lawful K cluster_id) (
          tear_down K p t
          >> (request
                (Effect.update_tunnel (without_finalizer K t))
                (K.update_tunnel (without_finalizer K t))
              >> pure tt))
  Keeps-tear_down-release p t ready known = record {
    at = λ w h. Post-then _ _ w (
        Post-weaken _
          (Post-both _ ((Keeps-tear_down _ p t ready).at w h) (
            Post-tear_down {Q = λ _ w'. TornDown p t w.log w'.log} {F = λ _. Unit {0}} p t w
              (λ _ b. b) (λ _ _. tt)))
          (λ _ w₁ (h₁, torn).
            let allowed : Allowed K cluster_id (Effect.update_tunnel (without_finalizer K t))
                w₁.log =
              (t, known, TunnelWrite.releases p w.log ready torn refl) in
            Post-then _ _ w₁
              (Post-request _ _ w₁ (λ _ _ _. Post-pure tt _ (allowed, h₁)) (λ _. (allowed, h₁))))
          (λ _ (h₁, _). h₁));
  }

  pub Permits-edit :
      (t t' : VpcNatTunnel)
      → TunnelFrom K t
      → Edits t t'
      → Permits (Lawful K cluster_id) (Effect.update_tunnel t')
  Permits-edit t t' known edits =
      permits (Effect.update_tunnel t') (λ l. (t, known, TunnelWrite.edits edits))

  Keeps-bind-complete_status :
      {B : Type 0} (t : VpcNatTunnel) (f : Pod × VpcNatTunnel → M K B)
      → ((p : Pod) (cidr ovn : String) (egress : List String) (internal : String)
          → Describes K cluster_id p (filled t cidr ovn egress internal)
          → Keeps (Lawful K cluster_id) (f (p, filled t cidr ovn egress internal)))
      → Keeps (Lawful K cluster_id) (complete_status K cluster_id t >>= f)
  Keeps-bind-complete_status t f kf = record {
    at = λ w h. Post-bind _ f w (
        Post-complete_status cluster_id t w
          (λ p cidr ovn egress internal w' found e.
            (kf p cidr ovn egress internal found).at w' (subst (Lawful K cluster_id) (sym e) h))
          (λ w' e. subst (Lawful K cluster_id) (sym e) h));
  }

  pub Keeps-initialise :
      (t : VpcNatTunnel) (remote : GatewayExIp)
      → TunnelFrom K t
      → Keeps (Lawful K cluster_id) (initialise K cluster_id t remote)
  unfolding initialise stamp_spec begin_status
  Keeps-initialise t remote from = Keeps-bind-read _ _ (λ local _.
      Keeps-bind-complete_status (begin_status t local remote) _
        (λ p cidr ovn egress internal found.
          Keeps-build-save_status p t _ _ from refl (found.is_gateway_pod) (λ stored known.
            Keeps-then _ _
              (Keeps-request _ _ (
                Permits-edit stored (stamp_spec stored local remote) known (
                  Edits-moved stored remote.spec.external_ip stored.status.internal_ip
                    (index local.metadata.labels "localGateway") _)))
              (Keeps-pure tt))))
