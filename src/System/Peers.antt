-- ===== src/System/Peers.antt =====
-- What the reconciler makes of a tunnel whose owner has named another peer in its spec.
use x_cluster_link.Base.{
  String, ◌≡◌, ◌≢◌, refl, sym, ap, subst, ◌∙◌, true, false, none, List, contains_string, arith,
  ==-eq_false, ==-refl,
}
use x_cluster_link.Objects.{ObjectKey, Pod, VpcNatTunnel, GatewayExIp}
use x_cluster_link.Kube.{Kube, World, Entry, answer}
use x_cluster_link.Kube.Post.{Post, Post-weaken}
use x_cluster_link.Tunnel.{create_tunnel_operation}
use x_cluster_link.NatTunnel.Routes.{gen_del_globalnet_route, gen_delete_tunnel_cmd}
use x_cluster_link.NatTunnel.Runs.{IsGatewayPod}
use x_cluster_link.NatTunnel.Deletion.{TornDown}
use x_cluster_link.NatTunnel.Setup.{keeps_gateway, has_no_addresses, next_status, move_gateway}
use x_cluster_link.NatTunnel.Handlers.{finalizer, reconcile}
use x_cluster_link.NatTunnel.Convergence.{IsInSync}
use x_cluster_link.NatTunnel.Updating.{Stopped, retargeted}
use x_cluster_link.NatTunnel.Settled.{remote_key, reconcile-Rebuilt}
use x_cluster_link.System.Following.{BuiltAs, Updated-BuiltAs}

-- The peer that the spec names.
abbrev pub set_peer : String → String → VpcNatTunnel → VpcNatTunnel
set_peer vpc cluster t = record t {
  spec = record (t.spec) { remote_vpc = vpc; remote_cluster = cluster };
}

-- The tunnel to the new peer, as its status then says: with the new peer's addresses inside the
-- tunnel, and the outer address of the old one.
abbrev pub half_moved : String → String → GatewayExIp → VpcNatTunnel → VpcNatTunnel
half_moved vpc cluster remote t = record (set_peer vpc cluster t) {
  status = record (t.status) { remote_globalnet_cidr = remote.spec.global_net_cidr };
}

retargeted-set_peer :
    (t : VpcNatTunnel) (old remote : GatewayExIp) (vpc cluster : String)
    → IsInSync t old
    → keeps_gateway (set_peer vpc cluster t) ≡ true
    → retargeted (set_peer vpc cluster t) remote ≡ half_moved vpc cluster remote t
unfolding next_status
retargeted-set_peer t old remote vpc cluster sync keeps =
    ap (λ b. next_status (elim b [ true ↦ u | false ↦ move_gateway u ]) remote) keeps
    ∙ ap (λ a. with_addresses a t.spec.internal_ip t.spec.interface_addr) (sym (sync.remote_ip))
    ∙ ap (λ b. with_addresses t.status.remote_ip b t.spec.interface_addr) (sym (sync.internal_ip))
    ∙ ap (with_addresses t.status.remote_ip t.status.internal_ip) (sym (sync.interface_addr))
  where
    u : VpcNatTunnel
    u = set_peer vpc cluster t

    with_addresses : String → String → String → VpcNatTunnel
    with_addresses a b c = record u {
      status = record (t.status) {
        remote_ip = a;
        remote_globalnet_cidr = remote.spec.global_net_cidr;
        internal_ip = b;
        interface_addr = c;
      };
    }

-- A tunnel that was in sync with its peer, after its owner has named another peer, of another
-- network, in the spec: if the reconciler returns, then it has torn the old tunnel down, and has
-- built and saved one whose routes lead to the new peer's network but whose remote address is still
-- the old peer's, whatever address the new peer's GatewayExIp has. If it ends with an error or a
-- panic, no object was changed, or only the status, after the build.
pub reconcile-set_peer :
    (K : Kube) (cluster_id : String) (key : ObjectKey) (t : VpcNatTunnel) (old remote : GatewayExIp)
    (w : World K) (s s' : K.State) (vpc cluster : String)
    → IsInSync t old
    → t.metadata.deletion_timestamp ≡ none
    → contains_string t.metadata.finalizers finalizer ≡ true
    → t.status.initialized ≡ true
    → K.get_tunnel key w.state ≡ (answer (set_peer vpc cluster t), s)
    → K.get_ex_ip (remote_key (set_peer vpc cluster t)) s ≡ (answer remote, s')
    → old.spec.global_net_cidr ≢ remote.spec.global_net_cidr
    → t.status.local_gw ≢ ""
    → Post
        (λ _ w'.
          (pod : Pod) × (torn : List Entry) × IsGatewayPod K t.status.local_gw pod
          × TornDown pod t w.log torn
          × BuiltAs K pod (half_moved vpc cluster remote t) torn w')
        (Stopped K (set_peer vpc cluster t) remote (record w { state = s' }))
        (reconcile K cluster_id key w)
unfolding keeps_gateway has_no_addresses gen_del_globalnet_route gen_delete_tunnel_cmd
    create_tunnel_operation
reconcile-set_peer K cluster_id key t old remote w s s' vpc cluster sync live held built found peer
      other named =
    Post-weaken _
      (reconcile-Rebuilt K cluster_id key (set_peer vpc cluster t) remote w s s' found live held
        peer built sync.tunnel_type
        (ground (arith, ==-eq_false t.spec.local_gw "" (λ e. named (sync.local_gw ∙ e))))
        (λ h. other (sym (sync.remote_cidr) ∙ h.remote_cidr))).0
      (λ _ w' updated.
        let (pod, torn, ready, torn_down, b) =
          Updated-BuiltAs K (set_peer vpc cluster t) (half_moved vpc cluster remote t) remote true
            (record w { state = s' }) w' (retargeted-set_peer t old remote vpc cluster sync stays)
            stays updated in
        (pod, torn, subst (λ gw. IsGatewayPod K gw pod) (sym sync.local_gw) ready, torn_down, b))
      (λ _ h. h)
  where
    stays : keeps_gateway (set_peer vpc cluster t) ≡ true
    stays =
        rw (sync.local_gw, sync.internal_ip, ==-refl t.spec.local_gw, ==-refl t.spec.internal_ip)
          refl
