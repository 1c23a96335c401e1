-- ===== src/System/Following.antt =====
-- What the reconciler makes of the changes that the informer and the syncer write into a tunnel.
use x_cluster_link.Base.{
  String, ◌≡◌, ◌≢◌, refl, sym, ap, subst, ◌∙◌, ◌⊎◌, inl, inr, Bool, true, false, none, List, ◌∷◌,
  contains_string, arith, ==-eq_false, ==-refl,
}
use x_cluster_link.Objects.{ObjectKey, Pod, VpcNatTunnel, GatewayExIp}
use x_cluster_link.Kube.{Kube, World, Effect, Entry, did, answer}
use x_cluster_link.Kube.Post.{Post, Post-weaken}
use x_cluster_link.Tunnel.{create_tunnel_operation}
use x_cluster_link.NatTunnel.Routes.{gen_del_globalnet_route, gen_delete_tunnel_cmd}
use x_cluster_link.NatTunnel.Runs.{IsGatewayPod}
use x_cluster_link.NatTunnel.Phases.{Built}
use x_cluster_link.NatTunnel.Deletion.{TornDown}
use x_cluster_link.NatTunnel.Setup.{keeps_gateway, has_no_addresses, next_status, move_gateway}
use x_cluster_link.NatTunnel.Handlers.{finalizer, reconcile}
use x_cluster_link.NatTunnel.Convergence.{IsInSync}
use x_cluster_link.NatTunnel.Updating.{Retired, Updated, Stopped, retargeted}
use x_cluster_link.NatTunnel.Settled.{remote_key, reconcile-Rebuilt}
use x_cluster_link.Informer.Switch.{set_gateway}
use x_cluster_link.Syncer.Handlers.{set_remote_ip}

-- The tunnel at another gateway, with the status that goes with it.
abbrev pub at_gateway : String → String → VpcNatTunnel → VpcNatTunnel
at_gateway ip gw t = record (set_gateway ip gw t) {
  status = record (t.status) { local_gw = gw; internal_ip = ip };
}

-- The tunnel to another address of the peer.
abbrev pub to_remote : String → VpcNatTunnel → VpcNatTunnel
to_remote ip t = record (set_remote_ip ip t) { status = record (t.status) { remote_ip = ip } }

module _ (K : Kube) where
  -- In a pod of the gateway in the status of `t`, after `torn`, the tunnel was built and its status
  -- saved; a write of labels may follow.
  abbrev pub BuiltAs : Pod → VpcNatTunnel → List Entry → World K → Type 0
  BuiltAs pod t torn w' =
      (before : List Entry) × Built pod t torn before
      × ((w'.log ≡ did (Effect.update_tunnel_status t) ∷ before)
          ⊎ ((t' : VpcNatTunnel) × (w'.log
                ≡ did (Effect.update_tunnel t') ∷ did (Effect.update_tunnel_status t) ∷ before)))

  module _ (t : VpcNatTunnel) (remote : GatewayExIp) (sync : IsInSync t remote) where
    -- The fields of the status that a tunnel in sync has from its spec and its peer.
    settled :
        (f : String → String → String → VpcNatTunnel)
        → f t.spec.remote_ip remote.spec.global_net_cidr t.spec.interface_addr
          ≡ f t.status.remote_ip t.status.remote_globalnet_cidr t.status.interface_addr
    settled f =
        ap (λ a. f a remote.spec.global_net_cidr t.spec.interface_addr) (sym (sync.remote_ip))
        ∙ ap (λ b. f t.status.remote_ip b t.spec.interface_addr) (sym (sync.remote_cidr))
        ∙ ap (f t.status.remote_ip t.status.remote_globalnet_cidr) (sym (sync.interface_addr))

    retargeted-set_gateway :
        (ip gw : String)
        → keeps_gateway (set_gateway ip gw t) ≡ false
        → retargeted (set_gateway ip gw t) remote ≡ at_gateway ip gw t
    unfolding next_status
    retargeted-set_gateway ip gw moves =
        ap (λ b. next_status (elim b [ true ↦ u | false ↦ move_gateway u ]) remote) moves
        ∙ settled (λ a b c. record u {
          status = record (t.status) {
            local_gw = gw;
            internal_ip = ip;
            remote_ip = a;
            remote_globalnet_cidr = b;
            interface_addr = c;
          };
        })
      where
        u : VpcNatTunnel
        u = set_gateway ip gw t

    retargeted-set_remote_ip :
        (ip : String)
        → keeps_gateway (set_remote_ip ip t) ≡ true
        → retargeted (set_remote_ip ip t) remote ≡ to_remote ip t
    unfolding next_status
    retargeted-set_remote_ip ip keeps =
        ap (λ b. next_status (elim b [ true ↦ u | false ↦ move_gateway u ]) remote) keeps
        ∙ ap
            (λ a. record u {
              status = record (t.status) {
                remote_ip = ip;
                remote_globalnet_cidr = remote.spec.global_net_cidr;
                internal_ip = a;
                interface_addr = t.spec.interface_addr;
              };
            })
            (sym (sync.internal_ip))
        ∙ settled (λ _ b c. record u {
          status = record (t.status) {
            remote_ip = ip;
            remote_globalnet_cidr = b;
            interface_addr = c;
          };
        })
      where
        u : VpcNatTunnel
        u = set_remote_ip ip t

  -- What is known of an update that returned, with the status and the retirement in other words.
  pub Updated-BuiltAs :
      (u u' : VpcNatTunnel) (remote : GatewayExIp) (b : Bool) (w w' : World K)
      → retargeted u remote ≡ u'
      → keeps_gateway u ≡ b
      → Updated K u remote w w'
      → (pod : Pod) × (torn : List Entry) × IsGatewayPod K u.spec.local_gw pod
        × Retired b pod u w.log torn
        × BuiltAs pod u' torn w'
  Updated-BuiltAs u u' remote b w w' status kept (inl r) = (
    r.pod,
    r.torn,
    r.is_gateway_pod,
    subst (λ b. Retired b r.pod u w.log r.torn) kept r.retired,
    (
      r.before,
      subst (λ u'. Built r.pod u' r.torn r.before) status r.runs,
      inl (r.saved ∙ ap (λ u'. did (Effect.update_tunnel_status u') ∷ r.before) status),
    ),
  )
  Updated-BuiltAs u u' remote b w w' status kept (inr (l, t', r, e)) = (
    r.pod,
    r.torn,
    r.is_gateway_pod,
    subst (λ b. Retired b r.pod u w.log r.torn) kept r.retired,
    (
      r.before,
      subst (λ u'. Built r.pod u' r.torn r.before) status r.runs,
      inr (
        t',
        e
            ∙ ap (λ l. did (Effect.update_tunnel t') ∷ l)
                (r.saved ∙ ap (λ u'. did (Effect.update_tunnel_status u') ∷ r.before) status),
      ),
    ),
  )

module _ (K : Kube) (cluster_id : String) (key : ObjectKey) (t : VpcNatTunnel)
    (remote : GatewayExIp) (w : World K) (s s' : K.State) (ip : String) (sync : IsInSync t remote)
    (live : t.metadata.deletion_timestamp ≡ none)
    (held : contains_string t.metadata.finalizers finalizer ≡ true)
    (built : t.status.initialized ≡ true)
    (peer : K.get_ex_ip (remote_key t) s ≡ (answer remote, s')) where
  -- A tunnel that was in sync, after the informer has given it another gateway with its address: if
  -- the reconciler returns, then in the pod of the new gateway, and with no command before that, it
  -- has built the tunnel and then saved the old status with the new gateway and address; the old
  -- gateway is not touched. If it ends with an error or a panic, no object was changed, or only the
  -- status, after the build.
  pub reconcile-set_gateway :
      (gw : String)
      → K.get_tunnel key w.state ≡ (answer (set_gateway ip gw t), s)
      → t.status.local_gw ≢ gw
      → gw ≢ ""
      → Post
          (λ _ w'.
            (pod : Pod) × IsGatewayPod K gw pod × BuiltAs K pod (at_gateway ip gw t) w.log w')
          (Stopped K (set_gateway ip gw t) remote (record w { state = s' }))
          (reconcile K cluster_id key w)
  unfolding keeps_gateway has_no_addresses
  reconcile-set_gateway gw found moved named =
      Post-weaken _
        (reconcile-Rebuilt K cluster_id key (set_gateway ip gw t) remote w s s' found live held peer
          built sync.tunnel_type (ground (arith, ==-eq_false gw "" named))
          (λ h. moved h.local_gw)).0
        (λ _ w' updated.
          let (pod, torn, ready, untouched, b) =
            Updated-BuiltAs K (set_gateway ip gw t) (at_gateway ip gw t) remote false
              (record w { state = s' }) w' (retargeted-set_gateway K t remote sync ip gw leaves)
              leaves updated in
          (pod, ready, subst (λ l. BuiltAs K pod (at_gateway ip gw t) l w') untouched b))
        (λ _ h. h)
    where
      leaves : keeps_gateway (set_gateway ip gw t) ≡ false
      leaves = ground (arith, ==-eq_false t.status.local_gw gw moved)

  -- A tunnel that was in sync, after the syncer has given it another address of its peer: if the
  -- reconciler returns, then in the pod of the tunnel's gateway it has torn the old tunnel down, built
  -- it to the new address, and then saved the old status with the new address, in this order. If it
  -- ends with an error or a panic, no object was changed, or only the status, after the build.
  pub reconcile-set_remote_ip :
      K.get_tunnel key w.state ≡ (answer (set_remote_ip ip t), s)
      → t.status.remote_ip ≢ ip
      → t.status.local_gw ≢ ""
      → Post
          (λ _ w'.
            (pod : Pod) × (torn : List Entry) × IsGatewayPod K t.status.local_gw pod
            × TornDown pod t w.log torn
            × BuiltAs K pod (to_remote ip t) torn w')
          (Stopped K (set_remote_ip ip t) remote (record w { state = s' }))
          (reconcile K cluster_id key w)
  unfolding keeps_gateway has_no_addresses gen_del_globalnet_route gen_delete_tunnel_cmd
      create_tunnel_operation
  reconcile-set_remote_ip found moved named =
      Post-weaken _
        (reconcile-Rebuilt K cluster_id key (set_remote_ip ip t) remote w s s' found live held peer
          built sync.tunnel_type
          (ground (arith, ==-eq_false t.spec.local_gw "" (λ e. named (sync.local_gw ∙ e))))
          (λ h. moved h.remote_ip)).0
        (λ _ w' updated.
          let (pod, torn, ready, torn_down, b) =
            Updated-BuiltAs K (set_remote_ip ip t) (to_remote ip t) remote true
              (record w { state = s' }) w' (retargeted-set_remote_ip K t remote sync ip stays) stays
              updated in
          (pod, torn, subst (λ gw. IsGatewayPod K gw pod) (sym sync.local_gw) ready, torn_down, b))
        (λ _ h. h)
    where
      stays : keeps_gateway (set_remote_ip ip t) ≡ true
      stays =
          rw (sync.local_gw, sync.internal_ip, ==-refl t.spec.local_gw, ==-refl t.spec.internal_ip)
            refl
