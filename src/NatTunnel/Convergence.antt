-- ===== src/NatTunnel/Convergence.antt =====
-- A build leaves a tunnel that the next reconciliation leaves alone.
use x_cluster_link.Base.{
  String, ◌≡◌, refl, ◌∙◌, ap, true, false, List, ◌∷◌, arith, ==-refl, ==_iff_eq, ◌↔◌, sym, ◌==◌,
  not,
}
use x_cluster_link.Objects.{VpcNatTunnel, GatewayExIp}
use x_cluster_link.Kube.{Kube, World, Effect, Entry, did, answer}
use x_cluster_link.Kube.Post.{Post, Post-weaken}
use x_cluster_link.NatTunnel.Setup.{stamp_spec, initialise, is_outdated}
use x_cluster_link.NatTunnel.Creation.{IsFirst, Unfinished, initialise-Initialised}

-- A spec and a status that agree with each other and with the remote GatewayExIp.
pub record IsInSync (t : VpcNatTunnel) (remote : GatewayExIp) : Type 0 where
  pub remote_ip : t.status.remote_ip ≡ t.spec.remote_ip
  pub internal_ip : t.status.internal_ip ≡ t.spec.internal_ip
  pub interface_addr : t.status.interface_addr ≡ t.spec.interface_addr
  pub local_gw : t.status.local_gw ≡ t.spec.local_gw
  pub remote_cidr : t.status.remote_globalnet_cidr ≡ remote.spec.global_net_cidr
  pub tunnel_type : t.status.tunnel_type ≡ t.spec.tunnel_type

pub same_text : (s t : String) → s ≡ t → not (s == t) ≡ false
same_text s t e = rw (e, ==-refl t)

not_outdated :
    (t : VpcNatTunnel) (remote : GatewayExIp) → IsInSync t remote → is_outdated t remote ≡ false
unfolding is_outdated
not_outdated t remote h =
    rw
      (
        same_text _ _ h.remote_ip,
        same_text _ _ h.internal_ip,
        same_text _ _ h.interface_addr,
        same_text _ _ h.local_gw,
        same_text _ _ h.remote_cidr,
        same_text _ _ h.tunnel_type,
      )
      refl

-- The test of handleCreateOrUpdate passes exactly on the tunnels that are not in sync.
pub is_outdated-IsInSync :
    (t : VpcNatTunnel) (remote : GatewayExIp) → (is_outdated t remote ≡ false) ↔ IsInSync t remote
unfolding is_outdated
is_outdated-IsInSync t remote = (
  (λ h. record {
    remote_ip = ==_iff_eq _ _ (ground arith);
    internal_ip = ==_iff_eq _ _ (ground arith);
    interface_addr = ==_iff_eq _ _ (ground arith);
    local_gw = ==_iff_eq _ _ (ground arith);
    remote_cidr = ==_iff_eq _ _ (ground arith);
    tunnel_type = ==_iff_eq _ _ (ground arith);
  }),
  not_outdated t remote,
)

-- The server's answer to an accepted status update of `t`: it holds the status that was sent, and the
-- spec that the server has stored, whatever spec was sent. That is the spec of `t` as it was read: a
-- write over an object that has changed since it was read is refused.
pub record AnswersStatus (K : Kube) (t : VpcNatTunnel) : Type 0 where
  pub same_status :
      (x stored : VpcNatTunnel) (s s' : K.State)
      → x.metadata ≡ t.metadata
      → K.update_tunnel_status x s ≡ (answer stored, s')
      → stored.status ≡ x.status
  pub stored_spec :
      (x stored : VpcNatTunnel) (s s' : K.State)
      → x.metadata ≡ t.metadata
      → K.update_tunnel_status x s ≡ (answer stored, s')
      → stored.spec ≡ t.spec

stamp-IsInSync :
    (t t' stored : VpcNatTunnel) (local remote : GatewayExIp)
    → IsFirst t t' local remote
    → stored.status ≡ t'.status
    → stored.spec ≡ t.spec
    → IsInSync (stamp_spec stored local remote) remote
unfolding stamp_spec
stamp-IsInSync t t' stored local remote h e f = record {
  remote_ip = ap (λ s. s.remote_ip) e ∙ h.remote_ip;
  internal_ip = refl;
  interface_addr =
      ap (λ s. s.interface_addr) e ∙ h.interface_addr ∙ sym (ap (λ s. s.interface_addr) f);
  local_gw = ap (λ s. s.local_gw) e ∙ h.local_gw;
  remote_cidr = ap (λ s. s.remote_globalnet_cidr) e ∙ h.remote_cidr;
  tunnel_type = ap (λ s. s.tunnel_type) e ∙ h.tunnel_type ∙ sym (ap (λ s. s.tunnel_type) f);
}

module _ (K : Kube) (cluster_id : String) (t : VpcNatTunnel) (remote : GatewayExIp)
    (w : World K) where
  -- The last thing that was saved is a built tunnel in sync.
  abbrev pub SavedInSync : World K → Type 0
  SavedInSync w' =
      (t' : VpcNatTunnel) × (l : List Entry) × (w'.log ≡ did (Effect.update_tunnel t') ∷ l)
      × (t'.status.initialized ≡ true)
      × IsInSync t' remote
      × (is_outdated t' remote ≡ false)

  -- In a cluster that answers a status update of the tunnel with the status that was sent and with the
  -- spec that it has stored, the tunnel's as it was read, the last thing that a first build saves, if
  -- it returns, is a tunnel that is marked as initialized and in sync, and in which the test of the
  -- update finds nothing out of date. If it ends with an error or a panic, either no object was changed,
  -- or the status was saved after the build and the last write was refused.
  pub initialise-converges :
      AnswersStatus K t
      → Post
          (λ _. SavedInSync)
          (Unfinished K cluster_id t remote w)
          (initialise K cluster_id t remote w)
  unfolding stamp_spec
  initialise-converges echo =
      Post-weaken _ (initialise-Initialised K cluster_id t remote w)
        (λ _ w' h.
          let saved = h.status_saved in
          let same = saved.is_first.same_metadata in
          let e = echo.same_status _ _ _ _ same h.answered in
          let sync =
            stamp-IsInSync t saved.built h.stored h.local remote saved.is_first e
              (echo.stored_spec _ _ _ _ same h.answered) in
          (
            stamp_spec h.stored h.local remote,
            h.before,
            h.stamped,
            ap (λ s. s.initialized) e ∙ saved.is_first.initialized,
            sync,
            not_outdated _ remote sync,
          ))
        (λ w' h. h)
