-- ===== src/NatTunnel/Creation.antt =====
-- The first build of a tunnel: its order, and that it leaves nothing to update.
use x_cluster_link.Base.{String, ◌≡◌, refl, ◌⊎◌, inl, inr, ◌∙◌, ap, true, List, ◌∷◌}
use x_cluster_link.Base.GoMap.{index}
use x_cluster_link.Objects.{Pod, VpcNatTunnel, GatewayExIp}
use x_cluster_link.Kube.{Kube, World, Effect, Entry, did, failed, answer}
use x_cluster_link.Kube.Log.{changes}
use x_cluster_link.Kube.Post.{Post, Post-pure, Post-read, Post-request, Post-bind, Post-then}
use x_cluster_link.NatTunnel.Setup.{ex_ip_key, begin_status, stamp_spec, initialise}
use x_cluster_link.NatTunnel.Phases.{Built, Post-build, Describes, Post-complete_status, filled}

-- What the first status holds: the addresses of the remote GatewayExIp, and what the spec says.
pub record IsFirst (t t' : VpcNatTunnel) (local remote : GatewayExIp) : Type 0 where
  pub same_metadata : t'.metadata ≡ t.metadata
  pub same_spec : t'.spec ≡ t.spec
  pub initialized : t'.status.initialized ≡ true
  pub local_gw : t'.status.local_gw ≡ index local.metadata.labels "localGateway"
  pub remote_ip : t'.status.remote_ip ≡ remote.spec.external_ip
  pub remote_cidr : t'.status.remote_globalnet_cidr ≡ remote.spec.global_net_cidr
  pub interface_addr : t'.status.interface_addr ≡ t.spec.interface_addr
  pub tunnel_type : t'.status.tunnel_type ≡ t.spec.tunnel_type

filled-IsFirst :
    (t : VpcNatTunnel) (local remote : GatewayExIp) (cidr ovn : String) (egress : List String)
    (internal : String)
    → IsFirst t (filled (begin_status t local remote) cidr ovn egress internal) local remote
unfolding begin_status
filled-IsFirst t local remote cidr ovn egress internal = record {
  same_metadata = refl;
  same_spec = refl;
  initialized = refl;
  local_gw = refl;
  remote_ip = refl;
  remote_cidr = refl;
  interface_addr = refl;
  tunnel_type = refl;
}

module _ (K : Kube) (cluster_id : String) (t : VpcNatTunnel) (remote : GatewayExIp)
    (w : World K) where
  -- The local GatewayExIp is the one that the cluster answered for the tunnel's own VPC in this
  -- cluster, and the status was saved after the tunnel that it describes was built.
  pub record StatusSaved (local : GatewayExIp) (l : List Entry) : Type 0 where
    pub local_found :
        (s : K.State) × (K.get_ex_ip (ex_ip_key t.spec.local_vpc cluster_id) w.state
          ≡ (answer local, s))
    pub pod : Pod
    pub built : VpcNatTunnel
    pub before : List Entry
    pub describes : Describes K cluster_id pod built
    pub is_first : IsFirst t built local remote
    pub runs : Built pod built w.log before
    pub saved : l ≡ did (Effect.update_tunnel_status built) ∷ before

  -- After that the server's answer was saved with the spec and the labels stamped.
  pub record Initialised (w' : World K) : Type 0 where
    pub local : GatewayExIp
    pub stored : VpcNatTunnel
    pub before : List Entry
    pub status_saved : StatusSaved local before
    pub at : K.State
    pub after : K.State
    pub answered : K.update_tunnel_status (status_saved.built) at ≡ (answer stored, after)
    pub stamped : w'.log ≡ did (Effect.update_tunnel (stamp_spec stored local remote)) ∷ before

  abbrev pub Unfinished : World K → Type 0
  Unfinished w' =
      (changes w'.log ≡ changes w.log)
      ⊎ ((local : GatewayExIp) × (l : List Entry) × StatusSaved local l
          × (e : Effect) × (w'.log ≡ failed e ∷ l))

  -- A first build, in any cluster: if it returns, then the cluster has answered the GatewayExIp of
  -- the tunnel's local VPC in this cluster, and in the one running pod of the gateway that it names the
  -- tunnel and after it its routes were built, without an error, after that a status was saved that
  -- describes the build, and last the server's answer with the spec and the labels stamped. If it ends
  -- with an error or a panic, either no object was changed, or the status was saved after the build
  -- and the last write was refused.
  pub initialise-Initialised :
      Post (λ _. Initialised) Unfinished (initialise K cluster_id t remote w)
  unfolding initialise
  initialise-Initialised = Post-bind _ _ w (
      Post-read _ w
        (λ local s₁ found_local. Post-bind _ _ _ (
          Post-complete_status cluster_id (begin_status t local remote) _
            (λ pod cidr ovn egress internal w₂ found l₂.
              let built = filled (begin_status t local remote) cidr ovn egress internal in
              Post-then _ _ w₂ (
                Post-build pod built w₂
                  (λ w₃ (route, e, l₃).
                    let saved : StatusSaved local
                        (did (Effect.update_tunnel_status built) ∷ w₃.log) =
                      record {
                        local_found = (s₁, found_local);
                        pod = pod;
                        built = built;
                        before = w₃.log;
                        describes = found;
                        is_first = filled-IsFirst t local remote cidr ovn egress internal;
                        runs = (route, e, cc);
                        saved = refl;
                      } in
                    Post-bind _ _ w₃ (
                      Post-request _ _ w₃
                        (λ stored s₄ answered. Post-then _ _ _ (
                          Post-request _ _ _
                            (λ _ s₅ _. Post-pure tt _ (record {
                              local = local;
                              stored = stored;
                              before = did (Effect.update_tunnel_status built) ∷ w₃.log;
                              status_saved = saved;
                              at = w₃.state;
                              after = s₄;
                              answered = answered;
                              stamped = refl;
                            }))
                            (λ s₅. inr (local, _, saved, _, refl))))
                        (λ s₄. inl (ap changes l₃ ∙ ap changes l₂))))
                  (λ w₃ c₃. inl (c₃ ∙ ap changes l₂))))
            (λ w₂ l₂. inl (ap changes l₂))))
        (λ s₁. inl refl))
