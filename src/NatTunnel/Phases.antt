-- ===== src/NatTunnel/Phases.antt =====
-- Rules for the phases that both branches of handleCreateOrUpdate share: a tunnel and its routes
-- are built, addresses are looked up.
use x_cluster_link.Base.{String, ◌≡◌, refl, ◌∙◌, ap, Option, none, some, List, ◌∷◌}
use x_cluster_link.Base.GoMap.{lookup}
use x_cluster_link.Objects.{Pod, VpcNatTunnel, Cluster, ClusterGlobalEgressIp}
use x_cluster_link.Kube.{Kube, World, Entry, did, answer}
use x_cluster_link.Kube.Log.{changes}
use x_cluster_link.Kube.Post.{
  Post, Post-pure, Post-throw, Post-or_panic, Post-read, Post-bind, Post-then,
}
use x_cluster_link.NatTunnel.Gateway.{
  get_globalnet_cidr, get_global_egress_ip, get_gw_extern_ip, get_ovn_gw_ip, or_error, head?,
  cluster_key, egress_key,
}
use x_cluster_link.NatTunnel.Routes.{gen_globalnet_route, gen_create_tunnel_cmd}
use x_cluster_link.NatTunnel.Setup.{build, complete_status}
use x_cluster_link.NatTunnel.Runs.{command_in, IsGatewayPod, Post-run_in, Post-get_nat_gw_pod}
use x_cluster_link.NatTunnel.Deletion.{changes-Tried}

-- The log once the tunnel and then its routes have been built in the pod.
abbrev pub Built : Pod → VpcNatTunnel → List Entry → List Entry → Type 0
Built pod t l l' =
    (route : String) × (gen_globalnet_route t ≡ some route)
    × (l' ≡ did (command_in pod route) ∷ did (command_in pod (gen_create_tunnel_cmd t)) ∷ l)

module _ {K : Kube} {Q : Unit {0} → World K → Type 0} {F : World K → Type 0} where
  pub Post-build :
      (pod : Pod) (t : VpcNatTunnel) (w : World K)
      → ((w' : World K) → Built pod t w.log w'.log → Q tt w')
      → ((w' : World K) → changes w'.log ≡ changes w.log → F w')
      → Post Q F (build K pod t w)
  unfolding build
  Post-build pod t w q f = Post-then _ _ w (
      Post-run_in pod _ w
        (λ w₁ l₁. Post-bind _ _ w₁ (
          Post-or_panic _ w₁
            (λ route e.
              Post-run_in pod route w₁ (λ w₂ l₂. q w₂ (route, e, cc))
                (λ w₂ l₂. f w₂ (changes-Tried pod _ _ _ l₂ ∙ ap changes l₁)))
            (λ _. f w₁ (ap changes l₁))))
        (λ w₁ l₁. f w₁ (changes-Tried pod _ _ _ l₁)))

module _ {K : Kube} {Q : String → World K → Type 0} {F : World K → Type 0} where
  pub Post-or_error :
      (o : Option String) (message : String) (w : World K)
      → ((v : String) → o ≡ some v → Q v w)
      → F w
      → Post Q F (or_error K o message w)
  Post-or_error none message w q f = Post-throw _ w f
  Post-or_error (some v) message w q f = Post-pure v w (q v refl)

-- What a first build finds out about its gateway's pod.
pub record Describes (K : Kube) (cluster_id : String) (pod : Pod) (t : VpcNatTunnel) : Type 0 where
  pub is_gateway_pod : IsGatewayPod K t.status.local_gw pod
  pub gateway_ip :
      lookup "ovn.kubernetes.io/gateway" pod.metadata.annotations ≡ some t.status.ovn_gw_ip
  pub extern_ip :
      lookup "ovn-vpc-external-network.kube-system.kubernetes.io/ip_address"
        pod.metadata.annotations
      ≡ some t.status.internal_ip
  -- The first global address range of this cluster, as the cluster answered it.
  pub cidr :
      (s : K.State) × (s' : K.State) × (cluster : Cluster) × (K.get_cluster
          (cluster_key cluster_id)
          s
        ≡ (answer cluster, s'))
      × (head? cluster.global_cidr ≡ some t.status.globalnet_cidr)
  -- The egress addresses that the cluster answered.
  pub egress :
      (s : K.State) × (s' : K.State) × (e : ClusterGlobalEgressIp) × (K.get_global_egress_ip
          egress_key s
        ≡ (answer e, s'))
      × (e.allocated_ips ≡ t.status.global_egress_ip)

-- The fields that the lookups in the cluster fill.
abbrev pub filled : VpcNatTunnel → String → String → List String → String → VpcNatTunnel
filled t cidr ovn egress internal = record t {
  status = record (t.status) {
    globalnet_cidr = cidr;
    ovn_gw_ip = ovn;
    global_egress_ip = egress;
    internal_ip = internal;
  };
}

module _ {K : Kube} {Q : Pod × VpcNatTunnel → World K → Type 0} {F : World K → Type 0} where
  pub Post-complete_status :
      (cluster_id : String) (t : VpcNatTunnel) (w : World K)
      → ((pod : Pod) (cidr ovn : String) (egress : List String) (internal : String) (w' : World K)
          → Describes K cluster_id pod (filled t cidr ovn egress internal)
          → w'.log ≡ w.log
          → Q (pod, filled t cidr ovn egress internal) w')
      → ((w' : World K) → w'.log ≡ w.log → F w')
      → Post Q F (complete_status K cluster_id t w)
  unfolding complete_status get_globalnet_cidr get_global_egress_ip get_ovn_gw_ip get_gw_extern_ip
  Post-complete_status cluster_id t w q f = Post-bind _ _ w (
      Post-get_nat_gw_pod _ w
        (λ pod w₁ found l₁. Post-bind _ _ w₁ (
          Post-bind _ _ w₁ (
            Post-read _ w₁
              (λ cluster s₂ is_cluster.
                Post-or_panic _ _
                  (λ cidr is_cidr. Post-bind _ _ _ (
                    Post-or_error _ _ _
                      (λ ovn is_ovn. Post-bind _ _ _ (
                        Post-bind _ _ _ (
                          Post-read _ _
                            (λ egress s₃ is_egress. Post-pure _ _ (
                              Post-bind _ _ _ (
                                Post-or_error _ _ _
                                  (λ internal is_internal. Post-pure _ _ (
                                    q pod cidr ovn _ internal _
                                      (record {
                                        is_gateway_pod = found;
                                        gateway_ip = is_ovn;
                                        extern_ip = is_internal;
                                        cidr = (w₁.state, s₂, cluster, is_cluster, is_cidr);
                                        egress = (s₂, s₃, egress, is_egress, refl);
                                      })
                                      l₁))
                                  (f _ l₁))))
                            (λ s₃. f _ l₁))))
                      (f _ l₁)))
                  (λ _. f _ l₁))
              (λ s₂. f _ l₁))))
        (λ w₁ l₁. f w₁ l₁))
