-- ===== src/Informer/Moves.antt =====
-- Moving a VPC to another gateway: the changes that are made, in their order, also where one of the
-- calls fails on the way.
use x_cluster_link.Base.{String, ◌≡◌, refl, ◌∙◌, ap, some, List, [], ◌∷◌, ◌++◌}
use x_cluster_link.Base.GoMap.{GoMap, insert, lookup}
use x_cluster_link.Objects.{Pod, VpcNatTunnel, GatewayExIp, StatefulSet, Vpc}
use x_cluster_link.Kube.{did, Kube, World, Effect, Entry}
use x_cluster_link.Kube.Log.{changes}
use x_cluster_link.Kube.Post.{
  Post, Post-pure, Post-or_panic, Post-request, Post-bind, Post-then, Post-weaken,
}
use x_cluster_link.NatTunnel.Gateway.{get_gw_extern_ip}
use x_cluster_link.NatTunnel.Runs.{IsGatewayPod, Post-get_nat_gw_pod}
use x_cluster_link.NatTunnel.Phases.{Post-or_error}
use x_cluster_link.Informer.Lookup.{gateway_of}
use x_cluster_link.Informer.Switch.{reroute, set_external_ip, update_tunnels, switch_to}

-- The changes of a log, with those of a plan made on top, one after the other.
abbrev pub after : List Effect → List Effect → List Effect
after [] es = es
after (e ∷ plan) es = after plan (e ∷ es)

-- The changes made are those of the plan up to some place.
abbrev pub Partly : List Effect → List Entry → List Entry → Type 0
Partly plan l l' =
    (done : List Effect) × (rest : List Effect) × (plan ≡ done ++ rest)
    × (changes l' ≡ after done (changes l))

-- A change that was made comes first in what was made of a plan; it is none that `changes` skips.
pub Partly-cons :
    (e : Effect) (plan : List Effect) (l l₁ l' : List Entry)
    → changes l₁ ≡ e ∷ changes l
    → Partly plan l₁ l'
    → Partly (e ∷ plan) l l'
Partly-cons e plan l l₁ l' c (done, rest, eq, h) =
    (e ∷ done, rest, ap (λ p. e ∷ p) eq, h ∙ ap (after done) c)

abbrev pub writes : (VpcNatTunnel → VpcNatTunnel) → List VpcNatTunnel → List Effect
writes edit [] = []
writes edit (t ∷ ts) = Effect.update_tunnel (edit t) ∷ writes edit ts

module _ {K : Kube} where
  -- Every tunnel is written, in order; a write that fails is the last.
  pub Post-update_tunnels :
      (edit : VpcNatTunnel → VpcNatTunnel) (ts : List VpcNatTunnel) (w : World K)
      → Post
          (λ _ w'. changes w'.log ≡ after (writes edit ts) (changes w.log))
          (λ w'. Partly (writes edit ts) w.log w'.log)
          (update_tunnels K edit ts w)
  unfolding update_tunnels
  Post-update_tunnels edit [] w = Post-pure tt w refl
  Post-update_tunnels edit (t ∷ ts) w = Post-then _ _ w (
      Post-request _ _ w
        (λ _ s _.
          Post-weaken _ (Post-update_tunnels edit ts _) (λ _ w' h. h)
            (λ w' part.
              Partly-cons _ _ w.log (did (Effect.update_tunnel (edit t)) ∷ w.log) w'.log refl part))
        (λ s. ([], _, refl, refl)))

-- A gateway to move to: its pod, as the cluster listed it, and the pod's external address.
pub record Target (K : Kube) (gw : StatefulSet) (ex_ip : GatewayExIp) : Type 0 where
  pub pod : Pod
  pub is_gateway_pod : IsGatewayPod K (gateway_of gw) pod
  pub ip : String
  pub extern_ip :
      lookup "ovn-vpc-external-network.kube-system.kubernetes.io/ip_address"
        pod.metadata.annotations
      ≡ some ip

-- The GatewayExIp with the gateway's address and name.
abbrev pub moved : GatewayExIp → String → GoMap → GatewayExIp
moved ex_ip ip labels = record (set_external_ip ip ex_ip) {
  metadata = record (ex_ip.metadata) { labels = labels };
}

module _ {K : Kube} {Q : String → World K → Type 0} {F : World K → Type 0} where
  -- The VPC is written first and its GatewayExIp second.
  pub Post-switch_to :
      (gw : StatefulSet) (vpc : Vpc) (ex_ip : GatewayExIp) (w : World K)
      → ((target : Target K gw ex_ip) (labels : GoMap) (w' : World K)
          → insert "localGateway" (gateway_of gw) ex_ip.metadata.labels ≡ some labels
          → changes w'.log
            ≡ Effect.update_ex_ip (moved ex_ip target.ip labels)
              ∷ Effect.update_vpc (reroute gw vpc)
              ∷ changes w.log
          → Q target.ip w')
      → ((w' : World K) → changes w'.log ≡ changes w.log → F w')
      → ((w' : World K)
          → changes w'.log ≡ Effect.update_vpc (reroute gw vpc) ∷ changes w.log
          → F w')
      → Post Q F (switch_to K gw vpc ex_ip w)
  unfolding switch_to get_gw_extern_ip
  Post-switch_to gw vpc ex_ip w q f g = Post-bind _ _ w (
      Post-get_nat_gw_pod _ w
        (λ pod w₁ found l₁. Post-bind _ _ w₁ (
          Post-or_error _ _ w₁
            (λ ip is_ip. Post-then _ _ w₁ (
              Post-request _ _ w₁
                (λ _ s₂ _. Post-bind _ _ _ (
                  Post-or_panic _ _
                    (λ labels e. Post-then _ _ _ (
                      Post-request _ _ _
                        (λ _ s₃ _. Post-pure ip _ (
                          q
                            (record {
                              pod = pod;
                              is_gateway_pod = found;
                              ip = ip;
                              extern_ip = is_ip;
                            })
                            labels _ e
                            (ap
                              (λ l.
                                Effect.update_ex_ip (moved ex_ip ip labels)
                                ∷ Effect.update_vpc (reroute gw vpc)
                                ∷ changes l)
                              l₁)))
                        (λ s₃. g _ (ap (λ l. Effect.update_vpc (reroute gw vpc) ∷ changes l) l₁))))
                    (λ _. g _ (ap (λ l. Effect.update_vpc (reroute gw vpc) ∷ changes l) l₁))))
                (λ s₂. f _ (ap changes l₁))))
            (f w₁ (ap changes l₁))))
        (λ w₁ l₁. f w₁ (ap changes l₁)))
