-- ===== src/Tests/Following.antt =====
-- Tunnels of the demo cluster that the informer and the syncer have changed, and the bounds of a run.
use x_cluster_link.Base.{
  none, some, ◌⊎◌, ◌∷◌, differs, String, ℕ, ◌≡◌, refl, subst, ap, ◌+◌, ◌≤◌, arith, List, [],
  contains_string, ◌==◌,
}
use x_cluster_link.Base.GoMap.{Entries, GoMap}
use x_cluster_link.Objects.{ObjectKey, Pod, VpcNatTunnel, GatewayExIp}
use x_cluster_link.Kube.{Kube, World, Entry, Effect, did, failed, Reply, answer, refuse}
use x_cluster_link.Kube.Post.{Post}
use x_cluster_link.Kube.Costs.{length}
use x_cluster_link.NatTunnel.Runs.{IsGatewayPod}
use x_cluster_link.NatTunnel.Deletion.{TornDown}
use x_cluster_link.NatTunnel.Handlers.{reconcile}
use x_cluster_link.NatTunnel.Convergence.{IsInSync}
use x_cluster_link.NatTunnel.Updating.{Stopped}
use x_cluster_link.Informer.Switch.{set_gateway}
use x_cluster_link.Syncer.Handlers.{set_remote_ip}
use x_cluster_link.NatTunnel.Setup.{initialise, relabel}
use x_cluster_link.NatTunnel.Creation.{Unfinished}
use x_cluster_link.System.Peers.{set_peer, half_moved, reconcile-set_peer}
use x_cluster_link.System.Selection.{IsListed, initialise-IsListed, relabel-IsListed}
use x_cluster_link.System.Reach.{Event, handle}
use x_cluster_link.System.Bounds.{handle-bound}
use x_cluster_link.System.Following.{
  BuiltAs, at_gateway, to_remote, reconcile-set_gateway, reconcile-set_remote_ip,
}
use x_cluster_link.Tests.Demo.{demo, yes_to, start, tunnel, built_tunnel, remote_ex_ip}

abbrev key : ObjectKey
key = record { name = "tun1"; namespace = "default" }

in_sync : IsInSync built_tunnel remote_ex_ip
in_sync = record {
  remote_ip = refl;
  internal_ip = refl;
  interface_addr = refl;
  local_gw = refl;
  remote_cidr = refl;
  tunnel_type = refl;
}

abbrev with_tunnel : VpcNatTunnel → Kube
with_tunnel t = record demo { get_tunnel = λ _. yes_to t }

abbrev start_with : (t : VpcNatTunnel) → World (with_tunnel t)
start_with t = record { state = tt; log = [] }

-- The gateway of the VPC is now gw2.
abbrev moved : VpcNatTunnel
moved = set_gateway "172.16.0.3" "gw2" built_tunnel

reconcile-set_gateway_example :
    Post
      (λ _ w'.
        (pod : Pod) × IsGatewayPod (with_tunnel moved) "gw2" pod
        × BuiltAs (with_tunnel moved) pod (at_gateway "172.16.0.3" "gw2" built_tunnel) [] w')
      (Stopped (with_tunnel moved) moved remote_ex_ip (start_with moved))
      (reconcile (with_tunnel moved) "west" key (start_with moved))
unfolding contains_string ◌==◌
reconcile-set_gateway_example =
    reconcile-set_gateway (with_tunnel moved) "west" key built_tunnel remote_ex_ip
      (start_with moved) tt tt "172.16.0.3" in_sync refl refl refl refl "gw2" refl
      (differs "gw1" "gw2" refl) (differs "gw2" "" refl)

-- The gateway at the other end has a new address.
abbrev renewed : VpcNatTunnel
renewed = set_remote_ip "172.16.0.8" built_tunnel

reconcile-set_remote_ip_example :
    Post
      (λ _ w'.
        (pod : Pod) × (torn : List Entry) × IsGatewayPod (with_tunnel renewed) "gw1" pod
        × TornDown pod built_tunnel [] torn
        × BuiltAs (with_tunnel renewed) pod (to_remote "172.16.0.8" built_tunnel) torn w')
      (Stopped (with_tunnel renewed) renewed remote_ex_ip (start_with renewed))
      (reconcile (with_tunnel renewed) "west" key (start_with renewed))
unfolding contains_string ◌==◌
reconcile-set_remote_ip_example =
    reconcile-set_remote_ip (with_tunnel renewed) "west" key built_tunnel remote_ex_ip
      (start_with renewed) tt tt "172.16.0.8" in_sync refl refl refl refl refl
      (differs "172.16.0.9" "172.16.0.8" refl) (differs "gw1" "" refl)

-- The owner of the tunnel now wants one to another cluster.
abbrev new_peer : GatewayExIp
new_peer = record remote_ex_ip {
  spec = record { external_ip = "172.16.0.20"; global_net_cidr = "242.2.0.0/16" };
}

abbrev edited : VpcNatTunnel
edited = set_peer "vpc3" "south" built_tunnel

abbrev with_new_peer : Kube
with_new_peer = record demo { get_tunnel = λ _. yes_to edited; get_ex_ip = λ _. yes_to new_peer }

abbrev start_anew : World with_new_peer
start_anew = record { state = tt; log = [] }

reconcile-set_peer_example :
    Post
      (λ _ w'.
        (pod : Pod) × (torn : List Entry) × IsGatewayPod with_new_peer "gw1" pod
        × TornDown pod built_tunnel [] torn
        × BuiltAs with_new_peer pod (half_moved "vpc3" "south" new_peer built_tunnel) torn w')
      (Stopped with_new_peer edited new_peer start_anew)
      (reconcile with_new_peer "west" key start_anew)
unfolding contains_string ◌==◌
reconcile-set_peer_example =
    reconcile-set_peer with_new_peer "west" key built_tunnel remote_ex_ip new_peer start_anew tt tt
      "vpc3" "south" in_sync refl refl refl refl refl (differs "242.1.0.0/16" "242.2.0.0/16" refl)
      (differs "gw1" "" refl)

initialise-IsListed_example :
    Post
      (λ _ w'.
        (saved : VpcNatTunnel) × (l : List Entry) × (w'.log ≡ did (Effect.update_tunnel saved) ∷ l)
        × IsListed saved)
      (Unfinished demo "west" tunnel remote_ex_ip start)
      (initialise demo "west" tunnel remote_ex_ip start)
initialise-IsListed_example = initialise-IsListed demo "west" tunnel remote_ex_ip start

-- A built tunnel that has lost its labels, but not the map.
abbrev stripped : VpcNatTunnel
stripped = record built_tunnel { metadata = record (built_tunnel.metadata) { labels = some [] } }

relabel-IsListed_example :
    Post
      (λ _ w'.
        ((w'.log ≡ []) × IsListed stripped)
        ⊎ ((saved : VpcNatTunnel) × (w'.log ≡ did (Effect.update_tunnel saved) ∷ [])
            × ((saved.spec ≡ stripped.spec) × (saved.status ≡ stripped.status) × IsListed saved)))
      (λ w'.
        ((◌≡◌ {A = GoMap} (some []) none) × (w'.log ≡ []))
        ⊎ ((sent : VpcNatTunnel) × (w'.log ≡ failed (Effect.update_tunnel sent) ∷ [])))
      (relabel demo stripped start)
unfolding ◌==◌
relabel-IsListed_example =
    relabel-IsListed demo stripped start (differs "east" "" refl) (differs "vpc2" "" refl)
      (differs "vpc1" "" refl)

listed :
    (selector : Entries) (ts : List VpcNatTunnel) (s s' : Unit {0})
    → demo.list_tunnels "" selector s ≡ (answer ts, s')
    → length ts ≤ 1
listed selector ts s s' e = subst (λ n. n ≤ 1) (ap (λ r. count r.0) e) (omega arith)
  where
    count : Reply String (List VpcNatTunnel) → ℕ
    count (answer ts) = length ts
    count (refuse _) = 0

handle-bound_example :
    length (handle demo "west" (Event.tunnel_queued key) start).1.log ≤ length start.log + 7
handle-bound_example = handle-bound demo "west" 1 listed (Event.tunnel_queued key) start
