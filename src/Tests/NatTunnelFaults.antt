-- ===== src/Tests/NatTunnelFaults.antt =====
-- The reconciler of VpcNatTunnel where the demo cluster lacks something.
use x_cluster_link.Base.{◌≡◌, refl, sym, ap, ◌≢◌, ◌∙◌, some, [], contains_string, ◌==◌, ==-refl}
use x_cluster_link.Objects.{VpcNatTunnel, ObjectKey, ClusterGlobalEgressIp}
use x_cluster_link.Kube.{Kube, World, err, panic, Reply, answer, refuse}
use x_cluster_link.Kube.Post.{Post}
use x_cluster_link.Kube.Log.{changes}
use x_cluster_link.NatTunnel.Setup.{initialise, relabel}
use x_cluster_link.NatTunnel.Handlers.{reconcile}
use x_cluster_link.NatTunnel.Faults.{reconcile-no_pod, initialise-no_egress, relabel-nil}
use x_cluster_link.Tests.Demo.{demo, yes_to, start, tunnel, built_tunnel, remote_ex_ip}

abbrev key : ObjectKey
key = record { name = "tun1"; namespace = "default" }

-- Deleted by a user, without and with the finalizer.
abbrev released_tunnel : VpcNatTunnel
released_tunnel = record built_tunnel {
  metadata = record (built_tunnel.metadata) {
    finalizers = [];
    deletion_timestamp = some "2024-01-01T00:00:00Z";
  };
}

abbrev dying_tunnel : VpcNatTunnel
dying_tunnel = record built_tunnel {
  metadata = record (built_tunnel.metadata) { deletion_timestamp = some "2024-01-01T00:00:00Z" };
}

abbrev podless : VpcNatTunnel → Kube
podless t = record demo { get_tunnel = λ _. yes_to t; list_pods = λ _ _. yes_to [] }

abbrev podless_start : (t : VpcNatTunnel) → World (podless t)
podless_start t = record { state = tt; log = [] }

reconcile-no_pod_example :
    reconcile (podless dying_tunnel) "west" key (podless_start dying_tunnel)
    ≡ (err "not found: gw1", podless_start dying_tunnel)
unfolding contains_string ◌==◌
reconcile-no_pod_example =
    reconcile-no_pod (podless dying_tunnel) "west" key dying_tunnel (podless_start dying_tunnel) tt
      tt refl refl refl refl

-- No egress address is allocated yet.
abbrev unallocated : Kube
unallocated = record demo { get_global_egress_ip = λ _. yes_to (record { allocated_ips = [] }) }

abbrev unallocated_start : World unallocated
unallocated_start = record { state = tt; log = [] }

abbrev answered :
    ClusterGlobalEgressIp
    → Reply unallocated.Err ClusterGlobalEgressIp × unallocated.State
    → ClusterGlobalEgressIp
answered t (answer x, _) = x
answered t (refuse _, _) = t

initialise-no_egress_example :
    Post
      (λ _ _. ⊥)
      (λ w'. changes w'.log ≡ changes [])
      (initialise unallocated "west" tunnel remote_ex_ip unallocated_start)
initialise-no_egress_example =
    initialise-no_egress unallocated "west" tunnel remote_ex_ip unallocated_start
      (λ s s' e h. ap (λ r. (answered e r).allocated_ips) (sym h))

vpc_is_named : built_tunnel.spec.local_vpc ≢ ""
unfolding ◌==◌
vpc_is_named e = cc (sym (==-refl "") ∙ ap (λ x. x == "") (sym e))

unlabelled_panics : relabel demo built_tunnel start ≡ (panic, start)
unlabelled_panics = relabel-nil demo built_tunnel start refl vpc_is_named
