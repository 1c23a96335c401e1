-- ===== src/Tests/System.antt =====
-- Runs of the whole program over demo clusters.
use x_cluster_link.Base.{String, refl, some, List, [], ◌∷◌, contains_string, ◌==◌, if◌then◌else◌}
use x_cluster_link.Base.GoMap.{find, lookup, index, put}
use x_cluster_link.Base.Text.{trim_space, trim_left, trim_right}
use x_cluster_link.Objects.{ObjectKey, VpcNatTunnel}
use x_cluster_link.Kube.{
  Reply, answer, refuse, Kube, World, Effect, Entry, did, pure, throw, or_panic, read, request,
  attempt, ◌>>=◌, ◌>>◌,
}
use x_cluster_link.Tunnel.{create_tunnel_operation}
use x_cluster_link.Tunnel.Gre.{new_gre_op, create_cmd, delete_cmd}
use x_cluster_link.NatTunnel.Gateway.{
  get_nat_gw_pod, the_running_pod, get_globalnet_cidr, get_global_egress_ip, get_gw_extern_ip,
  get_ovn_gw_ip,
}
use x_cluster_link.NatTunnel.Exec.{check_stderr, exec_command_in_pod}
use x_cluster_link.NatTunnel.Routes.{snat_source, gen_globalnet_route, gen_create_tunnel_cmd}
use x_cluster_link.NatTunnel.Setup.{
  begin_status, tunnel_labels, stamp_spec, build, complete_status, initialise,
}
use x_cluster_link.NatTunnel.Handlers.{ensure_finalizer, handle_create_or_update, reconcile}
use x_cluster_link.NatTunnel.Runs.{command_in}
use x_cluster_link.System.Rules.{StatusWrite, Lawful}
use x_cluster_link.System.Reach.{Event, handle, Step, Reach, Reach-Lawful, Reach-StatusWrite}
use x_cluster_link.Tests.Demo.{demo, yes_to, tunnel, built_tunnel, gw_pod, remote_ex_ip}

abbrev key : ObjectKey
key = record { name = "tun1"; namespace = "default" }

abbrev with_tunnel : VpcNatTunnel → Kube
with_tunnel t = record demo { get_tunnel = λ _. yes_to t }

-- The reconciler runs once, on a tunnel as it is.
abbrev once : (t : VpcNatTunnel) → World (with_tunnel t)
once t =
    (handle (with_tunnel t) "west" (Event.tunnel_queued key) (record { state = tt; log = [] })).1

once-Reach : (t : VpcNatTunnel) → Reach (with_tunnel t) "west" (once t)
once-Reach t = Reach.later (Reach.start tt) (Step.run (Event.tunnel_queued key))

Reach-Lawful_example : Lawful (with_tunnel tunnel) "west" (once tunnel).log
Reach-Lawful_example = Reach-Lawful (with_tunnel tunnel) "west" (once-Reach tunnel)

-- The demo tunnel with the status of its first build.
abbrev first_built : VpcNatTunnel
first_built = record tunnel { status = built_tunnel.status }

abbrev build_log : List Entry
build_log =
    did (
      command_in gw_pod
        "ip route add 242.0.0.0/16 via 10.0.1.1 dev eth0;ip route add 242.1.0.0/16 dev tun1;iptables -t nat -A POSTROUTING -d 242.1.0.0/16 -j SNAT --to-source 242.0.0.1-242.0.0.8")
    ∷ did (
        command_in gw_pod
          "ip tunnel add tun1 mode gre remote 172.16.0.9 local 172.16.0.2 ttl 255;ip link set tun1 up;ip addr add 10.100.0.1/24 dev tun1")
    ∷ []

Reach-StatusWrite_example : StatusWrite (with_tunnel tunnel) first_built build_log
unfolding handle reconcile handle_create_or_update ensure_finalizer contains_string ◌==◌
    if◌then◌else◌ initialise begin_status complete_status get_nat_gw_pod the_running_pod
    get_globalnet_cidr get_ovn_gw_ip get_global_egress_ip get_gw_extern_ip find lookup index build
    gen_create_tunnel_cmd create_tunnel_operation new_gre_op create_cmd delete_cmd
    gen_globalnet_route snat_source exec_command_in_pod check_stderr trim_space trim_left trim_right
    stamp_spec tunnel_labels put pure throw or_panic read request attempt ◌>>=◌ ◌>>◌
Reach-StatusWrite_example =
    Reach-StatusWrite (with_tunnel tunnel) "west"
      (did (Effect.update_tunnel (stamp_spec first_built remote_ex_ip remote_ex_ip)) ∷ []) build_log
      first_built (once-Reach tunnel) refl

-- The demo tunnel when a user has deleted it.
abbrev dying : VpcNatTunnel
dying = record built_tunnel {
  metadata = record (built_tunnel.metadata) { deletion_timestamp = some "2024-01-01T00:00:00Z" };
}

abbrev released : VpcNatTunnel
released = record dying { metadata = record (dying.metadata) { finalizers = [] } }

abbrev delete_log : List Entry
delete_log =
    did (command_in gw_pod "ip tunnel del tun1")
    ∷ did (
        command_in gw_pod
          "ip route del 242.0.0.0/16 via 10.0.1.1 dev eth0;ip route del 242.1.0.0/16 dev tun1;iptables -t nat -D POSTROUTING -d 242.1.0.0/16 -j SNAT --to-source 242.0.0.1-242.0.0.8")
    ∷ []

answered : VpcNatTunnel → Reply String VpcNatTunnel → VpcNatTunnel
answered t (answer x) = x
answered t (refuse _) = t
