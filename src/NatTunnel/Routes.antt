-- ===== src/NatTunnel/Routes.antt =====
-- vpcnattunnel_controller.go: the commands for a tunnel's routes and for the tunnel itself.
-- `none` stands for the panic of an index into an empty list of egress addresses.
use x_cluster_link.Base.{String, ◌<>◌, Option, none, some, List, [], ◌∷◌}
use x_cluster_link.Objects.{VpcNatTunnel}
use x_cluster_link.Tunnel.{create_tunnel_operation}

-- `ips[len(ips)-1]` of a list that begins with `first`.
abbrev pub last : String → List String → String
last first [] = first
last first (ip ∷ ips) = last ip ips

-- The text that Sprintf makes of the first and the last egress address.
unfoldable pub snat_source : VpcNatTunnel → Option String
snat_source t = elim t.status.global_egress_ip [
  | [] ↦ none
  | first ∷ rest ↦ some (first <> "-" <> last first rest)
]

unfoldable pub gen_globalnet_route : VpcNatTunnel → Option String
unfolding snat_source
gen_globalnet_route t =
    let in_flow_route =
      "ip route add " <> t.status.globalnet_cidr <> " via " <> t.status.ovn_gw_ip <> " dev eth0" in
    let out_flow_route =
      "ip route add " <> t.status.remote_globalnet_cidr <> " dev " <> t.metadata.name in
    elim (snat_source t) [
      | none ↦ none
      | some source ↦
          let snat =
            "iptables -t nat -A POSTROUTING -d " <> t.status.remote_globalnet_cidr
            <> " -j SNAT --to-source " <> source in
          some (in_flow_route <> ";" <> out_flow_route <> ";" <> snat)
    ]

unfoldable pub gen_del_globalnet_route : VpcNatTunnel → Option String
unfolding snat_source
gen_del_globalnet_route t =
    let in_flow_route =
      "ip route del " <> t.status.globalnet_cidr <> " via " <> t.status.ovn_gw_ip <> " dev eth0" in
    let out_flow_route =
      "ip route del " <> t.status.remote_globalnet_cidr <> " dev " <> t.metadata.name in
    elim (snat_source t) [
      | none ↦ none
      | some source ↦
          let snat =
            "iptables -t nat -D POSTROUTING -d " <> t.status.remote_globalnet_cidr
            <> " -j SNAT --to-source " <> source in
          some (in_flow_route <> ";" <> out_flow_route <> ";" <> snat)
    ]

unfoldable pub gen_create_tunnel_cmd : VpcNatTunnel → String
gen_create_tunnel_cmd tunnel = (create_tunnel_operation tunnel).create_cmd

unfoldable pub gen_delete_tunnel_cmd : VpcNatTunnel → String
gen_delete_tunnel_cmd tunnel = (create_tunnel_operation tunnel).delete_cmd
