-- ===== src/Tunnel/Vxlan.antt =====
-- internal/tunnel/vxlan
use x_cluster_link.Base.{String, ◌<>◌, Option, none, some}
use x_cluster_link.Base.GoMap.{lookup}
use x_cluster_link.Objects.{VpcNatTunnel}
use x_cluster_link.Tunnel.Operation.{TunnelOperation}

abbrev pub default_vid : String
default_vid = "100"

abbrev pub default_port : String
default_port = "4789"

abbrev override : String → Option String → String
override default none = default
override default (some v) = v

unfoldable pub get_vid_and_port : VpcNatTunnel → String × String
unfolding lookup
get_vid_and_port t = (
  override default_vid (lookup "vid" t.metadata.labels),
  override default_port (lookup "vx-port" t.metadata.labels),
)

unfoldable pub create_cmd : VpcNatTunnel → String
unfolding get_vid_and_port
create_cmd tunnel =
    let (vid, port) = get_vid_and_port tunnel in
    let name = tunnel.metadata.name in
    let create_cmd =
      "ip link add " <> name <> " type vxlan id " <> vid <> " dev net1 dstport " <> port
      <> " remote " <> tunnel.status.remote_ip <> " local " <> tunnel.status.internal_ip in
    let set_up_cmd = "ip link set " <> name <> " up" in
    let addr_cmd = "ip addr add " <> tunnel.status.interface_addr <> " dev " <> name in
    create_cmd <> ";" <> set_up_cmd <> ";" <> addr_cmd

unfoldable pub delete_cmd : VpcNatTunnel → String
delete_cmd tunnel = "ip link del " <> tunnel.metadata.name

-- NewVxlanOp
unfoldable pub new_vxlan_op : VpcNatTunnel → TunnelOperation
unfolding create_cmd delete_cmd
new_vxlan_op tunnel = record { create_cmd = create_cmd tunnel; delete_cmd = delete_cmd tunnel }
