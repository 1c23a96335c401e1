-- ===== src/Tunnel/Gre.antt =====
-- internal/tunnel/gre
use x_cluster_link.Base.{String, ◌<>◌}
use x_cluster_link.Objects.{VpcNatTunnel}
use x_cluster_link.Tunnel.Operation.{TunnelOperation}

unfoldable pub create_cmd : VpcNatTunnel → String
create_cmd tunnel =
    let name = tunnel.metadata.name in
    let create_cmd =
      "ip tunnel add " <> name <> " mode gre remote " <> tunnel.status.remote_ip <> " local "
      <> tunnel.status.internal_ip <> " ttl 255" in
    let set_up_cmd = "ip link set " <> name <> " up" in
    let addr_cmd = "ip addr add " <> tunnel.status.interface_addr <> " dev " <> name in
    create_cmd <> ";" <> set_up_cmd <> ";" <> addr_cmd

unfoldable pub delete_cmd : VpcNatTunnel → String
delete_cmd tunnel = "ip tunnel del " <> tunnel.metadata.name

-- NewGreOp
unfoldable pub new_gre_op : VpcNatTunnel → TunnelOperation
unfolding create_cmd delete_cmd
new_gre_op tunnel = record { create_cmd = create_cmd tunnel; delete_cmd = delete_cmd tunnel }
