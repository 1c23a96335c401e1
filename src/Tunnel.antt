-- ===== src/Tunnel.antt =====
-- internal/tunnel: the shell commands that build and remove a tunnel, behind the factory.
mod Operation
pub mod Gre
pub mod Vxlan
pub use Operation.*
use x_cluster_link.Base.{if◌then◌else◌, ◌==◌}
use x_cluster_link.Objects.{VpcNatTunnel}
use Gre.{new_gre_op}
use Vxlan.{new_vxlan_op}

-- TunnelOperationFactory.CreateTunnelOperation
unfoldable pub create_tunnel_operation : VpcNatTunnel → TunnelOperation
unfolding new_gre_op new_vxlan_op
create_tunnel_operation tunnel =
    if tunnel.spec.tunnel_type == "vxlan"
    then new_vxlan_op tunnel
    else if tunnel.spec.tunnel_type == "gre"
    then new_gre_op tunnel
    else new_gre_op tunnel
