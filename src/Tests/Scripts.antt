-- ===== src/Tests/Scripts.antt =====
-- The scripts of the demo's tunnel, and of the same tunnel after the syncer has changed its spec.
use mathlib.Core.Option.{map as option_map}
use x_cluster_link.Base.{String, ◌<>◌, ◌≡◌, refl}
use x_cluster_link.Objects.{VpcNatTunnel}
use x_cluster_link.Syncer.Handlers.{set_remote_ip}
use x_cluster_link.NatTunnel.Routes.{
  gen_globalnet_route, gen_del_globalnet_route, gen_create_tunnel_cmd, gen_delete_tunnel_cmd,
}
use x_cluster_link.NatTunnel.Scripts.{
  adding, removing, script, rules, say_device, device, removed_as_built,
}
use x_cluster_link.Tests.Demo.{built_tunnel}

abbrev changed : VpcNatTunnel
changed = set_remote_ip "172.16.0.8" built_tunnel

removed_as_built_example :
    (gen_globalnet_route built_tunnel ≡ option_map (script adding) (rules built_tunnel))
    × (gen_del_globalnet_route changed ≡ option_map (script removing) (rules built_tunnel))
    × ((rest : String) × (gen_create_tunnel_cmd built_tunnel
          ≡ say_device adding (device built_tunnel) <> " " <> rest))
    × (gen_delete_tunnel_cmd changed ≡ say_device removing (device built_tunnel))
removed_as_built_example = removed_as_built built_tunnel changed refl refl refl
