-- ===== src/Tests/Syncer.antt =====
-- The broker's syncer over the demo cluster.
use x_cluster_link.Base.{String, ◌<>◌, ◌≡◌, refl, ◌⊎◌, false, some, List, [], if◌then◌else◌}
use x_cluster_link.Base.Text.{cut, strip, contains, split_in_two}
use x_cluster_link.Base.Text.Removal.{lacks-Lacks}
use x_cluster_link.Objects.{GatewayExIp, VpcNatTunnel}
use x_cluster_link.Kube.{panic}
use x_cluster_link.Kube.Post.{Post}
use x_cluster_link.Kube.Log.{changes}
use x_cluster_link.NatTunnel.Setup.{ex_ip_key}
use x_cluster_link.Informer.Moves.{after, Partly}
use x_cluster_link.Syncer.Handlers.{vpc_and_cluster, on_remote_gateway_ex_ip_synced}
use x_cluster_link.Syncer.Sync.{
  retarget_writes, Refused, Peers, Unlisted, synced_plan, synced_panics,
}
use x_cluster_link.Syncer.Names.{vpc_and_cluster-ex_ip_key, vpc_and_cluster-dotted}
use x_cluster_link.Tests.Demo.{demo, start, remote_ex_ip}

synced_plan_example :
    Post
      (λ again w'.
        (again ≡ false)
        × (((e : String) × Unlisted demo remote_ex_ip start "vpc2" "east" e × (w'.log ≡ []))
            ⊎ ((tunnels : List VpcNatTunnel) × Peers demo remote_ex_ip start "vpc2" "east" tunnels
                × ((changes w'.log ≡ after (retarget_writes "172.16.0.9" tunnels) [])
                    ⊎ (Refused w'.log × Partly (retarget_writes "172.16.0.9" tunnels) [] w'.log)))))
      (λ _. ⊥)
      (on_remote_gateway_ex_ip_synced demo remote_ex_ip start)
unfolding vpc_and_cluster split_in_two cut strip if◌then◌else◌
synced_plan_example = synced_plan demo remote_ex_ip start "vpc2" "east" refl

-- An object whose name has no dot.
abbrev dotless : GatewayExIp
dotless = record remote_ex_ip { metadata = record (remote_ex_ip.metadata) { name = "vpc2" } }

dotless_panics : on_remote_gateway_ex_ip_synced demo dotless start ≡ (panic, start)
unfolding contains strip if◌then◌else◌
dotless_panics = synced_panics demo dotless start refl

vpc_and_cluster-ex_ip_key_example :
    vpc_and_cluster (ex_ip_key "vpc2" "east.example").name ≡ some ("vpc2", "east.example")
vpc_and_cluster-ex_ip_key_example =
    vpc_and_cluster-ex_ip_key "vpc2" "east.example" (lacks-Lacks b'.' "vpc2" refl)

vpc_and_cluster-dotted_example :
    vpc_and_cluster (ex_ip_key ("team" <> ("." <> "vpc")) "east").name
    ≡ some ("team", "vpc" <> ("." <> "east"))
vpc_and_cluster-dotted_example =
    vpc_and_cluster-dotted "team" "vpc" "east" (lacks-Lacks b'.' "team" refl)
