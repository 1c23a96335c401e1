-- ===== src/Tests/Dns.antt =====
-- The reconciler of VpcDnsForward over the demo cluster.
use x_cluster_link.Base.{
  String, ◌≡◌, refl, some, none, List, [], ◌∷◌, contains_string, ◌==◌, if◌then◌else◌,
}
use x_cluster_link.Base.Text.{contains, strip}
use x_cluster_link.Base.Text.Removal.{lacks-Lacks}
use x_cluster_link.Objects.{VpcDnsForward, ConfigMap, Deployment}
use x_cluster_link.Kube.Post.{Post}
use x_cluster_link.Dns.Corefile.{add_forward, forwards_clusterset}
use x_cluster_link.Dns.Route.{route_to, add_route, remove_route, each}
use x_cluster_link.Dns.Handlers.{handle_delete, handle_create_or_update}
use x_cluster_link.Dns.Connection.{Connected, Stopped, handle_create_or_update-Connected}
use x_cluster_link.Dns.Commands.{each-remove_route-add_route}
use x_cluster_link.Dns.Forwarding.{
  Disconnected, Kept, add_forward_of_no_block, handle_delete-Disconnected,
}
use x_cluster_link.Tests.Demo.{demo, start, yes_to, corefile, deployment}
use x_cluster_link.Dns.Repetition.{handle_create_or_update_twice}
use x_cluster_link.Base.GoMap.{index, lookup, find}
use x_cluster_link.Kube.{Kube, Effect, did, failed}

abbrev forward : VpcDnsForward
forward = record {
  metadata = record {
    name = "dns1";
    namespace = "default";
    labels = none;
    annotations = none;
    finalizers = "dns.finalizer.ustc.io" ∷ [];
    deletion_timestamp = some "2024-01-01T00:00:00Z";
  };
  spec = record { vpc = "vpc1" };
}

abbrev cmds : List String
cmds = "sh" ∷ "-c" ∷ "ip -4 route add 10.0.0.1 via 10.0.1.1 dev net1;" ∷ []

handle_delete-Disconnected_example :
    Post
      (λ _. Disconnected demo forward start)
      (Kept demo forward start)
      (handle_delete demo forward start)
unfolding contains_string ◌==◌
handle_delete-Disconnected_example = handle_delete-Disconnected demo forward start refl

abbrev new_forward : VpcDnsForward
new_forward = record forward {
  metadata = record (forward.metadata) { finalizers = []; deletion_timestamp = none };
}

handle_create_or_update-Connected_example :
    Post
      (λ _. Connected demo new_forward start)
      (Stopped demo new_forward start)
      (handle_create_or_update demo new_forward start)
handle_create_or_update-Connected_example = handle_create_or_update-Connected demo new_forward start

-- The demo cluster after the forward was created.
abbrev connected_config : ConfigMap
connected_config = record corefile {
  content = some (("Corefile", "clusterset.local:53 {\n}") ∷ []);
}

abbrev connected_deployment : Deployment
connected_deployment = record deployment {
  init_containers =
      record {
        command =
            "sh" ∷ "-c"
            ∷ "ip -4 route add 10.0.0.1 via 10.0.1.1 dev net1;ip -4 route add 10.96.0.10 via 10.16.0.1 dev net1;"
            ∷ [];
      }
      ∷ [];
}

abbrev connected : Kube
connected = record demo {
  get_config_map = λ _. yes_to connected_config;
  get_deployment = λ _. yes_to connected_deployment;
}

abbrev live_forward : VpcDnsForward
live_forward = record forward { metadata = record (forward.metadata) { deletion_timestamp = none } }

handle_create_or_update_twice_example :
    Post
      (λ _ w'. w'.log ≡ did (Effect.update_deployment connected_deployment) ∷ [])
      (λ w'. w'.log ≡ failed (Effect.update_deployment connected_deployment) ∷ [])
      (handle_create_or_update connected live_forward (record { state = tt; log = [] }))
unfolding contains_string ◌==◌ contains strip if◌then◌else◌ index lookup find forwards_clusterset
    route_to each add_route
handle_create_or_update_twice_example =
    handle_create_or_update_twice connected live_forward (record { state = tt; log = [] })
      connected_config (record { cluster_ip = "10.96.0.10" }) (record { gateway = "10.16.0.1" }) _
      connected_deployment tt tt tt tt tt refl refl refl refl refl refl refl
      deployment.init_containers refl

each-remove_route-add_route_example :
    each
      (remove_route (route_to "10.96.0.10" "10.16.0.1"))
      (each (add_route (route_to "10.96.0.10" "10.16.0.1")) cmds)
    ≡ cmds
unfolding contains strip if◌then◌else◌ route_to
each-remove_route-add_route_example =
    each-remove_route-add_route "10.96.0.10" "10.16.0.1" (lacks-Lacks b';' "10.96.0.10" refl)
      (lacks-Lacks b';' "10.16.0.1" refl) cmds (refl, (refl, (refl, tt)))

no_block_unchanged : add_forward "10.96.0.10" ".:5353 {\n}" ≡ ".:5353 {\n}"
unfolding contains strip if◌then◌else◌
no_block_unchanged = add_forward_of_no_block "10.96.0.10" ".:5353 {\n}" refl
