-- ===== src/Tests/NatTunnel.antt =====
-- The reconciler of VpcNatTunnel over the demo cluster.
use x_cluster_link.Base.{
  differs, String, ◌≡◌, refl, sym, ap, [], ◌∷◌, contains_string, if◌then◌else◌, ◌==◌,
}
use x_cluster_link.Objects.{VpcNatTunnel, ObjectKey}
use x_cluster_link.Kube.{Kube, World, ok, Effect, did, failed, Reply, answer, refuse}
use x_cluster_link.Kube.Post.{Post}
use x_cluster_link.Kube.Log.{changes}
use x_cluster_link.NatTunnel.Setup.{initialise, has_no_addresses}
use x_cluster_link.NatTunnel.Handlers.{handle_delete, reconcile}
use x_cluster_link.NatTunnel.Deletion.{Deleted, handle_delete-Deleted}
use x_cluster_link.NatTunnel.Creation.{Initialised, Unfinished, initialise-Initialised}
use x_cluster_link.NatTunnel.Convergence.{
  AnswersStatus, IsInSync, SavedInSync, initialise-converges,
}
use x_cluster_link.NatTunnel.Updating.{Updated, Stopped, retargeted}
use x_cluster_link.NatTunnel.Settled.{
  reconcile-IsInSync, reconcile-revert_type, edit_type, reconcile-Rebuilt,
}
use x_cluster_link.Base.GoMap.{find, index, lookup}
use x_cluster_link.NatTunnel.Healthy.{Reaches, Serves, handle_delete-returns, initialise-returns}
use x_cluster_link.Tests.Demo.{gw_pod, demo, yes_to, start, tunnel, built_tunnel, remote_ex_ip}

abbrev key : ObjectKey
key = record { name = "tun1"; namespace = "default" }

-- The demo cluster with another tunnel.
abbrev with_tunnel : VpcNatTunnel → Kube
with_tunnel t = record demo { get_tunnel = λ _. yes_to t }

abbrev start_with : (t : VpcNatTunnel) → World (with_tunnel t)
start_with t = record { state = tt; log = [] }

handle_delete-Deleted_example :
    Post
      (λ _. Deleted demo built_tunnel start)
      (λ w'. changes w'.log ≡ changes [])
      (handle_delete demo built_tunnel start)
unfolding contains_string ◌==◌
handle_delete-Deleted_example = handle_delete-Deleted demo built_tunnel start refl

initialise-Initialised_example :
    Post
      (λ _. Initialised demo "west" tunnel remote_ex_ip start)
      (Unfinished demo "west" tunnel remote_ex_ip start)
      (initialise demo "west" tunnel remote_ex_ip start)
initialise-Initialised_example = initialise-Initialised demo "west" tunnel remote_ex_ip start

-- A server that answers a status update with the spec that it has stored.
abbrev keeping : Kube
keeping = record demo { update_tunnel_status = λ x. yes_to (record x { spec = tunnel.spec }) }

abbrev begin : World keeping
begin = record { state = tt; log = [] }

abbrev answered : VpcNatTunnel → Reply String VpcNatTunnel × Unit {0} → VpcNatTunnel
answered t (answer x, _) = x
answered t (refuse _, _) = t

keeping-AnswersStatus : AnswersStatus keeping tunnel
keeping-AnswersStatus = record {
  same_status = λ x stored s s' _ h. ap (λ r. (answered x r).status) (sym h);
  stored_spec = λ x stored s s' _ h. ap (λ r. (answered x r).spec) (sym h);
}

initialise-converges_example :
    Post
      (λ _. SavedInSync keeping "west" tunnel remote_ex_ip begin)
      (Unfinished keeping "west" tunnel remote_ex_ip begin)
      (initialise keeping "west" tunnel remote_ex_ip begin)
initialise-converges_example =
    initialise-converges keeping "west" tunnel remote_ex_ip begin keeping-AnswersStatus

in_sync : IsInSync built_tunnel remote_ex_ip
in_sync = record {
  remote_ip = refl;
  internal_ip = refl;
  interface_addr = refl;
  local_gw = refl;
  remote_cidr = refl;
  tunnel_type = refl;
}

reconcile-IsInSync_example : reconcile demo "west" key start ≡ (ok tt, start)
unfolding contains_string ◌==◌
reconcile-IsInSync_example =
    reconcile-IsInSync demo "west" key built_tunnel remote_ex_ip start tt tt refl refl refl refl
      refl in_sync

-- The type was edited after the build.
abbrev edited_tunnel : VpcNatTunnel
edited_tunnel = edit_type "vxlan" built_tunnel

reconcile-revert_type_example :
    Post
      (λ _ w'. w'.log ≡ did (Effect.update_tunnel built_tunnel) ∷ [])
      (λ w'. w'.log ≡ failed (Effect.update_tunnel built_tunnel) ∷ [])
      (reconcile (with_tunnel edited_tunnel) "west" key (start_with edited_tunnel))
unfolding contains_string ◌==◌
reconcile-revert_type_example =
    reconcile-revert_type (with_tunnel edited_tunnel) "west" key built_tunnel remote_ex_ip
      (start_with edited_tunnel) tt tt "vxlan" refl refl refl refl refl refl
      (differs "vxlan" "gre" refl)

-- The VPC has moved to another gateway after the build.
abbrev moved_tunnel : VpcNatTunnel
moved_tunnel = record built_tunnel {
  spec = record (built_tunnel.spec) { local_gw = "gw2"; internal_ip = "172.16.0.3" };
}

moved_on : ¬ IsInSync moved_tunnel remote_ex_ip
unfolding ◌==◌
moved_on h = differs "gw1" "gw2" refl h.local_gw

reconcile-Rebuilt_example :
    Post
      (λ _. Updated (with_tunnel moved_tunnel) moved_tunnel remote_ex_ip (start_with moved_tunnel))
      (Stopped (with_tunnel moved_tunnel) moved_tunnel remote_ex_ip (start_with moved_tunnel))
      (reconcile (with_tunnel moved_tunnel) "west" key (start_with moved_tunnel))
    × IsInSync (retargeted moved_tunnel remote_ex_ip) remote_ex_ip
unfolding contains_string ◌==◌ has_no_addresses
reconcile-Rebuilt_example =
    reconcile-Rebuilt (with_tunnel moved_tunnel) "west" key moved_tunnel remote_ex_ip
      (start_with moved_tunnel) tt tt refl refl refl refl refl refl refl moved_on

reached : Reaches demo "gw1" gw_pod
reached = record {
  pods = λ s. (tt, refl);
  running = refl;
  config = λ s. (tt, refl);
  executor = λ s. (tt, refl);
  quiet = λ name namespace container cmd s. (tt, refl);
}

handle_delete-returns_example :
    Post (λ _. Deleted demo built_tunnel start) (λ _. ⊥) (handle_delete demo built_tunnel start)
unfolding contains_string ◌==◌
handle_delete-returns_example =
    handle_delete-returns demo built_tunnel start gw_pod "242.0.0.1"
      ("242.0.0.2" ∷ "242.0.0.8" ∷ []) refl refl reached (λ s. (_, tt, refl))

-- The GatewayExIp of the demo cluster stands for the local one here too.
served : Serves demo "west" tunnel remote_ex_ip gw_pod
unfolding index lookup find ◌==◌ if◌then◌else◌
served = record {
  local_found = λ s. (tt, refl);
  ready = reached;
  cluster = record { global_cidr = "242.0.0.0/16" ∷ [] };
  cluster_found = λ s. (tt, refl);
  cidr = "242.0.0.0/16";
  is_cidr = refl;
  ovn = "10.0.1.1";
  is_ovn = refl;
  internal = "172.16.0.2";
  is_internal = refl;
  egress = record { allocated_ips = "242.0.0.1" ∷ "242.0.0.2" ∷ "242.0.0.8" ∷ [] };
  egress_found = λ s. (tt, refl);
  ip = "242.0.0.1";
  ips = "242.0.0.2" ∷ "242.0.0.8" ∷ [];
  allocated = refl;
  status_accepted = λ x s. (x, tt, refl);
  accepted = λ x s. (x, tt, refl);
}

initialise-returns_example :
    Post
      (λ _. Initialised demo "west" tunnel remote_ex_ip start)
      (λ _. ⊥)
      (initialise demo "west" tunnel remote_ex_ip start)
initialise-returns_example =
    initialise-returns demo "west" tunnel remote_ex_ip remote_ex_ip gw_pod start served
