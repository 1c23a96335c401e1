-- ===== src/Tests/Informer.antt =====
-- The informer over the demo cluster.
use x_cluster_link.Base.{differs, String, ◌≡◌, refl, ◌≢◌, ◌⊎◌, List, [], ◌∷◌, ◌==◌, if◌then◌else◌}
use x_cluster_link.Base.GoMap.{find, index}
use x_cluster_link.Base.Text.{strip, trim_prefix}
use x_cluster_link.Objects.{GatewayExIp, StatefulSet, VpcNatTunnel}
use x_cluster_link.Kube.{Kube, World, refuse, ok, did, failed, Effect}
use x_cluster_link.Kube.Post.{Post}
use x_cluster_link.Kube.Log.{changes}
use x_cluster_link.Informer.Lookup.{gateway_of, can_replace, can_succeed}
use x_cluster_link.Informer.Switch.{set_external_ip}
use x_cluster_link.Informer.Handlers.{
  fail_over, hand_over, refresh, on_add, on_down, on_up, on_delete,
}
use x_cluster_link.Informer.Moves.{after, Partly}
use x_cluster_link.Informer.Succession.{hand_over-Moved}
use x_cluster_link.Informer.Failover.{
  Moved, NoGateway, Interrupted, name_of, TunnelsOf, fail_over-Moved,
}
use x_cluster_link.Informer.Registration.{Passed, Registered}
use x_cluster_link.Informer.Arrival.{
  on_add-Registered, refresh_plan, AddressOf, Stored, refresh-plan,
}
use x_cluster_link.Informer.Standby.{OtherGateways, InUse, event_cases}
use x_cluster_link.Base.GoMap.{lookup}
use x_cluster_link.Informer.Healthy.{CanMove, fail_over-returns}
use x_cluster_link.Tests.Demo.{gw_pod, built_tunnel, demo, start, gateway, vpc, remote_ex_ip}

abbrev pub gw1 : StatefulSet
gw1 = gateway "vpc-nat-gw-gw1"

abbrev pub gw2 : StatefulSet
gw2 = gateway "vpc-nat-gw-gw2"

fail_over-Moved_example :
    Post
      (λ _ w'.
        Moved demo
          (can_replace gw1)
          remote_ex_ip
          []
          (name_of demo "west" gw1 remote_ex_ip start)
          w'.log
        ⊎ (NoGateway demo (can_replace gw1) remote_ex_ip [] × (w'.log ≡ [])))
      (λ w'. Interrupted demo (can_replace gw1) remote_ex_ip [] w'.log)
      (fail_over demo "west" gw1 remote_ex_ip start)
fail_over-Moved_example = fail_over-Moved demo "west" gw1 remote_ex_ip start

hand_over-Moved_example :
    Post
      (λ _ w'.
        Moved demo
          (can_succeed gw1)
          remote_ex_ip
          []
          (λ _. index remote_ex_ip.metadata.labels "localVpc")
          w'.log
        ⊎ (NoGateway demo (can_succeed gw1) remote_ex_ip []
            × (w'.log ≡ did (Effect.delete_ex_ip remote_ex_ip) ∷ [])))
      (λ w'. Interrupted demo (can_succeed gw1) remote_ex_ip [] w'.log)
      (hand_over demo "west" gw1 remote_ex_ip start)
hand_over-Moved_example = hand_over-Moved demo "west" gw1 remote_ex_ip start

-- A cluster in which the VPC has no GatewayExIp yet.
abbrev bare : Kube
bare = record demo { get_ex_ip = λ _ s. (refuse "gone", s) }

abbrev begin : World bare
begin = record { state = tt; log = [] }

on_add-Registered_example :
    Post
      (λ _ w'.
        (Passed bare "west" gw1 begin × (w'.log ≡ []))
        ⊎ ((e : Effect) × Registered bare "west" gw1 begin e × (w'.log ≡ did e ∷ [])))
      (λ w'.
        (w'.log ≡ [])
        ⊎ ((e : Effect) × Registered bare "west" gw1 begin e × (w'.log ≡ failed e ∷ [])))
      (on_add bare "west" gw1 begin)
on_add-Registered_example = on_add-Registered bare "west" gw1 begin

refresh-plan_example :
    Post
      (λ _ w'.
        (ip : String) × AddressOf demo "west" gw1 remote_ex_ip start ip
        × (stored : GatewayExIp) × Stored demo "west" gw1 remote_ex_ip start
            (set_external_ip ip remote_ex_ip)
            stored
        × (tunnels : List VpcNatTunnel) × TunnelsOf demo
            (index stored.metadata.labels "localVpc")
            tunnels
        × (changes w'.log ≡ after (refresh_plan demo "west" gw1 remote_ex_ip start ip tunnels) []))
      (λ w'.
        (changes w'.log ≡ [])
        ⊎ ((ip : String) × (tunnels : List VpcNatTunnel) × AddressOf demo "west" gw1 remote_ex_ip
              start ip
            × Partly (refresh_plan demo "west" gw1 remote_ex_ip start ip tunnels) [] w'.log))
      (refresh demo "west" gw1 remote_ex_ip start)
refresh-plan_example = refresh-plan demo "west" gw1 remote_ex_ip start

pub is_named : gateway_of gw2 ≢ ""
unfolding ◌==◌ trim_prefix strip if◌then◌else◌
is_named = differs "gw2" "" refl

pub names_another : index remote_ex_ip.metadata.labels "localGateway" ≢ gateway_of gw2
unfolding ◌==◌ trim_prefix strip if◌then◌else◌ index find
names_another = differs "gw1" "gw2" refl

gw1_is_named : gateway_of gw1 ≢ ""
unfolding ◌==◌ trim_prefix strip if◌then◌else◌
gw1_is_named = differs "gw1" "" refl

event_cases_example :
    (OtherGateways (gateway_of gw1) (remote_ex_ip ∷ [])
      × ((on_down demo "west" gw1 start ≡ (ok tt, start))
          × (on_up demo "west" gw1 start ≡ (ok tt, start))
          × (on_delete demo "west" gw1 start ≡ (ok tt, start))))
    ⊎ ((x : GatewayExIp) × InUse (gateway_of gw1) (remote_ex_ip ∷ []) x
        × ((on_down demo "west" gw1 start ≡ fail_over demo "west" gw1 x start)
            × (on_up demo "west" gw1 start ≡ refresh demo "west" gw1 x start)
            × (on_delete demo "west" gw1 start ≡ hand_over demo "west" gw1 x start)))
event_cases_example = event_cases demo "west" gw1 (remote_ex_ip ∷ []) start tt refl gw1_is_named

gw2_is_named : gw2.metadata.name ≢ ""
unfolding ◌==◌
gw2_is_named = differs "vpc-nat-gw-gw2" "" refl

can_move : CanMove demo (can_replace gw1) remote_ex_ip
unfolding can_replace ◌==◌ index find lookup trim_prefix strip if◌then◌else◌
can_move = record {
  vpc = vpc;
  vpc_found = λ s. (tt, refl);
  tunnels = built_tunnel ∷ [];
  tunnels_found = λ s. (tt, refl);
  items = gw1 ∷ gw2 ∷ [];
  items_found = λ s. (tt, refl);
  gw = gw2;
  is_first = (gw1 ∷ [], [], refl, (refl, tt), refl);
  is_named = gw2_is_named;
  pod = gw_pod;
  ready = record {
    pods = λ s. (tt, refl);
    running = refl;
    config = λ s. (tt, refl);
    executor = λ s. (tt, refl);
    quiet = λ name namespace container cmd s. (tt, refl);
  };
  ip = "172.16.0.2";
  is_ip = refl;
  labels = ("localGateway", "gw1") ∷ ("localVpc", "vpc1") ∷ [];
  has_labels = refl;
  vpc_accepted = λ x s. (x, tt, refl);
  ex_ip_accepted = λ x s. (x, tt, refl);
  tunnel_accepted = λ x s. (x, tt, refl);
}

fail_over-returns_example :
    Post
      (λ _ w'.
        Moved demo
          (can_replace gw1)
          remote_ex_ip
          []
          (name_of demo "west" gw1 remote_ex_ip start)
          w'.log)
      (λ _. ⊥)
      (fail_over demo "west" gw1 remote_ex_ip start)
fail_over-returns_example = fail_over-returns demo "west" gw1 remote_ex_ip start can_move
