-- ===== src/Tests/Missed.antt =====
-- A cluster of two gateways that are both down when the informer looks for another.
use x_cluster_link.Base.{◌≡◌, refl, [], ◌∷◌, ◌==◌, if◌then◌else◌}
use x_cluster_link.Base.GoMap.{find, index}
use x_cluster_link.Base.Text.{strip, trim_prefix}
use x_cluster_link.Objects.{StatefulSet}
use x_cluster_link.Kube.{Kube, World, ok, answer, ◌>>◌}
use x_cluster_link.Informer.Lookup.{can_replace}
use x_cluster_link.Informer.Handlers.{on_update}
use x_cluster_link.Informer.Missed.{Alone, on_update_missed}
use x_cluster_link.Tests.Informer.{gw1, gw2, is_named, names_another}
use x_cluster_link.Tests.Demo.{built_tunnel, demo, vpc, remote_ex_ip}

abbrev gone : StatefulSet → StatefulSet
gone st = record st { available_replicas = 0 }

abbrev dark : Kube
dark = record demo { list_stateful_sets = λ _ _ s. (answer (gone gw1 ∷ gone gw2 ∷ []), s) }

alone : Alone dark "west" (gone gw1) tt tt
unfolding can_replace ◌==◌ index find trim_prefix strip if◌then◌else◌
alone = record {
  ex_ips = remote_ex_ip ∷ [];
  ex_ip = remote_ex_ip;
  in_use = ([], [], refl, tt, refl);
  s₁ = tt;
  ex_ips_listed = refl;
  vpc = vpc;
  s₂ = tt;
  vpc_found = refl;
  tunnels = built_tunnel ∷ [];
  s₃ = tt;
  tunnels_listed = refl;
  gateways = gone gw1 ∷ gone gw2 ∷ [];
  gateways_listed = refl;
  none_pass = (refl, (refl, tt));
}

abbrev begin : World dark
begin = record { state = tt; log = [] }

on_update_missed_example :
    (on_update dark "west" gw1 (gone gw1) >> on_update dark "west" (gone gw2) gw2) begin
    ≡ (ok tt, begin)
on_update_missed_example =
    on_update_missed dark "west" gw1 (gone gw1) begin tt alone (gone gw2) gw2 (remote_ex_ip ∷ []) tt
      refl refl refl refl is_named refl (names_another, tt)
