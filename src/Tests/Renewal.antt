-- ===== src/Tests/Renewal.antt =====
-- The update of a built tunnel over a demo cluster whose objects keep their labels.
use x_cluster_link.Base.{refl, some, [], ◌∷◌}
use x_cluster_link.Objects.{VpcNatTunnel}
use x_cluster_link.Kube.{Kube, World}
use x_cluster_link.Kube.Post.{Post}
use x_cluster_link.NatTunnel.Setup.{rebuild}
use x_cluster_link.NatTunnel.Updating.{Updated}
use x_cluster_link.NatTunnel.Renewal.{CanUpdate, rebuild-returns}
use x_cluster_link.Tests.Demo.{demo, yes_to, gw_pod, built_tunnel, remote_ex_ip}

abbrev labelled : VpcNatTunnel → VpcNatTunnel
labelled t = record t { metadata = record (t.metadata) { labels = some [] } }

abbrev labelling : Kube
labelling = record demo { update_tunnel_status = λ t. yes_to (labelled t) }

abbrev labelling_start : World labelling
labelling_start = record { state = tt; log = [] }

can_update : CanUpdate labelling built_tunnel gw_pod
can_update = record {
  ready = record {
    pods = λ s. (tt, refl);
    running = refl;
    config = λ s. (tt, refl);
    executor = λ s. (tt, refl);
    quiet = λ name namespace container cmd s. (tt, refl);
  };
  ip = "242.0.0.1";
  ips = "242.0.0.2" ∷ "242.0.0.8" ∷ [];
  allocated = refl;
  labelled = λ x s. (labelled x, tt, [], refl, refl);
  accepted = λ x s. (x, tt, refl);
}

rebuild-returns_example :
    Post
      (λ _. Updated labelling built_tunnel remote_ex_ip labelling_start)
      (λ _. ⊥)
      (rebuild labelling built_tunnel remote_ex_ip labelling_start)
rebuild-returns_example =
    rebuild-returns labelling built_tunnel remote_ex_ip gw_pod labelling_start can_update
