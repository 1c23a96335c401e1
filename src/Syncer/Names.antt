-- ===== src/Syncer/Names.antt =====
-- The name of a GatewayExIp: what the informer writes and what the syncer reads back.
use text.Mathlib.TextLemmas.{append_assoc}
use x_cluster_link.Base.{◌∙◌, String, ◌<>◌, ◌≡◌, ap, some}
use x_cluster_link.Base.Text.Laws.{Lacks, split_in_two-dot}
use x_cluster_link.NatTunnel.Setup.{ex_ip_key}
use x_cluster_link.Syncer.Handlers.{both, vpc_and_cluster}

-- The VPC and the cluster of a GatewayExIp are read back from its name, whatever the cluster is
-- called, as long as the VPC's name has no dot.
pub vpc_and_cluster-ex_ip_key :
    (vpc cluster : String)
    → Lacks b'.' vpc
    → vpc_and_cluster (ex_ip_key vpc cluster).name ≡ some (vpc, cluster)
unfolding vpc_and_cluster
vpc_and_cluster-ex_ip_key vpc cluster h = ap both (split_in_two-dot vpc cluster h)

-- Where the VPC's name is `a.b` and `a` has no dot, they are read back as the VPC `a` and a cluster
-- whose name begins with `b`.
pub vpc_and_cluster-dotted :
    (a b cluster : String)
    → Lacks b'.' a
    → vpc_and_cluster (ex_ip_key (a <> ("." <> b)) cluster).name ≡ some (a, b <> ("." <> cluster))
unfolding vpc_and_cluster
vpc_and_cluster-dotted a b cluster h =
    ap vpc_and_cluster (
      append_assoc a ("." <> b) ("." <> cluster)
      ∙ ap (λ s. a <> s) (append_assoc "." b ("." <> cluster)))
    ∙ ap both (split_in_two-dot a (b <> ("." <> cluster)) h)
