-- ===== src/Dns/Corefile.antt =====
-- vpcdnsforward_controller.go: the Corefile of the VPC's DNS, which is to forward the names of the
-- cluster set.
use x_cluster_link.Base.{String, ◌<>◌, Bool}
use x_cluster_link.Base.GoMap.{index, insert}
use x_cluster_link.Base.Text.{contains, replace_first}
use x_cluster_link.Objects.{ObjectKey}
use x_cluster_link.Kube.{Kube, M, Effect, pure, or_panic, read, request, ◌>>=◌, ◌>>◌}

abbrev pub corefile_key : ObjectKey
corefile_key = record { name = "vpc-dns-corefile"; namespace = "kube-system" }

abbrev pub kube_dns_key : ObjectKey
kube_dns_key = record { name = "kube-dns"; namespace = "kube-system" }

-- The server block that is found, and what stands in its place afterwards.
abbrev pub root_block : String
root_block = ".:53 {"

abbrev pub forward_block : String → String
forward_block cluster_ip =
    "clusterset.local:53 {\n    forward . " <> cluster_ip <> "\n  }\n  .:53 {"

-- Whether the names of the cluster set are in the Corefile.
unfoldable pub forwards_clusterset : String → Bool
forwards_clusterset corefile = contains corefile "clusterset.local"

unfoldable pub add_forward : String → String → String
add_forward cluster_ip corefile = replace_first corefile root_block (forward_block cluster_ip)

module _ (K : Kube) where
  unfoldable pub check_dns_corefile : M K Bool
  check_dns_corefile = do
    cm ← read (K.get_config_map corefile_key)
    pure (forwards_clusterset (index cm.content "Corefile"))

  unfoldable pub update_dns_corefile : M K (Unit {0})
  update_dns_corefile = do
    cm ← read (K.get_config_map corefile_key)
    core_dns_svc ← read (K.get_service kube_dns_key)
    let corefile = add_forward core_dns_svc.cluster_ip (index cm.content "Corefile")
    content ← or_panic (insert "Corefile" corefile cm.content)
    let cm' = record cm { content = content }
    request (Effect.update_config_map cm') (K.update_config_map cm')
    pure tt
