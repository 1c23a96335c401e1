-- ===== src/Dns/Route.antt =====
-- vpcdnsforward_controller.go: the route to the cluster's DNS in the commands of a vpc-dns
-- deployment.
use x_cluster_link.Base.{String, ◌<>◌, ◌&&◌, List, [], ◌∷◌, if◌then◌else◌, ◌==◌, none, false}
use x_cluster_link.Base.Text.{contains, remove_all}
use x_cluster_link.Objects.{VpcDnsForward, VpcDns, Deployment}
use x_cluster_link.Kube.{Kube, M, pure, read, ◌>>=◌}
use x_cluster_link.Dns.Corefile.{kube_dns_key}

unfoldable pub route_to : String → String → String
route_to cluster_ip gateway = "ip -4 route add " <> cluster_ip <> " via " <> gateway <> " dev net1;"

-- The body of the loop over `initContainers.Command` when a forward is created.
unfoldable pub add_route : String → String → String
add_route route cmd =
    if contains cmd "ip -4 route add"
    then (if contains cmd route then cmd else cmd <> route)
    else cmd

-- The body of that loop when a forward is deleted.
unfoldable pub remove_route : String → String → String
remove_route route cmd = remove_all cmd route

unfoldable pub each : (String → String) → List String → List String
each change [] = []
each change (cmd ∷ cmds) = change cmd ∷ each change cmds

-- &ovn.VpcDns{}
abbrev pub no_vpc_dns : VpcDns
no_vpc_dns = record {
  metadata = record {
    name = "";
    namespace = "";
    labels = none;
    annotations = none;
    finalizers = [];
    deletion_timestamp = none;
  };
  vpc = "";
  active = false;
}

-- The loop over the listed VpcDns: the first that is active in the VPC, or the zero value.
unfoldable pub pick_vpc_dns : String → List VpcDns → VpcDns
pick_vpc_dns vpc [] = no_vpc_dns
pick_vpc_dns vpc (it ∷ items) = if it.vpc == vpc && it.active then it else pick_vpc_dns vpc items

module _ (K : Kube) where
  unfoldable pub gen_route_to_core_dns : M K String
  gen_route_to_core_dns = do
    core_dns_svc ← read (K.get_service kube_dns_key)
    subnet ← read (K.get_subnet (record { name = "ovn-default"; namespace = "" }))
    pure (route_to core_dns_svc.cluster_ip subnet.gateway)

  unfoldable pub get_vpc_dns_deployment : VpcDnsForward → M K Deployment
  unfolding pick_vpc_dns
  get_vpc_dns_deployment vpc_dns = do
    items ← read (K.list_vpc_dnses "" [])
    let ovn_dns = pick_vpc_dns vpc_dns.spec.vpc items
    read (
        K.get_deployment
          (record { name = "vpc-dns-" <> ovn_dns.metadata.name; namespace = "kube-system" }))
