-- ===== src/Tests/Demo.antt =====
-- A cluster that answers every call with one fixed object, and accepts every write.
use x_cluster_link.Base.{String, ◌<>◌, true, false, none, some, List, [], ◌∷◌, ◌==◌}
use x_cluster_link.Base.GoMap.{GoMap}
use x_cluster_link.Objects.{
  ObjectMeta, VpcNatTunnel, GatewayExIp, Pod, StatefulSet, Vpc, Deployment, ConfigMap,
}
use x_cluster_link.Kube.{Kube, Call, answer, World}

abbrev pub meta : String → GoMap → ObjectMeta
meta name labels = record {
  name = name;
  namespace = "kube-system";
  labels = labels;
  annotations = none;
  finalizers = [];
  deletion_timestamp = none;
}

abbrev pub gw_pod : Pod
gw_pod = record {
  metadata = record {
    name = "vpc-nat-gw-gw1-0";
    namespace = "kube-system";
    labels = none;
    annotations = some (
        ("ovn.kubernetes.io/gateway", "10.0.1.1")
        ∷ ("ovn-vpc-external-network.kube-system.kubernetes.io/ip_address", "172.16.0.2")
        ∷ []);
    finalizers = [];
    deletion_timestamp = none;
  };
  phase = "Running";
}

abbrev pub remote_ex_ip : GatewayExIp
remote_ex_ip = record {
  metadata = meta "vpc2.east" (some (("localGateway", "gw1") ∷ ("localVpc", "vpc1") ∷ []));
  spec = record { external_ip = "172.16.0.9"; global_net_cidr = "242.1.0.0/16" };
}

abbrev pub tunnel : VpcNatTunnel
tunnel = record {
  metadata = record {
    name = "tun1";
    namespace = "default";
    labels = none;
    annotations = none;
    finalizers = "tunnel.finalizer.ustc.io" ∷ [];
    deletion_timestamp = none;
  };
  spec = record {
    remote_cluster = "east";
    remote_vpc = "vpc2";
    interface_addr = "10.100.0.1/24";
    local_vpc = "vpc1";
    tunnel_type = "gre";
    remote_ip = "";
    internal_ip = "";
    local_gw = "";
  };
  status = record {
    initialized = false;
    internal_ip = "";
    remote_ip = "";
    interface_addr = "";
    local_gw = "";
    tunnel_type = "";
    globalnet_cidr = "";
    remote_globalnet_cidr = "";
    ovn_gw_ip = "";
    global_egress_ip = [];
  };
}

-- The same tunnel once it has been built.
abbrev pub built_tunnel : VpcNatTunnel
built_tunnel = record tunnel {
  spec = record (tunnel.spec) {
    remote_ip = "172.16.0.9";
    internal_ip = "172.16.0.2";
    local_gw = "gw1";
  };
  status = record {
    initialized = true;
    internal_ip = "172.16.0.2";
    remote_ip = "172.16.0.9";
    interface_addr = "10.100.0.1/24";
    local_gw = "gw1";
    tunnel_type = "gre";
    globalnet_cidr = "242.0.0.0/16";
    remote_globalnet_cidr = "242.1.0.0/16";
    ovn_gw_ip = "10.0.1.1";
    global_egress_ip = "242.0.0.1" ∷ "242.0.0.2" ∷ "242.0.0.8" ∷ [];
  };
}

abbrev pub gateway : String → StatefulSet
gateway name = record {
  metadata = meta name none;
  available_replicas = 1;
  template_annotations = some (
      ("ovn.kubernetes.io/logical_router", "vpc1")
      ∷ ("ovn.kubernetes.io/ip_address", "10.0.1.254")
      ∷ []);
}

abbrev pub vpc : Vpc
vpc = record {
  metadata = meta "vpc1" none;
  static_routes = record { cidr = "0.0.0.0/0"; next_hop_ip = "10.0.1.253" } ∷ [];
}

abbrev pub corefile : ConfigMap
corefile = record {
  metadata = meta "vpc-dns-corefile" none;
  content = some (("Corefile", ".:53 {\n}") ∷ []);
}

abbrev pub deployment : Deployment
deployment = record {
  metadata = meta "vpc-dns-d1" none;
  init_containers =
      record { command = "sh" ∷ "-c" ∷ "ip -4 route add 10.0.0.1 via 10.0.1.1 dev net1;" ∷ [] }
      ∷ [];
}

abbrev drop_text : List String → String → List String
drop_text [] s = []
drop_text (x ∷ xs) s = elim (x == s) [ true ↦ drop_text xs s | false ↦ x ∷ drop_text xs s ]

abbrev pub yes_to : {A : Type 0} → A → Call (Unit {0}) String A
yes_to a s = (answer a, s)

abbrev pub demo : Kube
demo = record {
  State = Unit {0};
  Err = String;
  errorf = λ m. m;
  new_not_found = λ name. "not found: " <> name;
  is_not_found = λ e. e == "gone";
  ignore_not_found = λ e. elim (e == "gone") [ true ↦ none | false ↦ some e ];
  add_finalizer = λ fs f. f ∷ fs;
  remove_finalizer = drop_text;
  get_tunnel = λ _. yes_to built_tunnel;
  get_ex_ip = λ _. yes_to remote_ex_ip;
  get_dns_forward =
      λ _. yes_to (record { metadata = meta "dns1" none; spec = record { vpc = "vpc1" } });
  get_cluster = λ _. yes_to (record { global_cidr = "242.0.0.0/16" ∷ [] });
  get_global_egress_ip =
      λ _. yes_to (record { allocated_ips = "242.0.0.1" ∷ "242.0.0.2" ∷ "242.0.0.8" ∷ [] });
  get_nat_gateway =
      λ _. yes_to (record { metadata = meta "gw1" none; vpc = "vpc1"; lan_ip = "10.0.1.253" });
  get_vpc = λ _. yes_to vpc;
  get_config_map = λ _. yes_to corefile;
  get_service = λ _. yes_to (record { cluster_ip = "10.96.0.10" });
  get_subnet = λ _. yes_to (record { gateway = "10.16.0.1" });
  get_deployment = λ _. yes_to deployment;
  list_pods = λ _ _. yes_to (gw_pod ∷ []);
  list_tunnels = λ _ _. yes_to (built_tunnel ∷ []);
  list_ex_ips = λ _ _. yes_to (remote_ex_ip ∷ []);
  list_stateful_sets = λ _ _. yes_to (gateway "vpc-nat-gw-gw1" ∷ gateway "vpc-nat-gw-gw2" ∷ []);
  list_vpc_dnses =
      λ _ _. yes_to (record { metadata = meta "d1" none; vpc = "vpc1"; active = true } ∷ []);
  update_tunnel = yes_to;
  update_tunnel_status = yes_to;
  update_dns_forward = yes_to;
  update_config_map = yes_to;
  update_deployment = yes_to;
  update_vpc = yes_to;
  create_ex_ip = yes_to;
  update_ex_ip = yes_to;
  delete_ex_ip = λ _. yes_to tt;
  new_for_config = yes_to tt;
  new_spdy_executor = yes_to tt;
  stream = λ _ _ _ _. yes_to "";
}

abbrev pub start : World demo
start = record { state = tt; log = [] }
