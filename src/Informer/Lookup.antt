-- ===== src/Informer/Lookup.antt =====
-- gateway_informer.go: the loops that look for a GatewayExIp and for a gateway.
use x_cluster_link.Base.{
  String, Bool, true, false, ◌&&◌, none, List, [], ◌∷◌, if◌then◌else◌, ◌==◌, ◌!=◌, ◌=ℕ=◌,
}
use x_cluster_link.Base.GoMap.{Entries, index}
use x_cluster_link.Base.Text.{trim_prefix}
use x_cluster_link.Objects.{ObjectMeta, GatewayExIp, StatefulSet, StaticRoute}
use x_cluster_link.Kube.{Kube, M, pure, read, ◌>>=◌}

-- The zero value of an object's metadata.
abbrev pub no_meta : ObjectMeta
no_meta = record {
  name = "";
  namespace = "";
  labels = none;
  annotations = none;
  finalizers = [];
  deletion_timestamp = none;
}

-- &kubeovnv1.GatewayExIp{}
abbrev pub no_ex_ip : GatewayExIp
no_ex_ip = record { metadata = no_meta; spec = record { external_ip = ""; global_net_cidr = "" } }

-- &appsv1.StatefulSet{}
abbrev pub no_stateful_set : StatefulSet
no_stateful_set = record { metadata = no_meta; available_replicas = 0; template_annotations = none }

abbrev pub local_gateway : GatewayExIp → String
local_gateway ex_ip = index ex_ip.metadata.labels "localGateway"

-- The loop over the listed GatewayExIps: it stops at the first of this gateway, and else ends with
-- the last one in hand.
unfoldable pub pick_ex_ip : String → GatewayExIp → List GatewayExIp → GatewayExIp
pick_ex_ip gateway_name ex_ip [] = ex_ip
pick_ex_ip gateway_name _ (ex_ip ∷ items) =
    if local_gateway ex_ip == gateway_name then ex_ip else pick_ex_ip gateway_name ex_ip items

abbrev pub gateway_of : StatefulSet → String
gateway_of st = trim_prefix st.metadata.name "vpc-nat-gw-"

abbrev pub router_of : StatefulSet → String
router_of st = index st.template_annotations "ovn.kubernetes.io/logical_router"

abbrev pub lan_ip_of : StatefulSet → String
lan_ip_of st = index st.template_annotations "ovn.kubernetes.io/ip_address"

-- The test of the loop in UpdateFunc.
unfoldable pub can_replace : StatefulSet → StatefulSet → Bool
can_replace down st =
    st.available_replicas =ℕ= 1
    && st.metadata.name != down.metadata.name
    && router_of st == router_of down

-- The test of the loop in DeleteFunc.
unfoldable pub can_succeed : StatefulSet → StatefulSet → Bool
can_succeed gone st = st.available_replicas =ℕ= 1 && router_of st == router_of gone

-- The loops over the listed StatefulSets: the first that passes, or the zero value.
unfoldable pub pick_gateway : (StatefulSet → Bool) → List StatefulSet → StatefulSet
pick_gateway test [] = no_stateful_set
pick_gateway test (st ∷ items) = if test st then st else pick_gateway test items

-- The loop of AddFunc that returns at a route to another gateway.
unfoldable pub all_routes_via : String → List StaticRoute → Bool
all_routes_via lan_ip [] = true
all_routes_via lan_ip (route ∷ routes) =
    if route.next_hop_ip != lan_ip then false else all_routes_via lan_ip routes

abbrev pub gateway_selector : String → String → Entries
gateway_selector cluster_id gateway_name =
    ("localGateway", gateway_name) ∷ ("localCluster", cluster_id) ∷ []

module _ (K : Kube) where
  -- The GatewayExIp of this cluster that names the gateway.
  unfoldable pub find_ex_ip : String → String → M K GatewayExIp
  unfolding pick_ex_ip
  find_ex_ip cluster_id gateway_name = do
    items ← read (K.list_ex_ips "kube-system" (gateway_selector cluster_id gateway_name))
    pure (pick_ex_ip gateway_name no_ex_ip items)

  -- Every StatefulSet of a VPC gateway.
  unfoldable pub list_gateways : M K (List StatefulSet)
  list_gateways =
      read (K.list_stateful_sets "kube-system" (("ovn.kubernetes.io/vpc-nat-gw", "true") ∷ []))
