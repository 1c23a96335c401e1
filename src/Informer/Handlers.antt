-- ===== src/Informer/Handlers.antt =====
-- gateway_informer.go: AddFunc, UpdateFunc and DeleteFunc. An error that a handler logs before it
-- returns is the outcome of the action here; the informer does nothing with it.
use x_cluster_link.Base.{String, ◌<>◌, ◌&&◌, some, [], ◌∷◌, if◌then◌else◌, ◌==◌, ◌!=◌, ◌=ℕ=◌}
use x_cluster_link.Base.GoMap.{index}
use x_cluster_link.Objects.{ObjectKey, GatewayExIp, Pod, StatefulSet, VpcNatGateway}
use x_cluster_link.Kube.{
  Kube, M, Effect, answer, refuse, pure, or_panic, read, request, attempt, ◌>>=◌, ◌>>◌,
}
use x_cluster_link.NatTunnel.Gateway.{get_nat_gw_pod, get_gw_extern_ip, head?, cluster_key}
use x_cluster_link.NatTunnel.Setup.{ex_ip_key}
use x_cluster_link.Informer.Lookup.{
  no_meta, local_gateway, gateway_of, can_replace, can_succeed, pick_gateway, all_routes_via,
  find_ex_ip, list_gateways,
}
use x_cluster_link.Informer.Switch.{
  set_internal_ip, set_gateway, set_external_ip, save_ex_ip, update_tunnels, list_tunnels_of,
  switch_to,
}

-- The key of an object that has no namespace.
abbrev pub named : String → ObjectKey
named name = record { name = name; namespace = "" }

module _ (K : Kube) (cluster_id : String) where
  -- The GatewayExIp that a VPC's first gateway gets.
  abbrev pub new_ex_ip : VpcNatGateway → Pod → String → String → GatewayExIp
  new_ex_ip nat_gw pod extern_ip cidr = record {
    metadata = record no_meta {
      name = nat_gw.vpc <> "." <> cluster_id;
      namespace = pod.metadata.namespace;
      labels = some (
          ("localVpc", nat_gw.vpc)
          ∷ ("localGateway", nat_gw.metadata.name)
          ∷ ("localCluster", cluster_id)
          ∷ []);
    };
    spec = record { external_ip = extern_ip; global_net_cidr = cidr };
  }

  -- A GatewayExIp is created, unless a route of the VPC leads to another gateway.
  unfoldable pub register : VpcNatGateway → Pod → M K (Unit {0})
  unfolding all_routes_via
  register nat_gw pod = do
    vpc ← read (K.get_vpc (named nat_gw.vpc))
    if all_routes_via nat_gw.lan_ip vpc.static_routes
        then (do
          cluster ← read (K.get_cluster (cluster_key cluster_id))
          extern_ip ← get_gw_extern_ip K pod
          cidr ← or_panic (head? cluster.global_cidr)
          request (Effect.create_ex_ip (new_ex_ip nat_gw pod extern_ip cidr))
              (K.create_ex_ip (new_ex_ip nat_gw pod extern_ip cidr))
          pure tt)
        else pure tt

  -- AddFunc
  unfoldable pub on_add : StatefulSet → M K (Unit {0})
  on_add st =
      if st.available_replicas =ℕ= 1
      then (do
        nat_gw ← read (K.get_nat_gateway (named (gateway_of st)))
        pod ← get_nat_gw_pod K (gateway_of st)
        found ← attempt (read (K.get_ex_ip (ex_ip_key nat_gw.vpc cluster_id)))
        elim found [
          | answer _ ↦ pure tt
          | refuse e ↦ if K.is_not_found e then register nat_gw pod else pure tt
        ])
      else pure tt

  -- UpdateFunc, once the gateway that went down is known to be in use.
  unfoldable pub fail_over : StatefulSet → GatewayExIp → M K (Unit {0})
  unfolding pick_gateway can_replace
  fail_over down ex_ip = do
    vpc ← read (K.get_vpc (named (index ex_ip.metadata.labels "localVpc")))
    tunnels ← list_tunnels_of K vpc.metadata.name
    items ← list_gateways K
    let gw = pick_gateway (can_replace down) items
    if gw.metadata.name == "" then pure tt else (do
      gw_extern_ip ← switch_to K gw vpc ex_ip
      update_tunnels K (set_gateway gw_extern_ip (gateway_of gw)) tunnels)

  -- UpdateFunc, from one available replica to none.
  unfoldable pub on_down : StatefulSet → M K (Unit {0})
  on_down st = do
    ex_ip ← find_ex_ip K cluster_id (gateway_of st)
    if local_gateway ex_ip != gateway_of st then pure tt else fail_over st ex_ip

  -- UpdateFunc, once the gateway that came up again is known to be in use.
  unfoldable pub refresh : StatefulSet → GatewayExIp → M K (Unit {0})
  refresh st ex_ip = do
    pod_next ← get_nat_gw_pod K (gateway_of st)
    gw_extern_ip ← get_gw_extern_ip K pod_next
    stored ← save_ex_ip K (set_external_ip gw_extern_ip ex_ip)
    tunnels ← list_tunnels_of K (index stored.metadata.labels "localVpc")
    update_tunnels K (set_internal_ip gw_extern_ip) tunnels

  -- UpdateFunc, from no available replica to one.
  unfoldable pub on_up : StatefulSet → M K (Unit {0})
  on_up st = do
    ex_ip ← find_ex_ip K cluster_id (gateway_of st)
    if local_gateway ex_ip != gateway_of st then pure tt else refresh st ex_ip

  -- UpdateFunc
  unfoldable pub on_update : StatefulSet → StatefulSet → M K (Unit {0})
  on_update old new = do
    if old.available_replicas =ℕ= 1 && new.available_replicas =ℕ= 0 then on_down new else pure tt
    if old.available_replicas =ℕ= 0 && new.available_replicas =ℕ= 1 then on_up new else pure tt

  -- DeleteFunc, once the gateway that is gone is known to have been in use.
  unfoldable pub hand_over : StatefulSet → GatewayExIp → M K (Unit {0})
  unfolding pick_gateway can_succeed
  hand_over gone ex_ip = do
    let vpc_name = index ex_ip.metadata.labels "localVpc"
    vpc ← read (K.get_vpc (named vpc_name))
    items ← list_gateways K
    let gw = pick_gateway (can_succeed gone) items
    if gw.metadata.name == ""
        then request (Effect.delete_ex_ip ex_ip) (K.delete_ex_ip ex_ip)
        else (do
          gw_extern_ip ← switch_to K gw vpc ex_ip
          tunnels ← list_tunnels_of K vpc_name
          update_tunnels K (set_gateway gw_extern_ip (gateway_of gw)) tunnels)

  -- DeleteFunc
  unfoldable pub on_delete : StatefulSet → M K (Unit {0})
  on_delete st = do
    ex_ip ← find_ex_ip K cluster_id (gateway_of st)
    if local_gateway ex_ip != gateway_of st then pure tt else hand_over st ex_ip
