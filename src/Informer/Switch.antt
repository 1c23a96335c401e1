-- ===== src/Informer/Switch.antt =====
-- gateway_informer.go: moving a VPC to another gateway, and telling its tunnels.
use x_cluster_link.Base.{String, List, [], ◌∷◌}
use x_cluster_link.Base.GoMap.{insert}
use x_cluster_link.Objects.{VpcNatTunnel, GatewayExIp, StatefulSet, StaticRoute, Vpc}
use x_cluster_link.Kube.{Kube, M, Effect, pure, or_panic, read, request, ◌>>=◌, ◌>>◌}
use x_cluster_link.NatTunnel.Gateway.{get_nat_gw_pod, get_gw_extern_ip}
use x_cluster_link.Informer.Lookup.{gateway_of, lan_ip_of}

-- The loop over `vpc.Spec.StaticRoutes`, whose elements are pointers.
unfoldable pub route_via : String → List StaticRoute → List StaticRoute
route_via ip [] = []
route_via ip (route ∷ routes) = record route { next_hop_ip = ip } ∷ route_via ip routes

abbrev pub reroute : StatefulSet → Vpc → Vpc
reroute gw vpc = record vpc { static_routes = route_via (lan_ip_of gw) vpc.static_routes }

abbrev pub set_external_ip : String → GatewayExIp → GatewayExIp
set_external_ip ip ex_ip = record ex_ip { spec = record (ex_ip.spec) { external_ip = ip } }

-- The bodies of the loops over the tunnels.
abbrev pub set_internal_ip : String → VpcNatTunnel → VpcNatTunnel
set_internal_ip ip t = record t { spec = record (t.spec) { internal_ip = ip } }

abbrev pub set_gateway : String → String → VpcNatTunnel → VpcNatTunnel
set_gateway ip gw t = record t { spec = record (t.spec) { internal_ip = ip; local_gw = gw } }

module _ (K : Kube) where
  abbrev pub save_ex_ip : GatewayExIp → M K GatewayExIp
  save_ex_ip ex_ip = request (Effect.update_ex_ip ex_ip) (K.update_ex_ip ex_ip)

  -- The loops over the tunnels, which stop at the first write that fails.
  unfoldable pub update_tunnels : (VpcNatTunnel → VpcNatTunnel) → List VpcNatTunnel → M K (Unit {0})
  update_tunnels change [] = pure tt
  update_tunnels change (t ∷ ts) =
      request (Effect.update_tunnel (change t)) (K.update_tunnel (change t))
      >> update_tunnels change ts

  unfoldable pub list_tunnels_of : String → M K (List VpcNatTunnel)
  list_tunnels_of vpc_name = read (K.list_tunnels "" (("localVpc", vpc_name) ∷ []))

  -- The routes of the VPC and then its GatewayExIp are moved to a gateway; returned is the
  -- gateway's external address.
  unfoldable pub switch_to : StatefulSet → Vpc → GatewayExIp → M K String
  switch_to gw vpc ex_ip = do
    pod_next ← get_nat_gw_pod K (gateway_of gw)
    gw_extern_ip ← get_gw_extern_ip K pod_next
    request (Effect.update_vpc (reroute gw vpc)) (K.update_vpc (reroute gw vpc))
    labels ← or_panic (insert "localGateway" (gateway_of gw) ex_ip.metadata.labels)
    let moved = set_external_ip gw_extern_ip ex_ip
    save_ex_ip (record moved { metadata = record (ex_ip.metadata) { labels = labels } })
    pure gw_extern_ip
