-- ===== src/System/Rules.antt =====
-- What the controllers may ask of the cluster, request by request. A request is judged by what the
-- cluster has answered and by the requests that were made before it.
use mathlib.Core.List.{Memᴰ}
use x_cluster_link.Base.{inl, refl, String, ◌≡◌, ◌⊎◌, some, List, [], ◌∷◌}
use x_cluster_link.Base.GoMap.{GoMap, Entries, index, insert}
use x_cluster_link.Objects.{
  ObjectKey, Pod, VpcNatTunnel, GatewayExIp, VpcDnsForward, StatefulSet, Vpc, ConfigMap, Deployment,
  Container, Service, Subnet,
}
use x_cluster_link.Kube.{Kube, World, Effect, Entry, did, failed}
use x_cluster_link.NatTunnel.Runs.{IsGatewayPod, command_in}
use x_cluster_link.NatTunnel.Deletion.{TornDown}
use x_cluster_link.NatTunnel.Phases.{Built}
use x_cluster_link.NatTunnel.Handlers as Tunnels
use x_cluster_link.Dns.Handlers as Forwards
use x_cluster_link.Dns.Handlers.{edit_first}
use x_cluster_link.Dns.Corefile.{corefile_key, kube_dns_key, add_forward}
use x_cluster_link.Dns.Route.{route_to, add_route, remove_route}
use x_cluster_link.Informer.Lookup.{gateway_of, gateway_selector, local_gateway, no_ex_ip}
use x_cluster_link.Informer.Switch.{reroute}
use x_cluster_link.Informer.Failover.{Listed}
use x_cluster_link.Informer.Registration.{Registered}
use x_cluster_link.System.Keeps.{Gives}

-- A tunnel as the cluster answered it, to a read or to a write.
pub data TunnelFrom (K : Kube) : VpcNatTunnel → Type 0 where
  fetched : {t : VpcNatTunnel} (key : ObjectKey) → Gives (K.get_tunnel key) t → TunnelFrom K t
  listed :
      {t : VpcNatTunnel} (selector : Entries) (ts : List VpcNatTunnel)
      → Gives (K.list_tunnels "" selector) ts
      → Memᴰ t ts
      → TunnelFrom K t
  -- The answer to the write of the finalizer, and to that of a status.
  stored :
      {t : VpcNatTunnel} (x : VpcNatTunnel)
      → TunnelFrom K x
      → Gives (K.update_tunnel (Tunnels.with_finalizer K x)) t
      → TunnelFrom K t
  status_stored :
      {t : VpcNatTunnel} (x x' : VpcNatTunnel)
      → TunnelFrom K x
      → x'.metadata ≡ x.metadata
      → Gives (K.update_tunnel_status x') t
      → TunnelFrom K t

-- `t'` has another address, gateway or labels than `t`, or the type that was built. What its user asked
-- for, its status and its finalizers are the same.
pub record Edits (t t' : VpcNatTunnel) : Type 0 where
  pub same_name : t'.metadata.name ≡ t.metadata.name
  pub same_namespace : t'.metadata.namespace ≡ t.metadata.namespace
  pub same_finalizers : t'.metadata.finalizers ≡ t.metadata.finalizers
  pub same_status : t'.status ≡ t.status
  pub same_local_vpc : t'.spec.local_vpc ≡ t.spec.local_vpc
  pub same_remote_vpc : t'.spec.remote_vpc ≡ t.spec.remote_vpc
  pub same_remote_cluster : t'.spec.remote_cluster ≡ t.spec.remote_cluster
  pub same_interface_addr : t'.spec.interface_addr ≡ t.spec.interface_addr
  pub tunnel_type :
      (t'.spec.tunnel_type ≡ t.spec.tunnel_type) ⊎ (t'.spec.tunnel_type ≡ t.status.tunnel_type)

pub Edits-moved :
    (t : VpcNatTunnel) (remote internal gateway : String) (labels : GoMap)
    → Edits t (record t {
      spec = record (t.spec) { remote_ip = remote; internal_ip = internal; local_gw = gateway };
      metadata = record (t.metadata) { labels = labels };
    })
Edits-moved t remote internal gateway labels = record {
  same_name = refl;
  same_namespace = refl;
  same_finalizers = refl;
  same_status = refl;
  same_local_vpc = refl;
  same_remote_vpc = refl;
  same_remote_cluster = refl;
  same_interface_addr = refl;
  tunnel_type = inl refl;
}

-- What may become of `t` in a write, after the requests `l`.
pub data TunnelWrite (K : Kube) (l : List Entry) (t t' : VpcNatTunnel) : Type 0 where
  claims : t' ≡ Tunnels.with_finalizer K t → TunnelWrite K l t t'
  edits : Edits t t' → TunnelWrite K l t t'
  -- The finalizer goes right after the tunnel was torn down in its gateway's pod.
  releases :
      (pod : Pod) (l₀ : List Entry)
      → IsGatewayPod K t.status.local_gw pod
      → TornDown pod t l₀ l
      → t' ≡ Tunnels.without_finalizer K t
      → TunnelWrite K l t t'

-- A status is saved right after the tunnel was built, in the pod of the gateway in the status.
abbrev pub StatusWrite : (K : Kube) → VpcNatTunnel → List Entry → Type 0
StatusWrite K t l =
    (pod : Pod) × (l₀ : List Entry) × IsGatewayPod K t.status.local_gw pod × Built pod t l₀ l

-- A forward as the cluster answered it.
pub data ForwardFrom (K : Kube) (d : VpcDnsForward) : Type 0 where
  fetched : (key : ObjectKey) → Gives (K.get_dns_forward key) d → ForwardFrom K d
  stored : (x : VpcDnsForward) → Gives (K.update_dns_forward x) d → ForwardFrom K d

-- The finalizer of a forward goes right after a deployment was written back.
pub data ForwardWrite (K : Kube) (l : List Entry) (d d' : VpcDnsForward) : Type 0 where
  claims : d' ≡ Forwards.with_finalizer K d → ForwardWrite K l d d'
  releases :
      (deployment : Deployment) (l₀ : List Entry)
      → l ≡ did (Effect.update_deployment deployment) ∷ l₀
      → d' ≡ Forwards.without_finalizer K d
      → ForwardWrite K l d d'

-- The route to the cluster's DNS, through the gateway of the default subnet, as the cluster answered
-- both.
abbrev pub DnsRoute : (K : Kube) → String → Type 0
DnsRoute K route =
    (svc : Service) × Gives (K.get_service kube_dns_key) svc
    × (subnet : Subnet) × Gives (K.get_subnet (record { name = "ovn-default"; namespace = "" }))
        subnet
    × (route ≡ route_to svc.cluster_ip subnet.gateway)

-- A deployment is one that the cluster answered, with that route added to or removed from the commands
-- of its first init container.
abbrev pub DeploymentWrite : (K : Kube) → Deployment → Type 0
DeploymentWrite K d' =
    (key : ObjectKey) × (d : Deployment) × Gives (K.get_deployment key) d
    × (route : String) × DnsRoute K route
    × (cs : List Container) × ((edit_first (add_route route) d.init_containers ≡ some cs)
        ⊎ (edit_first (remove_route route) d.init_containers ≡ some cs))
    × (d' ≡ record d { init_containers = cs })

-- The Corefile of the one config map is edited with the address of the cluster's DNS, and nothing else
-- of it.
abbrev pub CorefileWrite : (K : Kube) → ConfigMap → Type 0
CorefileWrite K c' =
    (c : ConfigMap) × Gives (K.get_config_map corefile_key) c
    × (svc : Service) × Gives (K.get_service kube_dns_key) svc
    × (insert "Corefile" (add_forward svc.cluster_ip (index c.content "Corefile")) c.content
        ≡ some c'.content)
    × (c'.metadata ≡ c.metadata)

-- A VPC's routes are moved to a listed gateway that is available and has one pod, which runs.
abbrev pub VpcWrite : (K : Kube) → Vpc → Type 0
VpcWrite K v' =
    (key : ObjectKey) × (v : Vpc) × Gives (K.get_vpc key) v
    × (items : List StatefulSet) × Listed K items
    × (gw : StatefulSet) × Memᴰ gw items
    × (gw.available_replicas ≡ 1)
    × (pod : Pod) × IsGatewayPod K (gateway_of gw) pod
    × (v' ≡ reroute gw v)

module _ (K : Kube) (cluster_id : String) where
  -- A GatewayExIp that the cluster listed for a gateway of this cluster, and which names it. The empty
  -- one names a gateway called "".
  abbrev pub Owned : GatewayExIp → Type 0
  Owned x =
      (gateway : String) × (items : List GatewayExIp) × Gives
        (K.list_ex_ips "kube-system" (gateway_selector cluster_id gateway)) items
      × (Memᴰ x items ⊎ (x ≡ no_ex_ip))
      × (local_gateway x ≡ gateway)

  -- Its address and its labels may change, but not its name or its address range.
  abbrev pub ExIpWrite : GatewayExIp → Type 0
  ExIpWrite x' =
      (x : GatewayExIp) × Owned x
      × (x'.metadata.name ≡ x.metadata.name)
      × (x'.metadata.namespace ≡ x.metadata.namespace)
      × (x'.spec.global_net_cidr ≡ x.spec.global_net_cidr)

  abbrev pub Allowed : Effect → List Entry → Type 0
  Allowed (Effect.update_tunnel t') l = (t : VpcNatTunnel) × TunnelFrom K t × TunnelWrite K l t t'
  Allowed (Effect.update_tunnel_status t) l = StatusWrite K t l
  Allowed (Effect.update_dns_forward d') l =
      (d : VpcDnsForward) × ForwardFrom K d × ForwardWrite K l d d'
  Allowed (Effect.update_config_map c) l = CorefileWrite K c
  Allowed (Effect.update_deployment d) l = DeploymentWrite K d
  Allowed (Effect.update_vpc v) l = VpcWrite K v
  Allowed (Effect.create_ex_ip x) l =
      (st : StatefulSet) × (w : World K) × Registered K cluster_id st w (Effect.create_ex_ip x)
  Allowed (Effect.update_ex_ip x) l = ExIpWrite x
  Allowed (Effect.delete_ex_ip x) l = Owned x
  -- Commands run in the pod of a gateway only.
  Allowed (Effect.exec pod namespace container cmd) l =
      (gateway : String) × (p : Pod) × IsGatewayPod K gateway p
      × (command : String) × (Effect.exec pod namespace container cmd ≡ command_in p command)

  -- Each request, accepted or refused, was allowed after those before it.
  abbrev pub Lawful : List Entry → Type 0
  Lawful [] = Unit
  Lawful (did e ∷ l) = Allowed e l × Lawful l
  Lawful (failed e ∷ l) = Allowed e l × Lawful l
