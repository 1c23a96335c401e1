-- ===== src/Kube/Calls.antt =====
-- The interface to the cluster, as a record of operations over an unknown state.
use x_cluster_link.Base.{String, Bool, Option, List}
use x_cluster_link.Base.GoMap.{Entries}
use x_cluster_link.Objects.{
  ObjectKey, VpcNatTunnel, GatewayExIp, VpcDnsForward, Pod, Cluster, ClusterGlobalEgressIp,
  StatefulSet, VpcNatGateway, Vpc, ConfigMap, Subnet, Service, VpcDns, Deployment,
}

-- A Go pair `(value, err)`.
pub data Reply (E A : Type 0) : Type 0 where
  answer : A → Reply E A
  refuse : E → Reply E A

abbrev pub Call : Type 0 → Type 0 → Type 0 → Type 0
Call S E A = S → Reply E A × S

pub record Kube : Type 1 where
  pub State : Type 0
  pub Err : Type 0
  -- fmt.Errorf
  pub errorf : String → Err
  -- k8serrors.NewNotFound, of pods
  pub new_not_found : String → Err
  -- k8serrors.IsNotFound and client.IgnoreNotFound, whose nil is `none`
  pub is_not_found : Err → Bool
  pub ignore_not_found : Err → Option Err
  -- controllerutil.AddFinalizer and RemoveFinalizer, on the list of finalizers
  pub add_finalizer : List String → String → List String
  pub remove_finalizer : List String → String → List String
  -- client.Client's Get
  pub get_tunnel : ObjectKey → Call State Err VpcNatTunnel
  pub get_ex_ip : ObjectKey → Call State Err GatewayExIp
  pub get_dns_forward : ObjectKey → Call State Err VpcDnsForward
  pub get_cluster : ObjectKey → Call State Err Cluster
  pub get_global_egress_ip : ObjectKey → Call State Err ClusterGlobalEgressIp
  pub get_nat_gateway : ObjectKey → Call State Err VpcNatGateway
  pub get_vpc : ObjectKey → Call State Err Vpc
  pub get_config_map : ObjectKey → Call State Err ConfigMap
  pub get_service : ObjectKey → Call State Err Service
  pub get_subnet : ObjectKey → Call State Err Subnet
  pub get_deployment : ObjectKey → Call State Err Deployment
  -- client.Client's List, of a namespace ("" is all of them) and of the objects with these labels
  pub list_pods : String → Entries → Call State Err (List Pod)
  pub list_tunnels : String → Entries → Call State Err (List VpcNatTunnel)
  pub list_ex_ips : String → Entries → Call State Err (List GatewayExIp)
  pub list_stateful_sets : String → Entries → Call State Err (List StatefulSet)
  pub list_vpc_dnses : String → Entries → Call State Err (List VpcDns)
  -- client.Client's Update, Status().Update, Create and Delete. The first three write the server's
  -- answer back into the object, so that they return one.
  pub update_tunnel : VpcNatTunnel → Call State Err VpcNatTunnel
  pub update_tunnel_status : VpcNatTunnel → Call State Err VpcNatTunnel
  pub update_dns_forward : VpcDnsForward → Call State Err VpcDnsForward
  pub update_config_map : ConfigMap → Call State Err ConfigMap
  pub update_deployment : Deployment → Call State Err Deployment
  pub update_vpc : Vpc → Call State Err Vpc
  pub create_ex_ip : GatewayExIp → Call State Err GatewayExIp
  pub update_ex_ip : GatewayExIp → Call State Err GatewayExIp
  pub delete_ex_ip : GatewayExIp → Call State Err (Unit {0})
  -- kubernetes.NewForConfig and remotecommand.NewSPDYExecutor
  pub new_for_config : Call State Err (Unit {0})
  pub new_spdy_executor : Call State Err (Unit {0})
  -- StreamWithContext of a command in a pod's container: what it wrote to stderr
  pub stream : (pod namespace container : String) → List String → Call State Err String
