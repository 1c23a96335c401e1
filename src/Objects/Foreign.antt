-- ===== src/Objects/Foreign.antt =====
-- The objects of other projects' API groups, each with the fields that the controllers use. What a
-- write leaves alone in such an object is not listed.
use x_cluster_link.Base.{ℕ, String, Bool, List}
use x_cluster_link.Base.GoMap.{GoMap}
use x_cluster_link.Objects.Own.{ObjectMeta}

-- client.ObjectKey; a kind without namespaces has the namespace "".
pub record ObjectKey : Type 0 where
  pub name : String
  pub namespace : String

-- corev1.Pod
pub record Pod : Type 0 where
  pub metadata : ObjectMeta
  pub phase : String

-- submariner.io Cluster: `Spec.GlobalCIDR`
pub record Cluster : Type 0 where
  pub global_cidr : List String

-- submariner.io ClusterGlobalEgressIP: `Status.AllocatedIPs`
pub record ClusterGlobalEgressIp : Type 0 where
  pub allocated_ips : List String

-- appsv1.StatefulSet: `Status.AvailableReplicas` and `Spec.Template.Annotations`
pub record StatefulSet : Type 0 where
  pub metadata : ObjectMeta
  pub available_replicas : ℕ
  pub template_annotations : GoMap

-- kubeovn.io VpcNatGateway: `Spec.Vpc` and `Spec.LanIP`
pub record VpcNatGateway : Type 0 where
  pub metadata : ObjectMeta
  pub vpc : String
  pub lan_ip : String

-- An element of kubeovn.io `VpcSpec.StaticRoutes`
pub record StaticRoute : Type 0 where
  pub cidr : String
  pub next_hop_ip : String

-- kubeovn.io Vpc: `Spec.StaticRoutes`
pub record Vpc : Type 0 where
  pub metadata : ObjectMeta
  pub static_routes : List StaticRoute

-- corev1.ConfigMap: `Data`
pub record ConfigMap : Type 0 where
  pub metadata : ObjectMeta
  pub content : GoMap

-- kubeovn.io Subnet: `Spec.Gateway`
pub record Subnet : Type 0 where
  pub gateway : String

-- corev1.Service: `Spec.ClusterIP`
pub record Service : Type 0 where
  pub cluster_ip : String

-- kubeovn.io VpcDns: `Spec.Vpc` and `Status.Active`
pub record VpcDns : Type 0 where
  pub metadata : ObjectMeta
  pub vpc : String
  pub active : Bool

-- corev1.Container: `Command`
pub record Container : Type 0 where
  pub command : List String

-- appsv1.Deployment: `Spec.Template.Spec.InitContainers`
pub record Deployment : Type 0 where
  pub metadata : ObjectMeta
  pub init_containers : List Container
