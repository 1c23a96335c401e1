-- ===== src/Objects/Own.antt =====
-- api/v1: VpcNatTunnel, GatewayExIp and VpcDnsForward. Of `metav1.ObjectMeta` the fields that the
-- controllers read or write stand here; a `DeletionTimestamp` that is zero is `none`.
use x_cluster_link.Base.{String, Bool, true, false, Option, none, some, List}
use x_cluster_link.Base.GoMap.{GoMap}

pub record ObjectMeta : Type 0 where
  pub name : String
  pub namespace : String
  pub labels : GoMap
  pub annotations : GoMap
  pub finalizers : List String
  pub deletion_timestamp : Option String

-- metav1.Time.IsZero
abbrev pub is_zero : Option String → Bool
is_zero none = true
is_zero (some _) = false

pub record VpcNatTunnelSpec : Type 0 where
  pub remote_cluster : String
  pub remote_vpc : String
  pub interface_addr : String
  pub local_vpc : String
  pub tunnel_type : String
  pub remote_ip : String
  pub internal_ip : String
  pub local_gw : String

pub record VpcNatTunnelStatus : Type 0 where
  pub initialized : Bool
  pub internal_ip : String
  pub remote_ip : String
  pub interface_addr : String
  pub local_gw : String
  pub tunnel_type : String
  pub globalnet_cidr : String
  pub remote_globalnet_cidr : String
  pub ovn_gw_ip : String
  pub global_egress_ip : List String

pub record VpcNatTunnel : Type 0 where
  pub metadata : ObjectMeta
  pub spec : VpcNatTunnelSpec
  pub status : VpcNatTunnelStatus

pub record GatewayExIpSpec : Type 0 where
  pub external_ip : String
  pub global_net_cidr : String

pub record GatewayExIp : Type 0 where
  pub metadata : ObjectMeta
  pub spec : GatewayExIpSpec

pub record VpcDnsForwardSpec : Type 0 where
  pub vpc : String

pub record VpcDnsForward : Type 0 where
  pub metadata : ObjectMeta
  pub spec : VpcDnsForwardSpec
