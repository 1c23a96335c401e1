-- ===== src/Informer/Registration.antt =====
-- AddFunc: what is known where a GatewayExIp is created, and why else the handler returns.
use x_cluster_link.Base.{String, ◌≡◌, ◌≢◌, true, false, some}
use x_cluster_link.Base.GoMap.{lookup}
use x_cluster_link.Objects.{GatewayExIp, StatefulSet, Vpc, VpcNatGateway, Pod, Cluster}
use x_cluster_link.Kube.{Kube, World, Effect, answer, refuse, Reply}
use x_cluster_link.NatTunnel.Gateway.{head?, cluster_key}
use x_cluster_link.NatTunnel.Setup.{ex_ip_key}
use x_cluster_link.NatTunnel.Runs.{IsGatewayPod}
use x_cluster_link.Informer.Lookup.{gateway_of, all_routes_via}
use x_cluster_link.Informer.Handlers.{named, new_ex_ip}

module _ (K : Kube) (cluster_id : String) (st : StatefulSet) (w : World K) where
  -- The one GatewayExIp that may be created, and what the cluster answered before that: the VPC had
  -- none, no route of it leads elsewhere, and the gateway's pod has the address.
  pub record Registered (e : Effect) : Type 0 where
    pub available : st.available_replicas ≡ 1
    pub nat_gw : VpcNatGateway
    pub nat_gw_at : K.State
    pub nat_gw_found :
        K.get_nat_gateway (named (gateway_of st)) w.state ≡ (answer nat_gw, nat_gw_at)
    pub pod : Pod
    pub is_gateway_pod : IsGatewayPod K (gateway_of st) pod
    pub error : K.Err
    pub at : K.State
    pub then_at : K.State
    pub missing : K.get_ex_ip (ex_ip_key nat_gw.vpc cluster_id) at ≡ (refuse error, then_at)
    pub not_found : K.is_not_found error ≡ true
    pub vpc : Vpc
    pub vpc_at : K.State
    pub vpc_found : K.get_vpc (named nat_gw.vpc) then_at ≡ (answer vpc, vpc_at)
    pub routed : all_routes_via nat_gw.lan_ip vpc.static_routes ≡ true
    pub ip : String
    pub extern_ip :
        lookup "ovn-vpc-external-network.kube-system.kubernetes.io/ip_address"
          pod.metadata.annotations
        ≡ some ip
    pub cluster : Cluster
    pub cluster_at : K.State
    pub cluster_found : K.get_cluster (cluster_key cluster_id) vpc_at ≡ (answer cluster, cluster_at)
    pub cidr : String
    pub is_cidr : head? cluster.global_cidr ≡ some cidr
    pub created : e ≡ Effect.create_ex_ip (new_ex_ip K cluster_id nat_gw pod ip cidr)

  -- The VpcNatGateway that the cluster answered for the added gateway.
  abbrev pub NatGwOf : VpcNatGateway → Type 0
  NatGwOf nat_gw =
      (s : K.State) × (K.get_nat_gateway (named (gateway_of st)) w.state ≡ (answer nat_gw, s))

  -- The cluster answered so for the GatewayExIp of the gateway's VPC.
  abbrev pub ExIpReply : VpcNatGateway → Reply K.Err GatewayExIp → K.State → Type 0
  ExIpReply nat_gw reply s' =
      (s : K.State) × (K.get_ex_ip (ex_ip_key nat_gw.vpc cluster_id) s ≡ (reply, s'))

  -- Why the handler returns without a request.
  pub data Passed : Type 0 where
    unavailable : st.available_replicas ≢ 1 → Passed
    exists :
        (nat_gw : VpcNatGateway) (x : GatewayExIp) (s : K.State)
        → NatGwOf nat_gw
        → ExIpReply nat_gw (answer x) s
        → Passed
    unknown :
        (nat_gw : VpcNatGateway) (e : K.Err) (s : K.State)
        → NatGwOf nat_gw
        → ExIpReply nat_gw (refuse e) s
        → K.is_not_found e ≡ false
        → Passed
    elsewhere :
        (nat_gw : VpcNatGateway) (e : K.Err) (s s' : K.State) (vpc : Vpc)
        → NatGwOf nat_gw
        → ExIpReply nat_gw (refuse e) s
        → K.get_vpc (named nat_gw.vpc) s ≡ (answer vpc, s')
        → all_routes_via nat_gw.lan_ip vpc.static_routes ≡ false
        → Passed
