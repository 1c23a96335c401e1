-- ===== src/NatTunnel/Setup.antt =====
-- vpcnattunnel_controller.go, handleCreateOrUpdate: the branch that builds a tunnel for the first
-- time, and the branch that brings a built tunnel up to date.
use x_cluster_link.Base.{
  String, ◌<>◌, Bool, true, ◌&&◌, ◌||◌, none, some, [], if◌then◌else◌, ◌==◌, ◌!=◌,
}
use x_cluster_link.Base.GoMap.{Entries, GoMap, index, insert, put}
use x_cluster_link.Objects.{ObjectKey, VpcNatTunnel, GatewayExIp, Pod}
use x_cluster_link.Kube.{Kube, M, Effect, pure, or_panic, read, request, ◌>>=◌, ◌>>◌}
use x_cluster_link.NatTunnel.Gateway.{
  get_nat_gw_pod, get_globalnet_cidr, get_global_egress_ip, get_gw_extern_ip, get_ovn_gw_ip,
}
use x_cluster_link.NatTunnel.Exec.{exec_command_in_pod}
use x_cluster_link.NatTunnel.Routes.{
  gen_globalnet_route, gen_del_globalnet_route, gen_create_tunnel_cmd, gen_delete_tunnel_cmd,
}

-- The key of a GatewayExIp: `<vpc>.<cluster>` in kube-system.
abbrev pub ex_ip_key : String → String → ObjectKey
ex_ip_key vpc cluster = record { name = vpc <> "." <> cluster; namespace = "kube-system" }

-- The status as far as the two GatewayExIps and the spec give it.
unfoldable pub begin_status : VpcNatTunnel → GatewayExIp → GatewayExIp → VpcNatTunnel
begin_status t local remote = record t {
  status = record (t.status) {
    local_gw = index local.metadata.labels "localGateway";
    remote_ip = remote.spec.external_ip;
    remote_globalnet_cidr = remote.spec.global_net_cidr;
    initialized = true;
    interface_addr = t.spec.interface_addr;
    tunnel_type = t.spec.tunnel_type;
  };
}

-- `labels` is the object's map, or a new one where that is nil.
unfoldable pub tunnel_labels : VpcNatTunnel → GoMap
tunnel_labels t =
    let labels : Entries = elim (t.metadata.labels) [ none ↦ [] | some m ↦ m ] in
    some (
      put "remoteVpc" t.spec.remote_vpc
        (put "remoteCluster" t.spec.remote_cluster (put "localVpc" t.spec.local_vpc labels)))

-- What is written to the spec and the labels after the first build.
unfoldable pub stamp_spec : VpcNatTunnel → GatewayExIp → GatewayExIp → VpcNatTunnel
unfolding tunnel_labels
stamp_spec t local remote = record t {
  spec = record (t.spec) {
    internal_ip = t.status.internal_ip;
    local_gw = index local.metadata.labels "localGateway";
    remote_ip = remote.spec.external_ip;
  };
  metadata = record (t.metadata) { labels = tunnel_labels t };
}

-- Whether a built tunnel differs from what it should be.
unfoldable pub is_outdated : VpcNatTunnel → GatewayExIp → Bool
is_outdated t remote =
    t.status.remote_ip != t.spec.remote_ip
    || t.status.internal_ip != t.spec.internal_ip
    || t.status.interface_addr != t.spec.interface_addr
    || t.status.local_gw != t.spec.local_gw
    || t.status.remote_globalnet_cidr != remote.spec.global_net_cidr
    || t.status.tunnel_type != t.spec.tunnel_type

-- The status after an update.
unfoldable pub next_status : VpcNatTunnel → GatewayExIp → VpcNatTunnel
next_status t remote = record t {
  status = record (t.status) {
    remote_ip = t.spec.remote_ip;
    remote_globalnet_cidr = remote.spec.global_net_cidr;
    internal_ip = t.spec.internal_ip;
    interface_addr = t.spec.interface_addr;
  };
}

abbrev pub move_gateway : VpcNatTunnel → VpcNatTunnel
move_gateway t = record t { status = record (t.status) { local_gw = t.spec.local_gw } }

abbrev pub revert_type : VpcNatTunnel → VpcNatTunnel
revert_type t = record t { spec = record (t.spec) { tunnel_type = t.status.tunnel_type } }

-- Whether the gateway that carries the tunnel is still the one that should.
unfoldable pub keeps_gateway : VpcNatTunnel → Bool
keeps_gateway t = t.status.local_gw == t.spec.local_gw && t.spec.internal_ip == t.status.internal_ip

unfoldable pub has_no_addresses : VpcNatTunnel → Bool
has_no_addresses t = t.spec.local_gw == "" && t.spec.remote_ip == "" && t.spec.internal_ip == ""

unfoldable pub labels_outdated : VpcNatTunnel → Bool
labels_outdated t =
    index t.metadata.labels "remoteCluster" != t.spec.remote_cluster
    || index t.metadata.labels "remoteVpc" != t.spec.remote_vpc
    || index t.metadata.labels "localVpc" != t.spec.local_vpc

module _ (K : Kube) where
  -- Every command of the reconciler runs in the gateway's container.
  abbrev pub run_in : Pod → String → M K (Unit {0})
  run_in pod command =
      exec_command_in_pod K pod.metadata.name pod.metadata.namespace "vpc-nat-gw" command

  -- The tunnel and then its routes are built in a pod.
  unfoldable pub build : Pod → VpcNatTunnel → M K (Unit {0})
  build pod t = do
    run_in pod (gen_create_tunnel_cmd t)
    route ← or_panic (gen_globalnet_route t)
    run_in pod route

  -- The routes and then the tunnel are removed from a pod.
  unfoldable pub tear_down : Pod → VpcNatTunnel → M K (Unit {0})
  tear_down pod t = do
    route ← or_panic (gen_del_globalnet_route t)
    run_in pod route
    run_in pod (gen_delete_tunnel_cmd t)

  abbrev pub save : VpcNatTunnel → M K VpcNatTunnel
  save t = request (Effect.update_tunnel t) (K.update_tunnel t)

  abbrev pub save_status : VpcNatTunnel → M K VpcNatTunnel
  save_status t = request (Effect.update_tunnel_status t) (K.update_tunnel_status t)

  -- The pod of the gateway, and the status with what is looked up in the cluster.
  unfoldable pub complete_status : String → VpcNatTunnel → M K (Pod × VpcNatTunnel)
  complete_status cluster_id t = do
    gw_pod ← get_nat_gw_pod K t.status.local_gw
    cidr ← get_globalnet_cidr K cluster_id
    ovn_gw_ip ← get_ovn_gw_ip K gw_pod
    egress ← get_global_egress_ip K
    internal_ip ← get_gw_extern_ip K gw_pod
    pure (
      gw_pod,
      record t {
        status = record (t.status) {
          globalnet_cidr = cidr;
          ovn_gw_ip = ovn_gw_ip;
          global_egress_ip = egress;
          internal_ip = internal_ip;
        };
      },
    )

  -- `if !vpcTunnel.Status.Initialized`
  unfoldable pub initialise : String → VpcNatTunnel → GatewayExIp → M K (Unit {0})
  initialise cluster_id t remote = do
    local ← read (K.get_ex_ip (ex_ip_key t.spec.local_vpc cluster_id))
    (gw_pod, t') ← complete_status cluster_id (begin_status t local remote)
    build gw_pod t'
    stored ← save_status t'
    save (stamp_spec stored local remote)
    pure tt

  -- Where the gateway stays, the old routes and tunnel are removed from it first. Where it changes,
  -- the old gateway is gone and only the new one is looked up.
  unfoldable pub choose_gateway : VpcNatTunnel → M K (Pod × VpcNatTunnel)
  choose_gateway t =
      if keeps_gateway t
      then (do gw_pod ← get_nat_gw_pod K t.status.local_gw; tear_down gw_pod t; pure (gw_pod, t))
      else (do gw_pod ← get_nat_gw_pod K t.spec.local_gw; pure (gw_pod, move_gateway t))

  -- `labels_outdated` objects get the three labels again; the write to a nil map panics.
  unfoldable pub relabel : VpcNatTunnel → M K (Unit {0})
  relabel t =
      if labels_outdated t
      then (do
        l₁ ← or_panic (insert "remoteCluster" t.spec.remote_cluster t.metadata.labels)
        l₂ ← or_panic (insert "remoteVpc" t.spec.remote_vpc l₁)
        l₃ ← or_panic (insert "localVpc" t.spec.local_vpc l₂)
        save (record t { metadata = record (t.metadata) { labels = l₃ } })
        pure tt)
      else pure tt

  -- The part of the update below the checks.
  unfoldable pub rebuild : VpcNatTunnel → GatewayExIp → M K (Unit {0})
  rebuild t remote = do
    (gw_pod, t') ← choose_gateway t
    build gw_pod (next_status t' remote)
    stored ← save_status (next_status t' remote)
    relabel stored

  -- The body of the `else if` branch.
  unfoldable pub update : VpcNatTunnel → GatewayExIp → M K (Unit {0})
  update t remote =
      if t.status.tunnel_type != t.spec.tunnel_type
      then (do save (revert_type t); pure tt)
      else if has_no_addresses t
      then pure tt
      else rebuild t remote
