-- ===== src/Startup/Agent.antt =====
-- gatewayexip_controller.go: NewGwExIpSyner and Start.
use x_cluster_link.Base.{Option, none, some, [], ◌∷◌}
use x_cluster_link.Kube.{Kube, Reply, answer, refuse}
use x_cluster_link.Syncer.Handlers.{
  on_local_gateway_ex_ip, on_local_gateway_ex_ip_synced, on_remote_gateway_ex_ip,
  on_remote_gateway_ex_ip_synced,
}
use x_cluster_link.Startup.{
  Libraries, AgentSpecification, ResourceConfig, SyncerConfig, Controller, Boot, pure, call,
  or_panic, ◌>>=◌,
}

module _ {K : Kube} (L : Libraries K) where
  -- The one entry of `ResourceConfigs`, with `BrokerResyncPeriod`.
  abbrev pub gateway_ex_ip_config : ResourceConfig K
  gateway_ex_ip_config = record {
    local_source_namespace = "";
    transform_local_to_broker = on_local_gateway_ex_ip;
    on_successful_sync_to_broker = on_local_gateway_ex_ip_synced;
    transform_broker_to_local = on_remote_gateway_ex_ip;
    on_successful_sync_from_broker = on_remote_gateway_ex_ip_synced K;
    broker_resync_minutes = 2;
  }

  abbrev pub Config : Type 0
  Config = SyncerConfig K L.RestConfig L.RestMapper L.DynamicClient

  abbrev pub complete_config : AgentSpecification → Config → Config
  complete_config spec config = record config {
    local_namespace = "";
    local_cluster_id = spec.cluster_id;
    resource_configs = gateway_ex_ip_config ∷ [];
  }

  -- The error of NewSyncer is logged, and nil is returned.
  unfoldable pub new_gw_ex_ip_syner :
      AgentSpecification → Config → Boot L (Option (Controller L.Syncer))
  new_gw_ex_ip_syner spec config = do
    made ← call (L.new_syncer (complete_config spec config))
    elim made [
      | answer syncer ↦ pure (some (record { cluster_id = spec.cluster_id; syncer = syncer }))
      | refuse _ ↦ pure none
    ]

  -- Controller.Start, which the manager calls; `c.Syncer` of a nil controller panics.
  unfoldable pub start : Option (Controller L.Syncer) → Boot L (Reply L.Err (Unit {0}))
  start c = do controller ← or_panic c; call (L.start_syncer controller.syncer)
