-- ===== src/Startup/Outside.antt =====
-- What main.go calls and does not implement, over an unknown state: the manager, the clients, the
-- environment's reader and the broker's syncer.
use mathlib.Core.Int.{ℤ}
use x_cluster_link.Base.{String, Bool, Option, List, ℕ}
use x_cluster_link.Base.GoMap.{Entries}
use x_cluster_link.Objects.{GatewayExIp}
use x_cluster_link.Kube.{Kube, M, Call, Reply}

-- The fields of submarinerv1alpha1.ServiceDiscovery's Spec that are read
pub record ServiceDiscovery : Type 0 where
  pub namespace : String
  pub cluster_id : String
  pub debug : Bool
  pub globalnet_enabled : Bool
  pub halt_on_certificate_error : Bool
  pub broker_api_server : String
  pub broker_api_server_token : String
  pub broker_remote_namespace : String
  pub broker_ca : String
  pub broker_insecure : Bool
  pub broker_secret : String

-- gatewayexip_controller.go
pub record AgentSpecification : Type 0 where
  pub cluster_id : String
  pub namespace : String
  pub verbosity : ℤ
  pub globalnet_enabled : Bool
  pub uninstall : Bool
  pub halt_on_cert_error : Bool
  pub debug : Bool

-- tls.Config: `NextProtos`
pub record TlsConfig : Type 0 where
  pub next_protos : List String

-- The fields of ctrl.Options that main.go sets, with the webhook server's options in place of the server
pub record ManagerOptions : Type 0 where
  pub bind_address : String
  pub secure_serving : Bool
  pub tls_opts : List (TlsConfig → TlsConfig)
  pub webhook_tls_opts : List (TlsConfig → TlsConfig)
  pub health_probe_bind_address : String
  pub leader_election : Bool
  pub leader_election_id : String

-- broker.ResourceConfig, for GatewayExIp on both sides. "" is metav1.NamespaceAll.
pub record ResourceConfig (K : Kube) : Type 0 where
  pub local_source_namespace : String
  pub transform_local_to_broker : GatewayExIp → Option GatewayExIp × Bool
  pub on_successful_sync_to_broker : GatewayExIp → Bool
  pub transform_broker_to_local : GatewayExIp → Option GatewayExIp × Bool
  pub on_successful_sync_from_broker : GatewayExIp → M K Bool
  pub broker_resync_minutes : ℕ

-- broker.SyncerConfig
pub record SyncerConfig (K : Kube) (RestConfig RestMapper DynamicClient : Type 0) : Type 0 where
  pub local_rest_config : RestConfig
  pub local_client : DynamicClient
  pub rest_mapper : RestMapper
  pub local_namespace : String
  pub local_cluster_id : String
  pub resource_configs : List (ResourceConfig K)

-- gatewayexip_controller.go
pub record Controller (Syncer : Type 0) : Type 0 where
  pub cluster_id : String
  pub syncer : Syncer

-- What main.go hands to the manager. A nil controller is `none`.
pub data Component (Syncer : Type 0) : Type 0 where
  agent : Option (Controller Syncer) → Component Syncer
  tunnel_reconciler : (cluster_id : String) → Component Syncer
  forward_reconciler : Component Syncer
  gateway_informer : (cluster_id : String) → Component Syncer
  healthz : Component Syncer
  readyz : Component Syncer

-- The API groups whose types are registered, and the two schemes.
pub data Api : Type 0 where
  kube_ovn : Api
  submariner : Api
  submariner_operator : Api
  kubernetes : Api
  own : Api

pub data Scheme : Type 0 where
  manager_scheme : Scheme
  client_go_scheme : Scheme

pub record Libraries (K : Kube) : Type 1 where
  pub State : Type 0
  pub Err : Type 0
  pub RestConfig : Type 0
  pub Manager : Type 0
  pub RestMapper : Type 0
  pub DynamicClient : Type 0
  pub Syncer : Type 0
  pub Unstructured : Type 0
  -- AddToScheme of an API group
  pub add_to_scheme : Api → Scheme → Call State Err (Unit {0})
  -- ctrl.GetConfigOrDie, which exits where it is `none`
  pub get_config : State → Option RestConfig × State
  -- ctrl.NewManager and GetConfig of a manager
  pub new_manager : RestConfig → ManagerOptions → Call State Err Manager
  pub manager_config : Manager → RestConfig
  -- util.BuildRestMapper and dynamic.NewForConfig
  pub build_rest_mapper : RestConfig → Call State Err RestMapper
  pub new_dynamic_client : RestConfig → Call State Err DynamicClient
  -- Get of the ServiceDiscovery "service-discovery" in "submariner-operator"
  pub get_service_discovery : DynamicClient → Call State Err Unstructured
  -- Scheme.Convert, whose error is `none`
  pub convert : Unstructured → Option ServiceDiscovery
  -- broker.EnvironmentVariable
  pub environment_variable : String → String
  -- envconfig.Process("submariner", &spec)
  pub process : Entries → AgentSpecification → Reply Err AgentSpecification
  -- broker.NewSyncer and the Syncer's Start
  pub new_syncer : SyncerConfig K RestConfig RestMapper DynamicClient → Call State Err Syncer
  pub start_syncer : Syncer → Call State Err (Unit {0})
  -- mgr.Add, SetupWithManager, AddHealthzCheck and AddReadyzCheck
  pub add : Component Syncer → Call State Err (Unit {0})
  -- mgr.Start
  pub start_manager : Call State Err (Unit {0})
