-- ===== src/Startup/Main.antt =====
-- cmd/main.go: init and main.
use mathlib.Core.Int.{ℤ}
use x_cluster_link.Base.{String, Bool, false, not, Option, List, [], ◌∷◌, if◌then◌else◌}
use x_cluster_link.Kube.{Kube}
use x_cluster_link.Startup.{
  Libraries, Api, Scheme, must, AgentSpecification, TlsConfig, ManagerOptions, Component,
  Controller, Boot, call, or_exit, get_config, environment, add, start_manager, ◌>>=◌, ◌>>◌,
}
use x_cluster_link.Startup.Environment.{init_env_vars}
use x_cluster_link.Startup.Agent.{new_gw_ex_ip_syner}

-- The command line.
pub record Flags : Type 0 where
  pub metrics_bind_address : String
  pub health_probe_bind_address : String
  pub leader_elect : Bool
  pub metrics_secure : Bool
  pub enable_http2 : Bool

-- The values of flags that are not given.
abbrev pub default_flags : Flags
default_flags = record {
  metrics_bind_address = ":8080";
  health_probe_bind_address = ":8081";
  leader_elect = false;
  metrics_secure = false;
  enable_http2 = false;
}

abbrev pub disable_http2 : TlsConfig → TlsConfig
disable_http2 c = record c { next_protos = "http/1.1" ∷ [] }

abbrev pub tls_opts : Bool → List (TlsConfig → TlsConfig)
tls_opts enable_http2 = if not enable_http2 then disable_http2 ∷ [] else []

unfoldable pub manager_options : Flags → ManagerOptions
manager_options flags = record {
  bind_address = flags.metrics_bind_address;
  secure_serving = flags.metrics_secure;
  tls_opts = tls_opts flags.enable_http2;
  webhook_tls_opts = tls_opts flags.enable_http2;
  health_probe_bind_address = flags.health_probe_bind_address;
  leader_election = flags.leader_elect;
  leader_election_id = "a18cab20.ustc.io";
}

-- What `agentSpec` is before envconfig fills it. log.DEBUG is a number of admiral's log package.
abbrev pub initial_spec : ℤ → AgentSpecification
initial_spec debug_level = record {
  cluster_id = "";
  namespace = "";
  verbosity = debug_level;
  globalnet_enabled = false;
  uninstall = false;
  halt_on_cert_error = false;
  debug = false;
}

module _ {K : Kube} (L : Libraries K) where
  unfoldable pub register : Api → Scheme → Boot L (Unit {0})
  register api scheme = do added ← call (L.add_to_scheme api scheme); must added

  -- init
  unfoldable pub init : Boot L (Unit {0})
  unfolding register
  init = do
    register Api.kube_ovn Scheme.manager_scheme
    register Api.submariner Scheme.manager_scheme
    register Api.kubernetes Scheme.manager_scheme
    register Api.own Scheme.manager_scheme
    register Api.submariner_operator Scheme.manager_scheme
    register Api.submariner Scheme.client_go_scheme
    register Api.submariner_operator Scheme.client_go_scheme
    register Api.own Scheme.client_go_scheme

module _ {K : Kube} (L : Libraries K) (debug_level : ℤ) where
  -- From the ServiceDiscovery to the specification of the agent, by way of the environment.
  unfoldable pub configure : L.DynamicClient → Boot L AgentSpecification
  configure client = do
    initialised ← init_env_vars L client
    or_exit initialised
    env ← environment
    or_exit (L.process env (initial_spec debug_level))

  -- Every part is handed to the manager.
  unfoldable pub add_parts : AgentSpecification → Option (Controller L.Syncer) → Boot L (Unit {0})
  add_parts spec controller = do
    r₁ ← add (Component.agent controller)
    or_exit r₁
    r₂ ← add (Component.tunnel_reconciler spec.cluster_id)
    or_exit r₂
    r₃ ← add Component.forward_reconciler
    or_exit r₃
    r₄ ← add (Component.gateway_informer spec.cluster_id)
    or_exit r₄
    r₅ ← add Component.healthz
    or_exit r₅
    r₆ ← add Component.readyz
    or_exit r₆

  unfoldable pub main : Flags → Boot L (Unit {0})
  unfolding manager_options
  main flags = do
    config ← get_config
    managed ← call (L.new_manager config (manager_options flags))
    manager ← or_exit managed
    let cfg = L.manager_config manager
    mapped ← call (L.build_rest_mapper cfg)
    rest_mapper ← or_exit mapped
    connected ← call (L.new_dynamic_client cfg)
    local_client ← or_exit connected
    spec ← configure local_client
    controller ← new_gw_ex_ip_syner L spec (record {
      local_rest_config = cfg;
      local_client = local_client;
      rest_mapper = rest_mapper;
      local_namespace = "";
      local_cluster_id = "";
      resource_configs = [];
    })
    add_parts spec controller
    started ← start_manager
    or_exit started

  -- The program as Go runs it.
  unfoldable pub program : Flags → Boot L (Unit {0})
  program flags = do init L; main flags
