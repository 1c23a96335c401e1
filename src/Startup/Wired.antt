-- ===== src/Startup/Wired.antt =====
-- cmd/main.go: the order in which the manager is given its parts, and where their cluster id comes from.
use mathlib.Core.Int.{ℤ}
use x_cluster_link.Base.{String, ◌≡◌, Option, none, some, List, [], ◌∷◌, ◌++◌, ◌⊎◌}
use x_cluster_link.Base.GoMap.{Entries}
use x_cluster_link.Kube.{Kube, answer, refuse}
use x_cluster_link.Startup.{
  Libraries, Api, Scheme, ManagerOptions, ServiceDiscovery, AgentSpecification, Controller,
  Component, Note, Machine, set,
}
use x_cluster_link.Startup.Environment.{format_bool}
use x_cluster_link.Startup.Agent.{Config, complete_config}
use x_cluster_link.Startup.Main.{initial_spec}

-- The variables are set one after the other.
abbrev pub set_all : Entries → Entries → Entries
set_all [] env = env
set_all ((name, value) ∷ rest) env = set_all rest (set name value env)

module _ {K : Kube} (L : Libraries K) where
  -- The variables and their values, in the order of the code.
  abbrev pub later_variables : ServiceDiscovery → Entries
  later_variables cr =
      ("SUBMARINER_DEBUG", format_bool cr.debug)
      ∷ ("SUBMARINER_GLOBALNET_ENABLED", format_bool cr.globalnet_enabled)
      ∷ ("SUBMARINER_HALT_ON_CERT_ERROR", format_bool cr.halt_on_certificate_error)
      ∷ (L.environment_variable "ApiServer", cr.broker_api_server)
      ∷ (L.environment_variable "ApiServerToken", cr.broker_api_server_token)
      ∷ (L.environment_variable "RemoteNamespace", cr.broker_remote_namespace)
      ∷ (L.environment_variable "CA", cr.broker_ca)
      ∷ (L.environment_variable "Insecure", format_bool cr.broker_insecure)
      ∷ (L.environment_variable "Secret", cr.broker_secret)
      ∷ []

  abbrev pub variables : ServiceDiscovery → Entries
  variables cr =
      ("SUBMARINER_NAMESPACE", cr.namespace)
      ∷ ("SUBMARINER_CLUSTERID", cr.cluster_id)
      ∷ later_variables cr

  -- A ServiceDiscovery that the cluster answered.
  abbrev pub Discovered : ServiceDiscovery → Type 0
  Discovered cr =
      (client : L.DynamicClient) × (s s' : L.State) × (obj : L.Unstructured)
      × (L.get_service_discovery client s ≡ (answer obj, s'))
      × (L.convert obj ≡ some cr)

  -- The agent that NewGwExIpSyner makes of the specification, nil if NewSyncer fails.
  abbrev pub AgentOf : AgentSpecification → Option (Controller L.Syncer) → Type 0
  AgentOf spec c =
      (config : Config L) × (s s' : L.State) × (((e : L.Err) × (L.new_syncer
              (complete_config L spec config) s
            ≡ (refuse e, s'))
          × (c ≡ none))
        ⊎ ((syncer : L.Syncer) × (L.new_syncer (complete_config L spec config) s
              ≡ (answer syncer, s'))
            × (c ≡ some (record { cluster_id = spec.cluster_id; syncer = syncer }))))

  module _ (debug_level : ℤ) where
    -- A specification that envconfig makes where the variables are those of a ServiceDiscovery.
    abbrev pub Configured : Entries → AgentSpecification → Type 0
    Configured env spec =
        (cr : ServiceDiscovery) × Discovered cr
        × (L.process (set_all (variables cr) env) (initial_spec debug_level) ≡ answer spec)

    -- The six parts, newest first.
    abbrev pub six_parts : Option (Controller L.Syncer) → String → List (Note L.Syncer)
    six_parts c cluster_id =
        Note.added Component.readyz
        ∷ Note.added Component.healthz
        ∷ Note.added (Component.gateway_informer cluster_id)
        ∷ Note.added Component.forward_reconciler
        ∷ Note.added (Component.tunnel_reconciler cluster_id)
        ∷ Note.added (Component.agent c)
        ∷ []

    -- What ends a start before the manager is given a part, with `env` as the environment at first: a
    -- library refused.
    pub data Refusal (env : Entries) : Type 0 where
      types :
          (api : Api) (scheme : Scheme) (e : L.Err) (s s' : L.State)
          → L.add_to_scheme api scheme s ≡ (refuse e, s')
          → Refusal env
      rest_config : (s s' : L.State) → L.get_config s ≡ (none, s') → Refusal env
      manager :
          (config : L.RestConfig) (options : ManagerOptions) (e : L.Err) (s s' : L.State)
          → L.new_manager config options s ≡ (refuse e, s')
          → Refusal env
      rest_mapper :
          (config : L.RestConfig) (e : L.Err) (s s' : L.State)
          → L.build_rest_mapper config s ≡ (refuse e, s')
          → Refusal env
      dynamic_client :
          (config : L.RestConfig) (e : L.Err) (s s' : L.State)
          → L.new_dynamic_client config s ≡ (refuse e, s')
          → Refusal env
      discovery :
          (client : L.DynamicClient) (e : L.Err) (s s' : L.State)
          → L.get_service_discovery client s ≡ (refuse e, s')
          → Refusal env
      conversion :
          (client : L.DynamicClient) (obj : L.Unstructured) (s s' : L.State)
          → L.get_service_discovery client s ≡ (answer obj, s')
          → L.convert obj ≡ none
          → Refusal env
      specification :
          (cr : ServiceDiscovery) (e : L.Err)
          → Discovered cr
          → L.process (set_all (variables cr) env) (initial_spec debug_level) ≡ refuse e
          → Refusal env

    -- The manager refused the part.
    abbrev pub RefusedPart : Component L.Syncer → Type 0
    RefusedPart part =
        (e : L.Err) × (s : L.State) × (s' : L.State) × (L.add part s ≡ (refuse e, s'))

    -- A program that has come from `m` to `m'`.
    pub data Wired (m m' : Machine L) : Type 0 where
      nothing : Refusal m.env → m'.log ≡ m.log → Wired m m'
      -- The manager refused `part`, was not given those after it, and was not started.
      some_parts :
          (spec : AgentSpecification) (c : Option (Controller L.Syncer))
          (given : List (Note L.Syncer)) (part : Component L.Syncer) (later : List (Note L.Syncer))
          → Configured m.env spec
          → AgentOf spec c
          → RefusedPart part
          → later ++ (Note.added part ∷ given) ≡ six_parts c spec.cluster_id
          → m'.log ≡ given ++ m.log
          → Wired m m'
      started :
          (spec : AgentSpecification) (c : Option (Controller L.Syncer))
          → Configured m.env spec
          → AgentOf spec c
          → m'.log ≡ Note.manager_started ∷ (six_parts c spec.cluster_id ++ m.log)
          → Wired m m'
