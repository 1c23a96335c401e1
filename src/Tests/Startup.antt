-- ===== src/Tests/Startup.antt =====
-- Starts of the program with demo libraries.
use mathlib.Core.Int.{pos}
use mathlib.Core.List.{Memᴰ}
use x_cluster_link.Base.{
  differs, String, ◌≡◌, ◌≢◌, ◌⊎◌, inl, inr, refl, sym, ap, ◌∙◌, Bool, true, false, Option, some,
  none, List, [], ◌∷◌, ◌==◌, if◌then◌else◌, Bool-cases,
}
use x_cluster_link.Base.All.{All}
use x_cluster_link.Base.GoMap.{find, put}
use x_cluster_link.Base.Text.Removal.{lacks}
use x_cluster_link.Kube.{Reply, answer, refuse}
use x_cluster_link.Startup.{
  Libraries, ServiceDiscovery, AgentSpecification, Controller, Component, Note, Machine, panic, set,
  pure, call, or_exit, must, or_panic, get_config, setenv, environment, add, start_manager, ◌>>=◌,
  ◌>>◌,
}
use x_cluster_link.Startup.Environment.{set_variables, init_env_vars}
use x_cluster_link.Startup.Agent.{new_gw_ex_ip_syner, start}
use x_cluster_link.Startup.Main.{default_flags, configure, add_parts, main, program, init, register}
use x_cluster_link.Startup.Wired.{Discovered, Wired}
use x_cluster_link.Startup.Wiring.{program-Wired}
use x_cluster_link.Startup.Identity.{ReadsClusterId, OfCluster, program-OfCluster}
use x_cluster_link.Startup.Faults.{NoSyncer, program-start_panics}
use x_cluster_link.Tests.Demo.{demo}

abbrev discovery : ServiceDiscovery
discovery = record {
  namespace = "submariner-operator";
  cluster_id = "west";
  debug = false;
  globalnet_enabled = true;
  halt_on_certificate_error = true;
  broker_api_server = "10.9.8.7:6443";
  broker_api_server_token = "token";
  broker_remote_namespace = "broker";
  broker_ca = "ca";
  broker_insecure = false;
  broker_secret = "secret";
}

abbrev with_id : Option String → AgentSpecification → AgentSpecification
with_id none spec = spec
with_id (some id) spec = record spec { cluster_id = id }

abbrev broker_variable : String → String
broker_variable part = if part == "Secret" then "BROKER_K8S_SECRET" else "BROKER_K8S_OTHER"

-- Each call is answered.
abbrev demo_libraries : Libraries demo
demo_libraries = record {
  State = Unit;
  Err = String;
  RestConfig = Unit;
  Manager = Unit;
  RestMapper = Unit;
  DynamicClient = Unit;
  Syncer = String;
  Unstructured = Unit;
  add_to_scheme = λ _ _ s. (answer tt, s);
  get_config = λ s. (some tt, s);
  new_manager = λ _ _ s. (answer tt, s);
  manager_config = λ _. tt;
  build_rest_mapper = λ _ s. (answer tt, s);
  new_dynamic_client = λ _ s. (answer tt, s);
  get_service_discovery = λ _ s. (answer tt, s);
  convert = λ _. some discovery;
  environment_variable = broker_variable;
  process = λ env spec. answer (with_id (find "SUBMARINER_CLUSTERID" env) spec);
  new_syncer = λ config s. (answer config.local_cluster_id, s);
  start_syncer = λ _ s. (answer tt, s);
  add = λ _ s. (answer tt, s);
  start_manager = λ s. (answer tt, s);
}

abbrev fresh : Machine demo_libraries
fresh = record { state = tt; env = ("SUBMARINER_CLUSTERID", "stale") ∷ []; log = [] }

abbrev agent : Option (Controller String)
agent = some (record { cluster_id = "west"; syncer = "west" })

abbrev whole_log : Option (Controller String) → List (Note String)
whole_log c =
    Note.manager_started
    ∷ Note.added Component.readyz
    ∷ Note.added Component.healthz
    ∷ Note.added (Component.gateway_informer "west")
    ∷ Note.added Component.forward_reconciler
    ∷ Note.added (Component.tunnel_reconciler "west")
    ∷ Note.added (Component.agent c)
    ∷ []

program_demo : (program demo_libraries (pos 2) default_flags fresh).1.log ≡ whole_log agent
unfolding program init register must main configure add_parts init_env_vars set_variables
    new_gw_ex_ip_syner set put find if◌then◌else◌ ◌==◌ pure call or_exit or_panic get_config setenv
    environment add start_manager ◌>>=◌ ◌>>◌
program_demo = refl

program-Wired_example :
    Wired demo_libraries (pos 2) fresh (program demo_libraries (pos 2) default_flags fresh).1
program-Wired_example = program-Wired demo_libraries (pos 2) default_flags fresh

other : (part : String) → broker_variable part ≢ "SUBMARINER_CLUSTERID"
unfolding if◌then◌else◌ ◌==◌
other part e = elim (Bool-cases (part == "Secret")) [
  | inl x ↦ absurd (differs "BROKER_K8S_SECRET" "SUBMARINER_CLUSTERID" refl (rw x at e))
  | inr x ↦ absurd (differs "BROKER_K8S_OTHER" "SUBMARINER_CLUSTERID" refl (rw x at e))
]

clean : (cr : ServiceDiscovery) → Discovered demo_libraries cr → lacks 0 cr.cluster_id ≡ true
clean cr (client, s, s', obj, found, converted) = ap (λ o. lacks_or o) (sym converted)
  where
    lacks_or : Option ServiceDiscovery → Bool
    lacks_or none = true
    lacks_or (some cr) = lacks 0 cr.cluster_id

reads : ReadsClusterId demo_libraries
reads env spec spec' id made found =
    ap (λ r. id_of r) (sym made) ∙ ap (λ o. (with_id o spec).cluster_id) found
  where
    id_of : Reply String AgentSpecification → String
    id_of (answer spec) = spec.cluster_id
    id_of (refuse e) = e

program-OfCluster_example :
    ((program demo_libraries (pos 2) default_flags fresh).1.log ≡ [])
    ⊎ ((cr : ServiceDiscovery) × Discovered demo_libraries cr
        × All
            (OfCluster demo_libraries cr.cluster_id)
            (program demo_libraries (pos 2) default_flags fresh).1.log)
program-OfCluster_example =
    program-OfCluster demo_libraries (pos 2) default_flags fresh other clean reads refl

-- The broker cannot be reached.
abbrev no_broker : Libraries demo
no_broker = record demo_libraries { new_syncer = λ _ s. (refuse "no broker", s) }

abbrev lonely : Machine no_broker
lonely = record { state = tt; env = []; log = [] }

no_syncer : NoSyncer no_broker
no_syncer config s = ("no broker", s, refl)

given :
    Memᴰ (Note.added (Component.agent none)) (program no_broker (pos 2) default_flags lonely).1.log
unfolding program init register must main configure add_parts init_env_vars set_variables
    new_gw_ex_ip_syner set put find if◌then◌else◌ ◌==◌ pure call or_exit or_panic get_config setenv
    environment add start_manager ◌>>=◌ ◌>>◌
given = Memᴰ.tail (Memᴰ.tail (Memᴰ.tail (Memᴰ.tail (Memᴰ.tail (Memᴰ.tail (Memᴰ.head refl))))))

program-start_panics_example : start no_broker none lonely ≡ (panic, lonely)
program-start_panics_example =
    program-start_panics no_broker (pos 2) default_flags lonely none no_syncer refl given lonely
