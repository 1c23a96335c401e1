-- ===== src/Startup/Environment.antt =====
-- gatewayexip_controller.go: InitEnvVars.
use x_cluster_link.Base.{String, Bool, true, false}
use x_cluster_link.Kube.{Kube, Reply, answer, refuse}
use x_cluster_link.Startup.{
  Libraries, ServiceDiscovery, Boot, pure, call, or_panic, setenv, ◌>>=◌, ◌>>◌,
}

-- strconv.FormatBool
abbrev pub format_bool : Bool → String
format_bool true = "true"
format_bool false = "false"

module _ {K : Kube} (L : Libraries K) where
  -- The block of calls of os.Setenv.
  unfoldable pub set_variables : ServiceDiscovery → Boot L (Unit {0})
  set_variables cr = do
    setenv "SUBMARINER_NAMESPACE" cr.namespace
    setenv "SUBMARINER_CLUSTERID" cr.cluster_id
    setenv "SUBMARINER_DEBUG" (format_bool cr.debug)
    setenv "SUBMARINER_GLOBALNET_ENABLED" (format_bool cr.globalnet_enabled)
    setenv "SUBMARINER_HALT_ON_CERT_ERROR" (format_bool cr.halt_on_certificate_error)
    setenv (L.environment_variable "ApiServer") cr.broker_api_server
    setenv (L.environment_variable "ApiServerToken") cr.broker_api_server_token
    setenv (L.environment_variable "RemoteNamespace") cr.broker_remote_namespace
    setenv (L.environment_variable "CA") cr.broker_ca
    setenv (L.environment_variable "Insecure") (format_bool cr.broker_insecure)
    setenv (L.environment_variable "Secret") cr.broker_secret

  unfoldable pub init_env_vars : L.DynamicClient → Boot L (Reply L.Err (Unit {0}))
  init_env_vars client = do
    found ← call (L.get_service_discovery client)
    elim found [
      | refuse e ↦ pure (refuse e)
      | answer obj ↦ (do cr ← or_panic (L.convert obj); set_variables cr; pure (answer tt))
    ]
