-- ===== src/NatTunnel/Exec.antt =====
-- vpcnattunnel_controller.go: running a shell command in a pod. The request to the exec endpoint
-- and the stream over it are the cluster's; text on stderr counts as a failure.
use x_cluster_link.Base.{String, [], ◌∷◌, if◌then◌else◌, ◌==◌}
use x_cluster_link.Base.Text.{trim_space}
use x_cluster_link.Kube.{Kube, M, Effect, pure, throw, read, request, ◌>>=◌, ◌>>◌}

module _ (K : Kube) where
  -- What is made of the command's stderr.
  unfoldable pub check_stderr : String → M K (Unit {0})
  check_stderr stderr =
      let message = trim_space stderr in if message == "" then pure tt else throw (K.errorf message)

  unfoldable pub exec_command_in_pod : String → String → String → String → M K (Unit {0})
  unfolding check_stderr
  exec_command_in_pod pod_name namespace container_name command = do
    read K.new_for_config
    let cmd = "sh" ∷ "-c" ∷ command ∷ []
    read K.new_spdy_executor
    stderr ←
        request (Effect.exec pod_name namespace container_name cmd)
          (K.stream pod_name namespace container_name cmd)
    check_stderr stderr
