-- ===== src/System/Bounds/Tunnels.antt =====
-- How many requests the reconciler of VpcNatTunnel makes at most in one run.
use x_cluster_link.Base.{String, Option, none, some, List, [], ◌∷◌, arith}
use x_cluster_link.Objects.{ObjectKey, Pod, VpcNatTunnel, GatewayExIp}
use x_cluster_link.Kube.{Kube, M, Reply, answer, refuse}
use x_cluster_link.Kube.Costs.{
  Costs, Costs-pure, Costs-throw, Costs-or_panic, Costs-read, Costs-request, Costs-most, Costs-if,
  Costs-bind, Costs-then, Costs-attempt,
}
use x_cluster_link.NatTunnel.Exec.{check_stderr, exec_command_in_pod}
use x_cluster_link.NatTunnel.Gateway.{
  get_nat_gw_pod, the_running_pod, get_globalnet_cidr, get_global_egress_ip, get_gw_extern_ip,
  get_ovn_gw_ip, or_error,
}
use x_cluster_link.NatTunnel.Setup.{
  run_in, build, tear_down, complete_status, initialise, choose_gateway, relabel, rebuild, update,
}
use x_cluster_link.NatTunnel.Handlers as Tunnels

module _ (K : Kube) where
  pub Costs-run_in : (pod : Pod) (command : String) → Costs 1 (run_in K pod command)
  unfolding exec_command_in_pod check_stderr
  Costs-run_in pod command = Costs-then _ _ (Costs-read _) (
      Costs-then _ _ (Costs-read _) (
        Costs-bind _ _ (Costs-request _ _)
          (λ stderr. Costs-if _ _ _ (Costs-pure tt) (Costs-throw _))))

  Costs-build : (pod : Pod) (t : VpcNatTunnel) → Costs 2 (build K pod t)
  unfolding build
  Costs-build pod t =
      Costs-then _ _ (Costs-run_in pod _)
        (Costs-bind _ _ (Costs-or_panic _) (λ route. Costs-run_in pod _))

  Costs-tear_down : (pod : Pod) (t : VpcNatTunnel) → Costs 2 (tear_down K pod t)
  unfolding tear_down
  Costs-tear_down pod t =
      Costs-bind _ _ (Costs-or_panic _)
        (λ route. Costs-then _ _ (Costs-run_in pod _) (Costs-run_in pod _))

  Costs-the_running_pod : (name : String) (pods : List Pod) → Costs 0 (the_running_pod K name pods)
  unfolding the_running_pod
  Costs-the_running_pod name [] = Costs-throw _
  Costs-the_running_pod name (pod ∷ []) = Costs-if _ _ _ (Costs-pure pod) (Costs-throw _)
  Costs-the_running_pod name (_ ∷ _ ∷ _) = Costs-throw _

  pub Costs-get_nat_gw_pod : (name : String) → Costs 0 (get_nat_gw_pod K name)
  unfolding get_nat_gw_pod
  Costs-get_nat_gw_pod name =
      Costs-bind _ _ (Costs-read _) (λ pods. Costs-the_running_pod name pods)

  pub Costs-or_error : (o : Option String) (message : String) → Costs 0 (or_error K o message)
  Costs-or_error none message = Costs-throw _
  Costs-or_error (some v) message = Costs-pure v

  Costs-complete_status :
      (cluster_id : String) (t : VpcNatTunnel) → Costs 0 (complete_status K cluster_id t)
  unfolding complete_status get_globalnet_cidr get_global_egress_ip get_gw_extern_ip get_ovn_gw_ip
  Costs-complete_status cluster_id t = Costs-bind _ _ (Costs-get_nat_gw_pod _) (λ pod.
      Costs-bind _ _ (Costs-bind _ _ (Costs-read _) (λ _. Costs-or_panic _)) (λ cidr.
        Costs-bind _ _ (Costs-or_error _ _) (λ ip.
          Costs-bind _ _ (Costs-bind _ _ (Costs-read _) (λ _. Costs-pure _))
            (λ egress. Costs-bind _ _ (Costs-or_error _ _) (λ internal. Costs-pure _)))))

  Costs-initialise :
      (cluster_id : String) (t : VpcNatTunnel) (remote : GatewayExIp)
      → Costs 4 (initialise K cluster_id t remote)
  unfolding initialise
  Costs-initialise cluster_id t remote = Costs-bind _ _ (Costs-read _) (λ local.
      Costs-bind _ _ (Costs-complete_status _ _) (λ p. Costs-then _ _ (Costs-build p.0 p.1) (
        Costs-bind _ _ (Costs-request _ _)
          (λ stored. Costs-then _ _ (Costs-request _ _) (Costs-pure tt)))))

  Costs-choose_gateway : (t : VpcNatTunnel) → Costs 2 (choose_gateway K t)
  unfolding choose_gateway
  Costs-choose_gateway t =
      Costs-if _ _ _
        (Costs-bind _ _ (Costs-get_nat_gw_pod _)
          (λ pod. Costs-then _ _ (Costs-tear_down pod t) (Costs-pure _)))
        (Costs-most 2 (omega arith) (Costs-bind _ _ (Costs-get_nat_gw_pod _) (λ pod. Costs-pure _)))

  Costs-relabel : (t : VpcNatTunnel) → Costs 1 (relabel K t)
  unfolding relabel
  Costs-relabel t =
      Costs-if _ _ _
        (Costs-bind _ _ (Costs-or_panic _) (λ _. Costs-bind _ _ (Costs-or_panic _) (λ _.
          Costs-bind _ _ (Costs-or_panic _)
            (λ _. Costs-then _ _ (Costs-request _ _) (Costs-pure tt)))))
        (Costs-most 1 (omega arith) (Costs-pure tt))

  Costs-update : (t : VpcNatTunnel) (remote : GatewayExIp) → Costs 6 (update K t remote)
  unfolding update rebuild
  Costs-update t remote =
      Costs-if _ _ _
        (Costs-most 6 (omega arith) (Costs-then _ _ (Costs-request _ _) (Costs-pure tt)))
        (Costs-if _ _ _ (Costs-most 6 (omega arith) (Costs-pure tt)) (
          Costs-bind _ _ (Costs-choose_gateway t) (λ p.
            Costs-then _ _ (Costs-build _ _)
              (Costs-bind _ _ (Costs-request _ _) (λ stored. Costs-relabel stored)))))

  Costs-fail_with : (e : Option K.Err) → Costs 0 (Tunnels.fail_with K e)
  Costs-fail_with none = Costs-pure tt
  Costs-fail_with (some e) = Costs-throw e

  Costs-dispatch :
      (cluster_id : String) (t : VpcNatTunnel) → Costs 7 (Tunnels.dispatch K cluster_id t)
  unfolding Tunnels.handle_delete Tunnels.handle_create_or_update Tunnels.ensure_finalizer
  Costs-dispatch cluster_id t =
      Costs-if _ _ _
        (Costs-most 7 (omega arith) (
          Costs-if _ _ _
            (Costs-bind _ _ (Costs-get_nat_gw_pod _) (λ pod.
              Costs-then _ _ (Costs-tear_down pod t)
                (Costs-then _ _ (Costs-request _ _) (Costs-pure tt))))
            (Costs-most 3 (omega arith) (Costs-pure tt))))
        (Costs-bind _ _
          (Costs-if _ _ _ (Costs-request _ _) (Costs-most 1 (omega arith) (Costs-pure t)))
          (λ t'. Costs-bind _ _ (Costs-read _) (λ remote.
            Costs-if _ _ _ (Costs-most 6 (omega arith) (Costs-initialise cluster_id t' remote)) (
              Costs-if _ _ _ (Costs-update t' remote)
                (Costs-most 6 (omega arith) (Costs-pure tt))))))

  pub Costs-reconcile :
      (cluster_id : String) (key : ObjectKey) → Costs 7 (Tunnels.reconcile K cluster_id key)
  unfolding Tunnels.reconcile
  Costs-reconcile cluster_id key = Costs-bind _ _ (Costs-attempt _ (Costs-read _)) answered
    where
      answered :
          (r : Reply K.Err VpcNatTunnel)
          → Costs 7 (elim r as (λ _. M K (Unit {0})) [
            | answer t ↦ Tunnels.dispatch K cluster_id t
            | refuse e ↦ Tunnels.fail_with K (K.ignore_not_found e)
          ])
      answered (answer t) = Costs-dispatch cluster_id t
      answered (refuse e) = Costs-most 7 (omega arith) (Costs-fail_with (K.ignore_not_found e))
