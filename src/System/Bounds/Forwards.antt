-- ===== src/System/Bounds/Forwards.antt =====
-- How many requests the reconciler of VpcDnsForward makes at most in one run.
use x_cluster_link.Base.{String, Option, none, some, arith}
use x_cluster_link.Objects.{ObjectKey, VpcDnsForward, Deployment}
use x_cluster_link.Kube.{Kube, M, Reply, answer, refuse}
use x_cluster_link.Kube.Costs.{
  Costs, Costs-pure, Costs-throw, Costs-or_panic, Costs-read, Costs-request, Costs-most, Costs-if,
  Costs-bind, Costs-then, Costs-attempt,
}
use x_cluster_link.Dns.Corefile.{check_dns_corefile, update_dns_corefile}
use x_cluster_link.Dns.Route.{gen_route_to_core_dns, get_vpc_dns_deployment}
use x_cluster_link.Dns.Handlers.{
  edit_deployment, create_dns_connection, delete_dns_connection, handle_delete,
  handle_create_or_update, dispatch, fail_with, reconcile,
}

module _ (K : Kube) where
  Costs-route : Costs 0 (gen_route_to_core_dns K)
  unfolding gen_route_to_core_dns
  Costs-route =
      Costs-bind _ _ (Costs-read _) (λ _. Costs-bind _ _ (Costs-read _) (λ _. Costs-pure _))

  Costs-deployment : (d : VpcDnsForward) → Costs 0 (get_vpc_dns_deployment K d)
  unfolding get_vpc_dns_deployment
  Costs-deployment d = Costs-bind _ _ (Costs-read _) (λ _. Costs-read _)

  Costs-edit_deployment :
      (change : String → String) (d : Deployment) → Costs 1 (edit_deployment K change d)
  unfolding edit_deployment
  Costs-edit_deployment change d =
      Costs-bind _ _ (Costs-or_panic _) (λ _. Costs-then _ _ (Costs-request _ _) (Costs-pure tt))

  Costs-update_dns_corefile : Costs 1 (update_dns_corefile K)
  unfolding update_dns_corefile
  Costs-update_dns_corefile = Costs-bind _ _ (Costs-read _) (λ _.
      Costs-bind _ _ (Costs-read _) (λ _.
        Costs-bind _ _ (Costs-or_panic _)
          (λ _. Costs-then _ _ (Costs-request _ _) (Costs-pure tt))))

  Costs-create_dns_connection : (d : VpcDnsForward) → Costs 2 (create_dns_connection K d)
  unfolding create_dns_connection check_dns_corefile
  Costs-create_dns_connection d =
      Costs-bind _ _ (Costs-bind _ _ (Costs-read _) (λ _. Costs-pure _)) (λ _.
        Costs-then _ _
          (Costs-if _ _ _ Costs-update_dns_corefile (Costs-most 1 (omega arith) (Costs-pure tt)))
          (Costs-bind _ _ Costs-route
            (λ route. Costs-bind _ _ (Costs-deployment d) (λ x. Costs-edit_deployment _ x))))

  Costs-dispatch : (d : VpcDnsForward) → Costs 3 (dispatch K d)
  unfolding handle_delete handle_create_or_update delete_dns_connection
  Costs-dispatch d =
      Costs-if _ _ _
        (Costs-most 3 (omega arith) (
          Costs-if _ _ _
            (Costs-then _ _
              (Costs-bind _ _ Costs-route
                (λ route. Costs-bind _ _ (Costs-deployment d) (λ x. Costs-edit_deployment _ x)))
              (Costs-then _ _ (Costs-request _ _) (Costs-pure tt)))
            (Costs-most 2 (omega arith) (Costs-pure tt))))
        (Costs-bind _ _
          (Costs-if _ _ _ (Costs-request _ _) (Costs-most 1 (omega arith) (Costs-pure d)))
          (λ d'. Costs-create_dns_connection d'))

  Costs-fail_with : (e : Option K.Err) → Costs 0 (fail_with K e)
  Costs-fail_with none = Costs-pure tt
  Costs-fail_with (some e) = Costs-throw e

  pub Costs-reconcile : (key : ObjectKey) → Costs 3 (reconcile K key)
  unfolding reconcile
  Costs-reconcile key = Costs-bind _ _ (Costs-attempt _ (Costs-read _)) answered
    where
      answered :
          (r : Reply K.Err VpcDnsForward)
          → Costs 3 (elim r as (λ _. M K (Unit {0})) [
            | answer d ↦ dispatch K d
            | refuse e ↦ fail_with K (K.ignore_not_found e)
          ])
      answered (answer d) = Costs-dispatch d
      answered (refuse e) = Costs-most 3 (omega arith) (Costs-fail_with (K.ignore_not_found e))
