-- ===== src/Dns/Handlers.antt =====
-- vpcdnsforward_controller.go: Reconcile and its handlers.
use x_cluster_link.Base.{
  String, Option, none, some, not, List, [], ◌∷◌, if◌then◌else◌, contains_string,
}
use x_cluster_link.Objects.{is_zero, ObjectKey, VpcDnsForward, Deployment, Container}
use x_cluster_link.Kube.{
  Kube, M, Effect, answer, refuse, pure, throw, or_panic, read, request, attempt, ◌>>=◌, ◌>>◌,
}
use x_cluster_link.Dns.Corefile.{check_dns_corefile, update_dns_corefile}
use x_cluster_link.Dns.Route.{
  add_route, remove_route, each, gen_route_to_core_dns, get_vpc_dns_deployment,
}

abbrev pub finalizer : String
finalizer = "dns.finalizer.ustc.io"

-- The loop over the command of `InitContainers[0]`; `none` is the panic where there is none.
abbrev pub edit_first : (String → String) → List Container → Option (List Container)
edit_first change [] = none
edit_first change (c ∷ cs) = some (record c { command = each change c.command } ∷ cs)

abbrev pub with_finalizer : (K : Kube) → VpcDnsForward → VpcDnsForward
with_finalizer K d = record d {
  metadata = record (d.metadata) { finalizers = K.add_finalizer d.metadata.finalizers finalizer };
}

abbrev pub without_finalizer : (K : Kube) → VpcDnsForward → VpcDnsForward
without_finalizer K d = record d {
  metadata = record (d.metadata) {
    finalizers = K.remove_finalizer d.metadata.finalizers finalizer;
  };
}

module _ (K : Kube) where
  abbrev pub save : VpcDnsForward → M K VpcDnsForward
  save d = request (Effect.update_dns_forward d) (K.update_dns_forward d)

  -- The commands of the deployment are edited, and it is written back.
  unfoldable pub edit_deployment : (String → String) → Deployment → M K (Unit {0})
  edit_deployment change deployment = do
    containers ← or_panic (edit_first change deployment.init_containers)
    let deployment' = record deployment { init_containers = containers }
    request (Effect.update_deployment deployment') (K.update_deployment deployment')
    pure tt

  unfoldable pub create_dns_connection : VpcDnsForward → M K (Unit {0})
  create_dns_connection vpc_dns = do
    state ← check_dns_corefile K
    if not state then update_dns_corefile K else pure tt
    route ← gen_route_to_core_dns K
    deployment ← get_vpc_dns_deployment K vpc_dns
    edit_deployment (add_route route) deployment

  unfoldable pub delete_dns_connection : VpcDnsForward → M K (Unit {0})
  delete_dns_connection vpc_dns = do
    route ← gen_route_to_core_dns K
    deployment ← get_vpc_dns_deployment K vpc_dns
    edit_deployment (remove_route route) deployment

  unfoldable pub handle_create_or_update : VpcDnsForward → M K (Unit {0})
  unfolding contains_string
  handle_create_or_update vpc_dns = do
    d ←
        if not (contains_string vpc_dns.metadata.finalizers finalizer)
        then save (with_finalizer K vpc_dns)
        else pure vpc_dns
    create_dns_connection d

  unfoldable pub handle_delete : VpcDnsForward → M K (Unit {0})
  unfolding contains_string
  handle_delete d =
      if contains_string d.metadata.finalizers finalizer
      then (do delete_dns_connection d; save (without_finalizer K d); pure tt)
      else pure tt

  abbrev pub fail_with : Option K.Err → M K (Unit {0})
  fail_with none = pure tt
  fail_with (some e) = throw e

  abbrev pub dispatch : VpcDnsForward → M K (Unit {0})
  dispatch d =
      if not (is_zero d.metadata.deletion_timestamp)
      then handle_delete d
      else handle_create_or_update d

  unfoldable pub reconcile : ObjectKey → M K (Unit {0})
  reconcile request = do
    found ← attempt (read (K.get_dns_forward request))
    elim found [ answer d ↦ dispatch d | refuse e ↦ fail_with (K.ignore_not_found e) ]
