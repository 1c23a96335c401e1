-- ===== src/NatTunnel/Handlers.antt =====
-- vpcnattunnel_controller.go: Reconcile and its two handlers. A `ctrl.Result{}` is `tt`.
use x_cluster_link.Base.{String, Option, none, some, not, if◌then◌else◌, contains_string}
use x_cluster_link.Objects.{is_zero, ObjectKey, VpcNatTunnel}
use x_cluster_link.Kube.{Kube, M, answer, refuse, pure, throw, read, attempt, ◌>>=◌, ◌>>◌}
use x_cluster_link.NatTunnel.Gateway.{get_nat_gw_pod}
use x_cluster_link.NatTunnel.Setup.{initialise, is_outdated, update, tear_down, save, ex_ip_key}

abbrev pub finalizer : String
finalizer = "tunnel.finalizer.ustc.io"

abbrev pub with_finalizer : (K : Kube) → VpcNatTunnel → VpcNatTunnel
with_finalizer K t = record t {
  metadata = record (t.metadata) { finalizers = K.add_finalizer t.metadata.finalizers finalizer };
}

abbrev pub without_finalizer : (K : Kube) → VpcNatTunnel → VpcNatTunnel
without_finalizer K t = record t {
  metadata = record (t.metadata) {
    finalizers = K.remove_finalizer t.metadata.finalizers finalizer;
  };
}

module _ (K : Kube) where
  -- The object with the finalizer, which the cluster must hold before anything is built.
  unfoldable pub ensure_finalizer : VpcNatTunnel → M K VpcNatTunnel
  unfolding contains_string
  ensure_finalizer t =
      if not (contains_string t.metadata.finalizers finalizer)
      then save K (with_finalizer K t)
      else pure t

  unfoldable pub handle_create_or_update : String → VpcNatTunnel → M K (Unit {0})
  unfolding ensure_finalizer
  handle_create_or_update cluster_id vpc_tunnel = do
    t ← ensure_finalizer vpc_tunnel
    remote ← read (K.get_ex_ip (ex_ip_key t.spec.remote_vpc t.spec.remote_cluster))
    if not t.status.initialized
        then initialise K cluster_id t remote
        else if is_outdated t remote
        then update K t remote
        else pure tt

  unfoldable pub handle_delete : VpcNatTunnel → M K (Unit {0})
  unfolding contains_string
  handle_delete t =
      if contains_string t.metadata.finalizers finalizer
      then (do
        gw_pod ← get_nat_gw_pod K t.status.local_gw
        tear_down K gw_pod t
        save K (without_finalizer K t)
        pure tt)
      else pure tt

  abbrev pub fail_with : Option K.Err → M K (Unit {0})
  fail_with none = pure tt
  fail_with (some e) = throw e

  abbrev pub dispatch : String → VpcNatTunnel → M K (Unit {0})
  dispatch cluster_id t =
      if not (is_zero t.metadata.deletion_timestamp)
      then handle_delete t
      else handle_create_or_update cluster_id t

  unfoldable pub reconcile : String → ObjectKey → M K (Unit {0})
  reconcile cluster_id request = do
    found ← attempt (read (K.get_tunnel request))
    elim found [ answer t ↦ dispatch cluster_id t | refuse e ↦ fail_with (K.ignore_not_found e) ]
