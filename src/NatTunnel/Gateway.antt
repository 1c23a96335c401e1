-- ===== src/NatTunnel/Gateway.antt =====
-- vpcnattunnel_controller.go: the lookups of the gateway's pod and of the addresses of this
-- cluster. The five seconds of sleep before two of the errors are left out.
use x_cluster_link.Base.{String, ◌<>◌, Option, none, some, List, [], ◌∷◌, if◌then◌else◌, ◌==◌}
use x_cluster_link.Base.GoMap.{Entries, lookup}
use x_cluster_link.Objects.{ObjectKey, Pod}
use x_cluster_link.Kube.{Kube, M, pure, throw, or_panic, read, ◌>>=◌}

abbrev pub gen_nat_gw_sts_name : String → String
gen_nat_gw_sts_name name = "vpc-nat-gw-" <> name

abbrev pub gw_labels : String → Entries
gw_labels name = ("app", gen_nat_gw_sts_name name) ∷ ("ovn.kubernetes.io/vpc-nat-gw", "true") ∷ []

abbrev pub head? {ℓ} : {A : Type ℓ} → List A → Option A
head? [] = none
head? (x ∷ xs) = some x

abbrev pub cluster_key : String → ObjectKey
cluster_key cluster_id = record { name = cluster_id; namespace = "submariner-operator" }

abbrev pub egress_key : ObjectKey
egress_key = record { name = "cluster-egress.submariner.io"; namespace = "" }

module _ (K : Kube) where
  -- The `switch` of getNatGwPod.
  unfoldable pub the_running_pod : String → List Pod → M K Pod
  the_running_pod name [] = throw (K.new_not_found name)
  the_running_pod name (pod ∷ []) =
      if pod.phase == "Running" then pure pod else throw (K.errorf "pod is not active now")
  the_running_pod name (_ ∷ _ ∷ _) = throw (K.errorf "too many pod")

  unfoldable pub get_nat_gw_pod : String → M K Pod
  unfolding the_running_pod
  get_nat_gw_pod name = do
    pods ← read (K.list_pods "kube-system" (gw_labels name))
    the_running_pod name pods

  unfoldable pub get_globalnet_cidr : String → M K String
  get_globalnet_cidr cluster_id = do
    cluster ← read (K.get_cluster (cluster_key cluster_id))
    or_panic (head? cluster.global_cidr)

  unfoldable pub get_global_egress_ip : M K (List String)
  get_global_egress_ip = do
    egress ← read (K.get_global_egress_ip egress_key)
    pure egress.allocated_ips

  abbrev pub or_error : Option String → String → M K String
  or_error none message = throw (K.errorf message)
  or_error (some v) message = pure v

  unfoldable pub get_gw_extern_ip : Pod → M K String
  get_gw_extern_ip pod =
      or_error
        (lookup "ovn-vpc-external-network.kube-system.kubernetes.io/ip_address"
          pod.metadata.annotations)
        "no ovn-vpc-external-network ip"

  unfoldable pub get_ovn_gw_ip : Pod → M K String
  get_ovn_gw_ip pod =
      or_error (lookup "ovn.kubernetes.io/gateway" pod.metadata.annotations) "no ovn gateway"
