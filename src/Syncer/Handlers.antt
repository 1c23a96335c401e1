-- ===== src/Syncer/Handlers.antt =====
-- gatewayexip_controller.go: the four functions handed to the broker's syncer. The Boolean asks for
-- the object to be queued again.
use x_cluster_link.Base.{
  String, Bool, false, Option, none, some, List, [], ◌∷◌, if◌then◌else◌, ◌==◌,
}
use x_cluster_link.Base.GoMap.{Entries, index}
use x_cluster_link.Base.Text.{split_in_two}
use x_cluster_link.Objects.{VpcNatTunnel, GatewayExIp}
use x_cluster_link.Kube.{
  Kube, M, Effect, Reply, answer, refuse, pure, or_panic, read, request, attempt, ◌>>=◌, ◌>>◌,
}

-- `none` is the nil object, which is not synced.
unfoldable pub on_local_gateway_ex_ip : GatewayExIp → Option GatewayExIp × Bool
on_local_gateway_ex_ip ex_ip =
    if ex_ip.metadata.namespace == "submariner-k8s-broker"
    then (none, false)
    else (some ex_ip, false)

unfoldable pub on_local_gateway_ex_ip_synced : GatewayExIp → Bool
on_local_gateway_ex_ip_synced ex_ip = false

unfoldable pub on_remote_gateway_ex_ip : GatewayExIp → Option GatewayExIp × Bool
on_remote_gateway_ex_ip ex_ip =
    let namespace = index ex_ip.metadata.labels "submariner-io/originatingNamespace" in
    (some (record ex_ip { metadata = record (ex_ip.metadata) { namespace = namespace } }), false)

-- `splitStrings[0]` and `splitStrings[1]`, if both are there.
abbrev pub both : List String → Option (String × String)
both [] = none
both (_ ∷ []) = none
both (vpc ∷ cluster ∷ _) = some (vpc, cluster)

unfoldable pub vpc_and_cluster : String → Option (String × String)
unfolding split_in_two
vpc_and_cluster name = both (split_in_two name ".")

abbrev pub set_remote_ip : String → VpcNatTunnel → VpcNatTunnel
set_remote_ip ip t = record t { spec = record (t.spec) { remote_ip = ip } }

abbrev pub remote_labels : String → String → Entries
remote_labels vpc cluster = ("remoteCluster", cluster) ∷ ("remoteVpc", vpc) ∷ []

module _ (K : Kube) where
  -- The loop over the tunnels: those that have the address are passed over, and the first write
  -- that fails ends it.
  unfoldable pub retarget : String → List VpcNatTunnel → M K (Unit {0})
  retarget ip [] = pure tt
  retarget ip (t ∷ ts) =
      let rest = retarget ip ts in
      if t.spec.remote_ip == ip
      then rest
      else (request (Effect.update_tunnel (set_remote_ip ip t))
            (K.update_tunnel (set_remote_ip ip t))
          >> rest)

  abbrev pub ignore_error : Reply K.Err (Unit {0}) → M K Bool
  ignore_error (answer _) = pure false
  ignore_error (refuse _) = pure false

  -- An error of the list or of a write ends the function, and is not returned.
  unfoldable pub on_remote_gateway_ex_ip_synced : GatewayExIp → M K Bool
  unfolding retarget
  on_remote_gateway_ex_ip_synced ex_ip = do
    (vpc, cluster) ← or_panic (vpc_and_cluster ex_ip.metadata.name)
    ended ← attempt (do
      tunnels ← read (K.list_tunnels "" (remote_labels vpc cluster))
      retarget ex_ip.spec.external_ip tunnels)
    ignore_error ended
