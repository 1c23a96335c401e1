-- ===== src/System/Bounds/Gateways.antt =====
-- How many requests the informer and the syncer make at most in one run, where the cluster lists at
-- most `n` tunnels at a time.
use mathlib.Core.Bool.{true≢false}
use x_cluster_link.Base.{
  String, ◌≡◌, refl, ℕ, ◌+◌, ◌≤◌, arith, Bool, true, false, ◌&&◌, List, [], ◌∷◌, if◌then◌else◌,
  ◌=ℕ=◌, ◌!=◌,
}
use x_cluster_link.Base.GoMap.{Entries}
use x_cluster_link.Objects.{Pod, VpcNatTunnel, GatewayExIp, StatefulSet, Vpc, VpcNatGateway}
use x_cluster_link.Kube.{Kube, M, Reply, answer, refuse, pure, ◌>>=◌, ◌>>◌}
use x_cluster_link.Kube.Costs.{
  length, Costs, Costs-pure, Costs-or_panic, Costs-read, Costs-request, Costs-most, Costs-if,
  Costs-bind, Costs-then, Costs-after, Costs-attempt, Costs-bind-read,
}
use x_cluster_link.NatTunnel.Gateway.{get_gw_extern_ip}
use x_cluster_link.Informer.Lookup.{gateway_of, local_gateway, find_ex_ip, list_gateways}
use x_cluster_link.Informer.Switch.{update_tunnels, list_tunnels_of, switch_to}
use x_cluster_link.Informer.Handlers.{
  register, on_add, fail_over, on_down, refresh, on_up, on_update, hand_over, on_delete,
}
use x_cluster_link.Syncer.Handlers.{retarget, ignore_error, on_remote_gateway_ex_ip_synced}
use x_cluster_link.System.Bounds.Tunnels.{Costs-get_nat_gw_pod, Costs-or_error}

module _ (K : Kube) where
  Costs-update_tunnels :
      (change : VpcNatTunnel → VpcNatTunnel) (ts : List VpcNatTunnel)
      → Costs (length ts) (update_tunnels K change ts)
  unfolding update_tunnels
  Costs-update_tunnels change [] = Costs-pure tt
  Costs-update_tunnels change (t ∷ ts) =
      Costs-most _ (omega arith)
        (Costs-then _ _ (Costs-request _ _) (Costs-update_tunnels change ts))

  Costs-retarget : (ip : String) (ts : List VpcNatTunnel) → Costs (length ts) (retarget K ip ts)
  unfolding retarget
  Costs-retarget ip [] = Costs-pure tt
  Costs-retarget ip (t ∷ ts) =
      let rest = Costs-retarget ip ts in
      Costs-if _ _ _ (Costs-most _ (omega arith) rest)
        (Costs-most _ (omega arith) (Costs-then _ _ (Costs-request _ _) rest))

  Costs-find_ex_ip : (cluster_id gateway : String) → Costs 0 (find_ex_ip K cluster_id gateway)
  unfolding find_ex_ip
  Costs-find_ex_ip cluster_id gateway = Costs-bind _ _ (Costs-read _) (λ _. Costs-pure _)

  Costs-switch_to :
      (gw : StatefulSet) (vpc : Vpc) (x : GatewayExIp) → Costs 2 (switch_to K gw vpc x)
  unfolding switch_to get_gw_extern_ip
  Costs-switch_to gw vpc x = Costs-bind _ _ (Costs-get_nat_gw_pod K _) (λ pod.
      Costs-bind _ _ (Costs-or_error K _ _) (λ ip. Costs-then _ _ (Costs-request _ _) (
        Costs-bind _ _ (Costs-or_panic _)
          (λ labels. Costs-then _ _ (Costs-request _ _) (Costs-pure _)))))

  module _ (n : ℕ)
      (fits : (selector : Entries) (ts : List VpcNatTunnel) (s s' : K.State)
        → K.list_tunnels "" selector s ≡ (answer ts, s')
        → length ts ≤ n) where
    Costs-tunnels_of :
        (vpc : String) (change : VpcNatTunnel → VpcNatTunnel)
        → Costs n (list_tunnels_of K vpc >>= λ ts. update_tunnels K change ts)
    unfolding list_tunnels_of
    Costs-tunnels_of vpc change =
        Costs-bind-read _ _
          (λ ts s s' e. Costs-most n (fits _ ts s s' e) (Costs-update_tunnels change ts))

    module _ (cluster_id : String) where
      Costs-fail_over :
          (st : StatefulSet) (x : GatewayExIp) → Costs (2 + n) (fail_over K cluster_id st x)
      unfolding fail_over list_tunnels_of list_gateways
      Costs-fail_over st x = Costs-after _ _ (Costs-read _) (λ vpc.
          Costs-bind-read _ _ (λ ts s s' e. Costs-after _ _ (Costs-read _) (λ items.
            Costs-if _ _ _ (Costs-most _ (omega arith) (Costs-pure tt)) (
              Costs-bind _ _ (Costs-switch_to _ vpc x)
                (λ ip. Costs-most n (fits _ ts s s' e) (Costs-update_tunnels _ ts))))))

      Costs-hand_over :
          (st : StatefulSet) (x : GatewayExIp) → Costs (2 + n) (hand_over K cluster_id st x)
      unfolding hand_over list_gateways
      Costs-hand_over st x = Costs-after _ _ (Costs-read _) (λ vpc.
          Costs-after _ _ (Costs-read _) (λ items.
            Costs-if _ _ _ (Costs-most _ (omega arith) (Costs-request _ _))
              (Costs-bind _ _ (Costs-switch_to _ vpc x) (λ ip. Costs-tunnels_of _ _))))

      Costs-refresh :
          (st : StatefulSet) (x : GatewayExIp) → Costs (2 + n) (refresh K cluster_id st x)
      unfolding refresh get_gw_extern_ip
      Costs-refresh st x = Costs-after _ _ (Costs-get_nat_gw_pod K _) (λ pod.
          Costs-after _ _ (Costs-or_error K _ _) (λ ip.
            Costs-most _ (omega arith)
              (Costs-bind _ _ (Costs-request _ _) (λ stored. Costs-tunnels_of _ _))))

      pub Costs-on_add : (st : StatefulSet) → Costs 1 (on_add K cluster_id st)
      unfolding on_add register get_gw_extern_ip
      Costs-on_add st =
          Costs-if _ _ _
            (Costs-after _ _ (Costs-read _) (λ nat_gw.
              Costs-after _ _ (Costs-get_nat_gw_pod K _) (λ pod.
                Costs-after _ _ (Costs-attempt _ (Costs-read _)) (λ r. found nat_gw pod r))))
            (Costs-most 1 (omega arith) (Costs-pure tt))
        where
          found :
              (nat_gw : VpcNatGateway) (pod : Pod) (r : Reply K.Err GatewayExIp)
              → Costs 1 (elim r as (λ _. M K (Unit {0})) [
                | answer _ ↦ pure tt
                | refuse e ↦ if K.is_not_found e then register K cluster_id nat_gw pod else pure tt
              ])
          found nat_gw pod (answer _) = Costs-most 1 (omega arith) (Costs-pure tt)
          found nat_gw pod (refuse e) =
              Costs-if _ _ _
                (Costs-after _ _ (Costs-read _) (λ vpc.
                  Costs-if _ _ _
                    (Costs-after _ _ (Costs-read _) (λ cluster.
                      Costs-after _ _ (Costs-or_error K _ _) (λ ip.
                        Costs-after _ _ (Costs-or_panic _)
                          (λ cidr. Costs-then _ _ (Costs-request _ _) (Costs-pure tt)))))
                    (Costs-most 1 (omega arith) (Costs-pure tt))))
                (Costs-most 1 (omega arith) (Costs-pure tt))

      -- The two tests on the number of replicas are not both true.
      pub Costs-on_update : (old new : StatefulSet) → Costs (2 + n) (on_update K cluster_id old new)
      unfolding on_update on_down on_up if◌then◌else◌ ◌>>◌
      Costs-on_update old new =
          go (old.available_replicas =ℕ= 1 && new.available_replicas =ℕ= 0)
            (old.available_replicas =ℕ= 0 && new.available_replicas =ℕ= 1) (λ h. ground (arith, h))
        where
          found :
              (f : GatewayExIp → M K (Unit {0}))
              → ((x : GatewayExIp) → Costs (2 + n) (f x))
              → Costs (2 + n) (
                  find_ex_ip K cluster_id (gateway_of new) >>= λ x.
                  if local_gateway x != gateway_of new then pure tt else f x)
          found f c =
              Costs-after _ _ (Costs-find_ex_ip _ _)
                (λ x. Costs-if _ _ _ (Costs-most _ (omega arith) (Costs-pure tt)) (c x))

          go :
              (down up : Bool)
              → ((down ≡ true) → up ≡ false)
              → Costs (2 + n) (
                  (if down then on_down K cluster_id new else pure tt)
                  >> (if up then on_up K cluster_id new else pure tt))
          go true true h = absurd (true≢false (h refl))
          go true false h =
              Costs-most (2 + n) (omega arith)
                (Costs-then _ _ (found _ (Costs-fail_over new)) (Costs-pure tt))
          go false true h = Costs-after _ _ (Costs-pure tt) (λ _. found _ (Costs-refresh new))
          go false false h =
              Costs-most (2 + n) (omega arith) (Costs-then _ _ (Costs-pure tt) (Costs-pure tt))

      pub Costs-on_delete : (st : StatefulSet) → Costs (2 + n) (on_delete K cluster_id st)
      unfolding on_delete
      Costs-on_delete st =
          Costs-after _ _ (Costs-find_ex_ip _ _) (λ x.
            Costs-if _ _ _ (Costs-most _ (omega arith) (Costs-pure tt)) (Costs-hand_over st x))

      pub Costs-on_remote_gateway_ex_ip_synced :
          (x : GatewayExIp) → Costs n (on_remote_gateway_ex_ip_synced K x)
      unfolding on_remote_gateway_ex_ip_synced
      Costs-on_remote_gateway_ex_ip_synced x = Costs-after _ _ (Costs-or_panic _) (λ p.
          Costs-most n (omega arith) (
            Costs-bind _ _
              (Costs-attempt _ (
                Costs-bind-read _ _
                  (λ ts s s' e. Costs-most n (fits _ ts s s' e) (Costs-retarget _ ts))))
              ended))
        where
          ended : (r : Reply K.Err (Unit {0})) → Costs 0 (ignore_error K r)
          ended (answer _) = Costs-pure false
          ended (refuse _) = Costs-pure false
