-- ===== src/Informer/Missed.antt =====
-- UpdateFunc over two events: the gateway in use goes down while no other is available, and
-- another comes up afterwards.
use x_cluster_link.Base.{
  String, ◌≡◌, ◌≢◌, refl, ◌∙◌, ap, Bool, List, [], ◌∷◌, arith, ==-refl, ◌==◌, if◌then◌else◌,
}
use x_cluster_link.Base.GoMap.{index}
use x_cluster_link.Objects.{VpcNatTunnel, GatewayExIp, StatefulSet, Vpc}
use x_cluster_link.Kube.{Kube, World, ok, answer, pure, ◌>>◌}
use x_cluster_link.Kube.Steps.{read-answer, bind-ok, then-ok, if-true, if-false}
use x_cluster_link.Informer.Lookup.{
  gateway_of, can_replace, pick_gateway, no_stateful_set, gateway_selector, list_gateways,
}
use x_cluster_link.Informer.Switch.{list_tunnels_of}
use x_cluster_link.Informer.Picks.{NonePass}
use x_cluster_link.Informer.Failover.{gw_selector}
use x_cluster_link.Informer.Standby.{OtherGateways, InUse, on_current, on_standby}
use x_cluster_link.Informer.Handlers.{named, fail_over, on_update}

pick_gateway-NonePass :
    (test : StatefulSet → Bool) (items : List StatefulSet)
    → NonePass test items
    → pick_gateway test items ≡ no_stateful_set
unfolding pick_gateway if◌then◌else◌
pick_gateway-NonePass test [] h = refl
pick_gateway-NonePass test (st ∷ items) (fails, h) =
    ap (λ (b : Bool). if b then st else pick_gateway test items) fails
    ∙ pick_gateway-NonePass test items h

comes_up :
    (K : Kube) (cluster_id : String) (was back : StatefulSet) (ex_ips : List GatewayExIp)
    (w : World K) (s : K.State)
    → was.available_replicas ≡ 0
    → back.available_replicas ≡ 1
    → gateway_of back ≢ ""
    → K.list_ex_ips "kube-system" (gateway_selector cluster_id (gateway_of back)) w.state
      ≡ (answer ex_ips, s)
    → OtherGateways (gateway_of back) ex_ips
    → on_update K cluster_id was back w ≡ (ok tt, record w { state = s })
unfolding on_update pure
comes_up K cluster_id was back ex_ips w s e e' is_named listed others =
    let (_, up_is, _) = on_standby K cluster_id back ex_ips w s listed is_named others in
    then-ok _ _ w (if-false _ _ _ w (ground arith)) ∙ if-true _ _ _ w (ground arith) ∙ up_is

-- What the cluster answers when the gateway in use goes down and no other can take its place.
pub record Alone (K : Kube) (cluster_id : String) (down : StatefulSet) (s₀ s₄ : K.State)
    : Type 0 where
  pub ex_ips : List GatewayExIp
  pub ex_ip : GatewayExIp
  pub in_use : InUse (gateway_of down) ex_ips ex_ip
  pub s₁ : K.State
  pub ex_ips_listed :
      K.list_ex_ips "kube-system" (gateway_selector cluster_id (gateway_of down)) s₀
      ≡ (answer ex_ips, s₁)
  pub vpc : Vpc
  pub s₂ : K.State
  pub vpc_found : K.get_vpc (named (index ex_ip.metadata.labels "localVpc")) s₁ ≡ (answer vpc, s₂)
  pub tunnels : List VpcNatTunnel
  pub s₃ : K.State
  pub tunnels_listed :
      K.list_tunnels "" (("localVpc", vpc.metadata.name) ∷ []) s₂ ≡ (answer tunnels, s₃)
  pub gateways : List StatefulSet
  pub gateways_listed : K.list_stateful_sets "kube-system" gw_selector s₃ ≡ (answer gateways, s₄)
  pub none_pass : NonePass (can_replace down) gateways

module _ (K : Kube) (cluster_id : String) (was down : StatefulSet) (w : World K) (s₄ : K.State)
    (alone : Alone K cluster_id down w.state s₄) where
  fail_over-Alone :
      fail_over K cluster_id down alone.ex_ip (record w { state = alone.s₁ })
      ≡ (ok tt, record w { state = s₄ })
  unfolding fail_over list_tunnels_of list_gateways pure
  fail_over-Alone =
      bind-ok _ _ _ (read-answer _ _ alone.vpc_found)
      ∙ bind-ok _ _ _ (read-answer _ _ alone.tunnels_listed)
      ∙ bind-ok _ _ _ (read-answer _ _ alone.gateways_listed)
      ∙ if-true _ _ _ _ (
          ap (λ gw. gw.metadata.name == "") (pick_gateway-NonePass _ alone.gateways alone.none_pass)
          ∙ ==-refl "")

  goes_down :
      was.available_replicas ≡ 1
      → down.available_replicas ≡ 0
      → on_update K cluster_id was down w ≡ (ok tt, record w { state = s₄ })
  unfolding on_update pure
  goes_down e e' =
      let (down_is, _, _) =
        on_current K cluster_id down alone.ex_ips w alone.s₁ alone.ex_ips_listed alone.ex_ip
          alone.in_use in
      then-ok _ _ w (if-true _ _ _ w (ground arith) ∙ down_is ∙ fail_over-Alone)
      ∙ if-false _ _ _ _ (ground arith)

  -- The gateway in use goes down while no listed gateway can take its place, and then another comes
  -- up that no listed GatewayExIp names: both updates return, and neither asks for a change.
  pub on_update_missed :
      (was_away back : StatefulSet) (ex_ips : List GatewayExIp) (s₅ : K.State)
      → was.available_replicas ≡ 1
      → down.available_replicas ≡ 0
      → was_away.available_replicas ≡ 0
      → back.available_replicas ≡ 1
      → gateway_of back ≢ ""
      → K.list_ex_ips "kube-system" (gateway_selector cluster_id (gateway_of back)) s₄
        ≡ (answer ex_ips, s₅)
      → OtherGateways (gateway_of back) ex_ips
      → (on_update K cluster_id was down >> on_update K cluster_id was_away back) w
        ≡ (ok tt, record w { state = s₅ })
  on_update_missed was_away back ex_ips s₅ e₁ e₂ e₃ e₄ is_named listed others =
      then-ok _ _ w (goes_down e₁ e₂)
      ∙ comes_up K cluster_id was_away back ex_ips (record w { state = s₄ }) s₅ e₃ e₄ is_named
          listed others
