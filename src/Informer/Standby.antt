-- ===== src/Informer/Standby.antt =====
-- Events that are none of the informer's business: it asks for no change.
use x_cluster_link.Base.{
  ◌⊎◌, inl, inr, refl, Bool-cases, ==_iff_eq, differs, String, ◌≡◌, ◌≢◌, ◌∙◌, ap, sym, Bool, List,
  [], ◌∷◌, ◌++◌, arith, ==-refl, ==-eq_false, not, ◌==◌, if◌then◌else◌,
}
use x_cluster_link.Base.GoMap.{index, lookup}
use x_cluster_link.Objects.{GatewayExIp, StatefulSet}
use x_cluster_link.Kube.{Kube, World, ok, answer, pure}
use x_cluster_link.Kube.Steps.{read-answer, bind-ok, then-ok, if-true, if-false}
use x_cluster_link.Informer.Lookup.{
  gateway_of, local_gateway, pick_ex_ip, no_ex_ip, find_ex_ip, gateway_selector,
}
use x_cluster_link.Informer.Handlers.{
  fail_over, refresh, hand_over, on_down, on_up, on_update, on_delete,
}

-- Every listed GatewayExIp names another gateway.
abbrev pub OtherGateways : String → List GatewayExIp → Type 0
OtherGateways gw [] = Unit
OtherGateways gw (x ∷ xs) = (local_gateway x ≢ gw) × OtherGateways gw xs

-- The first listed GatewayExIp that names the gateway.
abbrev pub InUse : String → List GatewayExIp → GatewayExIp → Type 0
InUse gw items x =
    (before : List GatewayExIp) × (rest : List GatewayExIp) × (items ≡ before ++ (x ∷ rest))
    × OtherGateways gw before
    × (local_gateway x ≡ gw)

InUse-cons :
    (gw : String) (y : GatewayExIp) (ys : List GatewayExIp) (x : GatewayExIp)
    → local_gateway y ≢ gw
    → InUse gw ys x
    → InUse gw (y ∷ ys) x
InUse-cons gw y ys x other (before, rest, e, others, names) =
    (y ∷ before, rest, ap (λ l. y ∷ l) e, (other, others), names)

InUse-or_not :
    (gw : String) (items : List GatewayExIp)
    → OtherGateways gw items ⊎ ((x : GatewayExIp) × InUse gw items x)
InUse-or_not gw [] = inl tt
InUse-or_not gw (x ∷ xs) = elim (Bool-cases (local_gateway x == gw)) [
  | inl e ↦ inr (x, ([], xs, refl, tt, ==_iff_eq _ _ e))
  | inr e ↦ elim (InUse-or_not gw xs) [
    | inl others ↦ inl (differs _ _ e, others)
    | inr (y, used) ↦ inr (y, InUse-cons gw x xs y (differs _ _ e) used)
  ]
]

pick_ex_ip-NotInUse :
    (gw : String) (z : GatewayExIp) (items : List GatewayExIp)
    → local_gateway z ≢ gw
    → OtherGateways gw items
    → local_gateway (pick_ex_ip gw z items) ≢ gw
unfolding pick_ex_ip if◌then◌else◌
pick_ex_ip-NotInUse gw z [] h o = h
pick_ex_ip-NotInUse gw z (x ∷ items) h (hx, o) =
    rw (==-eq_false _ _ hx) (pick_ex_ip-NotInUse gw x items hx o)

pick_ex_ip-InUse :
    (gw : String) (z : GatewayExIp) (before rest : List GatewayExIp) (x : GatewayExIp)
    → OtherGateways gw before
    → local_gateway x ≡ gw
    → pick_ex_ip gw z (before ++ (x ∷ rest)) ≡ x
unfolding pick_ex_ip if◌then◌else◌
pick_ex_ip-InUse gw z [] rest x o h =
    ap (λ (b : Bool). if b then x else pick_ex_ip gw x rest) (ap (λ n. n == gw) h ∙ ==-refl gw)
pick_ex_ip-InUse gw z (y ∷ before) rest x (hy, o) h =
    ap (λ (b : Bool). if b then y else pick_ex_ip gw y (before ++ (x ∷ rest))) (==-eq_false _ _ hy)
    ∙ pick_ex_ip-InUse gw y before rest x o h

module _ (K : Kube) (cluster_id : String) (st : StatefulSet) (items : List GatewayExIp)
    (w : World K) (s : K.State)
    (listed : K.list_ex_ips "kube-system" (gateway_selector cluster_id (gateway_of st)) w.state
      ≡ (answer items, s)) where
  find_ex_ip-pick :
      find_ex_ip K cluster_id (gateway_of st) w
      ≡ (ok (pick_ex_ip (gateway_of st) no_ex_ip items), record w { state = s })
  unfolding find_ex_ip pure
  find_ex_ip-pick = bind-ok _ _ w (read-answer _ w listed)

  -- A gateway that no listed GatewayExIp names is not in use: nothing is done when it goes down,
  -- comes up again or is deleted.
  pub on_standby :
      gateway_of st ≢ ""
      → OtherGateways (gateway_of st) items
      → (on_down K cluster_id st w ≡ (ok tt, record w { state = s }))
        × (on_up K cluster_id st w ≡ (ok tt, record w { state = s }))
        × (on_delete K cluster_id st w ≡ (ok tt, record w { state = s }))
  unfolding on_down on_up on_delete pure index lookup
  on_standby named other =
      let unused = pick_ex_ip-NotInUse (gateway_of st) no_ex_ip items (λ e. named (sym e)) other in
      let passed = ap not (==-eq_false _ _ unused) in
      (
        bind-ok _ _ w find_ex_ip-pick ∙ if-true _ _ _ _ passed,
        bind-ok _ _ w find_ex_ip-pick ∙ if-true _ _ _ _ passed,
        bind-ok _ _ w find_ex_ip-pick ∙ if-true _ _ _ _ passed,
      )

  -- The GatewayExIp that names the gateway is the one that the three events are about.
  pub on_current :
      (x : GatewayExIp)
      → InUse (gateway_of st) items x
      → (on_down K cluster_id st w ≡ fail_over K cluster_id st x (record w { state = s }))
        × (on_up K cluster_id st w ≡ refresh K cluster_id st x (record w { state = s }))
        × (on_delete K cluster_id st w ≡ hand_over K cluster_id st x (record w { state = s }))
  unfolding on_down on_up on_delete
  on_current x (before, rest, e, other, names) =
      let picked =
        ap (pick_ex_ip (gateway_of st) no_ex_ip) e
        ∙ pick_ex_ip-InUse (gateway_of st) no_ex_ip before rest x other names in
      let found = find_ex_ip-pick ∙ ap (λ y. (ok y, record w { state = s })) picked in
      let passed = ap not (ap (λ n. n == gateway_of st) names ∙ ==-refl (gateway_of st)) in
      (
        bind-ok _ _ w found ∙ if-false _ _ _ _ passed,
        bind-ok _ _ w found ∙ if-false _ _ _ _ passed,
        bind-ok _ _ w found ∙ if-false _ _ _ _ passed,
      )

  -- The three events of a gateway with a name, once the cluster has listed the GatewayExIps: either
  -- none of these names the gateway, and nothing is done when it goes down, comes up again or is
  -- deleted; or the first that names it is the one that the event moves to another gateway, brings
  -- up to date or hands over.
  pub event_cases :
      gateway_of st ≢ ""
      → (OtherGateways (gateway_of st) items
          × ((on_down K cluster_id st w ≡ (ok tt, record w { state = s }))
              × (on_up K cluster_id st w ≡ (ok tt, record w { state = s }))
              × (on_delete K cluster_id st w ≡ (ok tt, record w { state = s }))))
        ⊎ ((x : GatewayExIp) × InUse (gateway_of st) items x
            × ((on_down K cluster_id st w ≡ fail_over K cluster_id st x (record w { state = s }))
                × (on_up K cluster_id st w ≡ refresh K cluster_id st x (record w { state = s }))
                × (on_delete K cluster_id st w
                    ≡ hand_over K cluster_id st x (record w { state = s }))))
  event_cases is_named = elim (InUse-or_not (gateway_of st) items) [
    | inl others ↦ inl (others, on_standby is_named others)
    | inr (x, used) ↦ inr (x, used, on_current x used)
  ]

-- An update that leaves the number of available replicas as it was makes no call.
pub on_update_same :
    (K : Kube) (cluster_id : String) (old new : StatefulSet) (w : World K)
    → old.available_replicas ≡ new.available_replicas
    → on_update K cluster_id old new w ≡ (ok tt, w)
unfolding on_update pure
on_update_same K cluster_id old new w e =
    then-ok _ _ w (if-false _ _ _ w (ground arith)) ∙ if-false _ _ _ w (ground arith)
