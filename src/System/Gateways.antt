-- ===== src/System/Gateways.antt =====
-- The informer and the syncer ask for nothing but what is allowed.
use mathlib.Core.List.{Memᴰ}
use x_cluster_link.Base.{
  String, ◌≡◌, ◌⊎◌, refl, sym, subst, Bool, true, inl, inr, Option, none, some, List, [], ◌∷◌, ◌++◌,
  if◌then◌else◌, ◌==◌, Bool-cases, arith,
}
use x_cluster_link.Base.GoMap.{lookup}
use x_cluster_link.Objects.{ObjectKey, Pod, VpcNatTunnel, GatewayExIp, StatefulSet, Vpc}
use x_cluster_link.Kube.{Kube, Effect}
use x_cluster_link.NatTunnel.Gateway.{or_error, get_gw_extern_ip}
use x_cluster_link.Informer.Lookup.{
  local_gateway, gateway_of, pick_ex_ip, can_replace, can_succeed, pick_gateway, list_gateways,
}
use x_cluster_link.Informer.Picks.{IsFirstOf, can_replace_lem}
use x_cluster_link.Informer.Switch.{
  update_tunnels, list_tunnels_of, switch_to, set_gateway, set_internal_ip, set_external_ip,
  reroute,
}
use x_cluster_link.Informer.Failover.{Listed, named_first}
use x_cluster_link.Informer.Moves.{moved}
use x_cluster_link.Informer.Handlers.{fail_over, refresh, hand_over}
use x_cluster_link.System.Keeps.{
  Gives, Keeps, Keeps-pure, Keeps-throw, Keeps-if, Keeps-or_panic, Keeps-request, Keeps-bind,
  Keeps-then, Keeps-bind-read,
}
use x_cluster_link.System.Rules.{TunnelFrom, Edits, Edits-moved, Owned, Lawful}
use x_cluster_link.System.Tunnels.{permits, Permits-edit, Keeps-bind-pod}

IsFirstOf-Memᴰ :
    (test : StatefulSet → Bool) (items : List StatefulSet) (gw : StatefulSet)
    → IsFirstOf test items gw
    → Memᴰ gw items
IsFirstOf-Memᴰ test items gw (before, rest, e, _, _) = subst (Memᴰ gw) (sym e) (there before)
  where
    there : (before : List StatefulSet) → Memᴰ gw (before ++ (gw ∷ rest))
    there [] = Memᴰ.head refl
    there (y ∷ before) = Memᴰ.tail (there before)

-- The object that the loop ends with was listed, or is the one that it began with.
pub pick_ex_ip-listed :
    (gw : String) (z : GatewayExIp) (items : List GatewayExIp)
    → Memᴰ (pick_ex_ip gw z items) items ⊎ (pick_ex_ip gw z items ≡ z)
unfolding pick_ex_ip if◌then◌else◌
pick_ex_ip-listed gw z [] = inr refl
pick_ex_ip-listed gw z (x ∷ items) = elim (Bool-cases (local_gateway x == gw)) [
  | inl e ↦ rw e (inl (Memᴰ.head refl))
  | inr e ↦ rw e (elim (pick_ex_ip-listed gw x items) [
    | inl m ↦ inl (Memᴰ.tail m)
    | inr same ↦ inl (Memᴰ.head same)
  ])
]

can_succeed-available :
    (gone st : StatefulSet) → can_succeed gone st ≡ true → st.available_replicas ≡ 1
unfolding can_succeed
can_succeed-available gone st h = ground arith

module _ (K : Kube) (cluster_id : String) where
  Keeps-get_gw_extern_ip : (pod : Pod) → Keeps (Lawful K cluster_id) (get_gw_extern_ip K pod)
  unfolding get_gw_extern_ip
  Keeps-get_gw_extern_ip pod = go (lookup _ pod.metadata.annotations)
    where
      go :
          (o : Option String)
          → Keeps (Lawful K cluster_id) (or_error K o "no ovn-vpc-external-network ip")
      go none = Keeps-throw _
      go (some ip) = Keeps-pure ip

  pub Keeps-update_tunnels :
      (change : VpcNatTunnel → VpcNatTunnel) (ts : List VpcNatTunnel)
      → ((t : VpcNatTunnel) → Edits t (change t))
      → ((t : VpcNatTunnel) → Memᴰ t ts → TunnelFrom K t)
      → Keeps (Lawful K cluster_id) (update_tunnels K change ts)
  unfolding update_tunnels
  Keeps-update_tunnels change [] edits known = Keeps-pure tt
  Keeps-update_tunnels change (t ∷ ts) edits known =
      Keeps-then _ _
        (Keeps-request _ _
          (Permits-edit K cluster_id t (change t) (known t (Memᴰ.head refl)) (edits t)))
        (Keeps-update_tunnels change ts edits (λ u m. known u (Memᴰ.tail m)))

  Keeps-switch_to :
      (key : ObjectKey) (gw : StatefulSet) (vpc : Vpc) (ex_ip : GatewayExIp)
      (items : List StatefulSet)
      → Gives (K.get_vpc key) vpc
      → Listed K items
      → Memᴰ gw items
      → gw.available_replicas ≡ 1
      → Owned K cluster_id ex_ip
      → Keeps (Lawful K cluster_id) (switch_to K gw vpc ex_ip)
  unfolding switch_to
  Keeps-switch_to key gw vpc ex_ip items given listed member available owned =
      Keeps-bind-pod K cluster_id (gateway_of gw) _ (λ pod ready.
        Keeps-bind _ _ (Keeps-get_gw_extern_ip pod) (λ ip.
          Keeps-then _ _
            (Keeps-request _ _ (
              permits K cluster_id (Effect.update_vpc (reroute gw vpc))
                (λ l. (key, vpc, given, items, listed, gw, member, available, pod, ready, refl))))
            (Keeps-bind _ _ (Keeps-or_panic _) (λ labels.
              Keeps-then _ _
                (Keeps-request _ _ (
                  permits K cluster_id (Effect.update_ex_ip (moved ex_ip ip labels))
                    (λ l. (ex_ip, owned, refl, refl, refl))))
                (Keeps-pure ip)))))

  pub Keeps-fail_over :
      (down : StatefulSet) (ex_ip : GatewayExIp)
      → Owned K cluster_id ex_ip
      → Keeps (Lawful K cluster_id) (fail_over K cluster_id down ex_ip)
  unfolding fail_over list_tunnels_of list_gateways
  Keeps-fail_over down ex_ip owned = Keeps-bind-read _ _ (λ vpc given.
      Keeps-bind-read _ _ (λ tunnels given_tunnels. Keeps-bind-read _ _ (λ items listed.
        Keeps-if _ _ _ (λ _. Keeps-pure tt)
          (λ e.
            let first = named_first (can_replace down) items e in
            let gw = pick_gateway (can_replace down) items in
            Keeps-bind _ _
              (Keeps-switch_to _ gw vpc ex_ip items given listed (IsFirstOf-Memᴰ _ items gw first)
                ((can_replace_lem down gw (first.4)).0) owned)
              (λ ip.
                Keeps-update_tunnels (set_gateway ip (gateway_of gw)) tunnels
                  (λ t. Edits-moved t t.spec.remote_ip ip (gateway_of gw) t.metadata.labels)
                  (λ t m. TunnelFrom.listed _ tunnels given_tunnels m))))))

  pub Keeps-hand_over :
      (gone : StatefulSet) (ex_ip : GatewayExIp)
      → Owned K cluster_id ex_ip
      → Keeps (Lawful K cluster_id) (hand_over K cluster_id gone ex_ip)
  unfolding hand_over list_tunnels_of list_gateways
  Keeps-hand_over gone ex_ip owned = Keeps-bind-read _ _ (λ vpc given.
      Keeps-bind-read _ _ (λ items listed.
        Keeps-if _ _ _
          (λ _. Keeps-request _ _ (permits K cluster_id (Effect.delete_ex_ip ex_ip) (λ l. owned)))
          (λ e.
            let first = named_first (can_succeed gone) items e in
            let gw = pick_gateway (can_succeed gone) items in
            Keeps-bind _ _
              (Keeps-switch_to _ gw vpc ex_ip items given listed (IsFirstOf-Memᴰ _ items gw first)
                (can_succeed-available gone gw (first.4)) owned)
              (λ ip. Keeps-bind-read _ _ (λ tunnels given_tunnels.
                Keeps-update_tunnels (set_gateway ip (gateway_of gw)) tunnels
                  (λ t. Edits-moved t t.spec.remote_ip ip (gateway_of gw) t.metadata.labels)
                  (λ t m. TunnelFrom.listed _ tunnels given_tunnels m))))))

  pub Keeps-refresh :
      (st : StatefulSet) (ex_ip : GatewayExIp)
      → Owned K cluster_id ex_ip
      → Keeps (Lawful K cluster_id) (refresh K cluster_id st ex_ip)
  unfolding refresh list_tunnels_of
  Keeps-refresh st ex_ip owned = Keeps-bind-pod K cluster_id (gateway_of st) _ (λ pod ready.
      Keeps-bind _ _ (Keeps-get_gw_extern_ip pod) (λ ip.
        Keeps-bind _ _
          (Keeps-request _ _ (
            permits K cluster_id (Effect.update_ex_ip (set_external_ip ip ex_ip))
              (λ l. (ex_ip, owned, refl, refl, refl))))
          (λ stored. Keeps-bind-read _ _ (λ tunnels given_tunnels.
            Keeps-update_tunnels (set_internal_ip ip) tunnels
              (λ t. Edits-moved t t.spec.remote_ip ip t.spec.local_gw t.metadata.labels)
              (λ t m. TunnelFrom.listed _ tunnels given_tunnels m)))))
