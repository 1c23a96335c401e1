-- ===== src/System/Events.antt =====
-- The handlers of the informer and of the syncer, event by event.
use mathlib.Core.List.{Memᴰ}
use x_cluster_link.Base.{
  not-false, String, ◌≡◌, refl, sym, subst, false, inl, inr, List, [], ◌∷◌, if◌then◌else◌,
  ==_iff_eq, ◌!=◌,
}
use x_cluster_link.Objects.{VpcNatTunnel, GatewayExIp, StatefulSet}
use x_cluster_link.Kube.{Kube, World, Effect, M, Reply, answer, refuse, pure, ◌>>=◌}
use x_cluster_link.Kube.Post.{Post-pure, Post-read, Post-bind, Post-weaken}
use x_cluster_link.Informer.Lookup.{
  local_gateway, gateway_of, pick_ex_ip, no_ex_ip, gateway_selector, find_ex_ip,
}
use x_cluster_link.Informer.Handlers.{on_add, on_down, on_up, on_update, on_delete, new_ex_ip}
use x_cluster_link.Informer.Registration.{Registered}
use x_cluster_link.Informer.Arrival.{on_add-Registered}
use x_cluster_link.Syncer.Handlers.{
  retarget, ignore_error, on_remote_gateway_ex_ip_synced, set_remote_ip,
}
use x_cluster_link.System.Keeps.{
  Gives, Keeps, Keeps-pure, Keeps-if, Keeps-or_panic, Keeps-request, Keeps-bind, Keeps-then,
  Keeps-bind-read, Keeps-attempt,
}
use x_cluster_link.System.Rules.{TunnelFrom, Edits-moved, Owned, Allowed, Lawful}
use x_cluster_link.System.Tunnels.{Permits-edit}
use x_cluster_link.System.Gateways.{
  pick_ex_ip-listed, Keeps-fail_over, Keeps-hand_over, Keeps-refresh,
}

module _ (K : Kube) (cluster_id : String) where
  owned :
      (gateway : String) (items : List GatewayExIp)
      → Gives (K.list_ex_ips "kube-system" (gateway_selector cluster_id gateway)) items
      → local_gateway (pick_ex_ip gateway no_ex_ip items) ≡ gateway
      → Owned K cluster_id (pick_ex_ip gateway no_ex_ip items)
  owned gateway items given same =
      (gateway, items, given, pick_ex_ip-listed gateway no_ex_ip items, same)

  -- The three handlers that first look for the GatewayExIp of the gateway.
  Keeps-found :
      (gateway : String) (rest : GatewayExIp → M K (Unit {0}))
      → ((x : GatewayExIp) → Owned K cluster_id x → Keeps (Lawful K cluster_id) (rest x))
      → Keeps (Lawful K cluster_id) (
          find_ex_ip K cluster_id gateway >>= λ x.
          if local_gateway x != gateway then pure tt else rest x)
  unfolding find_ex_ip
  Keeps-found gateway rest kept = record {
    at = λ w h. Post-bind _ _ w (
        Post-bind _ _ w (
          Post-read _ w
            (λ items s e. Post-pure _ _ (
              (Keeps-if _ _ _ (λ _. Keeps-pure tt)
                  (λ same.
                    kept _
                      (owned gateway items (w.state, s, e) (==_iff_eq _ _ (not-false _ same))))).at
                _ h))
            (λ _. h)));
  }

  Keeps-on_down : (st : StatefulSet) → Keeps (Lawful K cluster_id) (on_down K cluster_id st)
  unfolding on_down
  Keeps-on_down st = Keeps-found (gateway_of st) _ (Keeps-fail_over K cluster_id st)

  Keeps-on_up : (st : StatefulSet) → Keeps (Lawful K cluster_id) (on_up K cluster_id st)
  unfolding on_up
  Keeps-on_up st = Keeps-found (gateway_of st) _ (Keeps-refresh K cluster_id st)

  pub Keeps-on_delete : (st : StatefulSet) → Keeps (Lawful K cluster_id) (on_delete K cluster_id st)
  unfolding on_delete
  Keeps-on_delete st = Keeps-found (gateway_of st) _ (Keeps-hand_over K cluster_id st)

  pub Keeps-on_update :
      (old new : StatefulSet) → Keeps (Lawful K cluster_id) (on_update K cluster_id old new)
  unfolding on_update
  Keeps-on_update old new =
      Keeps-then _ _ (Keeps-if _ _ _ (λ _. Keeps-on_down new) (λ _. Keeps-pure tt))
        (Keeps-if _ _ _ (λ _. Keeps-on_up new) (λ _. Keeps-pure tt))

  registered :
      (st : StatefulSet) (w : World K) (e : Effect)
      → Registered K cluster_id st w e
      → Allowed K cluster_id e w.log
  registered st w e h =
      let x = new_ex_ip K cluster_id h.nat_gw h.pod h.ip h.cidr in
      subst (λ e. Allowed K cluster_id e w.log) (sym (h.created))
        (st, w, subst (Registered K cluster_id st w) (h.created) h)

  pub Keeps-on_add : (st : StatefulSet) → Keeps (Lawful K cluster_id) (on_add K cluster_id st)
  Keeps-on_add st = record {
    at = λ w h.
        Post-weaken _ (on_add-Registered K cluster_id st w)
          (λ _ w' r. elim r [
            | inl (_, e) ↦ subst (Lawful K cluster_id) (sym e) h
            | inr (asked, made, e) ↦
                subst (Lawful K cluster_id) (sym e) (registered st w asked made, h)
          ])
          (λ w' r. elim r [
            | inl e ↦ subst (Lawful K cluster_id) (sym e) h
            | inr (asked, made, e) ↦
                subst (Lawful K cluster_id) (sym e) (registered st w asked made, h)
          ]);
  }

  Keeps-retarget :
      (ip : String) (ts : List VpcNatTunnel)
      → ((t : VpcNatTunnel) → Memᴰ t ts → TunnelFrom K t)
      → Keeps (Lawful K cluster_id) (retarget K ip ts)
  unfolding retarget
  Keeps-retarget ip [] known = Keeps-pure tt
  Keeps-retarget ip (t ∷ ts) known =
      let rest = Keeps-retarget ip ts (λ u m. known u (Memᴰ.tail m)) in
      Keeps-if _ _ _ (λ _. rest)
        (λ _.
          Keeps-then _ _
            (Keeps-request _ _ (
              Permits-edit K cluster_id t (set_remote_ip ip t) (known t (Memᴰ.head refl))
                (Edits-moved t ip t.spec.internal_ip t.spec.local_gw t.metadata.labels)))
            rest)

  Keeps-ignore_error : (r : Reply K.Err (Unit {0})) → Keeps (Lawful K cluster_id) (ignore_error K r)
  Keeps-ignore_error (answer _) = Keeps-pure false
  Keeps-ignore_error (refuse _) = Keeps-pure false

  pub Keeps-on_remote_gateway_ex_ip_synced :
      (x : GatewayExIp) → Keeps (Lawful K cluster_id) (on_remote_gateway_ex_ip_synced K x)
  unfolding on_remote_gateway_ex_ip_synced
  Keeps-on_remote_gateway_ex_ip_synced x = Keeps-bind _ _ (Keeps-or_panic _) (λ (vpc, cluster).
      Keeps-bind _ _
        (Keeps-attempt _ (
          Keeps-bind-read _ _ (λ tunnels given.
            Keeps-retarget x.spec.external_ip tunnels
              (λ t m. TunnelFrom.listed _ tunnels given m))))
        Keeps-ignore_error)
