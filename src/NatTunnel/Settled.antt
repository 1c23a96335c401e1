-- ===== src/NatTunnel/Settled.antt =====
-- When the reconciler leaves a tunnel alone, and what it does where a tunnel's type was edited.
use x_cluster_link.Base.{
  subst, String, ◌≡◌, refl, ◌≢◌, ◌∙◌, ap, true, false, none, ◌∷◌, arith, ==-eq_false, ◌!=◌, sym,
  Bool-cases, inl, inr, not, if◌then◌else◌, contains_string,
}
use x_cluster_link.Objects.{is_zero, ObjectKey, VpcNatTunnel, GatewayExIp}
use x_cluster_link.Kube.{Kube, World, ok, Effect, did, failed, answer, pure}
use x_cluster_link.Kube.Steps.{read-answer, bind-ok, attempt-ok, if-false, if-true}
use x_cluster_link.Kube.Post.{Post, Post-pure, Post-request, Post-then}
use x_cluster_link.NatTunnel.Setup.{is_outdated, update, ex_ip_key, revert_type, has_no_addresses}
use x_cluster_link.NatTunnel.Handlers.{finalizer, handle_create_or_update, reconcile}
use x_cluster_link.NatTunnel.Updating.{
  Updated, Stopped, retargeted, retargeted-IsInSync, rebuild-Rebuilt,
}
use x_cluster_link.NatTunnel.Convergence.{same_text, IsInSync, is_outdated-IsInSync}

abbrev pub remote_key : VpcNatTunnel → ObjectKey
remote_key t = ex_ip_key t.spec.remote_vpc t.spec.remote_cluster

differs :
    (t : VpcNatTunnel)
    → t.spec.tunnel_type ≢ t.status.tunnel_type
    → (t.status.tunnel_type != t.spec.tunnel_type) ≡ true
differs t h = ap not (==-eq_false _ _ (λ e. h (sym e)))

edited :
    (t : VpcNatTunnel) (remote : GatewayExIp)
    → t.spec.tunnel_type ≢ t.status.tunnel_type
    → is_outdated t remote ≡ true
unfolding is_outdated
edited t remote h = ground (arith, differs t h)

outdated :
    (t : VpcNatTunnel) (remote : GatewayExIp) → ¬ IsInSync t remote → is_outdated t remote ≡ true
outdated t remote h = elim (Bool-cases (is_outdated t remote)) [
  | inl e ↦ e
  | inr e ↦ absurd (h ((is_outdated-IsInSync t remote).0 e))
]

module _ (K : Kube) (cluster_id : String) (key : ObjectKey) (t : VpcNatTunnel)
    (remote : GatewayExIp) (w : World K) (s s' : K.State)
    (found : K.get_tunnel key w.state ≡ (answer t, s)) (live : t.metadata.deletion_timestamp ≡ none)
    (held : contains_string t.metadata.finalizers finalizer ≡ true)
    (peer : K.get_ex_ip (remote_key t) s ≡ (answer remote, s'))
    (built : t.status.initialized ≡ true) where
  reconcile-found :
      reconcile K cluster_id key w
      ≡ (if is_outdated t remote then update K t remote else pure tt) (record w { state = s' })
  unfolding reconcile handle_create_or_update pure
  reconcile-found =
      bind-ok _ _ w (attempt-ok _ w (read-answer _ w found))
      ∙ if-false _ _ _ _ (ap (λ d. not (is_zero d)) live)
      ∙ bind-ok _ _ _ (if-false _ _ _ _ (ap not held))
      ∙ bind-ok _ _ _ (read-answer _ _ peer)
      ∙ if-false _ _ _ _ (ap not built)

  -- A live, initialized tunnel with the finalizer that is in sync with the remote GatewayExIp is left
  -- alone: the reconciler returns and asks for no change.
  pub reconcile-IsInSync :
      IsInSync t remote → reconcile K cluster_id key w ≡ (ok tt, record w { state = s' })
  unfolding pure
  reconcile-IsInSync h = reconcile-found ∙ if-false _ _ _ _ ((is_outdated-IsInSync t remote).1 h)

  reconcile-edited :
      t.spec.tunnel_type ≢ t.status.tunnel_type
      → Post
          (λ _ w'. w'.log ≡ did (Effect.update_tunnel (revert_type t)) ∷ w.log)
          (λ w'. w'.log ≡ failed (Effect.update_tunnel (revert_type t)) ∷ w.log)
          (reconcile K cluster_id key w)
  unfolding update
  reconcile-edited h =
      rw (reconcile-found ∙ if-true _ _ _ _ (edited t remote h) ∙ if-true _ _ _ _ (differs t h))
        (Post-then _ _ _ (Post-request _ _ _ (λ _ _ _. Post-pure tt _ refl) (λ _. refl)))

  -- A live, initialized tunnel with the finalizer, of an unchanged type and with an address, that is
  -- not in sync: if the reconciler returns, then in the pod of the gateway that the spec names the old
  -- tunnel was removed and the new one built, and after that the new status saved, which is in sync
  -- with the spec; where the spec names another gateway than the one the tunnel was built in, or
  -- another address of it, nothing is removed and the new tunnel is built at once. If it ends with an
  -- error or a panic, no object was changed, or only the status, after the build.
  pub reconcile-Rebuilt :
      t.status.tunnel_type ≡ t.spec.tunnel_type
      → has_no_addresses t ≡ false
      → ¬ IsInSync t remote
      → Post
          (λ _. Updated K t remote (record w { state = s' }))
          (Stopped K t remote (record w { state = s' }))
          (reconcile K cluster_id key w)
        × IsInSync (retargeted t remote) remote
  unfolding update
  reconcile-Rebuilt same addressed h = (
    rw
        (reconcile-found
          ∙ if-true _ _ _ _ (outdated t remote h)
          ∙ if-false _ _ _ _ (same_text _ _ same)
          ∙ if-false _ _ _ _ addressed)
        (rebuild-Rebuilt K t remote _),
    retargeted-IsInSync t remote same,
  )

-- The tunnel with another type in its spec.
abbrev pub edit_type : String → VpcNatTunnel → VpcNatTunnel
edit_type type t = record t { spec = record (t.spec) { tunnel_type = type } }

-- A live, initialized tunnel with the finalizer whose spec named the type that was built, after its
-- owner has put another type into the spec: the one request is to save the tunnel as it was before the
-- edit, in every field, and the reconciler ends with an error if and only if that is refused; no command
-- runs.
pub reconcile-revert_type :
    (K : Kube) (cluster_id : String) (key : ObjectKey) (t : VpcNatTunnel) (remote : GatewayExIp)
    (w : World K) (s s' : K.State) (type : String)
    → K.get_tunnel key w.state ≡ (answer (edit_type type t), s)
    → t.metadata.deletion_timestamp ≡ none
    → contains_string t.metadata.finalizers finalizer ≡ true
    → K.get_ex_ip (remote_key t) s ≡ (answer remote, s')
    → t.status.initialized ≡ true
    → t.status.tunnel_type ≡ t.spec.tunnel_type
    → type ≢ t.spec.tunnel_type
    → Post
        (λ _ w'. w'.log ≡ did (Effect.update_tunnel t) ∷ w.log)
        (λ w'. w'.log ≡ failed (Effect.update_tunnel t) ∷ w.log)
        (reconcile K cluster_id key w)
reconcile-revert_type K cluster_id key t remote w s s' type found live held peer built same other =
    subst
      (λ u.
        Post (λ _ w'. w'.log ≡ did (Effect.update_tunnel u) ∷ w.log)
          (λ w'. w'.log ≡ failed (Effect.update_tunnel u) ∷ w.log) (reconcile K cluster_id key w))
      (ap (λ y. edit_type y t) same)
      (reconcile-edited K cluster_id key (edit_type type t) remote w s s' found live held peer built
        (λ e. other (e ∙ same)))
