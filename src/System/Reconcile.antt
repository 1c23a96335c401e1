-- ===== src/System/Reconcile.antt =====
-- The updates and the deletion of a VpcNatTunnel ask for nothing but what is allowed.
use x_cluster_link.Base.{◌≡◌, String, refl, sym, subst, none, some, Option, inr}
use x_cluster_link.Objects.{ObjectKey, Pod, VpcNatTunnel, GatewayExIp}
use x_cluster_link.Kube.{Kube, Effect, M, ◌>>=◌}
use x_cluster_link.Kube.Post.{Post-pure, Post-if, Post-request, Post-bind, Post-then, Post-weaken}
use x_cluster_link.NatTunnel.Runs.{IsGatewayPod, Post-get_nat_gw_pod}
use x_cluster_link.NatTunnel.Setup.{
  choose_gateway, next_status, move_gateway, relabel, rebuild, update, revert_type,
}
use x_cluster_link.NatTunnel.Handlers.{
  with_finalizer, ensure_finalizer, handle_create_or_update, handle_delete, fail_with, reconcile,
}
use x_cluster_link.System.Keeps.{
  Keeps, Permits, Keeps-pure, Keeps-throw, Keeps-if, Keeps-or_panic, Keeps-request, Keeps-bind,
  Keeps-then, Keeps-bind-read, Keeps-bind-attempt-read,
}
use x_cluster_link.System.Rules.{TunnelFrom, Edits-moved, TunnelWrite, Lawful}
use x_cluster_link.System.Tunnels.{
  permits, Permits-edit, Keeps-bind-pod, Keeps-tear_down, Keeps-build-save_status,
  Keeps-tear_down-release, Keeps-initialise,
}

module _ (K : Kube) (cluster_id : String) where
  Keeps-relabel : (t : VpcNatTunnel) → TunnelFrom K t → Keeps (Lawful K cluster_id) (relabel K t)
  unfolding relabel
  Keeps-relabel t known =
      Keeps-if _ _ _
        (λ _. Keeps-bind _ _ (Keeps-or_panic _) (λ l₁. Keeps-bind _ _ (Keeps-or_panic _) (λ l₂.
          Keeps-bind _ _ (Keeps-or_panic _) (λ l₃.
            Keeps-then _ _
              (Keeps-request _ _ (
                Permits-edit K cluster_id t _ known
                  (Edits-moved t t.spec.remote_ip t.spec.internal_ip t.spec.local_gw l₃)))
              (Keeps-pure tt)))))
        (λ _. Keeps-pure tt)

  -- Whichever gateway is chosen, the pod is that of the gateway in the status that comes next.
  Keeps-bind-choose_gateway :
      {B : Type 0} (t : VpcNatTunnel) (f : Pod × VpcNatTunnel → M K B)
      → ((p : Pod) (t' : VpcNatTunnel)
          → IsGatewayPod K t'.status.local_gw p
          → t'.metadata ≡ t.metadata
          → Keeps (Lawful K cluster_id) (f (p, t')))
      → Keeps (Lawful K cluster_id) (choose_gateway K t >>= f)
  unfolding choose_gateway
  Keeps-bind-choose_gateway t f kf = record {
    at = λ w h. Post-bind _ f w (
        Post-if _ _ _ w
          (λ _. Post-bind _ _ w (
            Post-get_nat_gw_pod _ w
              (λ p w₁ ready e. Post-then _ _ w₁ (
                Post-weaken _
                  ((Keeps-tear_down K cluster_id _ p t ready).at w₁
                    (subst (Lawful K cluster_id) (sym e) h))
                  (λ _ w₂ h₂. Post-pure _ w₂ ((kf p t ready refl).at w₂ h₂)) (λ _ h₂. h₂)))
              (λ w₁ e. subst (Lawful K cluster_id) (sym e) h)))
          (λ _. Post-bind _ _ w (
            Post-get_nat_gw_pod _ w
              (λ p w₁ ready e.
                Post-pure _ w₁ (
                  (kf p (move_gateway t) ready refl).at w₁ (subst (Lawful K cluster_id) (sym e) h)))
              (λ w₁ e. subst (Lawful K cluster_id) (sym e) h))));
  }

  pub Keeps-rebuild :
      (t : VpcNatTunnel) (remote : GatewayExIp)
      → TunnelFrom K t
      → Keeps (Lawful K cluster_id) (rebuild K t remote)
  unfolding rebuild next_status
  Keeps-rebuild t remote from = Keeps-bind-choose_gateway t _ (λ p t' ready same.
      Keeps-build-save_status K cluster_id p t (next_status t' remote) _ from same ready
        (λ stored known. Keeps-relabel stored known))

  Keeps-update :
      (t : VpcNatTunnel) (remote : GatewayExIp)
      → TunnelFrom K t
      → Keeps (Lawful K cluster_id) (update K t remote)
  unfolding update
  Keeps-update t remote known =
      Keeps-if _ _ _
        (λ _.
          Keeps-then _ _
            (Keeps-request _ _ (
              Permits-edit K cluster_id t (revert_type t) known (record {
                same_name = refl;
                same_namespace = refl;
                same_finalizers = refl;
                same_status = refl;
                same_local_vpc = refl;
                same_remote_vpc = refl;
                same_remote_cluster = refl;
                same_interface_addr = refl;
                tunnel_type = inr refl;
              })))
            (Keeps-pure tt))
        (λ _. Keeps-if _ _ _ (λ _. Keeps-pure tt) (λ _. Keeps-rebuild t remote known))

  Keeps-handle_delete :
      (t : VpcNatTunnel) → TunnelFrom K t → Keeps (Lawful K cluster_id) (handle_delete K t)
  unfolding handle_delete
  Keeps-handle_delete t known =
      Keeps-if _ _ _
        (λ _.
          Keeps-bind-pod K cluster_id t.status.local_gw _
            (λ p ready. Keeps-tear_down-release K cluster_id p t ready known))
        (λ _. Keeps-pure tt)

  -- The object that the rest goes on with: the server's answer, or the one that was read.
  Keeps-bind-ensure_finalizer :
      {B : Type 0} (t : VpcNatTunnel) (f : VpcNatTunnel → M K B)
      → TunnelFrom K t
      → ((t' : VpcNatTunnel) → TunnelFrom K t' → Keeps (Lawful K cluster_id) (f t'))
      → Keeps (Lawful K cluster_id) (ensure_finalizer K t >>= f)
  unfolding ensure_finalizer
  Keeps-bind-ensure_finalizer t f known kf = record {
    at = λ w h.
        let asked : Permits (Lawful K cluster_id) (Effect.update_tunnel (with_finalizer K t)) =
          permits K cluster_id (Effect.update_tunnel (with_finalizer K t))
            (λ l. (t, known, TunnelWrite.claims refl)) in
        Post-bind _ f w (
          Post-if _ _ _ w
            (λ _.
              Post-request _ _ w
                (λ t' s e.
                  (kf t' (TunnelFrom.stored t known (w.state, s, e))).at _ (asked w.log h).0)
                (λ _. (asked w.log h).1))
            (λ _. Post-pure t w ((kf t known).at w h)));
  }

  Keeps-handle_create_or_update :
      (t : VpcNatTunnel)
      → TunnelFrom K t
      → Keeps (Lawful K cluster_id) (handle_create_or_update K cluster_id t)
  unfolding handle_create_or_update
  Keeps-handle_create_or_update t known = Keeps-bind-ensure_finalizer t _ known (λ t' known'.
      Keeps-bind-read _ _ (λ remote _.
        Keeps-if _ _ _ (λ _. Keeps-initialise K cluster_id t' remote known')
          (λ _. Keeps-if _ _ _ (λ _. Keeps-update t' remote known') (λ _. Keeps-pure tt))))

  Keeps-fail_with : (e : Option K.Err) → Keeps (Lawful K cluster_id) (fail_with K e)
  Keeps-fail_with none = Keeps-pure tt
  Keeps-fail_with (some e) = Keeps-throw e

  pub Keeps-reconcile : (key : ObjectKey) → Keeps (Lawful K cluster_id) (reconcile K cluster_id key)
  unfolding reconcile
  Keeps-reconcile key =
      Keeps-bind-attempt-read _ _
        (λ t given.
          let known : TunnelFrom K t = TunnelFrom.fetched key given in
          Keeps-if _ _ _ (λ _. Keeps-handle_delete t known)
            (λ _. Keeps-handle_create_or_update t known))
        (λ e. Keeps-fail_with (K.ignore_not_found e))
