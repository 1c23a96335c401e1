-- ===== src/NatTunnel/Deletion.antt =====
-- handleDelete: what happens before the finalizer goes.
use x_cluster_link.Base.{
  String, ◌≡◌, refl, ◌∙◌, ap, true, some, List, ◌∷◌, inl, inr, contains_string, if◌then◌else◌,
}
use x_cluster_link.Objects.{Pod, VpcNatTunnel}
use x_cluster_link.Kube.{Kube, World, Effect, Entry, did}
use x_cluster_link.Kube.Log.{changes}
use x_cluster_link.Kube.Post.{Post, Post-pure, Post-or_panic, Post-request, Post-bind, Post-then}
use x_cluster_link.NatTunnel.Routes.{gen_del_globalnet_route, gen_delete_tunnel_cmd}
use x_cluster_link.NatTunnel.Setup.{tear_down}
use x_cluster_link.NatTunnel.Runs.{
  command_in, Tried, IsGatewayPod, Post-run_in, Post-get_nat_gw_pod,
}
use x_cluster_link.NatTunnel.Handlers.{finalizer, without_finalizer, handle_delete}

pub changes-Tried :
    (pod : Pod) (command : String) (l l' : List Entry)
    → Tried (command_in pod command) l l'
    → changes l' ≡ changes l
changes-Tried pod command l l' (inl e) = ap changes e
changes-Tried pod command l l' (inr (inl e)) = ap changes e
changes-Tried pod command l l' (inr (inr e)) = ap changes e

-- The log once the routes and then the tunnel have been removed from the pod.
abbrev pub TornDown : Pod → VpcNatTunnel → List Entry → List Entry → Type 0
TornDown pod t l l' =
    (route : String) × (gen_del_globalnet_route t ≡ some route)
    × (l' ≡ did (command_in pod (gen_delete_tunnel_cmd t)) ∷ did (command_in pod route) ∷ l)

module _ {K : Kube} {Q : Unit {0} → World K → Type 0} {F : World K → Type 0} where
  pub Post-tear_down :
      (pod : Pod) (t : VpcNatTunnel) (w : World K)
      → ((w' : World K) → TornDown pod t w.log w'.log → Q tt w')
      → ((w' : World K) → changes w'.log ≡ changes w.log → F w')
      → Post Q F (tear_down K pod t w)
  unfolding tear_down
  Post-tear_down pod t w q f = Post-bind _ _ w (
      Post-or_panic _ w
        (λ route e. Post-then _ _ w (
          Post-run_in pod route w
            (λ w₁ l₁.
              Post-run_in pod _ w₁ (λ w₂ l₂. q w₂ (route, e, cc))
                (λ w₂ l₂. f w₂ (changes-Tried pod _ _ _ l₂ ∙ ap changes l₁)))
            (λ w₁ l₁. f w₁ (changes-Tried pod _ _ _ l₁))))
        (λ _. f w refl))

module _ (K : Kube) (t : VpcNatTunnel) (w : World K) where
  abbrev pub Deleted : World K → Type 0
  Deleted w' =
      (pod : Pod) × (l : List Entry) × IsGatewayPod K t.status.local_gw pod
      × TornDown pod t w.log l
      × (w'.log ≡ did (Effect.update_tunnel (without_finalizer K t)) ∷ l)

  -- handleDelete of an object with the finalizer, in any cluster: if it returns, then the routes and
  -- after them the tunnel were removed, without an error, from the one running pod of the gateway in
  -- the status, and only then was the object written back without the finalizer. If it ends with an
  -- error or a panic, no object was changed, so that the object keeps its finalizer.
  pub handle_delete-Deleted :
      contains_string t.metadata.finalizers finalizer ≡ true
      → Post (λ _ w'. Deleted w') (λ w'. changes w'.log ≡ changes w.log) (handle_delete K t w)
  unfolding handle_delete if◌then◌else◌
  handle_delete-Deleted held = rw held (
      Post-bind _ _ w (
        Post-get_nat_gw_pod _ w
          (λ pod w₁ found l₁. Post-then _ _ w₁ (
            Post-tear_down pod t w₁
              (λ w₂ (route, e, l₂). Post-then _ _ w₂ (
                Post-request _ _ w₂
                  (λ _ s _. Post-pure tt _ (pod, w₂.log, found, (route, e, cc), refl))
                  (λ s. ap changes l₂ ∙ ap changes l₁)))
              (λ w₂ c₂. c₂ ∙ ap changes l₁)))
          (λ w₁ l₁. ap changes l₁)))
