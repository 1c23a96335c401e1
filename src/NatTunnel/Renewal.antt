-- ===== src/NatTunnel/Renewal.antt =====
-- That the update of a built tunnel gets to its end in a cluster that answers.
use x_cluster_link.Base.{String, ◌≡◌, refl, sym, subst, ap, some, List, ◌∷◌}
use x_cluster_link.Base.GoMap.{Entries, insert}
use x_cluster_link.Objects.{Pod, VpcNatTunnel, GatewayExIp}
use x_cluster_link.Kube.{Kube, World, Effect, answer}
use x_cluster_link.Kube.Answers.{Answers, Post-request_answered, Post-or_panic_given}
use x_cluster_link.Kube.Steps.{request-answer}
use x_cluster_link.Kube.Post.{
  Post, Post-pure, Post-if, Post-bind, Post-then, Post-weaken, Post-both,
}
use x_cluster_link.NatTunnel.Setup.{
  next_status, move_gateway, choose_gateway, relabel, rebuild, save_status,
}
use x_cluster_link.NatTunnel.Updating.{Updated, keeps_gateway-local_gw, rebuild-Rebuilt}
use x_cluster_link.NatTunnel.Healthy.{
  Reaches, Post-pod_ready, Post-build_ready, Post-tear_down_ready,
}

-- What an update needs of a cluster, in every state: the gateway of the spec has its pod, the status
-- update is answered with an object that has labels, and the other writes are accepted.
pub record CanUpdate (K : Kube) (t : VpcNatTunnel) (pod : Pod) : Type 0 where
  pub ready : Reaches K t.spec.local_gw pod
  pub ip : String
  pub ips : List String
  pub allocated : t.status.global_egress_ip ≡ ip ∷ ips
  pub labelled :
      (x : VpcNatTunnel) (s : K.State)
      → (stored : VpcNatTunnel) × (s' : K.State) × (m : Entries) × (K.update_tunnel_status x s
          ≡ (answer stored, s'))
        × (stored.metadata.labels ≡ some m)
  pub accepted : (x : VpcNatTunnel) → Answers (K.update_tunnel x)

module _ (K : Kube) (t : VpcNatTunnel) (pod : Pod) (can : CanUpdate K t pod) where
  Post-relabelled :
      {Q : Unit {0} → World K → Type 0} {F : World K → Type 0} (stored : VpcNatTunnel) (m : Entries)
      (w : World K)
      → stored.metadata.labels ≡ some m
      → ((w' : World K) → Q tt w')
      → Post Q F (relabel K stored w)
  unfolding relabel insert
  Post-relabelled stored m w e q =
      Post-if _ _ _ w
        (λ _. Post-bind _ _ w (
          Post-or_panic_given _ w _ (ap (insert "remoteCluster" stored.spec.remote_cluster) e) (
            Post-bind _ _ w (
              Post-or_panic_given _ w _ refl (
                Post-bind _ _ w (
                  Post-or_panic_given _ w _ refl (
                    Post-then _ _ w (
                      Post-request_answered _ _ w (can.accepted _)
                        (λ _ w₁. Post-pure tt w₁ (q w₁))))))))))
        (λ _. Post-pure tt w (q w))

  Post-chosen :
      {Q : Pod × VpcNatTunnel → World K → Type 0} {F : World K → Type 0} (w : World K)
      → ((t' : VpcNatTunnel) (w' : World K)
          → t'.status.global_egress_ip ≡ can.ip ∷ can.ips
          → Q (pod, t') w')
      → Post Q F (choose_gateway K t w)
  unfolding choose_gateway
  Post-chosen w q =
      Post-if _ _ _ w
        (λ kept. Post-bind _ _ w (
          Post-pod_ready
            (subst (λ g. Reaches K g pod) (sym (keeps_gateway-local_gw t kept)) (can.ready)) w
            (λ w₁. Post-then _ _ w₁ (
              Post-tear_down_ready (can.ready) pod t (can.ip, can.ips) w₁ (can.allocated)
                (λ w₂. Post-pure _ w₂ (q t w₂ (can.allocated)))))))
        (λ _. Post-bind _ _ w (
          Post-pod_ready (can.ready) w
            (λ w₁. Post-pure _ w₁ (q (move_gateway t) w₁ (can.allocated)))))

module _ (K : Kube) (t : VpcNatTunnel) (remote : GatewayExIp) (pod : Pod) (w : World K)
    (can : CanUpdate K t pod) where
  Post-rebuilt :
      {Q : Unit {0} → World K → Type 0} {F : World K → Type 0} (w : World K)
      → ((w' : World K) → Q tt w')
      → Post Q F (rebuild K t remote w)
  unfolding rebuild next_status
  Post-rebuilt {Q} {F} w q = Post-bind _ _ w (
      Post-chosen K t pod can w (λ t' w₁ e. Post-then _ _ w₁ (
        Post-build_ready (can.ready) pod _ (can.ip, can.ips) w₁ e
          (λ w₂. Post-bind _ _ w₂ (saved (next_status t' remote) w₂)))))
    where
      saved :
          (x : VpcNatTunnel) (w₂ : World K)
          → Post (λ stored w₃. Post Q F (relabel K stored w₃)) F (save_status K x w₂)
      saved x w₂ =
          let (stored, s, m, answered, has_labels) = can.labelled x w₂.state in
          subst (Post (λ stored w₃. Post Q F (relabel K stored w₃)) F)
            (sym (request-answer (Effect.update_tunnel_status x) _ w₂ answered))
            (record { at = Post-relabelled K t pod can stored m _ has_labels q })

  -- The update of a built tunnel gets to its end, with the old tunnel retired, the new one built and
  -- the new status saved, if in every state of the cluster the gateway in the spec has one pod, which
  -- runs, commands succeed in silence, the status update is answered with an object that has labels
  -- and other writes are accepted, and the status of the tunnel has an egress address.
  pub rebuild-returns : Post (λ _. Updated K t remote w) (λ _. ⊥) (rebuild K t remote w)
  rebuild-returns =
      Post-weaken _
        (Post-both _ (rebuild-Rebuilt K t remote w)
          (Post-rebuilt {Q = λ _ _. Unit {0}} {F = λ _. ⊥} w (λ _. tt)))
        (λ _ _ (done, _). done) (λ _ (_, never). never)
