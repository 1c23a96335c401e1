-- ===== src/NatTunnel/Updating.antt =====
-- Bringing a built tunnel up to date: the order of the commands and writes, and the gateways that
-- they concern.
use x_cluster_link.Base.{
  ◌≡◌, refl, ◌⊎◌, inl, inr, ◌∙◌, ap, Bool, true, false, List, ◌∷◌, arith, ==_iff_eq, subst,
}
use x_cluster_link.Objects.{Pod, VpcNatTunnel, GatewayExIp}
use x_cluster_link.Kube.{Kube, World, Effect, Entry, did, failed}
use x_cluster_link.Kube.Log.{changes}
use x_cluster_link.Kube.Post.{
  Post, Post-pure, Post-if, Post-or_panic, Post-request, Post-bind, Post-then, Post-weaken,
}
use x_cluster_link.NatTunnel.Setup.{
  next_status, move_gateway, keeps_gateway, choose_gateway, relabel, rebuild,
}
use x_cluster_link.NatTunnel.Runs.{IsGatewayPod, Post-get_nat_gw_pod}
use x_cluster_link.NatTunnel.Deletion.{TornDown, Post-tear_down}
use x_cluster_link.NatTunnel.Convergence.{IsInSync}
use x_cluster_link.NatTunnel.Phases.{Built, Post-build}

pub keeps_gateway-local_gw :
    (t : VpcNatTunnel) → keeps_gateway t ≡ true → t.status.local_gw ≡ t.spec.local_gw
unfolding keeps_gateway
keeps_gateway-local_gw t h = ==_iff_eq _ _ (ground arith)

-- What becomes of the old tunnel: where the gateway stays, its routes and then the tunnel itself are
-- removed from its pod; where the gateway changes, no command runs.
abbrev pub Retired : Bool → Pod → VpcNatTunnel → List Entry → List Entry → Type 0
Retired true pod t l l' = TornDown pod t l l'
Retired false pod t l l' = l' ≡ l

-- The status in which the new tunnel is built.
abbrev pub retargeted : VpcNatTunnel → GatewayExIp → VpcNatTunnel
retargeted t remote =
    next_status (elim (keeps_gateway t) [ true ↦ t | false ↦ move_gateway t ]) remote

-- The new tunnel is in sync, unless the type in the spec was edited.
pub retargeted-IsInSync :
    (t : VpcNatTunnel) (remote : GatewayExIp)
    → t.status.tunnel_type ≡ t.spec.tunnel_type
    → IsInSync (retargeted t remote) remote
unfolding next_status
retargeted-IsInSync t remote same = go (keeps_gateway t) (keeps_gateway-local_gw t)
  where
    go :
        (b : Bool)
        → (b ≡ true → t.status.local_gw ≡ t.spec.local_gw)
        → IsInSync (next_status (elim b [ true ↦ t | false ↦ move_gateway t ]) remote) remote
    go true kept = record {
      remote_ip = refl;
      internal_ip = refl;
      interface_addr = refl;
      local_gw = kept refl;
      remote_cidr = refl;
      tunnel_type = same;
    }
    go false moved = record {
      remote_ip = refl;
      internal_ip = refl;
      interface_addr = refl;
      local_gw = refl;
      remote_cidr = refl;
      tunnel_type = same;
    }

module _ (K : Kube) (t : VpcNatTunnel) (remote : GatewayExIp) (w : World K) where
  -- In the pod of the gateway that the spec names, the old tunnel was retired and the new one built,
  -- and the status was saved after that.
  pub record Rebuilt (l : List Entry) : Type 0 where
    pub pod : Pod
    pub torn : List Entry
    pub before : List Entry
    pub is_gateway_pod : IsGatewayPod K t.spec.local_gw pod
    pub retired : Retired (keeps_gateway t) pod t w.log torn
    pub runs : Built pod (retargeted t remote) torn before
    pub saved : l ≡ did (Effect.update_tunnel_status (retargeted t remote)) ∷ before

  -- The log of an update that returned: nothing, or one write of labels, follows the saved status.
  abbrev pub Updated : World K → Type 0
  Updated w' =
      Rebuilt w'.log
      ⊎ ((l : List Entry) × (t' : VpcNatTunnel) × Rebuilt l
          × (w'.log ≡ did (Effect.update_tunnel t') ∷ l))

  -- The log of an update that failed: no object was changed, or only the status, after the build.
  abbrev pub Stopped : World K → Type 0
  Stopped w' =
      (changes w'.log ≡ changes w.log)
      ⊎ Rebuilt w'.log
      ⊎ ((l : List Entry) × (t' : VpcNatTunnel) × Rebuilt l
          × (w'.log ≡ failed (Effect.update_tunnel t') ∷ l))

  Post-relabel :
      (stored : VpcNatTunnel) (w' : World K)
      → Rebuilt w'.log
      → Post (λ _. Updated) Stopped (relabel K stored w')
  unfolding relabel
  Post-relabel stored w' h =
      Post-if _ _ _ w'
        (λ _. Post-bind _ _ _ (
          Post-or_panic _ _
            (λ l₁ _. Post-bind _ _ _ (
              Post-or_panic _ _
                (λ l₂ _. Post-bind _ _ _ (
                  Post-or_panic _ _
                    (λ l₃ _. Post-then _ _ _ (
                      Post-request _ _ _ (λ _ s _. Post-pure tt _ (inr (_, _, h, refl)))
                        (λ s. inr (inr (_, _, h, refl)))))
                    (λ _. inr (inl h))))
                (λ _. inr (inl h))))
            (λ _. inr (inl h))))
        (λ _. Post-pure tt _ (inl h))

  -- The first step, whichever way the gateway is chosen.
  abbrev Chosen : Pod × VpcNatTunnel → World K → Type 0
  Chosen (pod, t') w' =
      IsGatewayPod K t.spec.local_gw pod
      × Retired (keeps_gateway t) pod t w.log w'.log
      × (next_status t' remote ≡ retargeted t remote)
      × (changes w'.log ≡ changes w.log)

  Post-choose_gateway : Post Chosen (λ w'. changes w'.log ≡ changes w.log) (choose_gateway K t w)
  unfolding choose_gateway
  Post-choose_gateway =
      Post-if _ _ _ w
        (λ kept. Post-bind _ _ w (
          Post-get_nat_gw_pod _ w
            (λ pod w₁ found l₁. Post-then _ _ w₁ (
              Post-tear_down pod t w₁
                (λ w₂ (route, e, l₂). Post-pure _ w₂ (
                  subst (λ g. IsGatewayPod K g pod) (keeps_gateway-local_gw t kept) found,
                  rw kept (route, e, cc),
                  rw kept refl,
                  ap changes l₂ ∙ ap changes l₁,
                ))
                (λ w₂ c₂. c₂ ∙ ap changes l₁)))
            (λ w₁ l₁. ap changes l₁)))
        (λ moved. Post-bind _ _ w (
          Post-get_nat_gw_pod _ w
            (λ pod w₁ found l₁. Post-pure _ w₁ (found, rw moved l₁, rw moved refl, ap changes l₁))
            (λ w₁ l₁. ap changes l₁)))

  -- The update, in any cluster, leaves the log `Updated` if it returns and `Stopped` if not.
  pub rebuild-Rebuilt : Post (λ _. Updated) Stopped (rebuild K t remote w)
  unfolding rebuild
  rebuild-Rebuilt = Post-bind _ _ w (
      Post-weaken _ Post-choose_gateway
        (λ (pod, t') w₁ (found, retired, same, c₁). Post-then _ _ w₁ (
          Post-build pod (next_status t' remote) w₁
            (λ w₂ runs. Post-bind _ _ w₂ (
              Post-request _ _ w₂
                (λ stored s _. Post-relabel stored _ (record {
                  pod = pod;
                  torn = w₁.log;
                  before = w₂.log;
                  is_gateway_pod = found;
                  retired = retired;
                  runs = subst (λ n. Built pod n w₁.log w₂.log) same runs;
                  saved = ap (λ n. did (Effect.update_tunnel_status n) ∷ w₂.log) same;
                }))
                (λ s. inl (ap changes (runs.2) ∙ c₁))))
            (λ w₂ c₂. inl (c₂ ∙ c₁))))
        (λ w₁ c₁. inl c₁))
