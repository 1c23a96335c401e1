-- ===== src/Informer/Healthy.antt =====
-- That a fail-over gets to its end in a cluster that answers.
use x_cluster_link.Base.{
  String, ◌≡◌, ◌≢◌, refl, sym, subst, ◌∙◌, ap, Bool, false, some, List, [], ◌∷◌, ◌++◌, inl, inr,
  ◌==◌, ==-eq_false, if◌then◌else◌,
}
use mathlib.Core.Bool.{true≢false}
use x_cluster_link.Base.GoMap.{Entries, index, insert, lookup}
use x_cluster_link.Objects.{Pod, VpcNatTunnel, GatewayExIp, StatefulSet, Vpc}
use x_cluster_link.Kube.{Kube, World, Reply, answer, refuse, Entry, M, pure, ◌>>=◌}
use x_cluster_link.Kube.Answers.{
  Answers, AnswersWith, Post-read_answered, Post-request_answered, Post-or_panic_given,
}
use x_cluster_link.Kube.Steps.{if-false}
use x_cluster_link.Kube.Post.{Post, Post-pure, Post-bind, Post-then, Post-weaken, Post-both}
use x_cluster_link.NatTunnel.Gateway.{get_gw_extern_ip}
use x_cluster_link.NatTunnel.Healthy.{Reaches, Post-pod_ready, Post-or_error_given}
use x_cluster_link.Informer.Lookup.{gateway_of, can_replace, pick_gateway, list_gateways}
use x_cluster_link.Informer.Switch.{set_gateway, update_tunnels, list_tunnels_of, switch_to}
use x_cluster_link.Informer.Handlers.{named, fail_over}
use x_cluster_link.Informer.Picks.{NonePass, IsFirstOf}
use x_cluster_link.Informer.Failover.{Moved, NoGateway, name_of, gw_selector, fail_over-Moved}

module _ (test : StatefulSet → Bool) (gw : StatefulSet) where
  -- The first item that passes is the one that is picked.
  pick_gateway-IsFirstOf :
      (items : List StatefulSet) → IsFirstOf test items gw → pick_gateway test items ≡ gw
  unfolding pick_gateway if◌then◌else◌
  pick_gateway-IsFirstOf items ([], rest, e, none_before, passes) =
      ap (pick_gateway test) e ∙ ap (λ (b : Bool). if b then gw else pick_gateway test rest) passes
  pick_gateway-IsFirstOf items (st ∷ before, rest, e, (fails, none_before), passes) =
      ap (pick_gateway test) e
      ∙ ap (λ (b : Bool). if b then st else pick_gateway test (before ++ (gw ∷ rest))) fails
      ∙ pick_gateway-IsFirstOf (before ++ (gw ∷ rest)) (before, rest, refl, none_before, passes)

  none_passes :
      (before rest : List StatefulSet) → NonePass test (before ++ (gw ∷ rest)) → test gw ≡ false
  none_passes [] rest (fails, _) = fails
  none_passes (st ∷ before) rest (_, h) = none_passes before rest h

-- What a fail-over needs of a cluster: in every state it finds the VPC, its tunnels and a gateway to
-- move to, with its one running pod, and writes are accepted.
pub record CanMove (K : Kube) (test : StatefulSet → Bool) (ex_ip : GatewayExIp) : Type 0 where
  pub vpc : Vpc
  pub vpc_found : AnswersWith vpc (K.get_vpc (named (index ex_ip.metadata.labels "localVpc")))
  pub tunnels : List VpcNatTunnel
  pub tunnels_found : AnswersWith tunnels (K.list_tunnels "" (("localVpc", vpc.metadata.name) ∷ []))
  pub items : List StatefulSet
  pub items_found : AnswersWith items (K.list_stateful_sets "kube-system" gw_selector)
  pub gw : StatefulSet
  pub is_first : IsFirstOf test items gw
  pub is_named : gw.metadata.name ≢ ""
  pub pod : Pod
  pub ready : Reaches K (gateway_of gw) pod
  pub ip : String
  pub is_ip :
      lookup "ovn-vpc-external-network.kube-system.kubernetes.io/ip_address"
        pod.metadata.annotations
      ≡ some ip
  pub labels : Entries
  pub has_labels : ex_ip.metadata.labels ≡ some labels
  pub vpc_accepted : (x : Vpc) → Answers (K.update_vpc x)
  pub ex_ip_accepted : (x : GatewayExIp) → Answers (K.update_ex_ip x)
  pub tunnel_accepted : (x : VpcNatTunnel) → Answers (K.update_tunnel x)

module _ {K : Kube} {Q : Unit {0} → World K → Type 0} {F : World K → Type 0} where
  Post-all_updated :
      (edit : VpcNatTunnel → VpcNatTunnel) (ts : List VpcNatTunnel) (w : World K)
      → ((x : VpcNatTunnel) → Answers (K.update_tunnel x))
      → ((w' : World K) → Q tt w')
      → Post Q F (update_tunnels K edit ts w)
  unfolding update_tunnels
  Post-all_updated edit [] w h q = Post-pure tt w (q w)
  Post-all_updated edit (t ∷ ts) w h q =
      Post-then _ _ w (Post-request_answered _ _ w (h _) (λ _ w₁. Post-all_updated edit ts w₁ h q))

module _ (K : Kube) (test : StatefulSet → Bool) (ex_ip : GatewayExIp)
    (can : CanMove K test ex_ip) where
  Post-switched :
      {Q : String → World K → Type 0} {F : World K → Type 0} (w : World K)
      → ((w' : World K) → Q (can.ip) w')
      → Post Q F (switch_to K (can.gw) (can.vpc) ex_ip w)
  unfolding switch_to get_gw_extern_ip insert
  Post-switched w q = Post-bind _ _ w (
      Post-pod_ready (can.ready) w (λ w₁. Post-bind _ _ w₁ (
        Post-or_error_given _ _ (can.ip) w₁ (can.is_ip) (
          Post-then _ _ w₁ (
            Post-request_answered _ _ w₁ (can.vpc_accepted _) (λ _ w₂. Post-bind _ _ w₂ (
              Post-or_panic_given _ w₂ _
                (ap (insert "localGateway" (gateway_of (can.gw))) (can.has_labels))
                (Post-then _ _ w₂ (
                  Post-request_answered _ _ w₂ (can.ex_ip_accepted _)
                    (λ _ w₃. Post-pure _ w₃ (q w₃)))))))))))

  abbrev listed_items :
      List StatefulSet → Reply K.Err (List StatefulSet) × K.State → List StatefulSet
  listed_items xs (answer ys, _) = ys
  listed_items xs (refuse _, _) = xs

  -- Where a gateway can take over, the cluster does not lack one.
  not_without : (l : List Entry) → NoGateway K test ex_ip l → ⊥
  not_without l h =
      let (s, s₁, e) = h.listed in
      let (s₂, e') = can.items_found s in
      let same : h.items ≡ can.items = ap (listed_items []) (sym e ∙ e') in
      let (before, rest, split, none_before, passes) = can.is_first in
      elim (h.none_pass) [
        | inl fails ↦ true≢false (
            sym passes
            ∙ none_passes test (can.gw) before rest (subst (NonePass test) (same ∙ split) fails))
        | inr (gw, first, nameless) ↦ can.is_named (
            ap (λ g. g.metadata.name)
              (sym (pick_gateway-IsFirstOf test (can.gw) (can.items) (can.is_first))
                ∙ ap (pick_gateway test) (sym same)
                ∙ pick_gateway-IsFirstOf test gw (h.items) first)
            ∙ nameless)
      ]

module _ (K : Kube) (cluster_id : String) (down : StatefulSet) (ex_ip : GatewayExIp) (w : World K)
    (can : CanMove K (can_replace down) ex_ip) where
  fail_over-ends :
      {Q : Unit {0} → World K → Type 0} {F : World K → Type 0} (w : World K)
      → ((w' : World K) → Q tt w')
      → Post Q F (fail_over K cluster_id down ex_ip w)
  unfolding fail_over list_tunnels_of list_gateways
  fail_over-ends {Q} {F} w q =
      let picked = pick_gateway-IsFirstOf (can_replace down) (can.gw) (can.items) (can.is_first) in
      Post-bind _ _ w (
        Post-read_answered _ w (can.vpc) (can.vpc_found) (λ w₁. Post-bind _ _ w₁ (
          Post-read_answered _ w₁ (can.tunnels) (can.tunnels_found) (λ w₂. Post-bind _ _ w₂ (
            Post-read_answered _ w₂ (can.items) (can.items_found) (λ w₃.
              subst (λ gw. Post Q F (moved_to gw w₃)) (sym picked)
                (subst (Post Q F) (sym (if-false _ _ _ w₃ (==-eq_false _ _ (can.is_named)))) (
                  Post-bind _ _ w₃ (
                    Post-switched K (can_replace down) ex_ip can w₃
                      (λ w₄. Post-all_updated _ (can.tunnels) w₄ (can.tunnel_accepted) q))))))))))
    where
      moved_to : StatefulSet → M K (Unit {0})
      moved_to gw = if gw.metadata.name == "" then pure tt else (do
        gw_extern_ip ← switch_to K gw (can.vpc) ex_ip
        update_tunnels K (set_gateway gw_extern_ip (gateway_of gw)) (can.tunnels))

  -- The gateway in use goes down: the handler gets to its end, and the VPC's routes, the GatewayExIp
  -- and every listed tunnel are moved to another gateway, if in every state of the cluster the VPC,
  -- its tunnels and a gateway that passes the test of UpdateFunc are there, the first such gateway has a
  -- name and one running pod with an external address, the GatewayExIp has labels, commands succeed
  -- in silence and writes are accepted.
  pub fail_over-returns :
      Post
        (λ _ w'. Moved K (can_replace down) ex_ip w.log (name_of K cluster_id down ex_ip w) w'.log)
        (λ _. ⊥)
        (fail_over K cluster_id down ex_ip w)
  fail_over-returns =
      Post-weaken _
        (Post-both _ (fail_over-Moved K cluster_id down ex_ip w)
          (fail_over-ends {Q = λ _ _. Unit {0}} {F = λ _. ⊥} w (λ _. tt)))
        (λ _ w' (h, _). elim h [
          | inl moved ↦ moved
          | inr (without, _) ↦ absurd (not_without K (can_replace down) ex_ip can w.log without)
        ])
        (λ _ (_, never). never)
