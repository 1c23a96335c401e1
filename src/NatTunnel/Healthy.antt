-- ===== src/NatTunnel/Healthy.antt =====
-- That the reconciler gets to its end in a cluster that answers.
use x_cluster_link.Base.{
  String, ◌≡◌, refl, ap, sym, subst, ◌∙◌, true, some, List, [], ◌∷◌, ◌==◌, ==-refl, contains_string,
  Option, Option-cases, inl, inr,
}
use mathlib.Core.Bool.{true≢false}
use x_cluster_link.Base.GoMap.{index, lookup}
use x_cluster_link.Base.Text.{is_some, trim_space, trim_left, trim_right}
use x_cluster_link.Objects.{Pod, VpcNatTunnel, GatewayExIp, Cluster, ClusterGlobalEgressIp}
use x_cluster_link.Kube.{Kube, World}
use x_cluster_link.Kube.Answers.{
  Answers, AnswersWith, Post-read_answered, Post-request_answered, Post-request_answered_with,
  Post-or_panic_given,
}
use x_cluster_link.Kube.Steps.{if-true}
use x_cluster_link.Kube.Post.{Post, Post-pure, Post-bind, Post-then, Post-weaken, Post-both}
use x_cluster_link.NatTunnel.Gateway.{
  gw_labels, the_running_pod, get_nat_gw_pod, cluster_key, egress_key, head?, or_error,
  get_globalnet_cidr, get_global_egress_ip, get_gw_extern_ip, get_ovn_gw_ip,
}
use x_cluster_link.NatTunnel.Exec.{check_stderr, exec_command_in_pod}
use x_cluster_link.NatTunnel.Routes.{snat_source, gen_globalnet_route, gen_del_globalnet_route}
use x_cluster_link.NatTunnel.Setup.{
  run_in, build, tear_down, begin_status, complete_status, initialise, ex_ip_key,
}
use x_cluster_link.NatTunnel.Handlers.{finalizer, without_finalizer, handle_delete}
use x_cluster_link.NatTunnel.Phases.{filled}
use x_cluster_link.NatTunnel.Deletion.{Deleted, handle_delete-Deleted}
use x_cluster_link.NatTunnel.Creation.{Initialised, initialise-Initialised}

-- The gateway has one pod, which runs, and commands in pods succeed and write nothing to stderr.
pub record Reaches (K : Kube) (gw : String) (pod : Pod) : Type 0 where
  pub pods : AnswersWith (pod ∷ []) (K.list_pods "kube-system" (gw_labels gw))
  pub running : pod.phase ≡ "Running"
  pub config : AnswersWith tt K.new_for_config
  pub executor : AnswersWith tt K.new_spdy_executor
  pub quiet :
      (name namespace container : String) (cmd : List String)
      → AnswersWith "" (K.stream name namespace container cmd)

given : (o : Option String) → is_some o ≡ true → (r : String) × (o ≡ some r)
given o h = elim (Option-cases o) [
  | inl e ↦ absurd (true≢false (sym h ∙ ap is_some e))
  | inr (r, e) ↦ (r, e)
]

module _ (t : VpcNatTunnel) (ip : String) (ips : List String)
    (e : t.status.global_egress_ip ≡ ip ∷ ips) where
  has_route : is_some (gen_globalnet_route t) ≡ true
  unfolding gen_globalnet_route snat_source
  has_route = rw e refl

  has_del_route : is_some (gen_del_globalnet_route t) ≡ true
  unfolding gen_del_globalnet_route snat_source
  has_del_route = rw e refl

module _ {K : Kube} {gw : String} {pod : Pod} (ready : Reaches K gw pod) where
  module _ {Q : Unit {0} → World K → Type 0} {F : World K → Type 0} where
    Post-nothing_said : (w : World K) → Q tt w → Post Q F (check_stderr K "" w)
    unfolding check_stderr trim_space trim_left trim_right
    Post-nothing_said w q = subst (Post Q F) (sym (if-true _ _ _ w (==-refl ""))) (Post-pure tt w q)

    Post-run_in_ready :
        (p : Pod) (command : String) (w : World K)
        → ((w' : World K) → Q tt w')
        → Post Q F (run_in K p command w)
    unfolding exec_command_in_pod
    Post-run_in_ready p command w q = Post-then _ _ w (
        Post-read_answered _ w tt ready.config (λ w₁. Post-then _ _ w₁ (
          Post-read_answered _ w₁ tt ready.executor (λ w₂. Post-bind _ _ w₂ (
            Post-request_answered_with _ _ w₂ "" (ready.quiet _ _ _ _)
              (λ w₃. Post-nothing_said w₃ (q w₃)))))))

  module _ {Q : Unit {0} → World K → Type 0} {F : World K → Type 0} where
    pub Post-build_ready :
        (p : Pod) (t : VpcNatTunnel) (ips : String × List String) (w : World K)
        → t.status.global_egress_ip ≡ ips.0 ∷ ips.1
        → ((w' : World K) → Q tt w')
        → Post Q F (build K p t w)
    unfolding build
    Post-build_ready p t (ip, ips) w e q =
        let (route, is_route) = given _ (has_route t ip ips e) in
        Post-then _ _ w (
          Post-run_in_ready p _ w (λ w₁.
            Post-bind _ _ w₁
              (Post-or_panic_given _ w₁ route is_route (Post-run_in_ready p _ w₁ q))))

    pub Post-tear_down_ready :
        (p : Pod) (t : VpcNatTunnel) (ips : String × List String) (w : World K)
        → t.status.global_egress_ip ≡ ips.0 ∷ ips.1
        → ((w' : World K) → Q tt w')
        → Post Q F (tear_down K p t w)
    unfolding tear_down
    Post-tear_down_ready p t (ip, ips) w e q =
        let (route, is_route) = given _ (has_del_route t ip ips e) in
        Post-bind _ _ w (
          Post-or_panic_given _ w route is_route
            (Post-then _ _ w (Post-run_in_ready p _ w (λ w₁. Post-run_in_ready p _ w₁ q))))

  module _ {Q : Pod → World K → Type 0} {F : World K → Type 0} where
    pub Post-pod_ready :
        (w : World K) → ((w' : World K) → Q pod w') → Post Q F (get_nat_gw_pod K gw w)
    unfolding get_nat_gw_pod the_running_pod
    Post-pod_ready w q = Post-bind _ _ w (
        Post-read_answered _ w (pod ∷ []) ready.pods (λ w₁.
          subst (Post Q F)
            (sym (if-true _ _ _ w₁ (ap (λ s. s == "Running") ready.running ∙ ==-refl "Running")))
            (Post-pure pod w₁ (q w₁))))

module _ {K : Kube} {Q : String → World K → Type 0} {F : World K → Type 0} where
  pub Post-or_error_given :
      (o : Option String) (message v : String) (w : World K)
      → o ≡ some v
      → Q v w
      → Post Q F (or_error K o message w)
  Post-or_error_given o message v w e q =
      subst (λ o. Post Q F (or_error K o message w)) (sym e) (Post-pure v w q)

module _ (K : Kube) (t : VpcNatTunnel) (w : World K) (pod : Pod) (ip : String)
    (ips : List String) where
  -- handleDelete gets to its end, with all that it has to do done, if the object has the finalizer and
  -- an egress address in its status, the gateway in its status has one pod, which runs, and in every
  -- state of the cluster commands succeed in silence and the write of the object is accepted.
  pub handle_delete-returns :
      contains_string t.metadata.finalizers finalizer ≡ true
      → t.status.global_egress_ip ≡ ip ∷ ips
      → Reaches K t.status.local_gw pod
      → Answers (K.update_tunnel (without_finalizer K t))
      → Post (λ _. Deleted K t w) (λ _. ⊥) (handle_delete K t w)
  unfolding handle_delete
  handle_delete-returns held addressed ready accepted =
      Post-weaken _
        (Post-both _ (handle_delete-Deleted K t w held) (
          subst (Post (λ _ _. Unit {0}) (λ _. ⊥)) (sym (if-true _ _ _ w held)) (
            Post-bind _ _ w (
              Post-pod_ready ready w (λ w₁. Post-then _ _ w₁ (
                Post-tear_down_ready ready pod t (ip, ips) w₁ addressed
                  (λ w₂.
                    Post-then _ _ w₂
                      (Post-request_answered _ _ w₂ accepted (λ _ w₃. Post-pure tt w₃ tt)))))))))
        (λ _ _ (deleted, _). deleted) (λ _ (_, never). never)

-- What a first build needs of a cluster: everything that it looks up is there, in every state.
pub record Serves (K : Kube) (cluster_id : String) (t : VpcNatTunnel) (local : GatewayExIp)
    (pod : Pod) : Type 0 where
  pub local_found : AnswersWith local (K.get_ex_ip (ex_ip_key t.spec.local_vpc cluster_id))
  pub ready : Reaches K (index local.metadata.labels "localGateway") pod
  pub cluster : Cluster
  pub cluster_found : AnswersWith cluster (K.get_cluster (cluster_key cluster_id))
  pub cidr : String
  pub is_cidr : head? cluster.global_cidr ≡ some cidr
  pub ovn : String
  pub is_ovn : lookup "ovn.kubernetes.io/gateway" pod.metadata.annotations ≡ some ovn
  pub internal : String
  pub is_internal :
      lookup "ovn-vpc-external-network.kube-system.kubernetes.io/ip_address"
        pod.metadata.annotations
      ≡ some internal
  pub egress : ClusterGlobalEgressIp
  pub egress_found : AnswersWith egress (K.get_global_egress_ip egress_key)
  pub ip : String
  pub ips : List String
  pub allocated : egress.allocated_ips ≡ ip ∷ ips
  pub status_accepted : (x : VpcNatTunnel) → Answers (K.update_tunnel_status x)
  pub accepted : (x : VpcNatTunnel) → Answers (K.update_tunnel x)

module _ (K : Kube) (cluster_id : String) (t : VpcNatTunnel) (local remote : GatewayExIp)
    (pod : Pod) (w : World K) (served : Serves K cluster_id t local pod) where
  Post-completed :
      {Q : Pod × VpcNatTunnel → World K → Type 0} {F : World K → Type 0} (w : World K)
      → ((w' : World K)
          → Q
              (
                pod,
                filled
                    (begin_status t local remote)
                    (served.cidr)
                    (served.ovn)
                    (served.egress.allocated_ips)
                    (served.internal),
              )
              w')
      → Post Q F (complete_status K cluster_id (begin_status t local remote) w)
  unfolding complete_status get_globalnet_cidr get_global_egress_ip get_ovn_gw_ip get_gw_extern_ip
      begin_status
  Post-completed w q = Post-bind _ _ w (
      Post-pod_ready (served.ready) w (λ w₁. Post-bind _ _ w₁ (
        Post-bind _ _ w₁ (
          Post-read_answered _ w₁ (served.cluster) (served.cluster_found) (λ w₂.
            Post-or_panic_given _ w₂ (served.cidr) (served.is_cidr) (
              Post-bind _ _ w₂ (
                Post-or_error_given _ _ (served.ovn) w₂ (served.is_ovn) (
                  Post-bind _ _ w₂ (
                    Post-bind _ _ w₂ (
                      Post-read_answered _ w₂ (served.egress) (served.egress_found) (λ w₃.
                        Post-pure _ w₃ (
                          Post-bind _ _ w₃ (
                            Post-or_error_given _ _ (served.internal) w₃ (served.is_internal)
                              (Post-pure _ w₃ (q w₃)))))))))))))))

  -- A first build gets to its end, with all that it has to do done, if in every state of the cluster
  -- the local GatewayExIp, the one running pod of its gateway with both addresses, this cluster's
  -- first address range and at least one egress address are there, commands succeed in silence and
  -- writes are accepted.
  pub initialise-returns :
      Post (λ _. Initialised K cluster_id t remote w) (λ _. ⊥) (initialise K cluster_id t remote w)
  unfolding initialise
  initialise-returns =
      Post-weaken _
        (Post-both _ (initialise-Initialised K cluster_id t remote w)
          (reached {Q = λ _ _. Unit {0}} {F = λ _. ⊥} w (λ _. tt)))
        (λ _ _ (done, _). done) (λ _ (_, never). never)
    where
      reached :
          {Q : Unit {0} → World K → Type 0} {F : World K → Type 0} (w : World K)
          → ((w' : World K) → Q tt w')
          → Post Q F (initialise K cluster_id t remote w)
      reached w q = Post-bind _ _ w (
          Post-read_answered _ w local (served.local_found) (λ w₁. Post-bind _ _ w₁ (
            Post-completed w₁ (λ w₂. Post-then _ _ w₂ (
              Post-build_ready (served.ready) pod _ (served.ip, served.ips) w₂ (served.allocated)
                (λ w₃. Post-bind _ _ w₃ (
                  Post-request_answered _ _ w₃ (served.status_accepted _) (λ stored w₄.
                    Post-then _ _ w₄ (
                      Post-request_answered _ _ w₄ (served.accepted _)
                        (λ _ w₅. Post-pure tt w₅ (q w₅)))))))))))
