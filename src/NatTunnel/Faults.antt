-- ===== src/NatTunnel/Faults.antt =====
-- How the reconciler ends where the cluster lacks something that it needs.
use x_cluster_link.Base.{
  String, ◌≡◌, refl, ◌≢◌, ◌∙◌, ap, sym, true, false, none, [], ==-eq_false, inr, contains_string,
  not, arith,
}
use x_cluster_link.Base.GoMap.{index, insert, lookup}
use x_cluster_link.Objects.{
  is_zero, ObjectKey, Pod, VpcNatTunnel, GatewayExIp, ClusterGlobalEgressIp,
}
use x_cluster_link.Kube.{Kube, World, ok, err, panic, answer, pure, throw}
use x_cluster_link.Kube.Log.{changes}
use x_cluster_link.Kube.Steps.{
  read-answer, bind-ok, bind-err, bind-panic, attempt-ok, if-true, if-false, or_panic-none,
}
use x_cluster_link.Kube.Post.{Post, Post-or_panic, Post-bind, Post-then, Post-read, Post-weaken}
use x_cluster_link.NatTunnel.Gateway.{get_nat_gw_pod, the_running_pod, gw_labels, egress_key}
use x_cluster_link.NatTunnel.Routes.{gen_globalnet_route, gen_create_tunnel_cmd, snat_source}
use x_cluster_link.NatTunnel.Setup.{build, initialise, begin_status, relabel, labels_outdated}
use x_cluster_link.NatTunnel.Runs.{command_in, Tried, Post-run_in}
use x_cluster_link.NatTunnel.Deletion.{changes-Tried}
use x_cluster_link.NatTunnel.Phases.{Post-complete_status}
use x_cluster_link.NatTunnel.Handlers.{finalizer, handle_delete, reconcile}

module _ (K : Kube) (cluster_id : String) (key : ObjectKey) (t : VpcNatTunnel) (w : World K)
    (s s' : K.State) (found : K.get_tunnel key w.state ≡ (answer t, s))
    (dying : is_zero t.metadata.deletion_timestamp ≡ false) where
  -- An object that is being deleted and has no finalizer of the controller is left alone.
  pub reconcile-released :
      contains_string t.metadata.finalizers finalizer ≡ false
      → reconcile K cluster_id key w ≡ (ok tt, record w { state = s })
  unfolding reconcile handle_delete pure
  reconcile-released gone =
      bind-ok _ _ w (attempt-ok _ w (read-answer _ w found))
      ∙ if-true _ _ _ _ (ap not dying)
      ∙ if-false _ _ _ _ gone

  -- An object that is being deleted while the cluster has no pod for the gateway in its status
  -- cannot be released: the reconciler ends with the error "not found", in the same way each time,
  -- and asks for no change.
  pub reconcile-no_pod :
      contains_string t.metadata.finalizers finalizer ≡ true
      → K.list_pods "kube-system" (gw_labels t.status.local_gw) s ≡ (answer [], s')
      → reconcile K cluster_id key w
        ≡ (err (K.new_not_found t.status.local_gw), record w { state = s' })
  unfolding reconcile handle_delete get_nat_gw_pod the_running_pod throw
  reconcile-no_pod held empty =
      bind-ok _ _ w (attempt-ok _ w (read-answer _ w found))
      ∙ if-true _ _ _ _ (ap not dying)
      ∙ if-true _ _ _ _ held
      ∙ bind-err _ _ _ (bind-ok _ _ _ (read-answer _ _ empty))

no_route : (t : VpcNatTunnel) → t.status.global_egress_ip ≡ [] → gen_globalnet_route t ≡ none
unfolding gen_globalnet_route
no_route t e = rw (e, snat_source) refl

module _ {K : Kube} where
  -- A build for a tunnel without egress addresses never returns; where it panics, the command that
  -- creates the tunnel has run already.
  Post-build-no_egress :
      (pod : Pod) (t : VpcNatTunnel) (w : World K)
      → t.status.global_egress_ip ≡ []
      → Post
          (λ _ _. ⊥)
          (λ w'. Tried (command_in pod (gen_create_tunnel_cmd t)) w.log w'.log)
          (build K pod t w)
  unfolding build
  Post-build-no_egress pod t w e = Post-then _ _ w (
      Post-run_in pod _ w
        (λ w₁ l₁.
          Post-bind _ _ w₁ (Post-or_panic _ w₁ (λ route h. cc (no_route t e)) (λ _. inr (inr l₁))))
        (λ w₁ l₁. l₁))

module _ (K : Kube) (cluster_id : String) (t : VpcNatTunnel) (remote : GatewayExIp)
    (w : World K) where
  -- As long as the cluster has allocated no egress address, a first build never returns, and no
  -- object is changed.
  pub initialise-no_egress :
      ((s s' : K.State) (e : ClusterGlobalEgressIp)
        → K.get_global_egress_ip egress_key s ≡ (answer e, s')
        → e.allocated_ips ≡ [])
      → Post (λ _ _. ⊥) (λ w'. changes w'.log ≡ changes w.log) (initialise K cluster_id t remote w)
  unfolding initialise
  initialise-no_egress none_yet = Post-bind _ _ w (
      Post-read _ w
        (λ local s₁ _. Post-bind _ _ _ (
          Post-complete_status cluster_id (begin_status t local remote) _
            (λ pod cidr ovn egress internal w₂ found l₂.
              let (s₃, s₄, e, answered, same) = found.egress in
              Post-then _ _ w₂ (
                Post-weaken _ (Post-build-no_egress pod _ w₂ (sym same ∙ none_yet s₃ s₄ e answered))
                  (λ _ _ never. absurd never)
                  (λ w₃ l₃. changes-Tried pod _ _ _ l₃ ∙ ap changes l₂)))
            (λ w₂ l₂. ap changes l₂)))
        (λ s₁. refl))

nil_labels :
    (t : VpcNatTunnel) → t.metadata.labels ≡ none → t.spec.local_vpc ≢ "" → labels_outdated t ≡ true
unfolding labels_outdated index lookup
nil_labels t nil named =
    rw
      (
        ap (λ m. index m "remoteCluster") nil,
        ap (λ m. index m "remoteVpc") nil,
        ap (λ m. index m "localVpc") nil,
      )
      (ground (arith, ==-eq_false "" t.spec.local_vpc (λ e. named (sym e))))

-- Where an update finds an object that has lost all its labels, writing the labels again panics.
pub relabel-nil :
    (K : Kube) (t : VpcNatTunnel) (w : World K)
    → t.metadata.labels ≡ none
    → t.spec.local_vpc ≢ ""
    → relabel K t w ≡ (panic, w)
unfolding relabel insert
relabel-nil K t w nil named =
    if-true _ _ _ _ (nil_labels t nil named)
    ∙ bind-panic _ _ _ (or_panic-none _ _ (ap (insert "remoteCluster" t.spec.remote_cluster) nil))
