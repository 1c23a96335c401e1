-- ===== src/NatTunnel/Runs.antt =====
-- Where the commands and lookups of the reconciler end: what they add to the log, and which pod a
-- lookup finds.
use x_cluster_link.Base.{String, ◌≡◌, refl, ◌⊎◌, inl, inr, List, [], ◌∷◌, ==_iff_eq}
use x_cluster_link.Objects.{Pod}
use x_cluster_link.Kube.{Kube, World, Effect, Entry, did, failed, answer}
use x_cluster_link.Kube.Post.{
  Post, Post-pure, Post-throw, Post-if, Post-read, Post-request, Post-bind, Post-then,
}
use x_cluster_link.NatTunnel.Gateway.{gw_labels, the_running_pod, get_nat_gw_pod}
use x_cluster_link.NatTunnel.Exec.{check_stderr, exec_command_in_pod}
use x_cluster_link.NatTunnel.Setup.{run_in}

-- The request by which a shell command runs in a gateway's pod.
abbrev pub command_in : Pod → String → Effect
command_in pod command =
    Effect.exec pod.metadata.name pod.metadata.namespace "vpc-nat-gw" ("sh" ∷ "-c" ∷ command ∷ [])

-- A request that was not made, was refused, or was answered.
abbrev pub Tried : Effect → List Entry → List Entry → Type 0
Tried e l l' = (l' ≡ l) ⊎ (l' ≡ failed e ∷ l) ⊎ (l' ≡ did e ∷ l)

-- A pod that the cluster listed, alone and running, for a gateway.
abbrev pub IsGatewayPod : (K : Kube) → String → Pod → Type 0
IsGatewayPod K name pod =
    (s : K.State) × (s' : K.State) × (K.list_pods "kube-system" (gw_labels name) s
      ≡ (answer (pod ∷ []), s'))
    × (pod.phase ≡ "Running")

module _ {K : Kube} {Q : Unit {0} → World K → Type 0} {F : World K → Type 0} where
  Post-check_stderr :
      (stderr : String) (w : World K) → Q tt w → F w → Post Q F (check_stderr K stderr w)
  unfolding check_stderr
  Post-check_stderr stderr w q f = Post-if _ _ _ w (λ _. Post-pure tt w q) (λ _. Post-throw _ w f)

  pub Post-run_in :
      (pod : Pod) (command : String) (w : World K)
      → ((w' : World K) → w'.log ≡ did (command_in pod command) ∷ w.log → Q tt w')
      → ((w' : World K) → Tried (command_in pod command) w.log w'.log → F w')
      → Post Q F (run_in K pod command w)
  unfolding exec_command_in_pod
  Post-run_in pod command w q f = Post-then _ _ w (
      Post-read _ w
        (λ _ s _. Post-then _ _ _ (
          Post-read _ _
            (λ _ s' _. Post-bind _ _ _ (
              Post-request _ _ _
                (λ stderr s'' _. Post-check_stderr stderr _ (q _ refl) (f _ (inr (inr refl))))
                (λ s''. f _ (inr (inl refl)))))
            (λ s'. f _ (inl refl))))
        (λ s. f _ (inl refl)))

module _ {K : Kube} {Q : Pod → World K → Type 0} {F : World K → Type 0} where
  Post-the_running_pod :
      (name : String) (pods : List Pod) (w : World K)
      → ((pod : Pod) → pods ≡ pod ∷ [] → pod.phase ≡ "Running" → Q pod w)
      → F w
      → Post Q F (the_running_pod K name pods w)
  unfolding the_running_pod
  Post-the_running_pod name [] w q f = Post-throw _ w f
  Post-the_running_pod name (pod ∷ []) w q f =
      Post-if _ _ _ w (λ e. Post-pure pod w (q pod refl (==_iff_eq _ _ e))) (λ _. Post-throw _ w f)
  Post-the_running_pod name (_ ∷ _ ∷ _) w q f = Post-throw _ w f

  pub Post-get_nat_gw_pod :
      (name : String) (w : World K)
      → ((pod : Pod) (w' : World K) → IsGatewayPod K name pod → w'.log ≡ w.log → Q pod w')
      → ((w' : World K) → w'.log ≡ w.log → F w')
      → Post Q F (get_nat_gw_pod K name w)
  unfolding get_nat_gw_pod
  Post-get_nat_gw_pod name w q f = Post-bind _ _ w (
      Post-read _ w
        (λ pods s listed.
          Post-the_running_pod name pods _ (λ pod e running. q pod _ (w.state, s, cc, running) refl)
            (f _ refl))
        (λ s. f _ refl))
