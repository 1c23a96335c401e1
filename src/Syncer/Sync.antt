-- ===== src/Syncer/Sync.antt =====
-- What reaches the tunnels when a GatewayExIp arrives from the broker.
use x_cluster_link.Base.{
  String, ◌≡◌, refl, subst, ◌⊎◌, inl, inr, ap, sym, Bool, true, false, some, List, [], ◌∷◌,
  Bool-cases, ◌==◌, if◌then◌else◌,
}
use x_cluster_link.Base.Text.{contains, pieces, split_in_two}
use x_cluster_link.Base.Text.Search.{cut_of_not_contains}
use x_cluster_link.Objects.{VpcNatTunnel, GatewayExIp}
use x_cluster_link.Kube.{
  Kube, M, World, panic, Effect, Entry, did, failed, answer, refuse, pure, request, ◌>>◌,
}
use x_cluster_link.Kube.Log.{changes}
use x_cluster_link.Kube.Steps.{bind-ok, bind-panic, or_panic-some, or_panic-none}
use x_cluster_link.Kube.Post.{
  Post, Post-pure, Post-if, Post-read_or, Post-request, Post-bind, Post-then, Post-weaken,
  Post-attempt, NeverPanics, NeverPanics-bind, NeverPanics-read, NeverPanics-request,
}
use x_cluster_link.Informer.Moves.{after, Partly, Partly-cons, writes}
use x_cluster_link.Syncer.Handlers.{
  both, vpc_and_cluster, set_remote_ip, remote_labels, retarget, on_remote_gateway_ex_ip_synced,
}

-- The tunnels whose remote address is another one.
pub stale : String → List VpcNatTunnel → List VpcNatTunnel
stale ip [] = []
stale ip (t ∷ ts) = if t.spec.remote_ip == ip then stale ip ts else t ∷ stale ip ts

stale-same :
    (ip : String) (t : VpcNatTunnel) (ts : List VpcNatTunnel)
    → (t.spec.remote_ip == ip) ≡ true
    → stale ip (t ∷ ts) ≡ stale ip ts
unfolding stale if◌then◌else◌
stale-same ip t ts e = ap (λ (b : Bool). if b then stale ip ts else t ∷ stale ip ts) e

stale-other :
    (ip : String) (t : VpcNatTunnel) (ts : List VpcNatTunnel)
    → (t.spec.remote_ip == ip) ≡ false
    → stale ip (t ∷ ts) ≡ t ∷ stale ip ts
unfolding stale if◌then◌else◌
stale-other ip t ts e = ap (λ (b : Bool). if b then stale ip ts else t ∷ stale ip ts) e

stale-nil : (ip : String) → stale ip [] ≡ []
unfolding stale
stale-nil ip = refl

abbrev pub retarget_writes : String → List VpcNatTunnel → List Effect
retarget_writes ip ts = writes (set_remote_ip ip) (stale ip ts)

-- The last request was refused.
abbrev pub Refused : List Entry → Type 0
Refused l = (e : Effect) × (before : List Entry) × (l ≡ failed e ∷ before)

module _ {K : Kube} (ip : String) where
  retarget_plan :
      (ts : List VpcNatTunnel) (w : World K)
      → Post
          (λ _ w'. changes w'.log ≡ after (retarget_writes ip ts) (changes w.log))
          (λ w'. Refused w'.log × Partly (retarget_writes ip ts) w.log w'.log)
          (retarget K ip ts w)
  unfolding retarget
  retarget_plan [] w = rw (stale-nil ip) (Post-pure tt w refl)
  retarget_plan (t ∷ ts) w =
      Post-if _ _ _ w (λ e. rw (stale-same ip t ts e) (retarget_plan ts w))
        (λ e. rw (stale-other ip t ts e) (
          Post-then _ _ w (
            Post-request _ _ w
              (λ _ s _.
                Post-weaken _ (retarget_plan ts _) (λ _ w' h. h)
                  (λ w' (refused, part). (
                    refused,
                    Partly-cons _ _ w.log (did (Effect.update_tunnel (set_remote_ip ip t)) ∷ w.log)
                        w'.log refl part,
                  )))
              (λ s. ((_, _, refl), ([], _, refl, refl))))))

  NeverPanics-retarget :
      (ts : List VpcNatTunnel) (w : World K) → NeverPanics {K = K} (retarget K ip ts w)
  unfolding retarget if◌then◌else◌ pure ◌>>◌
  NeverPanics-retarget [] w = tt
  NeverPanics-retarget (t ∷ ts) w = elim (Bool-cases (t.spec.remote_ip == ip)) [
    | inl e ↦
        subst (λ (b : Bool). NeverPanics {K = K} ((if b then retarget K ip ts else written t ts) w))
          (sym e) (NeverPanics-retarget ts w)
    | inr e ↦
        subst (λ (b : Bool). NeverPanics {K = K} ((if b then retarget K ip ts else written t ts) w))
          (sym e)
          (NeverPanics-bind _ _ w (NeverPanics-request _ _ w) (λ _. NeverPanics-retarget ts))
  ]
    where
      written : VpcNatTunnel → List VpcNatTunnel → M K (Unit {0})
      written t ts =
          request (Effect.update_tunnel (set_remote_ip ip t)) (K.update_tunnel (set_remote_ip ip t))
          >> retarget K ip ts

module _ (K : Kube) (ex_ip : GatewayExIp) (w : World K) where
  -- The tunnels that the cluster listed for the VPC and the cluster in the object's name.
  abbrev pub Peers : String → String → List VpcNatTunnel → Type 0
  Peers vpc cluster tunnels =
      (s : K.State) × (K.list_tunnels "" (remote_labels vpc cluster) w.state ≡ (answer tunnels, s))

  -- The cluster refused to list them.
  abbrev pub Unlisted : String → String → K.Err → Type 0
  Unlisted vpc cluster e =
      (s : K.State) × (K.list_tunnels "" (remote_labels vpc cluster) w.state ≡ (refuse e, s))

  -- A GatewayExIp with a parsable name, in any cluster: the function returns false. The cluster refused
  -- to list the tunnels of the VPC and the cluster in the name, and no request was made; or, of the
  -- listed tunnels that have another address, each was given the object's, in order, either all of them
  -- or until one write was refused.
  pub synced_plan :
      (vpc cluster : String)
      → vpc_and_cluster ex_ip.metadata.name ≡ some (vpc, cluster)
      → Post
          (λ again w'.
            (again ≡ false)
            × (((e : K.Err) × Unlisted vpc cluster e × (w'.log ≡ w.log))
                ⊎ ((tunnels : List VpcNatTunnel) × Peers vpc cluster tunnels
                    × ((changes w'.log
                          ≡ after (retarget_writes ex_ip.spec.external_ip tunnels) (changes w.log))
                        ⊎ (Refused w'.log
                            × Partly
                                (retarget_writes ex_ip.spec.external_ip tunnels)
                                w.log
                                w'.log)))))
          (λ _. ⊥)
          (on_remote_gateway_ex_ip_synced K ex_ip w)
  unfolding on_remote_gateway_ex_ip_synced
  synced_plan vpc cluster parsed =
      subst (Post _ _) (sym (bind-ok _ _ w (or_panic-some _ w parsed))) (
        Post-bind _ _ w (
          Post-attempt _ w
            (Post-bind _ _ w (
              Post-read_or _ w
                (λ tunnels s listed.
                  Post-weaken _ (retarget_plan ex_ip.spec.external_ip tunnels _)
                    (λ _ w' c. Post-pure _ w' (refl, inr (tunnels, (s, listed), inl c)))
                    (λ w' h e. Post-pure _ w' (refl, inr (tunnels, (s, listed), inr h))))
                (λ err s refused e. Post-pure _ _ (refl, inl (err, (s, refused), refl)))))
            (NeverPanics-bind _ _ w (NeverPanics-read _ w)
              (λ tunnels. NeverPanics-retarget _ tunnels))))

  -- A GatewayExIp whose name has no dot makes the handler panic before its first call.
  pub synced_panics :
      contains ex_ip.metadata.name "." ≡ false
      → on_remote_gateway_ex_ip_synced K ex_ip w ≡ (panic, w)
  unfolding on_remote_gateway_ex_ip_synced vpc_and_cluster split_in_two
  synced_panics e = bind-panic _ _ w (
      or_panic-none _ w (
        ap (λ o. both (pieces ex_ip.metadata.name o))
          (cut_of_not_contains ex_ip.metadata.name "." e)))
