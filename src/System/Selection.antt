-- ===== src/System/Selection.antt =====
-- The labels by which the informer and the syncer list tunnels, and the labels that the reconciler
-- writes.
use x_cluster_link.Base.{
  String, ◌≡◌, ◌≢◌, refl, sym, ap, ◌∙◌, ◌⊎◌, inl, inr, false, Option, none, some, List, [], ◌∷◌,
  arith, ==_iff_eq, ◌==◌, if◌then◌else◌,
}
use x_cluster_link.Base.GoMap.{Entries, GoMap, find, put, lookup, or_empty, index, insert, find-put}
use x_cluster_link.Objects.{VpcNatTunnel, GatewayExIp}
use x_cluster_link.Kube.{Kube, World, Effect, Entry, did, failed}
use x_cluster_link.Kube.Post.{
  Post, Post-pure, Post-if, Post-or_panic, Post-request, Post-bind, Post-then, Post-weaken,
}
use x_cluster_link.NatTunnel.Setup.{stamp_spec, tunnel_labels, relabel, labels_outdated, initialise}
use x_cluster_link.NatTunnel.Creation.{Unfinished, initialise-Initialised}
use x_cluster_link.Syncer.Handlers.{remote_labels}

-- The labels that a selector selects: each of its pairs is among them.
abbrev pub Selects : Entries → GoMap → Type 0
Selects [] labels = Unit
Selects ((k, v) ∷ selector) labels = (lookup k labels ≡ some v) × Selects selector labels

-- Both lists that concern the tunnel have it: the syncer's, of the tunnels to its peer, and the
-- informer's, of the tunnels of its VPC.
pub record IsListed (t : VpcNatTunnel) : Type 0 where
  pub by_syncer : Selects (remote_labels t.spec.remote_vpc t.spec.remote_cluster) t.metadata.labels
  pub by_informer : Selects (("localVpc", t.spec.local_vpc) ∷ []) t.metadata.labels

-- The three labels, written in any order of the code, are read back.
module _ (cluster remote local : String) (m : Entries) where
  stamped-labels :
      let m' = put "remoteVpc" remote (put "remoteCluster" cluster (put "localVpc" local m)) in
      (find "remoteCluster" m' ≡ some cluster)
      × (find "remoteVpc" m' ≡ some remote)
      × (find "localVpc" m' ≡ some local)
  unfolding ◌==◌ if◌then◌else◌
  stamped-labels = (
    find-put "remoteCluster" "remoteVpc" remote _
        ∙ find-put "remoteCluster" "remoteCluster" cluster _,
    find-put "remoteVpc" "remoteVpc" remote _,
    find-put "localVpc" "remoteVpc" remote _
        ∙ find-put "localVpc" "remoteCluster" cluster _
        ∙ find-put "localVpc" "localVpc" local m,
  )

  restamped-labels :
      let m' = put "localVpc" local (put "remoteVpc" remote (put "remoteCluster" cluster m)) in
      (find "remoteCluster" m' ≡ some cluster)
      × (find "remoteVpc" m' ≡ some remote)
      × (find "localVpc" m' ≡ some local)
  unfolding ◌==◌ if◌then◌else◌
  restamped-labels = (
    find-put "remoteCluster" "localVpc" local _
        ∙ find-put "remoteCluster" "remoteVpc" remote _
        ∙ find-put "remoteCluster" "remoteCluster" cluster m,
    find-put "remoteVpc" "localVpc" local _ ∙ find-put "remoteVpc" "remoteVpc" remote _,
    find-put "localVpc" "localVpc" local _,
  )

stamp_spec-IsListed :
    (t : VpcNatTunnel) (local remote : GatewayExIp) → IsListed (stamp_spec t local remote)
unfolding stamp_spec tunnel_labels lookup
stamp_spec-IsListed t local remote =
    let labels : Entries = elim (t.metadata.labels) [ none ↦ [] | some m ↦ m ] in
    let (cluster, vpc, here) =
      stamped-labels t.spec.remote_cluster t.spec.remote_vpc t.spec.local_vpc labels in
    record { by_syncer = (cluster, (vpc, tt)); by_informer = (here, tt) }

index-lookup : (k v : String) (m : GoMap) → index m k ≡ v → v ≢ "" → lookup k m ≡ some v
unfolding index
index-lookup k v m e named = go (lookup k m) e
  where
    go : (o : Option String) → or_empty o ≡ v → o ≡ some v
    go none e = absurd (named (sym e))
    go (some u) e = ap some e

up_to_date-IsListed :
    (t : VpcNatTunnel)
    → t.spec.remote_cluster ≢ ""
    → t.spec.remote_vpc ≢ ""
    → t.spec.local_vpc ≢ ""
    → labels_outdated t ≡ false
    → IsListed t
unfolding labels_outdated
up_to_date-IsListed t cluster vpc here e = record {
  by_syncer = (
    index-lookup "remoteCluster" _ t.metadata.labels (==_iff_eq _ _ (ground arith)) cluster,
    (index-lookup "remoteVpc" _ t.metadata.labels (==_iff_eq _ _ (ground arith)) vpc, tt),
  );
  by_informer =
      (index-lookup "localVpc" _ t.metadata.labels (==_iff_eq _ _ (ground arith)) here, tt);
}

insert_fails : (k v : String) (m : GoMap) → insert k v m ≡ none → m ≡ none
unfolding insert
insert_fails k v none e = refl
insert_fails k v (some n) e = cc

inserted :
    (k v : String) (m l : GoMap)
    → insert k v m ≡ some l
    → (n : Entries) × (m ≡ some n) × (l ≡ some (put k v n))
unfolding insert
inserted k v none l e = cc
inserted k v (some n) l e = (n, refl, cc)

inserted_some : (k v : String) (m l : GoMap) → insert k v m ≡ some l → l ≢ none
inserted_some k v m l e e' = let (n, _, f) = inserted k v m l e in cc

insert-IsListed :
    (t : VpcNatTunnel) (l₁ l₂ l₃ : GoMap)
    → insert "remoteCluster" t.spec.remote_cluster t.metadata.labels ≡ some l₁
    → insert "remoteVpc" t.spec.remote_vpc l₁ ≡ some l₂
    → insert "localVpc" t.spec.local_vpc l₂ ≡ some l₃
    → IsListed (record t { metadata = record (t.metadata) { labels = l₃ } })
unfolding lookup
insert-IsListed t l₁ l₂ l₃ e₁ e₂ e₃ =
    let (n₁, _, f₁) = inserted _ _ _ _ e₁ in
    let (n₂, g₂, f₂) = inserted _ _ _ _ e₂ in
    let (n₃, g₃, f₃) = inserted _ _ _ _ e₃ in
    let all : l₃
        ≡ some (
            put "localVpc" t.spec.local_vpc
              (put "remoteVpc" t.spec.remote_vpc (put "remoteCluster" t.spec.remote_cluster n₁))) =
      cc in
    let (cluster, vpc, here) =
      restamped-labels t.spec.remote_cluster t.spec.remote_vpc t.spec.local_vpc n₁ in
    record {
      by_syncer =
          (ap (lookup "remoteCluster") all ∙ cluster, (ap (lookup "remoteVpc") all ∙ vpc, tt));
      by_informer = (ap (lookup "localVpc") all ∙ here, tt);
    }

module _ (K : Kube) where
  -- A first build, in any cluster: if it returns, then the last thing that was saved is the tunnel
  -- with labels by which both the syncer's and the informer's list have it.
  pub initialise-IsListed :
      (cluster_id : String) (t : VpcNatTunnel) (remote : GatewayExIp) (w : World K)
      → Post
          (λ _ w'.
            (saved : VpcNatTunnel) × (l : List Entry) × (w'.log
              ≡ did (Effect.update_tunnel saved) ∷ l)
            × IsListed saved)
          (Unfinished K cluster_id t remote w)
          (initialise K cluster_id t remote w)
  initialise-IsListed cluster_id t remote w =
      Post-weaken _ (initialise-Initialised K cluster_id t remote w)
        (λ _ w' h. (
          stamp_spec h.stored h.local remote,
          h.before,
          h.stamped,
          stamp_spec-IsListed h.stored h.local remote,
        ))
        (λ _ h. h)

  -- The last step of an update, of a tunnel whose spec names a cluster and both VPCs: if it returns,
  -- then either nothing was written and both lists have the tunnel already, or it was saved with the
  -- spec and the status that it had, and with labels by which both lists have it. If it ends with an
  -- error or a panic, then either the object had no labels at all and nothing was written, or the
  -- write was refused.
  pub relabel-IsListed :
      (t : VpcNatTunnel) (w : World K)
      → t.spec.remote_cluster ≢ ""
      → t.spec.remote_vpc ≢ ""
      → t.spec.local_vpc ≢ ""
      → Post
          (λ _ w'.
            ((w'.log ≡ w.log) × IsListed t)
            ⊎ ((saved : VpcNatTunnel) × (w'.log ≡ did (Effect.update_tunnel saved) ∷ w.log)
                × ((saved.spec ≡ t.spec) × (saved.status ≡ t.status) × IsListed saved)))
          (λ w'.
            ((t.metadata.labels ≡ none) × (w'.log ≡ w.log))
            ⊎ ((sent : VpcNatTunnel) × (w'.log ≡ failed (Effect.update_tunnel sent) ∷ w.log)))
          (relabel K t w)
  unfolding relabel
  relabel-IsListed t w cluster vpc here =
      Post-if _ _ _ w
        (λ _. Post-bind _ _ w (
          Post-or_panic _ w
            (λ l₁ e₁. Post-bind _ _ w (
              Post-or_panic _ w
                (λ l₂ e₂. Post-bind _ _ w (
                  Post-or_panic _ w
                    (λ l₃ e₃. Post-then _ _ w (
                      Post-request _ _ w
                        (λ _ s _.
                          Post-pure tt _
                            (inr (_, refl, (refl, refl, insert-IsListed t l₁ l₂ l₃ e₁ e₂ e₃))))
                        (λ _. inr (_, refl))))
                    (λ e₃. absurd (inserted_some _ _ _ _ e₂ (insert_fails _ _ _ e₃)))))
                (λ e₂. absurd (inserted_some _ _ _ _ e₁ (insert_fails _ _ _ e₂)))))
            (λ e₁. inl (insert_fails _ _ _ e₁, refl))))
        (λ e. Post-pure tt w (inl (refl, up_to_date-IsListed t cluster vpc here e)))
