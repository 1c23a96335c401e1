-- ===== src/Startup/Identity.antt =====
-- cmd/main.go with InitEnvVars: the cluster id comes from the ServiceDiscovery to every part.
use mathlib.Core.Int.{ℤ}
use x_cluster_link.Base.{
  differs, String, ◌≡◌, ◌≢◌, refl, sym, subst, ◌∙◌, true, Option, some, [], ◌∷◌, ◌⊎◌, inl, inr,
  if◌then◌else◌, ◌==◌, ==_iff_eq, arith, ==-refl,
}
use x_cluster_link.Base.All.{All, All-append}
use x_cluster_link.Base.GoMap.{Entries, find, find-put}
use x_cluster_link.Base.Text.Removal.{lacks}
use x_cluster_link.Kube.{Kube, answer}
use x_cluster_link.Startup.{
  Libraries, ServiceDiscovery, AgentSpecification, Controller, Component, Note, Machine, set,
}
use x_cluster_link.Startup.Wired.{
  set_all, later_variables, variables, Discovered, AgentOf, Configured, six_parts,
}
use x_cluster_link.Startup.Wiring.{Wired-first, program-Wired}
use x_cluster_link.Startup.Main.{Flags, program}

find-set_other :
    (j name value : String) (env : Entries) → name ≢ j → find j (set name value env) ≡ find j env
unfolding set if◌then◌else◌
find-set_other j name value env other = ground (arith, find-put j name value env, ==_iff_eq name j)

abbrev Others : String → Entries → Type 0
Others j [] = Unit
Others j ((name, _) ∷ table) = (name ≢ j) × Others j table

-- A variable keeps its value where the variables set after it have other names.
find-set_all_other :
    (j : String) (table env : Entries) → Others j table → find j (set_all table env) ≡ find j env
find-set_all_other j [] env h = refl
find-set_all_other j ((name, value) ∷ table) env (other, h) =
    find-set_all_other j table (set name value env) h ∙ find-set_other j name value env other

find-set_cluster_id :
    (value : String) (env : Entries)
    → lacks 0 value ≡ true
    → find "SUBMARINER_CLUSTERID" (set "SUBMARINER_CLUSTERID" value env) ≡ some value
unfolding set if◌then◌else◌
find-set_cluster_id value env clean = rw clean (
    find-put "SUBMARINER_CLUSTERID" "SUBMARINER_CLUSTERID" value env
    ∙ rw (==-refl "SUBMARINER_CLUSTERID") refl)

module _ {K : Kube} (L : Libraries K) where
  -- What envconfig documents of a text field that is called ClusterID: it gets the variable's value.
  abbrev pub ReadsClusterId : Type 0
  ReadsClusterId =
      (env : Entries) (spec spec' : AgentSpecification) (id : String)
      → L.process env spec ≡ answer spec'
      → find "SUBMARINER_CLUSTERID" env ≡ some id
      → spec'.cluster_id ≡ id

  -- A part that the manager was given, and that has a cluster id, has this one.
  abbrev pub OfCluster : String → Note L.Syncer → Type 0
  OfCluster id (Note.added (Component.agent (some c))) = c.cluster_id ≡ id
  OfCluster id (Note.added (Component.tunnel_reconciler i)) = i ≡ id
  OfCluster id (Note.added (Component.gateway_informer i)) = i ≡ id
  OfCluster id _ = Unit

  find-variables :
      (cr : ServiceDiscovery) (env : Entries)
      → ((part : String) → L.environment_variable part ≢ "SUBMARINER_CLUSTERID")
      → lacks 0 cr.cluster_id ≡ true
      → find "SUBMARINER_CLUSTERID" (set_all (variables L cr) env) ≡ some cr.cluster_id
  unfolding ◌==◌
  find-variables cr env other clean =
      let later : Others "SUBMARINER_CLUSTERID" (later_variables L cr) = (
        differs "SUBMARINER_DEBUG" "SUBMARINER_CLUSTERID" refl,
        (
          differs "SUBMARINER_GLOBALNET_ENABLED" "SUBMARINER_CLUSTERID" refl,
          (
            differs "SUBMARINER_HALT_ON_CERT_ERROR" "SUBMARINER_CLUSTERID" refl,
            (other _, (other _, (other _, (other _, (other _, (other _, tt)))))),
          ),
        ),
      ) in
      find-set_all_other "SUBMARINER_CLUSTERID" (later_variables L cr) _ later
      ∙ find-set_cluster_id cr.cluster_id (set "SUBMARINER_NAMESPACE" cr.namespace env) clean

  module _ (debug_level : ℤ) where
    six_parts-OfCluster :
        (spec : AgentSpecification) (c : Option (Controller L.Syncer)) (id : String)
        → AgentOf L spec c
        → spec.cluster_id ≡ id
        → All (OfCluster id) (Note.manager_started ∷ six_parts L debug_level c spec.cluster_id)
    six_parts-OfCluster spec c id made e = (tt, (tt, (tt, (e, (tt, (e, (agent made, tt)))))))
      where
        agent : AgentOf L spec c → OfCluster id (Note.added (Component.agent c))
        agent (config, s, s', inl (err, refused, none_made)) =
            subst (λ c. OfCluster id (Note.added (Component.agent c))) (sym none_made) tt
        agent (config, s, s', inr (syncer, answered, some_made)) =
            subst (λ c. OfCluster id (Note.added (Component.agent c))) (sym some_made) e

    Configured-cluster_id :
        (env : Entries) (spec : AgentSpecification)
        → ((part : String) → L.environment_variable part ≢ "SUBMARINER_CLUSTERID")
        → ((cr : ServiceDiscovery) → Discovered L cr → lacks 0 cr.cluster_id ≡ true)
        → ReadsClusterId
        → (known : Configured L debug_level env spec) → spec.cluster_id ≡ (known.0).cluster_id
    Configured-cluster_id env spec other clean reads (cr, found, made) =
        reads _ _ spec cr.cluster_id made (find-variables cr env other (clean cr found))

    -- The parts that the program hands to the manager, all of them or the first of them, have the cluster id of
    -- one ServiceDiscovery that the cluster answered, if: envconfig fills ClusterID from its variable;
    -- no variable of the broker is called "SUBMARINER_CLUSTERID"; and no ServiceDiscovery that the cluster
    -- answers has a NUL in its cluster id, which os.Setenv refuses.
    pub program-OfCluster :
        (flags : Flags) (m : Machine L)
        → ((part : String) → L.environment_variable part ≢ "SUBMARINER_CLUSTERID")
        → ((cr : ServiceDiscovery) → Discovered L cr → lacks 0 cr.cluster_id ≡ true)
        → ReadsClusterId
        → m.log ≡ []
        → ((program L debug_level flags m).1.log ≡ [])
          ⊎ ((cr : ServiceDiscovery) × Discovered L cr
              × All (OfCluster cr.cluster_id) (program L debug_level flags m).1.log)
    program-OfCluster flags m other clean reads fresh =
        elim (Wired-first L debug_level m _ fresh (program-Wired L debug_level flags m)) [
          | inl e ↦ inl e
          | inr (spec, c, known, made, later, e) ↦ inr (
            known.0,
            known.1,
            All-append (OfCluster _) later _ (
                subst (All (OfCluster (known.0).cluster_id)) (sym e) (
                  six_parts-OfCluster spec c _ made
                    (Configured-cluster_id m.env spec other clean reads known))),
          )
        ]
