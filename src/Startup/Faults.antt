-- ===== src/Startup/Faults.antt =====
-- gatewayexip_controller.go and cmd/main.go: a syncer that cannot be made.
use mathlib.Core.Int.{ℤ}
use mathlib.Core.List.{Memᴰ}
use x_cluster_link.Base.{◌≢◌, ◌≡◌, refl, sym, ap, subst, ◌∙◌, Option, none, [], inl, inr}
use x_cluster_link.Base.All.{All, All-append, All-Mem}
use x_cluster_link.Kube.{Kube, Reply, answer, refuse}
use x_cluster_link.Startup.{
  Libraries, AgentSpecification, Controller, Component, Note, Machine, panic, or_panic, ◌>>=◌,
}
use x_cluster_link.Startup.Agent.{Config, start}
use x_cluster_link.Startup.Wired.{AgentOf, Wired}
use x_cluster_link.Startup.Wiring.{Wired-first, program-Wired}
use x_cluster_link.Startup.Main.{Flags, program}

module _ {K : Kube} (L : Libraries K) where
  abbrev pub NoSyncer : Type 0
  NoSyncer =
      (config : Config L) (s : L.State)
      → (e : L.Err) × (s' : L.State) × (L.new_syncer config s ≡ (refuse e, s'))

  answer≢refuse : {A : Type 0} (a : A) (e : L.Err) → answer a ≢ refuse e
  answer≢refuse {A} a e same = subst IsAnswer same tt
    where
      IsAnswer : Reply L.Err A → Type 0
      IsAnswer (answer _) = Unit
      IsAnswer (refuse _) = ⊥

  AgentOf-none :
      (spec : AgentSpecification) (c : Option (Controller L.Syncer))
      → NoSyncer
      → AgentOf L spec c
      → c ≡ none
  AgentOf-none spec c fails (config, s, s', inl (_, _, none_made)) = none_made
  AgentOf-none spec c fails (config, s, s', inr (syncer, answered, _)) =
      let (e, s'', refused) = fails _ s in
      absurd (answer≢refuse _ _ (ap (λ p. p.0) (sym answered ∙ refused)))

  abbrev NilAgent : Note L.Syncer → Type 0
  NilAgent (Note.added (Component.agent c)) = c ≡ none
  NilAgent _ = Unit

  module _ (debug_level : ℤ) where
    Wired-NilAgent :
        (m m' : Machine L) → NoSyncer → m.log ≡ [] → Wired L debug_level m m' → All NilAgent m'.log
    Wired-NilAgent m m' fails fresh wired = elim (Wired-first L debug_level m m' fresh wired) [
      | inl e ↦ subst (All NilAgent) (sym e) tt
      | inr (spec, c, _, made, later, e) ↦ All-append NilAgent later _ (
          subst (All NilAgent) (sym e)
            (tt, (tt, (tt, (tt, (tt, (tt, (AgentOf-none spec c fails made, tt))))))))
    ]

    start-none : (m : Machine L) → start L none m ≡ (panic, m)
    unfolding start or_panic ◌>>=◌
    start-none m = refl

    -- If NewSyncer fails, an agent that the program has handed to the manager panics when the manager
    -- starts it.
    pub program-start_panics :
        (flags : Flags) (m : Machine L) (c : Option (Controller L.Syncer))
        → NoSyncer
        → m.log ≡ []
        → Memᴰ (Note.added (Component.agent c)) (program L debug_level flags m).1.log
        → (m' : Machine L) → start L c m' ≡ (panic, m')
    program-start_panics flags m c fails fresh given m' =
        ap (λ c. start L c m')
          (All-Mem NilAgent _ _ given
            (Wired-NilAgent m _ fails fresh (program-Wired L debug_level flags m)))
        ∙ start-none m'
