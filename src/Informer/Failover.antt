-- ===== src/Informer/Failover.antt =====
-- What the informer does when the gateway in use goes down.
use x_cluster_link.Base.{
  String, ◌≡◌, refl, ◌⊎◌, inl, inr, ◌∙◌, ap, Bool, false, some, List, [], ◌∷◌, ==_iff_eq, ==-refl,
  sym, ◌==◌,
}
use x_cluster_link.Base.GoMap.{GoMap, Entries, index, insert}
use x_cluster_link.Objects.{VpcNatTunnel, GatewayExIp, StatefulSet, Vpc}
use x_cluster_link.Kube.{Kube, World, Effect, Entry, did, answer}
use x_cluster_link.Kube.Log.{changes}
use x_cluster_link.Kube.Post.{Post, Post-pure, Post-if, Post-read, Post-bind, Post-weaken}
use x_cluster_link.Informer.Lookup.{
  gateway_of, can_replace, pick_gateway, no_stateful_set, list_gateways,
}
use x_cluster_link.Informer.Switch.{reroute, set_gateway, list_tunnels_of}
use x_cluster_link.Informer.Picks.{IsFirstOf, NonePass, pick_gateway-first}
use x_cluster_link.Informer.Moves.{
  after, Partly, Partly-cons, writes, Target, moved, Post-update_tunnels, Post-switch_to,
}
use x_cluster_link.Informer.Handlers.{named, fail_over}

abbrev pub gw_selector : Entries
gw_selector = ("ovn.kubernetes.io/vpc-nat-gw", "true") ∷ []

-- The gateways that the cluster listed.
abbrev pub Listed : (K : Kube) → List StatefulSet → Type 0
Listed K items =
    (s : K.State) × (s' : K.State) × (K.list_stateful_sets "kube-system" gw_selector s
      ≡ (answer items, s'))

-- The tunnels that the cluster listed for a VPC.
abbrev pub TunnelsOf : (K : Kube) → String → List VpcNatTunnel → Type 0
TunnelsOf K vpc_name tunnels =
    (s : K.State) × (s' : K.State) × (K.list_tunnels "" (("localVpc", vpc_name) ∷ []) s
      ≡ (answer tunnels, s'))

-- The VPC that the cluster answered for a name.
abbrev pub VpcOf : (K : Kube) → String → Vpc → Type 0
VpcOf K name vpc = (s : K.State) × (s' : K.State) × (K.get_vpc (named name) s ≡ (answer vpc, s'))

-- The VPC and its GatewayExIp are moved to the gateway, and then the tunnels one by one.
abbrev pub plan : StatefulSet → Vpc → GatewayExIp → String → GoMap → List VpcNatTunnel → List Effect
plan gw vpc ex_ip ip labels tunnels =
    Effect.update_vpc (reroute gw vpc)
    ∷ Effect.update_ex_ip (moved ex_ip ip labels)
    ∷ writes (set_gateway ip (gateway_of gw)) tunnels

module _ (K : Kube) (test : StatefulSet → Bool) (ex_ip : GatewayExIp) (l : List Entry) where
  -- The whole plan was carried out, for the first listed gateway that passes the test.
  pub record Moved (vpc_name : Vpc → String) (l' : List Entry) : Type 0 where
    pub items : List StatefulSet
    pub listed : Listed K items
    pub gw : StatefulSet
    pub is_first : IsFirstOf test items gw
    pub vpc : Vpc
    pub vpc_found : VpcOf K (index ex_ip.metadata.labels "localVpc") vpc
    pub target : Target K gw ex_ip
    pub labels : GoMap
    pub relabelled : insert "localGateway" (gateway_of gw) ex_ip.metadata.labels ≡ some labels
    pub tunnels : List VpcNatTunnel
    pub tunnels_listed : TunnelsOf K (vpc_name vpc) tunnels
    pub changed : changes l' ≡ after (plan gw vpc ex_ip target.ip labels tunnels) (changes l)

  -- No listed gateway passes the test; a gateway without a name counts as none.
  pub record NoGateway : Type 0 where
    pub items : List StatefulSet
    pub listed : Listed K items
    pub none_pass :
        NonePass test items
        ⊎ ((gw : StatefulSet) × IsFirstOf test items gw × (gw.metadata.name ≡ ""))

  -- Some first part of a plan was carried out.
  abbrev pub Interrupted : List Entry → Type 0
  Interrupted l' =
      (changes l' ≡ changes l)
      ⊎ ((gw : StatefulSet) × (vpc : Vpc) × (changes l'
            ≡ Effect.update_vpc (reroute gw vpc) ∷ changes l))
      ⊎ ((gw : StatefulSet) × (vpc : Vpc) × (target : Target K gw ex_ip) × (labels : GoMap)
          × (tunnels : List VpcNatTunnel) × Partly (plan gw vpc ex_ip target.ip labels tunnels) l
              l')

pub no_gateway :
    (K : Kube) (test : StatefulSet → Bool) (ex_ip : GatewayExIp) (l : List Entry)
    (items : List StatefulSet)
    → Listed K items
    → (pick_gateway test items).metadata.name ≡ ""
    → NoGateway K test ex_ip l
no_gateway K test ex_ip l items listed e = record {
  items = items;
  listed = listed;
  none_pass = elim (pick_gateway-first test items) [ inl h ↦ inr (_, h, e) | inr (h, _) ↦ inl h ];
}

pub named_first :
    (test : StatefulSet → Bool) (items : List StatefulSet)
    → ((pick_gateway test items).metadata.name == "") ≡ false
    → IsFirstOf test items (pick_gateway test items)
named_first test items e = elim (pick_gateway-first test items) [
  | inl h ↦ h
  | inr (_, z) ↦ absurd (nameless (sym (ap (λ g. g.metadata.name == "") z) ∙ e))
]
  where
    nameless : ((no_stateful_set.metadata.name == "") ≡ false) → ⊥
    nameless h = cc (sym (==-refl "") ∙ h)

-- A plan of which the first two changes and some of the tunnels' are made.
pub Partly-plan :
    (gw : StatefulSet) (vpc : Vpc) (ex_ip : GatewayExIp) (ip : String) (labels : GoMap)
    (tunnels : List VpcNatTunnel) (l l₁ l₂ : List Entry)
    → changes l₁
      ≡ Effect.update_ex_ip (moved ex_ip ip labels) ∷ Effect.update_vpc (reroute gw vpc) ∷ changes l
    → Partly (writes (set_gateway ip (gateway_of gw)) tunnels) l₁ l₂
    → Partly (plan gw vpc ex_ip ip labels tunnels) l l₂
Partly-plan gw vpc ex_ip ip labels tunnels l l₁ l₂ c part =
    Partly-cons _ _ l (did (Effect.update_vpc (reroute gw vpc)) ∷ l) l₂ refl
      (Partly-cons _ _ (did (Effect.update_vpc (reroute gw vpc)) ∷ l) l₁ l₂ c part)

module _ (K : Kube) (cluster_id : String) (down : StatefulSet) (ex_ip : GatewayExIp)
    (w : World K) where
  abbrev pub name_of : Vpc → String
  name_of vpc = vpc.metadata.name

  -- The gateway in use goes down, in any cluster: if the handler returns, then either the VPC's
  -- routes, the GatewayExIp and the listed tunnels were moved, in this order, to the first listed
  -- gateway that is available, another one and of the same router; or there is no such gateway with
  -- a name, and nothing was asked for. If it ends with an error or a panic, some first part of such
  -- a plan was carried out.
  pub fail_over-Moved :
      Post
        (λ _ w'.
          Moved K (can_replace down) ex_ip w.log name_of w'.log
          ⊎ (NoGateway K (can_replace down) ex_ip w.log × (w'.log ≡ w.log)))
        (λ w'. Interrupted K (can_replace down) ex_ip w.log w'.log)
        (fail_over K cluster_id down ex_ip w)
  unfolding fail_over list_tunnels_of list_gateways
  fail_over-Moved = Post-bind _ _ w (
      Post-read _ w
        (λ vpc s₁ vpc_found. Post-bind _ _ _ (
          Post-read _ _
            (λ tunnels s₂ tunnels_listed. Post-bind _ _ _ (
              Post-read _ _
                (λ items s₃ listed.
                  Post-if _ _ _ _
                    (λ e. Post-pure tt _ (
                      inr (
                        no_gateway K _ ex_ip w.log items (s₂, s₃, listed) (==_iff_eq _ _ e),
                        refl,
                      )))
                    (λ e.
                      let gw = pick_gateway (can_replace down) items in
                      Post-bind _ _ _ (
                        Post-switch_to gw vpc ex_ip _
                          (λ target labels w₄ relabelled c₄.
                            Post-weaken _
                              (Post-update_tunnels (set_gateway target.ip (gateway_of gw)) tunnels
                                w₄)
                              (λ _ w₅ c₅. inl (record {
                                items = items;
                                listed = (s₂, s₃, listed);
                                gw = gw;
                                is_first = named_first _ items e;
                                vpc = vpc;
                                vpc_found = (w.state, s₁, vpc_found);
                                target = target;
                                labels = labels;
                                relabelled = relabelled;
                                tunnels = tunnels;
                                tunnels_listed = (s₁, s₂, tunnels_listed);
                                changed = c₅ ∙ ap (after (writes _ tunnels)) c₄;
                              }))
                              (λ w₅ h. inr (
                                inr (
                                  gw,
                                  vpc,
                                  target,
                                  labels,
                                  tunnels,
                                  Partly-plan gw vpc ex_ip target.ip labels tunnels w.log w₄.log
                                      w₅.log c₄ h,
                                ))))
                          (λ w₄ c₄. inl c₄) (λ w₄ c₄. inr (inl (gw, vpc, c₄))))))
                (λ s₃. inl refl)))
            (λ s₂. inl refl)))
        (λ s₁. inl refl))
