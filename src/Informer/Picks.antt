-- ===== src/Informer/Picks.antt =====
-- What the loops of the informer find.
use x_cluster_link.Base.{
  String, ◌≡◌, refl, sym, ◌∙◌, ◌≢◌, ◌⊎◌, inl, inr, ap, Bool, true, false, List, [], ◌∷◌, ◌++◌,
  arith, if◌then◌else◌, ◌==◌, ==_iff_eq, ==-refl,
}
use x_cluster_link.Objects.{StatefulSet, StaticRoute}
use x_cluster_link.Informer.Lookup.{
  pick_gateway, no_stateful_set, can_replace, router_of, all_routes_via,
}
use x_cluster_link.Informer.Switch.{route_via}

module _ {ℓ} {A : Type ℓ} where
  -- Every item fails the test.
  abbrev pub NonePass : (A → Bool) → List A → Type 0
  NonePass test [] = Unit
  NonePass test (x ∷ xs) = (test x ≡ false) × NonePass test xs

  -- `x` is the first item that passes the test.
  abbrev pub IsFirstOf : (A → Bool) → List A → A → Type ℓ
  IsFirstOf test items x =
      (before : List A) × (rest : List A) × (items ≡ before ++ (x ∷ rest))
      × NonePass test before
      × (test x ≡ true)

first-cons {ℓ} :
    {A : Type ℓ} (test : A → Bool) (y : A) (ys : List A) (x : A)
    → test y ≡ false
    → IsFirstOf test ys x
    → IsFirstOf test (y ∷ ys) x
first-cons test y ys x e (before, rest, eq, none_pass, passes) =
    (y ∷ before, rest, ap (λ l. y ∷ l) eq, (e, none_pass), passes)

abbrev Picked : (StatefulSet → Bool) → List StatefulSet → StatefulSet → Type 0
Picked test items gw = IsFirstOf test items gw ⊎ (NonePass test items × (gw ≡ no_stateful_set))

pick_step :
    (test : StatefulSet → Bool) (st : StatefulSet) (items : List StatefulSet) (gw : StatefulSet)
    (b : Bool)
    → test st ≡ b
    → Picked test items gw
    → Picked test (st ∷ items) (if b then st else gw)
unfolding if◌then◌else◌
pick_step test st items gw true e _ = inl ([], items, refl, tt, e)
pick_step test st items gw false e (inl h) = inl (first-cons test st items gw e h)
pick_step test st items gw false e (inr (h, z)) = inr ((e, h), z)

-- The gateway that is picked is the first that passes the test, or the zero value if none does.
pub pick_gateway-first :
    (test : StatefulSet → Bool) (items : List StatefulSet)
    → IsFirstOf test items (pick_gateway test items)
      ⊎ (NonePass test items × (pick_gateway test items ≡ no_stateful_set))
unfolding pick_gateway
pick_gateway-first test [] = inr (tt, refl)
pick_gateway-first test (st ∷ items) =
    pick_step test st items _ (test st) refl (pick_gateway-first test items)

-- A gateway that passes the test of UpdateFunc for one that went down is available, is another, and serves the same router.
pub can_replace_lem :
    (down st : StatefulSet)
    → can_replace down st ≡ true
    → (st.available_replicas ≡ 1)
      × (st.metadata.name ≢ down.metadata.name)
      × (router_of st ≡ router_of down)
unfolding can_replace
can_replace_lem down st h = (ground arith, (λ e. cc (same e)), ==_iff_eq _ _ (ground arith))
  where
    differs : (st.metadata.name == down.metadata.name) ≡ false
    differs = ground arith

    same : st.metadata.name ≡ down.metadata.name → ◌≡◌ {A = Bool} true false
    same e = sym (==-refl down.metadata.name) ∙ ap (λ n. n == down.metadata.name) (sym e) ∙ differs

-- Every route leads to the address, and keeps its destination.
abbrev pub AllVia : String → List StaticRoute → List StaticRoute → Type 0
AllVia ip [] [] = Unit
AllVia ip (_ ∷ _) [] = ⊥
AllVia ip [] (_ ∷ _) = ⊥
AllVia ip (r ∷ rs) (r' ∷ rs') = (r'.next_hop_ip ≡ ip) × (r'.cidr ≡ r.cidr) × AllVia ip rs rs'

pub route_via-AllVia :
    (ip : String) (routes : List StaticRoute) → AllVia ip routes (route_via ip routes)
unfolding route_via
route_via-AllVia ip [] = tt
route_via-AllVia ip (r ∷ rs) = (refl, refl, route_via-AllVia ip rs)

-- After the routes are moved to an address, AddFunc's loop passes for it.
pub all_routes_via-route_via :
    (ip : String) (routes : List StaticRoute) → all_routes_via ip (route_via ip routes) ≡ true
unfolding route_via all_routes_via if◌then◌else◌
all_routes_via-route_via ip [] = refl
all_routes_via-route_via ip (r ∷ rs) = rw (==-refl ip) (all_routes_via-route_via ip rs)
