-- ===== src/Dns/Commands.antt =====
-- The edits of a deployment's commands: what a repeated creation and a deletion leave of them.
use x_cluster_link.Base.{
  String, ◌<>◌, ◌≡◌, refl, sym, ◌∙◌, ap, subst, true, false, inl, inr, if◌then◌else◌, List, [], ◌∷◌,
  ℕ,
}
use text.Mathlib.TextLemmas.{append_assoc}
use x_cluster_link.Base.{Bool-cases}
use x_cluster_link.Base.Text.{contains}
use x_cluster_link.Base.Text.Laws.{Lacks}
use x_cluster_link.Base.Text.Search.{contains-append_right, contains_self}
use x_cluster_link.Base.Text.Removal.{
  Lacks-append, lacks-Lacks, remove_all-append, remove_all_of_not_contains,
}
use x_cluster_link.Dns.Route.{route_to, add_route, remove_route, each}

abbrev semicolon : ℕ
semicolon = b';'

add_route_of_present : (route c : String) → contains c route ≡ true → add_route route c ≡ c
unfolding add_route if◌then◌else◌
add_route_of_present route c h = elim (Bool-cases (contains c "ip -4 route add")) [
  | inl e ↦ rw e (rw h refl)
  | inr e ↦ rw e refl
]

module _ (route c : String) where
  add_route_of_other : contains c "ip -4 route add" ≡ false → add_route route c ≡ c
  unfolding add_route if◌then◌else◌
  add_route_of_other h = rw h refl

  add_route_of_absent :
      contains c "ip -4 route add" ≡ true
      → contains c route ≡ false
      → add_route route c ≡ c <> route
  unfolding add_route if◌then◌else◌
  add_route_of_absent h k = rw h (rw k refl)

  -- A command that went through the loop of createDnsConnection once stays as it is when it goes
  -- through it again with the same route, whatever the route and the command.
  pub add_route_twice : add_route route (add_route route c) ≡ add_route route c
  add_route_twice = elim (Bool-cases (contains c "ip -4 route add")) [
    | inl e ↦ elim (Bool-cases (contains c route)) [
      | inl f ↦ ap (add_route route) (add_route_of_present route c f)
      | inr f ↦
          let eq = add_route_of_absent e f in
          subst (λ x. add_route route x ≡ x) (sym eq)
            (add_route_of_present route (c <> route)
              (contains-append_right c route route (contains_self route)))
    ]
    | inr e ↦ ap (add_route route) (add_route_of_other e)
  ]

-- A command's route without the semicolon at its end.
abbrev open_route : String → String → String
open_route ip gw = "ip -4 route add " <> (ip <> (" via " <> (gw <> " dev net1")))

open_route-closed : (ip gw : String) → (open_route ip gw <> ";") ≡ route_to ip gw
unfolding route_to
open_route-closed ip gw =
    append_assoc "ip -4 route add " (ip <> (" via " <> (gw <> " dev net1"))) ";"
    ∙ ap (λ s. "ip -4 route add " <> s)
        (append_assoc ip (" via " <> (gw <> " dev net1")) ";"
          ∙ ap (λ s. ip <> s)
              (append_assoc " via " (gw <> " dev net1") ";"
                ∙ ap (λ s. " via " <> s) (append_assoc gw " dev net1" ";")))

open_route-Lacks :
    (ip gw : String) → Lacks semicolon ip → Lacks semicolon gw → Lacks semicolon (open_route ip gw)
open_route-Lacks ip gw h k =
    Lacks-append _ "ip -4 route add " _ (lacks-Lacks semicolon "ip -4 route add " refl) (
      Lacks-append _ ip _ h (
        Lacks-append _ " via " _ (lacks-Lacks semicolon " via " refl)
          (Lacks-append _ gw _ k (lacks-Lacks semicolon " dev net1" refl))))

module _ (ip gw : String) (h : Lacks semicolon ip) (k : Lacks semicolon gw) where
  -- The same of one command.
  pub remove_route-add_route :
      (c : String)
      → contains c (route_to ip gw) ≡ false
      → remove_route (route_to ip gw) (add_route (route_to ip gw) c) ≡ c
  unfolding remove_route
  remove_route-add_route c n = elim (Bool-cases (contains c "ip -4 route add")) [
    | inl e ↦
        ap (remove_route (route_to ip gw)) (add_route_of_absent (route_to ip gw) c e n)
        ∙ subst (λ r. contains c r ≡ false → remove_route r (c <> r) ≡ c) (open_route-closed ip gw)
            (remove_all-append ";" (open_route ip gw) c (open_route-Lacks ip gw h k)) n
    | inr e ↦
        ap (remove_route (route_to ip gw)) (add_route_of_other (route_to ip gw) c e)
        ∙ remove_all_of_not_contains (route_to ip gw) c n
  ]

  -- No command of the list has the route.
  abbrev pub NoneContains : List String → Type 0
  NoneContains [] = Unit
  NoneContains (c ∷ cs) = (contains c (route_to ip gw) ≡ false) × NoneContains cs

  -- The deletion of a forward takes back what its creation did to the commands of a container, if no
  -- command had the route before and the two addresses in the route have no semicolon.
  pub each-remove_route-add_route :
      (cs : List String)
      → NoneContains cs
      → each (remove_route (route_to ip gw)) (each (add_route (route_to ip gw)) cs) ≡ cs
  unfolding each
  each-remove_route-add_route [] n = refl
  each-remove_route-add_route (c ∷ cs) (n, ns) =
      ap (λ x. x ∷ each (remove_route (route_to ip gw)) (each (add_route (route_to ip gw)) cs))
        (remove_route-add_route c n)
      ∙ ap (λ xs. c ∷ xs) (each-remove_route-add_route cs ns)
