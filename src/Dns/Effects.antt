-- ===== src/Dns/Effects.antt =====
-- What the edits of a creation come to: the Corefile and the commands of a deployment afterwards.
use x_cluster_link.Base.{
  String, ◌<>◌, ◌≡◌, refl, ap, subst, ◌∙◌, ◌⊎◌, inl, inr, Bool, true, false, Option, none, some,
  List, [], ◌∷◌, Bool-cases, if◌then◌else◌,
}
use x_cluster_link.Base.Text.{contains, splice, replace_first}
use x_cluster_link.Base.Text.Search.{
  contains-append_left, contains-append_right, contains_self, cut_of_contains,
}
use x_cluster_link.Objects.{Container}
use x_cluster_link.Dns.Corefile.{root_block, forward_block, add_forward}
use x_cluster_link.Dns.Route.{add_route, each}
use x_cluster_link.Dns.Handlers.{edit_first}
use x_cluster_link.Dns.Forwarding.{add_forward_of_no_block}

-- The Corefile has the block with the forward to the address, or it had no block of the root zone and
-- stays.
abbrev pub Forwards : String → String → String → Type 0
Forwards ip old new =
    ((contains old root_block ≡ true) × (contains new (forward_block ip) ≡ true))
    ⊎ ((contains old root_block ≡ false) × (new ≡ old))

pub add_forward-Forwards : (ip old : String) → Forwards ip old (add_forward ip old)
unfolding add_forward replace_first
add_forward-Forwards ip old = elim (Bool-cases (contains old root_block)) [
  | inl e ↦
      let (before, after, cut) = cut_of_contains old root_block e in
      inl (
        e,
        ap (λ o. contains (splice old (forward_block ip) o) (forward_block ip)) cut
            ∙ contains-append_right before (forward_block ip <> after) (forward_block ip) (
                contains-append_left (forward_block ip) after (forward_block ip)
                  (contains_self (forward_block ip))),
      )
  | inr e ↦ inr (e, add_forward_of_no_block ip old e)
]

-- A command that adds routes has the route, and any other stays.
abbrev pub Routes : String → String → String → Type 0
Routes route old new =
    ((contains old "ip -4 route add" ≡ true) × (contains new route ≡ true))
    ⊎ ((contains old "ip -4 route add" ≡ false) × (new ≡ old))

add_route-Routes : (route cmd : String) → Routes route cmd (add_route route cmd)
unfolding add_route if◌then◌else◌
add_route-Routes route cmd = go (contains cmd "ip -4 route add") refl (contains cmd route) refl
  where
    go :
        (b : Bool)
        → contains cmd "ip -4 route add" ≡ b
        → (c : Bool) → contains cmd route ≡ c
        → Routes route cmd (if b then (if c then cmd else cmd <> route) else cmd)
    go true e true e' = inl (e, e')
    go true e false e' = inl (e, contains-append_right cmd route route (contains_self route))
    go false e c e' = inr (e, refl)

-- The same of each command.
abbrev pub RoutesAll : String → List String → List String → Type 0
RoutesAll route [] [] = Unit
RoutesAll route (_ ∷ _) [] = ⊥
RoutesAll route [] (_ ∷ _) = ⊥
RoutesAll route (old ∷ olds) (new ∷ news) = Routes route old new × RoutesAll route olds news

each-RoutesAll :
    (route : String) (cmds : List String) → RoutesAll route cmds (each (add_route route) cmds)
unfolding each
each-RoutesAll route [] = tt
each-RoutesAll route (cmd ∷ cmds) = (add_route-Routes route cmd, each-RoutesAll route cmds)

-- The commands of the first container have the route, and the other containers stay.
abbrev pub RoutesFirst : String → List Container → List Container → Type 0
RoutesFirst route [] new = ⊥
RoutesFirst route (_ ∷ _) [] = ⊥
RoutesFirst route (c ∷ old) (d ∷ new) = RoutesAll route c.command d.command × (new ≡ old)

abbrev RoutesEdited : String → List Container → Option (List Container) → Type 0
RoutesEdited route old none = Unit
RoutesEdited route old (some new) = RoutesFirst route old new

pub edit_first-RoutesFirst :
    (route : String) (old new : List Container)
    → edit_first (add_route route) old ≡ some new
    → RoutesFirst route old new
edit_first-RoutesFirst route old new e = subst (RoutesEdited route old) e (go old)
  where
    go : (old : List Container) → RoutesEdited route old (edit_first (add_route route) old)
    go [] = tt
    go (c ∷ old) = (each-RoutesAll route c.command, refl)
