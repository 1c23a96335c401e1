-- ===== src/NatTunnel/Scripts.antt =====
-- What the scripts of a tunnel add to a gateway, and what they remove from it.
use text.Mathlib.TextLemmas.{append_assoc}
use mathlib.Core.Option.{map as option_map}
use x_cluster_link.Base.{
  String, ◌<>◌, ◌≡◌, refl, sym, ap, ◌∙◌, Bool, true, false, Option, none, some, List, [], ◌∷◌,
  if◌then◌else◌, ◌==◌,
}
use x_cluster_link.Objects.{VpcNatTunnel, VpcNatTunnelStatus}
use x_cluster_link.Tunnel.{create_tunnel_operation}
use x_cluster_link.Tunnel.Gre.{new_gre_op}
use x_cluster_link.Tunnel.Vxlan.{new_vxlan_op}
use x_cluster_link.NatTunnel.Routes.{
  last, snat_source, gen_globalnet_route, gen_del_globalnet_route, gen_create_tunnel_cmd,
  gen_delete_tunnel_cmd,
}

pub data Verb : Type 0 where
  adding removing : Verb

-- The entries of the tables of a gateway: a route through an address, a route into a device, and a
-- translation of source addresses.
pub data Rule : Type 0 where
  route_via : String → String → Rule
  route_into : String → String → Rule
  translation : String → String → Rule

abbrev ip_route : Verb → String
ip_route adding = "ip route add "
ip_route removing = "ip route del "

abbrev nat_rule : Verb → String
nat_rule adding = "iptables -t nat -A POSTROUTING -d "
nat_rule removing = "iptables -t nat -D POSTROUTING -d "

-- The command that adds or removes a rule.
abbrev pub say : Verb → Rule → String
say v (route_via cidr gateway) = ip_route v <> cidr <> " via " <> gateway <> " dev eth0"
say v (route_into cidr device) = ip_route v <> cidr <> " dev " <> device
say v (translation cidr source) = nat_rule v <> cidr <> " -j SNAT --to-source " <> source

abbrev say_more : Verb → String → List Rule → String
say_more v command [] = command
say_more v command (r ∷ rs) = command <> ";" <> say_more v (say v r) rs

-- The commands for several rules, one after the other.
abbrev pub script : Verb → List Rule → String
script v [] = ""
script v (r ∷ rs) = say_more v (say v r) rs

-- The rules of a tunnel, by its status and its name; none as long as it has no egress addresses.
abbrev pub rules_of : VpcNatTunnelStatus → String → Option (List Rule)
rules_of status name = elim (status.global_egress_ip) [
  | [] ↦ none
  | first ∷ rest ↦ some (
      route_via status.globalnet_cidr status.ovn_gw_ip
      ∷ route_into status.remote_globalnet_cidr name
      ∷ translation status.remote_globalnet_cidr (first <> "-" <> last first rest)
      ∷ [])
]

abbrev pub rules : VpcNatTunnel → Option (List Rule)
rules t = rules_of t.status t.metadata.name

-- The device of a tunnel: its name, and whether it is one of type VXLAN.
pub data Device : Type 0 where
  gre vxlan : String → Device

abbrev pub device_of : String → String → Device
device_of type name = if type == "vxlan" then vxlan name else gre name

abbrev pub device : VpcNatTunnel → Device
device t = device_of t.spec.tunnel_type t.metadata.name

-- The command that adds or removes a device, up to and with its name.
abbrev pub say_device : Verb → Device → String
say_device adding (gre name) = "ip tunnel add " <> name
say_device removing (gre name) = "ip tunnel del " <> name
say_device adding (vxlan name) = "ip link add " <> name
say_device removing (vxlan name) = "ip link del " <> name

gen_globalnet_route-rules :
    (t : VpcNatTunnel) → gen_globalnet_route t ≡ option_map (script adding) (rules t)
unfolding gen_globalnet_route snat_source
gen_globalnet_route-rules t = go (t.status.global_egress_ip) refl
  where
    go :
        (ips : List String)
        → t.status.global_egress_ip ≡ ips
        → gen_globalnet_route t ≡ option_map (script adding) (rules t)
    go [] e = rw e refl
    go (first ∷ rest) e = rw e refl

gen_del_globalnet_route-rules :
    (t : VpcNatTunnel) → gen_del_globalnet_route t ≡ option_map (script removing) (rules t)
unfolding gen_del_globalnet_route snat_source
gen_del_globalnet_route-rules t = go (t.status.global_egress_ip) refl
  where
    go :
        (ips : List String)
        → t.status.global_egress_ip ≡ ips
        → gen_del_globalnet_route t ≡ option_map (script removing) (rules t)
    go [] e = rw e refl
    go (first ∷ rest) e = rw e refl

names_device :
    (make name start about more : String)
    → (rest : String) × ((make <> name <> (" " <> start) <> about) <> more
        ≡ (make <> name) <> " " <> rest)
names_device make name start about more = (
  start <> about <> more,
  append_assoc make (name <> (" " <> start) <> about) more
      ∙ ap (λ x. make <> x) (append_assoc name ((" " <> start) <> about) more)
      ∙ ap (λ x. make <> name <> x)
          (append_assoc (" " <> start) about more ∙ append_assoc " " start (about <> more))
      ∙ sym (append_assoc make name (" " <> start <> about <> more)),
)

abbrev CreatesAndDeletes : String → String → Device → Type 0
CreatesAndDeletes create delete d =
    ((rest : String) × (create ≡ say_device adding d <> " " <> rest))
    × (delete ≡ say_device removing d)

tunnel_cmds-device :
    (t : VpcNatTunnel)
    → CreatesAndDeletes (gen_create_tunnel_cmd t) (gen_delete_tunnel_cmd t) (device t)
unfolding gen_create_tunnel_cmd gen_delete_tunnel_cmd create_tunnel_operation new_gre_op
    new_vxlan_op if◌then◌else◌
tunnel_cmds-device t = go (t.spec.tunnel_type == "vxlan") (t.spec.tunnel_type == "gre")
  where
    go :
        (b c : Bool)
        → let o = if b then new_vxlan_op t else if c then new_gre_op t else new_gre_op t in
          CreatesAndDeletes
            (o.create_cmd)
            (o.delete_cmd)
            (if b then vxlan t.metadata.name else gre t.metadata.name)
    go true c = (names_device "ip link add " t.metadata.name "type vxlan id " _ _, refl)
    go false true = (names_device "ip tunnel add " t.metadata.name "mode gre remote " _ _, refl)
    go false false = (names_device "ip tunnel add " t.metadata.name "mode gre remote " _ _, refl)

-- A tunnel that has kept the status, the name and the type with which it was built, whatever has
-- become of the rest of its spec and of its labels: the scripts that remove it name the same rules,
-- each in the order in which the build added it, and both or neither of the
-- scripts for the rules exist; and the command that removes the tunnel names the device that the
-- build's command adds, up to the blank after its name, with the program that added it.
pub removed_as_built :
    (built t : VpcNatTunnel)
    → t.status ≡ built.status
    → t.metadata.name ≡ built.metadata.name
    → t.spec.tunnel_type ≡ built.spec.tunnel_type
    → (gen_globalnet_route built ≡ option_map (script adding) (rules built))
      × (gen_del_globalnet_route t ≡ option_map (script removing) (rules built))
      × ((rest : String) × (gen_create_tunnel_cmd built
            ≡ say_device adding (device built) <> " " <> rest))
      × (gen_delete_tunnel_cmd t ≡ say_device removing (device built))
removed_as_built built t status name type = (
  gen_globalnet_route-rules built,
  gen_del_globalnet_route-rules t
      ∙ ap (λ s. option_map (script removing) (rules_of s t.metadata.name)) status
      ∙ ap (λ n. option_map (script removing) (rules_of built.status n)) name,
  (tunnel_cmds-device built).0,
  (tunnel_cmds-device t).1
      ∙ ap (λ y. say_device removing (device_of y t.metadata.name)) type
      ∙ ap (λ n. say_device removing (device_of built.spec.tunnel_type n)) name,
)
