-- ===== src/Kube/Monad.antt =====
-- Running code against a cluster. A Go function that returns an error, or panics, is an action
-- whose outcome says so; what it has done to the cluster stays done. Beside the cluster's state an
-- action carries a log of the changes that it asked for, newest first, which no code reads.
use x_cluster_link.Base.{String, Option, none, some, List, ◌∷◌}
use x_cluster_link.Objects.{VpcNatTunnel, GatewayExIp, VpcDnsForward, Vpc, ConfigMap, Deployment}
use x_cluster_link.Kube.Calls.{Kube, Call, Reply, answer, refuse}

-- A request to change the cluster.
pub data Effect : Type 0 where
  update_tunnel : VpcNatTunnel → Effect
  update_tunnel_status : VpcNatTunnel → Effect
  update_dns_forward : VpcDnsForward → Effect
  update_config_map : ConfigMap → Effect
  update_deployment : Deployment → Effect
  update_vpc : Vpc → Effect
  create_ex_ip : GatewayExIp → Effect
  update_ex_ip : GatewayExIp → Effect
  delete_ex_ip : GatewayExIp → Effect
  exec : (pod namespace container : String) → List String → Effect

-- Whether the request was answered, or refused with an error.
pub data Entry : Type 0 where
  did : Effect → Entry
  failed : Effect → Entry

pub record World (K : Kube) : Type 0 where
  pub state : K.State
  pub log : List Entry

pub data Outcome (E A : Type 0) : Type 0 where
  ok : A → Outcome E A
  err : E → Outcome E A
  panic : Outcome E A

abbrev pub M : Kube → Type 0 → Type 0
M K A = World K → Outcome K.Err A × World K

module _ {E A : Type 0} where
  abbrev pub outcome : Reply E A → Outcome E A
  outcome (answer a) = ok a
  outcome (refuse e) = err e

  abbrev pub entry : Effect → Reply E A → Entry
  entry e (answer a) = did e
  entry e (refuse _) = failed e

module _ {K : Kube} {A : Type 0} where
  unfoldable pub pure : A → M K A
  pure a w = (ok a, w)

  unfoldable pub throw : K.Err → M K A
  throw e w = (err e, w)

  -- An index out of range, or a write to a nil map, panics.
  unfoldable pub or_panic : Option A → M K A
  or_panic none w = (panic, w)
  or_panic (some a) w = (ok a, w)

  -- A call that only reads.
  unfoldable pub read : Call K.State K.Err A → M K A
  read call w = let (r, s) = call w.state in (outcome r, record w { state = s })

  -- A call that asks for a change.
  unfoldable pub request : Effect → Call K.State K.Err A → M K A
  request e call w =
      let (r, s) = call w.state in (outcome r, record { state = s; log = entry e r ∷ w.log })

module _ {K : Kube} {A B : Type 0} where
  infixl 5 ◌>>=◌
  unfoldable pub ◌>>=◌ : M K A → (A → M K B) → M K B
  ◌>>=◌ m f w =
      let (r, w') = m w in elim r [ ok a ↦ f a w' | err e ↦ (err e, w') | panic ↦ (panic, w') ]

  infixl 5 ◌>>◌
  unfoldable pub ◌>>◌ : M K A → M K B → M K B
  m >> k = m >>= λ _. k

module _ {K : Kube} {B : Type 0} where
  -- The error of `m` as a value.
  unfoldable pub attempt : M K B → M K (Reply K.Err B)
  attempt m w =
      let (r, w') = m w in
      elim r [ ok a ↦ (ok (answer a), w') | err e ↦ (ok (refuse e), w') | panic ↦ (panic, w') ]
