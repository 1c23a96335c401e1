-- ===== src/Informer/Start.antt =====
-- gateway_informer.go: NewInformer and Start, with the goroutine that Start runs. A state is a point of
-- Start and what the goroutines share; a move is a step of Start, or something that happens beside it.
use x_cluster_link.Base.{
  String, ℕ, Bool, true, false, Option, none, some, List, [], ◌∷◌, if◌then◌else◌,
}
use x_cluster_link.Base.GoMap.{Entries}
use x_cluster_link.Kube.{Reply, answer, refuse}

-- GatewayInformer: `ClusterId` and `Config`
pub record GatewayInformer (RestConfig : Type 0) : Type 0 where
  pub cluster_id : String
  pub config : RestConfig

unfoldable pub new_informer :
    {RestConfig : Type 0} → String → RestConfig → GatewayInformer RestConfig
new_informer cluster_id config = record { cluster_id = cluster_id; config = config }

-- What the informer lists and watches: the StatefulSets of a namespace with these labels. It is never
-- told again of an object that does not change.
pub record Watched : Type 0 where
  pub namespace : String
  pub labels : Entries
  pub resync_seconds : ℕ

abbrev pub watched : Watched
watched = record {
  namespace = "kube-system";
  labels = ("ovn.kubernetes.io/vpc-nat-gw", "true") ∷ [];
  resync_seconds = 0;
}

-- What Start calls: kubernetes.NewForConfig, AddEventHandler on the informer for what is watched, and
-- cache.WaitForCacheSync of the stop channel's and the cache's state, which still waits at `none`.
pub record Outside : Type 1 where
  pub RestConfig : Type 0
  pub ClientSet : Type 0
  pub Err : Type 0
  pub new_for_config : RestConfig → Reply Err ClientSet
  pub add_event_handler : ClientSet → Watched → Reply Err (Unit {0})
  pub wait_for_cache_sync : (is_stopped has_synced : Bool) → Option Bool

pub data Failure (Err : Type 0) : Type 0 where
  library : Err → Failure Err
  -- "error syncing cache"
  not_synced : Failure Err

module _ (O : Outside) where
  pub data Point : Type 0 where
    at_client : Point
    at_handler : O.ClientSet → Point
    at_run : Point
    at_sync : Point
    at_stop : Point
    returned : Option (Failure O.Err) → Point

  pub record Process : Type 0 where
    pub point : Point
    -- stopCh, as far as it is closed
    pub is_stopped : Bool
    -- `go informer.Run`
    pub is_running : Bool
    pub has_synced : Bool
    -- ctx, which Start hands to the handlers and does not wait for
    pub is_cancelled : Bool

  pub data Move : Type 0 where
    go : Move
    fill_cache : Move
    cancel : Move

  abbrev pub begin : Process
  begin = record {
    point = Point.at_client;
    is_stopped = false;
    is_running = false;
    has_synced = false;
    is_cancelled = false;
  }

  -- `defer close(stopCh)`
  abbrev pub give_back : Option (Failure O.Err) → Process → Process
  give_back r p = record p { point = Point.returned r; is_stopped = true }

  abbrev pub connect : GatewayInformer O.RestConfig → Process → Process
  connect r p = elim (O.new_for_config r.config) [
    | answer c ↦ record p { point = Point.at_handler c }
    | refuse e ↦ record p { point = Point.returned (some (Failure.library e)) }
  ]

  -- The next step of Start, from its point on; a step that has to wait changes nothing.
  unfoldable pub proceed : GatewayInformer O.RestConfig → Point → Process → Process
  proceed r at_client p = connect r p
  proceed r (at_handler c) p = elim (O.add_event_handler c watched) [
    | answer _ ↦ record p { point = Point.at_run }
    | refuse e ↦ record p { point = Point.returned (some (Failure.library e)) }
  ]
  proceed r at_run p = record p { point = Point.at_sync; is_running = true }
  proceed r at_sync p = elim (O.wait_for_cache_sync p.is_stopped p.has_synced) [
    | none ↦ p
    | some true ↦ record p { point = Point.at_stop }
    | some false ↦ give_back (some Failure.not_synced) p
  ]
  proceed r at_stop p = if p.is_stopped then give_back none p else p
  proceed r (returned _) p = p

  unfoldable pub step : GatewayInformer O.RestConfig → Move → Process → Process
  unfolding proceed
  step r go p = proceed r p.point p
  step r fill_cache p = record p { has_synced = true }
  step r cancel p = record p { is_cancelled = true }

  -- The moves from the first on.
  unfoldable pub run : GatewayInformer O.RestConfig → List Move → Process → Process
  run r [] p = p
  run r (m ∷ ms) p = run r ms (step r m p)
