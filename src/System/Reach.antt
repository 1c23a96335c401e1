-- ===== src/System/Reach.antt =====
-- The running program: handlers run one after the other, in any order, and between two of them anything
-- may happen to the cluster. What the program asks for is judged over the whole run.
use x_cluster_link.Base.{String, ◌≡◌, subst, List, [], ◌∷◌, ◌++◌}
use x_cluster_link.Objects.{ObjectKey, VpcNatTunnel, GatewayExIp, StatefulSet}
use x_cluster_link.Kube.{
  Kube, World, Outcome, ok, err, panic, Effect, Entry, did, failed, M, pure, ◌>>◌,
}
use x_cluster_link.Kube.Post.{Post}
use x_cluster_link.NatTunnel.Handlers as Tunnels
use x_cluster_link.Dns.Handlers as Forwards
use x_cluster_link.Informer.Handlers.{on_add, on_update, on_delete}
use x_cluster_link.Syncer.Handlers.{on_remote_gateway_ex_ip_synced}
use x_cluster_link.System.Keeps.{Keeps, Keeps-then, Keeps-pure}
use x_cluster_link.System.Rules.{StatusWrite, Allowed, Lawful}
use x_cluster_link.System.Reconcile as Reconcile
use x_cluster_link.System.Forwards as Forwarding
use x_cluster_link.System.Events.{
  Keeps-on_add, Keeps-on_update, Keeps-on_delete, Keeps-on_remote_gateway_ex_ip_synced,
}

-- What makes a handler run: the two work queues, the informer's events and the syncer's.
pub data Event : Type 0 where
  tunnel_queued : ObjectKey → Event
  forward_queued : ObjectKey → Event
  gateway_added : StatefulSet → Event
  gateway_updated : (old new : StatefulSet) → Event
  gateway_deleted : StatefulSet → Event
  ex_ip_synced : GatewayExIp → Event

module _ (K : Kube) (cluster_id : String) where
  unfoldable pub handle : Event → M K (Unit {0})
  handle (tunnel_queued key) = Tunnels.reconcile K cluster_id key
  handle (forward_queued key) = Forwards.reconcile K key
  handle (gateway_added st) = on_add K cluster_id st
  handle (gateway_updated old new) = on_update K cluster_id old new
  handle (gateway_deleted st) = on_delete K cluster_id st
  handle (ex_ip_synced x) = on_remote_gateway_ex_ip_synced K x >> pure tt

  pub data Step (w : World K) : World K → Type 0 where
    -- A handler runs to its end, be it a value, an error or a panic.
    run : (e : Event) → Step w (handle e w).1
    -- Someone else changes the cluster.
    interfere : (s : K.State) → Step w (record w { state = s })

  -- The runs from a start of the program.
  pub data Reach : World K → Type 0 where
    start : (s : K.State) → Reach (record { state = s; log = [] })
    later : {w w' : World K} → Reach w → Step w w' → Reach w'

  Keeps-handle : (e : Event) → Keeps (Lawful K cluster_id) (handle e)
  unfolding handle
  Keeps-handle (tunnel_queued key) = Reconcile.Keeps-reconcile K cluster_id key
  Keeps-handle (forward_queued key) = Forwarding.Keeps-reconcile K cluster_id key
  Keeps-handle (gateway_added st) = Keeps-on_add K cluster_id st
  Keeps-handle (gateway_updated old new) = Keeps-on_update K cluster_id old new
  Keeps-handle (gateway_deleted st) = Keeps-on_delete K cluster_id st
  Keeps-handle (ex_ip_synced x) =
      Keeps-then _ _ (Keeps-on_remote_gateway_ex_ip_synced K cluster_id x) (Keeps-pure tt)

  ends :
      (x : Outcome K.Err (Unit {0}) × World K)
      → Post (λ _ w'. Lawful K cluster_id w'.log) (λ w'. Lawful K cluster_id w'.log) x
      → Lawful K cluster_id x.1.log
  ends (ok _, w') p = p.at
  ends (err _, w') p = p.at
  ends (panic, w') p = p.at

  Step-Lawful :
      {w w' : World K} → Step w w' → Lawful K cluster_id w.log → Lawful K cluster_id w'.log
  Step-Lawful {w} (run e) h = ends (handle e w) ((Keeps-handle e).at w h)
  Step-Lawful (interfere s) h = h

  -- Whatever events came in, in whatever order, and whatever others did to the cluster between two
  -- handlers: each request that the program has made, accepted or refused, is one that `Allowed` allows
  -- after the requests before it. A status is saved right after the tunnel was built with it. A
  -- tunnel that the cluster answered is written with its finalizer added, or as an edit that keeps its
  -- status, finalizers, VPCs, remote cluster and interface address, or without its finalizer right
  -- after it was torn down. The finalizer of a forward is added, or removed right after a deployment
  -- was written. In a deployment `add_route` or `remove_route` is applied to the first init container's
  -- commands, for the route to the cluster's DNS through the gateway of the default subnet, in the
  -- Corefile `add_forward` is applied with the address of that DNS, and the routes of a VPC are moved to a listed gateway that is available and whose
  -- one pod runs. A GatewayExIp is created as `Registered` says, and changed or deleted only if the
  -- cluster listed it for a gateway of this cluster or if it is the empty one; its name and its address
  -- range stay. Commands run in a pod of a gateway.
  pub Reach-Lawful : {w : World K} → Reach w → Lawful K cluster_id w.log
  Reach-Lawful (start s) = tt
  Reach-Lawful (later r step) = Step-Lawful step (Reach-Lawful r)

  Lawful-append :
      (newer older : List Entry) → Lawful K cluster_id (newer ++ older) → Lawful K cluster_id older
  Lawful-append [] older h = h
  Lawful-append (did e ∷ newer) older (_, h) = Lawful-append newer older h
  Lawful-append (failed e ∷ newer) older (_, h) = Lawful-append newer older h

  -- An accepted request of a run was allowed after what was asked before it.
  Reach-Allowed :
      {w : World K} (newer older : List Entry) (e : Effect)
      → Reach w
      → w.log ≡ newer ++ (did e ∷ older)
      → Allowed K cluster_id e older
  Reach-Allowed newer older e r split =
      (Lawful-append newer _ (subst (Lawful K cluster_id) split (Reach-Lawful r))).0

  -- Wherever in a run a status was saved, the requests right before it are the two commands that build
  -- the tunnel of this very status, both accepted, in the one running pod of the gateway in it.
  pub Reach-StatusWrite :
      {w : World K} (newer older : List Entry) (t : VpcNatTunnel)
      → Reach w
      → w.log ≡ newer ++ (did (Effect.update_tunnel_status t) ∷ older)
      → StatusWrite K t older
  Reach-StatusWrite newer older t r split =
      Reach-Allowed newer older (Effect.update_tunnel_status t) r split
