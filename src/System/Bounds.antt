-- ===== src/System/Bounds.antt =====
-- How many requests one run of a handler makes at most.
use x_cluster_link.Base.{String, ◌≡◌, ℕ, ◌+◌, ◌≤◌, arith, List}
use x_cluster_link.Base.GoMap.{Entries}
use x_cluster_link.Objects.{VpcNatTunnel}
use x_cluster_link.Kube.{Kube, World, answer}
use x_cluster_link.Kube.Costs.{length, Costs, Costs-pure, Costs-then, Costs-most}
use x_cluster_link.System.Reach.{Event, handle}
use x_cluster_link.System.Bounds.Tunnels as Tunnels
use x_cluster_link.System.Bounds.Forwards as Forwards
use x_cluster_link.System.Bounds.Gateways.{
  Costs-on_add, Costs-on_update, Costs-on_delete, Costs-on_remote_gateway_ex_ip_synced,
}
mod Tunnels
mod Forwards
mod Gateways

-- The bound of a handler, where at most `n` tunnels are listed at a time.
abbrev pub bound : ℕ → Event → ℕ
bound n (Event.tunnel_queued key) = 7
bound n (Event.forward_queued key) = 3
bound n (Event.gateway_added st) = 1
bound n (Event.gateway_updated old new) = 2 + n
bound n (Event.gateway_deleted st) = 2 + n
bound n (Event.ex_ip_synced x) = n

module _ (K : Kube) (cluster_id : String) (n : ℕ)
    (fits : (selector : Entries) (ts : List VpcNatTunnel) (s s' : K.State)
      → K.list_tunnels "" selector s ≡ (answer ts, s')
      → length ts ≤ n) where
  Costs-handle : (e : Event) → Costs (bound n e) (handle K cluster_id e)
  unfolding handle
  Costs-handle (Event.tunnel_queued key) = Tunnels.Costs-reconcile K cluster_id key
  Costs-handle (Event.forward_queued key) = Forwards.Costs-reconcile K key
  Costs-handle (Event.gateway_added st) = Costs-on_add K n fits cluster_id st
  Costs-handle (Event.gateway_updated old new) = Costs-on_update K n fits cluster_id old new
  Costs-handle (Event.gateway_deleted st) = Costs-on_delete K n fits cluster_id st
  Costs-handle (Event.ex_ip_synced x) =
      Costs-most n (omega arith) (
        Costs-then _ _ (Costs-on_remote_gateway_ex_ip_synced K n fits cluster_id x) (Costs-pure tt))

  -- One run of a handler is bounded work, however it ends: a reconciliation of a tunnel makes at most
  -- seven requests, commands counted, one of a forward three, an added gateway one, an updated or
  -- deleted gateway two and one for each listed tunnel, and a synced GatewayExIp one for each listed
  -- tunnel; if the cluster lists at most `n` tunnels at a time.
  pub handle-bound :
      (e : Event) (w : World K) → length (handle K cluster_id e w).1.log ≤ length w.log + bound n e
  handle-bound e w = (Costs-handle e).at w
