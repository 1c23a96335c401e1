-- ===== src/System.antt =====
-- The controllers together: what the program asks of the cluster, whichever handlers run, in whatever
-- order, and whatever others do to the cluster in between.
pub mod Keeps
pub mod Rules
pub mod Tunnels
pub mod Reconcile
pub mod Forwards
pub mod Gateways
pub mod Events
pub mod Unclaimed
pub mod Reach
pub mod Bounds
pub mod Following
pub mod Peers
pub mod Selection
