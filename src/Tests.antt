-- ===== src/Tests.antt =====
-- A concrete cluster, runs of the program over it, and the theorems at concrete data.
mod Demo
mod NatTunnel
mod NatTunnelFaults
mod Informer
mod Syncer
mod Dns
mod Renewal
mod System
mod Startup
mod Following
mod Waiting
mod Missed
mod Scripts
