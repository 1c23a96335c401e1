-- ===== src/Informer.antt =====
-- internal/controller/gateway_informer.go: what is done when the StatefulSet of a VPC gateway is
-- added, changes its number of available replicas, or is deleted.
pub mod Lookup
pub mod Switch
pub mod Handlers
pub mod Start
pub mod Waiting
pub mod Picks
pub mod Moves
pub mod Failover
pub mod Standby
pub mod Registration
pub mod Arrival
pub mod Healthy
pub mod Succession
pub mod Missed
