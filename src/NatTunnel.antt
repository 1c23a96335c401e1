-- ===== src/NatTunnel.antt =====
-- internal/controller/vpcnattunnel_controller.go: the reconciler of VpcNatTunnel.
pub mod Gateway
pub mod Exec
pub mod Routes
pub mod Setup
pub mod Scripts
pub mod Handlers
pub mod Runs
pub mod Deletion
pub mod Phases
pub mod Creation
pub mod Convergence
pub mod Updating
pub mod Settled
pub mod Faults
pub mod Healthy
pub mod Renewal
