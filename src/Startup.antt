-- ===== src/Startup.antt =====
-- cmd/main.go, with the configuration of the syncer in internal/controller/gatewayexip_controller.go:
-- how the program reads its configuration and starts its parts.
mod Outside
mod Actions
pub use Outside.*
unfoldable pub use Actions.*
pub mod Posts
pub mod Environment
pub mod Agent
pub mod Main
pub mod Wired
pub mod Steps
pub mod Wiring
pub mod Identity
pub mod Faults
