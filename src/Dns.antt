-- ===== src/Dns.antt =====
-- internal/controller/vpcdnsforward_controller.go: the reconciler of VpcDnsForward.
pub mod Corefile
pub mod Route
pub mod Handlers
pub mod Commands
pub mod Forwarding
pub mod Effects
pub mod Connection
pub mod Repetition
