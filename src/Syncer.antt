-- ===== src/Syncer.antt =====
-- internal/controller/gatewayexip_controller.go: what is done with a GatewayExIp on its way to the
-- broker and back. The syncer that calls these functions is Submariner's.
pub mod Handlers
pub mod Sync
pub mod Names
