-- ===== src/Sync.antt =====
-- packages/gateway-core/src/runtime-sync: gateways follow the log of configuration changes.
pub mod Reloader
pub mod Drains
pub mod Publisher
pub mod Queue
pub mod Delivery
