-- ===== src/Gateway.antt =====
-- packages/gateway-core/src/server.ts: the catch-all route.
pub mod Handler
pub mod Forwarding
pub mod Validation
pub mod Rows
pub mod Loader
pub mod Valid
pub mod Forwarder
pub mod Stripping
