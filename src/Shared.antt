-- ===== src/Shared.antt =====
-- packages/shared/src: the configuration types that the gateway, the database layer and the
-- management API exchange.
pub mod Policies
pub mod Deployments
pub mod Types
