-- ===== src/Resolver.antt =====
-- packages/gateway-core/src/proxy/resolver.ts: the in-memory registry of active deployments.
pub mod Registry
pub mod Best
pub mod Loading
pub mod Runtimes
pub mod Template
pub mod Matching
pub mod Endpoint
