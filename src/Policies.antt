-- ===== src/Policies.antt =====
-- packages/gateway-core/src/policies: the policy pipeline and the policies.
pub mod Types
pub mod Registry
pub mod Pipeline
pub mod Order
pub mod Flow
pub mod ApiKey
pub mod Admission
pub mod Mtls
pub mod Certificates
pub mod RateLimit
pub mod Windows
