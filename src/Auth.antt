-- ===== src/Auth.antt =====
-- packages/gateway-core/src/auth: which credentials are good, and for which products.
pub mod Authorization
pub mod Grants
