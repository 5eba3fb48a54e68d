-- ===== src/Management.antt =====
-- packages/management-api/src: the authorization of administrators and the issue of developer tokens.
pub mod Principals
pub mod Tokens
pub mod Acceptance
