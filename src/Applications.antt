-- ===== src/Applications.antt =====
-- packages/database/src/application-management.ts: applications, their credentials, grants and keys.
pub mod Types
pub mod Updates
pub mod Grants
pub mod Clones
pub mod Kept
pub mod Keeping
pub mod Revocation
pub mod Narrowing
pub mod Replacement
pub mod Coverage
