-- ===== src/Labs.antt =====
-- packages/database/src/lab-workspaces.ts: personal lab workspaces.
pub mod Resources
pub mod Workspaces
pub mod Shutdown
pub mod Counts
pub mod Exclusive
pub mod Creation
