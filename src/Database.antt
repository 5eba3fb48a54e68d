-- ===== src/Database.antt =====
-- packages/database/src: deployments of proxy revisions and the log of configuration changes.
pub mod Changes
pub mod Rows
pub mod Deployments
pub mod Exclusive
pub mod Occupancy
pub mod Promoted
pub mod Promotion
pub mod Tables
pub mod Keyed
