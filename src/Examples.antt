-- ===== src/Examples.antt =====
-- Concrete configurations, requests and stores on which the theorems are applied.
pub mod Data
pub mod Routing
pub mod Policing
pub mod Tokens
pub mod Deploying
pub mod Serving
pub mod Publishing
pub mod Egress
pub mod Managing
pub mod Issuing
pub mod Labs
pub mod Forwarding
pub mod Loading
pub mod Granting
