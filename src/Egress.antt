-- ===== src/Egress.antt =====
-- packages/lab-egress/src: the proxy through which lab workspaces reach public upstreams.
pub mod Security
pub mod Quota
pub mod Redirects
pub mod Safety
pub mod Bounds
pub mod Server
pub mod Relays
