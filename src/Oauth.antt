-- ===== src/Oauth.antt =====
-- packages/gateway-core/src/policies/oauth and src/oauth: the token endpoint and access tokens.
pub mod Jwt
pub mod AccessToken
pub mod Access
pub mod Assertions
pub mod Effects
pub mod Vouched
pub mod Bounded
pub mod Token
pub mod Issue
pub mod Issued
pub mod Refusals
pub mod Clients
