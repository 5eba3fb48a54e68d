-- ===== src/Shared/Policies.antt =====
-- packages/shared/src/policies/config.ts: policy types and their configurations. The schemas are
-- run by a validation library, so parsing a raw configuration is a parameter of each policy.
use api_gateway_platform.Common.{ℕ, String, Bool, true, false, List}

pub data PolicyType : Type 0 where
  api_key_auth oauth_token oauth_access_token jwks_endpoint mtls_auth : PolicyType
  rate_limit transform schema_validation audit_log cors : PolicyType

-- The text that the source uses for the type.
abbrev pub policy_name : PolicyType → String
policy_name api_key_auth = "api-key-auth"
policy_name oauth_token = "oauth-token"
policy_name oauth_access_token = "oauth-access-token"
policy_name jwks_endpoint = "jwks-endpoint"
policy_name mtls_auth = "mtls-auth"
policy_name rate_limit = "rate-limit"
policy_name transform = "transform"
policy_name schema_validation = "schema-validation"
policy_name audit_log = "audit-log"
policy_name cors = "cors"

pub data PolicyFailureMode : Type 0 where
  fail_open fail_closed : PolicyFailureMode

abbrev pub is_open : PolicyFailureMode → Bool
is_open fail_open = true
is_open fail_closed = false

-- The common field, and the fields that the schema passes through, as they were written.
pub record BasePolicyConfig : Type 0 where
  pub failure_mode : PolicyFailureMode
  pub fields : String

pub record ApiKeyAuthPolicyConfig : Type 0 where
  pub failure_mode : PolicyFailureMode
  pub header : String

pub record RateLimitPolicyConfig : Type 0 where
  pub failure_mode : PolicyFailureMode
  pub limit : ℕ
  pub window_seconds : ℕ

pub record OauthTokenPolicyConfig : Type 0 where
  pub failure_mode : PolicyFailureMode
  pub grant_types : List String
  pub access_token_ttl_seconds : ℕ
  pub audience : String
  pub allowed_scopes : List String

pub record OauthAccessTokenPolicyConfig : Type 0 where
  pub failure_mode : PolicyFailureMode
  pub audience : String
  pub required_scopes : List String

pub record PolicyConfig : Type 0 where
  pub type : PolicyType
  pub order : ℕ
  pub enabled : Bool
  pub config : BasePolicyConfig
