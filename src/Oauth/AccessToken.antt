-- ===== src/Oauth/AccessToken.antt =====
-- packages/gateway-core/src/policies/oauth/oauth-access-token.policy.ts and jwks-endpoint.policy.ts.
-- `runtime` is `none` where `getOAuthRuntime` throws.
use api_gateway_platform.Common.{
  ℕ, ◌/◌, String, Bool, true, false, not, ◌&&◌, ◌||◌, Option, none, some, List, [], ◌∷◌, any,
  includes, if◌then◌else◌, ◌==◌,
}
use api_gateway_platform.Common.Maps.{lookup}
use api_gateway_platform.Common.Text.{starts_with, slice_from, words}
use api_gateway_platform.Resolver.Registry.{present}
use api_gateway_platform.Shared.Policies.{OauthAccessTokenPolicyConfig}
use api_gateway_platform.Shared.Types.{ProxyConfig, forward, local, EndpointMode}
use api_gateway_platform.Policies.Types.{
  Policy, PolicyResult, continue, halt, respond, Try, returned, threw, Run, set_client, text,
  ClientContext, HeaderValue, single, several,
}
use api_gateway_platform.Oauth.Jwt.{
  Payload, claim, claim_is, is_str, is_undefined, str_or, is_texts, texts_of, OauthRuntime,
  VerifyOptions, GatewayKey,
}

-- `Array.isArray(authorization) ? authorization[0] : authorization`
abbrev pub first_value : Option HeaderValue → Option String
first_value none = none
first_value (some (single v)) = some v
first_value (some (several [])) = none
first_value (some (several (v ∷ _))) = some v

-- `ctx.proxy.runtimePublicOrigin ?? ctx.proxy.environment.publicOrigin`
abbrev pub origin_of : ProxyConfig → String
origin_of proxy = elim proxy.runtime_public_origin [
  | none ↦ proxy.environment.public_origin
  | some origin ↦ origin
]

abbrev pub required : List String
required = "sub" ∷ "iat" ∷ "nbf" ∷ "exp" ∷ "jti" ∷ []

abbrev pub wrong_workspace : ProxyConfig → Payload → Bool
wrong_workspace proxy claims = elim (present proxy.workspace_id) [
  | some id ↦ not (claim_is (claim "workspace_id" claims) id)
  | none ↦ not (is_undefined (claim "workspace_id" claims))
]

-- The condition of the first 403, as the source writes it.
unfoldable pub claims_refused : String → OauthRuntime → ProxyConfig → Payload → Bool
claims_refused kid runtime proxy claims =
    let developer_token = claim_is (claim "token_kind" claims) "developer" in
    not (kid == runtime.signing_key_id)
    || not (is_str (claim "sub" claims))
    || not (is_str (claim "client_id" claims))
    || not (is_str (claim "credential_id" claims))
    || developer_token && not (claim_is (claim "organization_id" claims) proxy.organization_id)
    || not developer_token
      && not (is_undefined (claim "token_kind" claims))
      && not (claim_is (claim "token_kind" claims) "application")
    || not (claim_is (claim "environment_id" claims) proxy.environment.id)
    || wrong_workspace proxy claims
    || not (is_texts (claim "product_ids" claims))
    || not (is_texts (claim "proxy_ids" claims))
    || not (includes (texts_of (claim "proxy_ids" claims)) proxy.id)
    || not (is_str (claim "scope" claims))

abbrev pub scopes_of : Payload → List String
scopes_of claims = words (str_or (claim "scope" claims) "")

unfoldable pub token_client : ProxyConfig → Payload → ClientContext
token_client proxy claims = record {
  app_id = str_or (claim "sub" claims) "";
  credential_id = str_or (claim "credential_id" claims) "";
  consumer_key = str_or (claim "client_id" claims) "";
  organization_id = proxy.organization_id;
  workspace_id = present proxy.workspace_id;
  product_ids = texts_of (claim "product_ids" claims);
  scopes = scopes_of claims;
}

module _ {W : Type 0} (key : GatewayKey) (runtime : Option OauthRuntime) (now : W → ℕ) where
  -- What follows a verification that did not throw.
  unfoldable pub check_claims :
      OauthAccessTokenPolicyConfig → OauthRuntime → String → Payload → Run W → PolicyResult × Run W
  check_claims config rt kid claims (ctx, w) =
      if claims_refused kid rt ctx.proxy claims
      then (
        halt 403 (
            ("error", text "Forbidden")
            ∷ ("message", text "Access token is not valid for this API environment")
            ∷ []),
        (ctx, w),
      )
      else if any (λ scope. not (includes (scopes_of claims) scope)) config.required_scopes
      then (
        halt 403 (
            ("error", text "insufficient_scope")
            ∷ ("message", text "Required scope is missing")
            ∷ []),
        (ctx, w),
      )
      else (continue, set_client (token_client ctx.proxy claims) (ctx, w))

  abbrev invalid_token : PolicyResult
  invalid_token = halt 401 (
      ("error", text "Unauthorized")
      ∷ ("message", text "Invalid or expired Bearer access token")
      ∷ [])

  abbrev pub options_of : OauthAccessTokenPolicyConfig → ProxyConfig → VerifyOptions
  options_of config proxy = record {
    issuer = origin_of proxy;
    audience = config.audience;
    required_claims = required;
  }

  unfoldable pub verify_token : OauthAccessTokenPolicyConfig → String → Run W → PolicyResult × Run W
  unfolding check_claims
  verify_token config token (ctx, w) = elim runtime [
    | none ↦ (invalid_token, (ctx, w))
    | some rt ↦ elim (key.verify token (options_of config ctx.proxy) (now w / 1000)) [
      | none ↦ (invalid_token, (ctx, w))
      | some (kid, claims) ↦ check_claims config rt kid claims (ctx, w)
    ]
  ]

  abbrev answer_of : PolicyResult × Run W → Try PolicyResult × Run W
  answer_of (r, s) = (returned r, s)

  abbrev missing_token : PolicyResult
  missing_token =
      halt 401
        (("error", text "Unauthorized") ∷ ("message", text "Missing Bearer access token") ∷ [])

  unfoldable pub oauth_access_token_policy : OauthAccessTokenPolicyConfig → Policy W
  unfolding verify_token
  oauth_access_token_policy config (ctx, w) =
      elim (first_value (lookup "authorization" ctx.req.headers)) [
        | none ↦ (returned missing_token, (ctx, w))
        | some value ↦
            if starts_with value "Bearer "
            then answer_of (verify_token config (slice_from 7 value) (ctx, w))
            else (returned missing_token, (ctx, w))
      ]

  abbrev is_local : EndpointMode → Bool
  is_local local = true
  is_local forward = false

  -- `jwk` is the text of the public key; reading the runtime throws where there is none.
  unfoldable pub jwks_endpoint_policy : String → Policy W
  jwks_endpoint_policy jwk (ctx, w) =
      if is_local ctx.endpoint.mode
      then (
        elim runtime [
          | none ↦ threw
          | some rt ↦ returned (
              respond 200
                (("cache-control", "public, max-age=300")
                  ∷ ("content-type", "application/json; charset=utf-8")
                  ∷ [])
                (("keys", text jwk) ∷ []))
        ],
        (ctx, w),
      )
      else (
        returned (respond 500 [] (("error", text "JWKS endpoint must be local") ∷ [])),
        (ctx, w),
      )
