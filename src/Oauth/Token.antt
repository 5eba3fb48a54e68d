-- ===== src/Oauth/Token.antt =====
-- packages/gateway-core/src/policies/oauth/oauth-token.policy.ts: the token endpoint, from the
-- request to the signed token. `runtime` is `none` where `getOAuthRuntime` throws.
use api_gateway_platform.Common.{
  ℕ, ◌+◌, ◌/◌, String, Bool, false, not, ◌||◌, Option, none, some, List, [], ◌∷◌, any, filter,
  flat_map, includes, is_empty, map, if◌then◌else◌, ◌==◌,
}
use api_gateway_platform.Common.Maps.{lookup}
use api_gateway_platform.Common.Text.{starts_with, words, join, append}
use api_gateway_platform.Common.Ascii.{to_lower}
use api_gateway_platform.Auth.Authorization.{
  AuthorizedProduct, CredentialRecord, is_credential_valid, credential_matches_workspace,
  authorized_products, unique_values,
}
use api_gateway_platform.Resolver.Registry.{present}
use api_gateway_platform.Shared.Policies.{OauthTokenPolicyConfig}
use api_gateway_platform.Shared.Types.{ProxyConfig, forward, local}
use api_gateway_platform.Policies.Types.{
  Policy, PolicyContext, PolicyResult, respond, Try, returned, threw, Run, text, number,
  HeaderValue, single,
}
use api_gateway_platform.Oauth.Jwt.{str, num, texts, Payload, OauthRuntime, GatewayKey}
use api_gateway_platform.Oauth.AccessToken.{first_value, origin_of}
use api_gateway_platform.Oauth.Assertions.{
  Caught, value, replayed, failed, Io, next, pure, call, OauthTokenPolicyDependencies,
  DeveloperGrant, parse_basic_authorization, authenticate_jwt_assertion,
  authenticate_developer_grant,
}

abbrev pub oauth_headers : List (String × String)
oauth_headers =
    ("cache-control", "no-store")
    ∷ ("pragma", "no-cache")
    ∷ ("content-type", "application/json; charset=utf-8")
    ∷ []

abbrev pub oauth_error : ℕ → String → String → PolicyResult
oauth_error status error description =
    respond status oauth_headers
      (("error", text error) ∷ ("error_description", text description) ∷ [])

abbrev pub jwt_bearer : String
jwt_bearer = "urn:ietf:params:oauth:grant-type:jwt-bearer"

abbrev pub developer_token_grant_type : String
developer_token_grant_type = "urn:api-gateway:params:oauth:grant-type:developer-token"

-- What authenticating a grant ends with: an answer, a credential, a developer's grant, or, for a
-- grant type that is none of the three, nothing.
pub data Grant : Type 0 where
  refused : PolicyResult → Grant
  client : CredentialRecord → Grant
  developer : DeveloperGrant → Grant
  neither : Grant

abbrev pub invalid_client : PolicyResult
invalid_client = oauth_error 401 "invalid_client" "Client authentication failed"

abbrev pub invalid_scope : PolicyResult
invalid_scope = oauth_error 400 "invalid_scope" "One or more requested scopes are not allowed"

abbrev pub unavailable : PolicyResult
unavailable = oauth_error 503 "server_error" "Authorization service is temporarily unavailable"

abbrev pub is_form : Option HeaderValue → Bool
is_form (some (single v)) = starts_with (to_lower v) "application/x-www-form-urlencoded"
is_form _ = false

-- `config.allowedScopes.length === 0 || config.allowedScopes.includes(scope)`
abbrev pub is_allowed : OauthTokenPolicyConfig → String → Bool
is_allowed config scope = is_empty config.allowed_scopes || includes config.allowed_scopes scope

abbrev pub requested_scopes : List (String × String) → List String
requested_scopes form =
    unique_values (words (elim (lookup "scope" form) [ none ↦ "" | some s ↦ s ]))

unfoldable pub available_scopes : OauthTokenPolicyConfig → List AuthorizedProduct → List String
available_scopes config products =
    filter (is_allowed config) (unique_values (flat_map (λ p. p.scopes) products))

abbrev pub workspace_claim : Option String → Payload
workspace_claim none = []
workspace_claim (some id) = ("workspace_id", str id) ∷ []

-- The claims of the two tokens, at the time in seconds, with the random identifier.
unfoldable pub developer_payload :
    OauthTokenPolicyConfig → ProxyConfig → DeveloperGrant → List String → ℕ → String → Payload
developer_payload config proxy grant scopes now jti =
    ("token_kind", str "developer")
    ∷ ("client_id", str grant.subject)
    ∷ ("credential_id", str grant.grant_id)
    ∷ ("organization_id", str grant.organization_id)
    ∷ ("environment_id", str grant.environment_id)
    ∷ ("product_ids", texts grant.product_ids)
    ∷ ("proxy_ids", texts grant.proxy_ids)
    ∷ ("scope", str (join " " scopes))
    ∷ ("iss", str proxy.environment.public_origin)
    ∷ ("sub", str grant.subject)
    ∷ ("aud", str config.audience)
    ∷ ("iat", num now)
    ∷ ("nbf", num now)
    ∷ ("exp", num (now + grant.ttl_seconds))
    ∷ ("jti", str jti)
    ∷ []

unfoldable pub application_payload :
    OauthTokenPolicyConfig
    → ProxyConfig
    → CredentialRecord
    → List AuthorizedProduct
    → List String
    → ℕ
    → String
    → Payload
application_payload config proxy credential products scopes now jti =
    ("token_kind", str "application")
    ∷ ("client_id", str credential.consumer_key)
    ∷ ("credential_id", str credential.id)
    ∷ ("organization_id", str credential.app.organization_id)
    ∷ ("environment_id", str proxy.environment.id)
    ∷ ("product_ids", texts (map (λ p. p.id) products))
    ∷ ("proxy_ids", texts (unique_values (flat_map (λ p. p.proxy_ids) products)))
    ∷ ("scope", str (join " " scopes))
    ∷ ("iss", str (origin_of proxy))
    ∷ ("sub", str credential.app_id)
    ∷ ("aud", str config.audience)
    ∷ ("iat", num now)
    ∷ ("nbf", num now)
    ∷ ("exp", num (now + config.access_token_ttl_seconds))
    ∷ ("jti", str jti)
    ∷ workspace_claim (present proxy.workspace_id)

abbrev pub granted_scopes : List String → List String → List String
granted_scopes requested available = if is_empty requested then available else requested

module _ {W : Type 0} (key : GatewayKey) (runtime : Option OauthRuntime)
    (dependencies : OauthTokenPolicyDependencies W) where
  open dependencies use {find_credential, verify_secret, now, parse_form, random_uuid}

  abbrev pub token_audience : ProxyConfig → String
  token_audience proxy = append (origin_of proxy) "/oauth/token"

  abbrev pub verdict : CredentialRecord → Bool → Grant
  verdict credential ok = if ok then client credential else refused invalid_client

  -- The tests of the `client_credentials` branch: the secret is verified last.
  unfoldable pub check_client : ProxyConfig → String → Option CredentialRecord → Io W Grant
  check_client proxy secret none w = (value (refused invalid_client), w)
  check_client proxy secret (some credential) w =
      if credential.consumer_secret_hash == ""
        || not (is_credential_valid credential (now w))
        || not (credential_matches_workspace credential proxy.workspace_id (now w))
      then (value (refused invalid_client), w)
      else next (call (verify_secret secret credential.consumer_secret_hash) w)
          (λ ok. pure (verdict credential ok))

  unfoldable pub client_grant : ProxyConfig → Option (String × String) → Io W Grant
  unfolding check_client
  client_grant proxy none w = (value (refused invalid_client), w)
  client_grant proxy (some (id, secret)) w =
      next (call (find_credential id) w) (check_client proxy secret)

  abbrev pub assertion_verdict : Option CredentialRecord → Grant
  assertion_verdict none = refused (oauth_error 400 "invalid_grant" "JWT assertion is invalid")
  assertion_verdict (some credential) = client credential

  unfoldable pub assertion_grant : ProxyConfig → Option String → Io W Grant
  assertion_grant proxy assertion w = elim (present assertion) [
    | none ↦ (value (refused (oauth_error 400 "invalid_request" "assertion is required")), w)
    | some a ↦
        next (authenticate_jwt_assertion dependencies a (token_audience proxy) w)
          (λ credential. pure (assertion_verdict credential))
  ]

  abbrev pub developer_verdict : Option DeveloperGrant → Grant
  developer_verdict none =
      refused (oauth_error 400 "invalid_grant" "Developer authorization is invalid")
  developer_verdict (some grant) = developer grant

  unfoldable pub developer_grant : ProxyConfig → Option String → Io W Grant
  developer_grant proxy assertion w = elim (present assertion) [
    | none ↦
        (value (refused (oauth_error 400 "invalid_request" "developer_assertion is required")), w)
    | some a ↦ elim (present proxy.workspace_id) [
      | some _ ↦ (
        value (
            refused (
              oauth_error 400 "invalid_grant"
                "Developer tokens are unavailable in lab workspaces")),
        w,
      )
      | none ↦
          next
            (authenticate_developer_grant dependencies runtime a (token_audience proxy)
              proxy.environment.id w)
            (λ grant. pure (developer_verdict grant))
    ]
  ]

  -- The branches on the grant type, inside the `try`.
  unfoldable pub authenticate : PolicyContext → List (String × String) → String → Io W Grant
  unfolding client_grant assertion_grant developer_grant
  authenticate ctx form grant_type w =
      if grant_type == "client_credentials"
      then client_grant ctx.proxy
          (parse_basic_authorization dependencies
            (first_value (lookup "authorization" ctx.req.headers)))
          w
      else if grant_type == jwt_bearer
      then assertion_grant ctx.proxy (lookup "assertion" form) w
      else if grant_type == developer_token_grant_type
      then developer_grant ctx.proxy (lookup "developer_assertion" form) w
      else (value neither, w)

  -- Signing, and the answer with the token; reading the runtime throws where there is none.
  unfoldable pub issue : (String → Payload) → ℕ → List String → Run W → Try PolicyResult × Run W
  issue payload_of ttl scopes (ctx, w) = elim runtime [
    | none ↦ (threw, (ctx, w))
    | some rt ↦
        let (jti, w') = random_uuid w in
        (
          returned (
              respond 200 oauth_headers (
                ("access_token", text (key.sign rt.signing_key_id (payload_of jti)))
                ∷ ("token_type", text "Bearer")
                ∷ ("expires_in", number ttl)
                ∷ ("scope", text (join " " scopes))
                ∷ [])),
          (ctx, w'),
        )
  ]

  unfoldable pub issue_developer :
      OauthTokenPolicyConfig → DeveloperGrant → Run W → Try PolicyResult × Run W
  unfolding issue
  issue_developer config grant (ctx, w) =
      if is_empty grant.scopes || any (λ scope. not (is_allowed config scope)) grant.scopes
      then (returned invalid_scope, (ctx, w))
      else issue (developer_payload config ctx.proxy grant grant.scopes (now w / 1000))
          grant.ttl_seconds grant.scopes (ctx, w)

  unfoldable pub issue_application :
      OauthTokenPolicyConfig
      → List (String × String)
      → CredentialRecord
      → Run W
      → Try PolicyResult × Run W
  unfolding issue
  issue_application config form credential (ctx, w) =
      let products = authorized_products credential ctx.proxy.environment.id none in
      let available = available_scopes config products in
      let scopes = granted_scopes (requested_scopes form) available in
      if not (credential_matches_workspace credential ctx.proxy.workspace_id (now w))
      then (returned invalid_client, (ctx, w))
      else if is_empty products
      then (
        returned (
            oauth_error 403 "invalid_scope"
              "The client has no approved products in this environment"),
        (ctx, w),
      )
      else if any (λ scope. not (includes available scope)) scopes
      then (returned invalid_scope, (ctx, w))
      else issue (application_payload config ctx.proxy credential products scopes (now w / 1000))
          config.access_token_ttl_seconds scopes (ctx, w)

  -- What follows the `try`, with its `catch`.
  unfoldable pub conclude :
      OauthTokenPolicyConfig
      → List (String × String)
      → PolicyContext
      → Caught Grant × W
      → Try PolicyResult × Run W
  unfolding issue_developer issue_application
  conclude config form ctx (value (refused answer), w) = (returned answer, (ctx, w))
  conclude config form ctx (value (client credential), w) =
      issue_application config form credential (ctx, w)
  conclude config form ctx (value (developer grant), w) = issue_developer config grant (ctx, w)
  conclude config form ctx (value neither, w) = (returned invalid_client, (ctx, w))
  conclude config form ctx (replayed, w) = (
    returned (oauth_error 400 "invalid_grant" "JWT assertion is invalid or has already been used"),
    (ctx, w),
  )
  conclude config form ctx (failed, w) = (returned unavailable, (ctx, w))

  unfoldable pub oauth_token_policy : OauthTokenPolicyConfig → Policy W
  unfolding authenticate conclude
  oauth_token_policy config (ctx, w) = elim ctx.endpoint.mode [
    | forward ↦ (
      returned (oauth_error 500 "server_error" "Token policy requires a local endpoint"),
      (ctx, w),
    )
    | local ↦
        let form = parse_form ctx.req.body in
        if not (is_form (lookup "content-type" ctx.req.headers))
        then (
          returned (
              oauth_error 415 "invalid_request"
                "Content-Type must be application/x-www-form-urlencoded"),
          (ctx, w),
        )
        else elim (present (lookup "grant_type" form)) [
          | none ↦ (returned unsupported, (ctx, w))
          | some grant_type ↦
              if includes config.grant_types grant_type
              then conclude config form ctx (authenticate ctx form grant_type w)
              else (returned unsupported, (ctx, w))
        ]
  ]
    where
      unsupported : PolicyResult
      unsupported =
          oauth_error 400 "unsupported_grant_type" "The requested grant type is not supported"
