-- ===== src/Examples/Tokens.antt =====
-- The theorems on the token endpoint and access tokens at sample requests.
use api_gateway_platform.Common.{
  ℕ, suc, String, ◌≡◌, refl, ap, true, none, some, [], ◌∷◌, if◌then◌else◌, ◌==◌, arith,
}
use api_gateway_platform.Common.Ascii.{to_lower}
use api_gateway_platform.Common.Text.{words}
use api_gateway_platform.Shared.Policies.{
  OauthTokenPolicyConfig, OauthAccessTokenPolicyConfig, fail_closed,
}
use api_gateway_platform.Auth.Authorization.{
  is_credential_valid, credential_matches_workspace, authorized_products, unique_values,
}
use api_gateway_platform.Policies.Types.{
  PolicyContext, continue, respond, Body, ClientContext, returned, single, set_client,
}
use api_gateway_platform.Oauth.Jwt.{
  str, num, texts, Payload, OauthRuntime, GatewayKey, SignsAndVerifies,
}
use api_gateway_platform.Oauth.AccessToken.{
  oauth_access_token_policy, verify_token, check_claims, claims_refused, token_client,
}
use api_gateway_platform.Oauth.Access.{IsBearer, oauth_access_token_policy-IsBearer}
use api_gateway_platform.Oauth.Assertions.{
  PublicKeyRecord, OauthTokenPolicyDependencies, DeveloperGrant, authenticate_jwt_assertion,
  find_key, check_assertion, consume, is_key_usable, authenticate_developer_grant, check_grant,
  grant_refused, grant_of, parse_basic_authorization,
}
use api_gateway_platform.Oauth.Vouched.{IsVouched, authenticate_jwt_assertion-IsVouched}
use api_gateway_platform.Oauth.Bounded.{IsBounded, authenticate_developer_grant-IsBounded}
use api_gateway_platform.Oauth.Token.{
  available_scopes, application_payload, check_client, client_grant, authenticate, issue,
  issue_application, conclude, oauth_token_policy, oauth_headers,
}
use api_gateway_platform.Oauth.Issue.{token_body, verify_token-issue_application}
use api_gateway_platform.Oauth.Issued.{IsIssued, issue_application-IsIssued}
use api_gateway_platform.Oauth.Clients.{
  IsAuthenticated, IsGranted, client_grant-IsAuthenticated, oauth_token_policy-IsGranted,
}
use api_gateway_platform.Examples.Data.{context, credential, users, token}

-- The world counts the calls of the stores; the clock stands at a thousand seconds.
abbrev clock : ℕ → ℕ
clock _ = 1000000

abbrev config : OauthTokenPolicyConfig
config = record {
  failure_mode = fail_closed;
  grant_types = "client_credentials" ∷ [];
  access_token_ttl_seconds = 300;
  audience = "api";
  allowed_scopes = [];
}

abbrev access : OauthAccessTokenPolicyConfig
access = record { failure_mode = fail_closed; audience = "api"; required_scopes = "read" ∷ [] }

abbrev assertion_claims : Payload
assertion_claims =
    ("iss", str "key")
    ∷ ("sub", str "key")
    ∷ ("iat", num 990)
    ∷ ("exp", num 1050)
    ∷ ("jti", str "j1")
    ∷ []

abbrev grant_claims : Payload
grant_claims =
    ("sub", str "dev")
    ∷ ("jti", str "g1")
    ∷ ("iat", num 1000)
    ∷ ("exp", num 1020)
    ∷ ("environment_id", str "env")
    ∷ ("organization_id", str "org")
    ∷ ("developer_subject", str "dev")
    ∷ ("product_ids", texts ("p1" ∷ []))
    ∷ ("proxy_ids", texts ("users" ∷ []))
    ∷ ("scope", str "read")
    ∷ ("ttl_seconds", num 600)
    ∷ []

abbrev public_key : PublicKeyRecord
public_key = record {
  status = "approved";
  algorithm = "RS256";
  jwk = "jwk";
  valid_from = 0;
  expires_at = none;
}

abbrev pub dependencies : OauthTokenPolicyDependencies ℕ
dependencies = record {
  find_credential = λ id w. (returned (if id == "key" then some credential else none), suc w);
  verify_secret = λ secret hash w. (returned (secret == "secret"), suc w);
  find_public_key = λ id kid w. (returned (some public_key), suc w);
  consume_assertion = λ id jti ttl w. (returned true, suc w);
  now = clock;
  decode_header = λ assertion. some (record { alg = str "RS256"; kid = str "k1" });
  decode_jwt = λ assertion. some assertion_claims;
  import_jwk = λ jwk w. (returned jwk, suc w);
  verify_jwt = λ assertion key audience issuer time. some assertion_claims;
  verify_hs256 = λ assertion secret audience time. some grant_claims;
  decode_base64 = λ s. "key:secret";
  decode_uri_component = λ s. some s;
  parse_form = λ s. ("grant_type", "client_credentials") ∷ [];
  random_uuid = λ w. ("u1", suc w);
}

abbrev runtime : OauthRuntime
runtime = record { signing_key_id = "gateway"; developer_token_issuance_key = some "shared" }

abbrev claims : Payload
claims =
    ("token_kind", str "application")
    ∷ ("client_id", str "key")
    ∷ ("credential_id", str "c1")
    ∷ ("organization_id", str "org")
    ∷ ("environment_id", str "env")
    ∷ ("product_ids", texts ("p1" ∷ []))
    ∷ ("proxy_ids", texts ("users" ∷ []))
    ∷ ("scope", str "read")
    ∷ ("iss", str "https://api.test")
    ∷ ("sub", str "a1")
    ∷ ("aud", str "api")
    ∷ ("iat", num 1000)
    ∷ ("nbf", num 1000)
    ∷ ("exp", num 1300)
    ∷ ("jti", str "u1")
    ∷ []

-- A key that signs everything with one text, and knows the claims that it stands for.
abbrev gateway_key : GatewayKey
gateway_key = record {
  sign = λ kid payload. "signed";
  verify = λ t options time. if t == "signed" then some ("gateway", claims) else none;
}

gateway_key-SignsAndVerifies :
    (rt : OauthRuntime)
    → some runtime ≡ some rt
    → SignsAndVerifies gateway_key rt.signing_key_id claims
gateway_key-SignsAndVerifies rt e =
    let same : runtime ≡ rt = cc in
    record {
      verify-sign =
          λ options time nbf exp a b c d f g h. ap (λ r. some (r.signing_key_id, claims)) same;
    }

abbrev bearer : PolicyContext
bearer = context (("authorization", single "Bearer signed") ∷ [])

oauth_access_token_policy-IsBearer_example :
    IsBearer gateway_key
      (some runtime)
      clock
      access
      bearer
      0
      (set_client (token_client users claims) (bearer, 0))
unfolding oauth_access_token_policy verify_token check_claims claims_refused token_client words
oauth_access_token_policy-IsBearer_example =
    oauth_access_token_policy-IsBearer gateway_key (some runtime) clock access bearer 0 _ refl

authenticate_jwt_assertion-IsVouched_example :
    IsVouched dependencies "assertion" "https://api.test/oauth/token" credential 0 4
unfolding authenticate_jwt_assertion find_key check_assertion consume is_key_usable
    is_credential_valid
authenticate_jwt_assertion-IsVouched_example =
    authenticate_jwt_assertion-IsVouched dependencies "assertion" "https://api.test/oauth/token"
      credential 0 4 refl

abbrev granted : DeveloperGrant
granted = record {
  grant_id = "g1";
  subject = "dev";
  organization_id = "org";
  environment_id = "env";
  product_ids = "p1" ∷ [];
  proxy_ids = "users" ∷ [];
  scopes = "read" ∷ [];
  ttl_seconds = 600;
}

authenticate_developer_grant-IsBounded_example :
    (rt : OauthRuntime) × (some runtime ≡ some rt)
    × (secret : String) × (rt.developer_token_issuance_key ≡ some secret)
    × (payload : Payload) × (some grant_claims ≡ some payload)
    × IsBounded dependencies "env" payload granted 0 1
unfolding authenticate_developer_grant check_grant grant_refused grant_of words
authenticate_developer_grant-IsBounded_example =
    authenticate_developer_grant-IsBounded dependencies (some runtime) "assertion" "aud" "env"
      granted 0 1 refl

abbrev issued : Body
issued = token_body "signed" 300 ("read" ∷ [])

-- The endpoint allows `read` and `write`, the product `read` alone.
abbrev read_write : OauthTokenPolicyConfig
read_write = record config { allowed_scopes = "write" ∷ "read" ∷ [] }

issue_application-IsIssued_example :
    IsIssued gateway_key
      (some runtime)
      dependencies
      read_write
      (("scope", "read") ∷ [])
      credential
      bearer
      0
      issued
unfolding issue_application issue credential_matches_workspace authorized_products available_scopes
    unique_values words
issue_application-IsIssued_example =
    issue_application-IsIssued gateway_key (some runtime) dependencies read_write
      (("scope", "read") ∷ []) credential bearer 0 oauth_headers issued (bearer, 1) refl

verify_token-issue_application_example :
    (client : ClientContext) × (verify_token gateway_key
        (some runtime)
        clock
        access
        "signed"
        (bearer, 7)
      ≡ (continue, set_client client (bearer, 7)))
unfolding issue_application issue application_payload credential_matches_workspace
    authorized_products available_scopes unique_values words
verify_token-issue_application_example =
    verify_token-issue_application gateway_key (some runtime) dependencies config [] credential
      bearer 0 oauth_headers issued (bearer, 1) "signed" "read" access bearer 7
      gateway_key-SignsAndVerifies refl refl refl refl refl refl refl refl refl (omega arith)
      (omega arith)

client_grant-IsAuthenticated_example :
    IsAuthenticated gateway_key (some runtime) dependencies users "key" "secret" credential 0 2
unfolding client_grant check_client is_credential_valid credential_matches_workspace
client_grant-IsAuthenticated_example =
    client_grant-IsAuthenticated gateway_key (some runtime) dependencies users "key" "secret"
      credential 0 2 refl

abbrev token_request : PolicyContext
token_request =
    record (context (
      ("authorization", single "Basic a2V5OnNlY3JldA==")
      ∷ ("content-type", single "application/x-www-form-urlencoded")
      ∷ [])) { endpoint = token }

oauth_token_policy-IsGranted_example :
    IsGranted gateway_key
      (some runtime)
      dependencies
      config
      token_request
      0
      (returned (respond 200 oauth_headers issued), (token_request, 3))
unfolding oauth_token_policy authenticate parse_basic_authorization conclude client_grant
    check_client is_credential_valid issue_application issue credential_matches_workspace
    authorized_products available_scopes unique_values words to_lower
oauth_token_policy-IsGranted_example =
    oauth_token_policy-IsGranted gateway_key (some runtime) dependencies config token_request 0
      oauth_headers issued (token_request, 3) refl
