-- ===== src/Management/Tokens.antt =====
-- packages/management-api/src/services/developer-tokens.ts: `DeveloperTokenService.issue`. The catalog, the
-- gateway's answer, the token library, the hash of the subject, the clock and URLs are parameters.
use api_gateway_platform.Common.{
  ℕ, ◌+◌, ◌/◌, String, Bool, not, ◌&&◌, ◌||◌, Option, none, some, List, [], ◌∷◌, map, filter, any,
  includes, is_empty, length, eqb, flat_map, if◌then◌else◌, ◌==◌,
}
use api_gateway_platform.Common.Text.{join}
use api_gateway_platform.Common.Results.{Result, ok, err}
use api_gateway_platform.Common.Chains.{◌>>=◌, ◌>>◌, guard, require}
use api_gateway_platform.Oauth.Jwt.{str, num, texts, Payload}
use api_gateway_platform.Management.Principals.{AdminPrincipal, can_manage_organization}

pub data ManagementError : Type 0 where
  forbidden organization_not_found environment_not_found : ManagementError
  developer_token_environment_forbidden developer_token_product_invalid : ManagementError
  developer_token_proxy_invalid invalid_scope other_error : ManagementError

-- What `developerTokenRequestSchema` makes.
pub record DeveloperTokenRequest : Type 0 where
  pub environment_id : String
  pub product_ids : List String
  pub proxy_ids : List String
  pub scopes : List String
  pub ttl_seconds : ℕ

pub record SelectedEnvironment : Type 0 where
  pub id : String
  pub stage : String
  pub public_origin : String

pub record SelectedProduct : Type 0 where
  pub id : String
  pub scopes : List String
  pub proxy_ids : List String
  pub environment_ids : List String

pub record ActiveProxy : Type 0 where
  pub id : String
  pub system_managed : Bool

pub record DeveloperTokenSelection : Type 0 where
  pub organization_kind : String
  pub environment : Option SelectedEnvironment
  pub products : List SelectedProduct
  pub active_proxies : List ActiveProxy

pub record DeveloperTokenResponse : Type 0 where
  pub access_token : String
  pub expires_in : ℕ
  pub authorized_proxies : List String
  pub scopes : List String

abbrev pub Io : Type 0 → Type 0 → Type 0
Io W A = W → Result ManagementError A × W

-- An exception of any other kind is `other_error`; `none` of `token_endpoint` is that of URL parsing.
pub record DeveloperTokenDependencies (W : Type 0) : Type 0 where
  pub load_selection : String → DeveloperTokenRequest → Io W DeveloperTokenSelection
  pub issue : String → String → Io W (String × ℕ)
  pub record_issue : String → AdminPrincipal → DeveloperTokenRequest → String → Io W (Unit {0})
  pub sign : String → Payload → String
  pub developer_subject : AdminPrincipal → String
  pub token_endpoint : String → Option String
  pub now : W → ℕ
  pub random_uuid : W → String

-- The checks of the selection.
unfoldable pub check_selection :
    DeveloperTokenRequest → DeveloperTokenSelection → Result ManagementError SelectedEnvironment
check_selection input selection = do
  guard (selection.organization_kind == "standard") organization_not_found
  environment ← require selection.environment environment_not_found
  guard (environment.stage == "qual") developer_token_environment_forbidden
  guard (eqb (length selection.products) (length input.product_ids)) developer_token_product_invalid
  guard
      (not (
        any
          (λ p.
            not (is_empty p.environment_ids)
            && not (includes p.environment_ids input.environment_id))
          selection.products))
      developer_token_product_invalid
  let product_proxy_ids = flat_map (λ p. p.proxy_ids) selection.products
  let active_proxy_ids =
      map (λ p. p.id) (filter (λ p. not p.system_managed) selection.active_proxies)
  guard
      (not (
        any (λ id. not (includes product_proxy_ids id) || not (includes active_proxy_ids id))
          input.proxy_ids))
      developer_token_proxy_invalid
  let allowed_scopes = flat_map (λ p. p.scopes) selection.products
  guard (not (any (λ scope. not (includes allowed_scopes scope)) input.scopes)) invalid_scope
  ok environment

-- The claims that are signed; `now` is in seconds.
unfoldable pub assertion_claims :
    String → DeveloperTokenRequest → String → String → ℕ → String → Payload
assertion_claims organization_id input subject token_endpoint now grant_id =
    ("organization_id", str organization_id)
    ∷ ("environment_id", str input.environment_id)
    ∷ ("product_ids", texts input.product_ids)
    ∷ ("proxy_ids", texts input.proxy_ids)
    ∷ ("scope", str (join " " input.scopes))
    ∷ ("ttl_seconds", num input.ttl_seconds)
    ∷ ("developer_subject", str subject)
    ∷ ("iss", str "management-api")
    ∷ ("sub", str subject)
    ∷ ("aud", str token_endpoint)
    ∷ ("iat", num now)
    ∷ ("nbf", num now)
    ∷ ("exp", num (now + 30))
    ∷ ("jti", str grant_id)
    ∷ []

module _ {W : Type 0} (dependencies : DeveloperTokenDependencies W) (shared_secret : String) where
  open dependencies use {
    load_selection, issue, record_issue, sign, developer_subject, token_endpoint, now, random_uuid,
  }

  abbrev response :
      DeveloperTokenRequest
      → String × ℕ
      → Result ManagementError (Unit {0}) × W
      → Result ManagementError DeveloperTokenResponse × W
  response input issued (err e, w) = (err e, w)
  response input (token, expires_in) (ok _, w) = (
    ok (record {
      access_token = token;
      expires_in = expires_in;
      authorized_proxies = input.proxy_ids;
      scopes = input.scopes;
    }),
    w,
  )

  abbrev recorded :
      String
      → AdminPrincipal
      → DeveloperTokenRequest
      → String
      → Result ManagementError (String × ℕ) × W
      → Result ManagementError DeveloperTokenResponse × W
  recorded organization_id actor input grant_id (err e, w) = (err e, w)
  recorded organization_id actor input grant_id (ok issued, w) =
      response input issued (record_issue organization_id actor input grant_id w)

  -- From the checks on.
  unfoldable pub issue_selected :
      String
      → DeveloperTokenRequest
      → AdminPrincipal
      → Result ManagementError DeveloperTokenSelection × W
      → Result ManagementError DeveloperTokenResponse × W
  unfolding check_selection assertion_claims
  issue_selected organization_id input actor (err e, w) = (err e, w)
  issue_selected organization_id input actor (ok selection, w) =
      elim (check_selection input selection) [
        | err e ↦ (err e, w)
        | ok environment ↦ elim (token_endpoint environment.public_origin) [
          | none ↦ (err other_error, w)
          | some endpoint ↦
              let grant_id = random_uuid w in
              let claims =
                assertion_claims organization_id input (developer_subject actor) endpoint
                  (now w / 1000) grant_id in
              recorded organization_id actor input grant_id
                (issue (sign shared_secret claims) endpoint w)
        ]
      ]

  unfoldable pub issue_developer_token :
      String → DeveloperTokenRequest → AdminPrincipal → Io W DeveloperTokenResponse
  unfolding issue_selected can_manage_organization
  issue_developer_token organization_id input actor w =
      if can_manage_organization actor organization_id
      then issue_selected organization_id input actor (load_selection organization_id input w)
      else (err forbidden, w)
