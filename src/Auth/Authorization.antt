-- ===== src/Auth/Authorization.antt =====
-- packages/gateway-core/src/auth/authorization.ts: credentials, workspaces and product grants. A
-- date is its number of milliseconds; a list of `{ id }` objects is the list of the identifiers.
use api_gateway_platform.Common.{
  ℕ, String, Bool, true, false, not, ◌&&◌, ◌||◌, Option, none, some, List, map, filter, includes,
  is_empty, leb, ltb, ◌==◌, to_unique,
}
use api_gateway_platform.Resolver.Registry.{present}

pub record AuthorizedProduct : Type 0 where
  pub id : String
  pub scopes : List String
  pub proxy_ids : List String

pub record LabWorkspace : Type 0 where
  pub id : String
  pub status : String
  pub expires_at : ℕ

pub record Organization : Type 0 where
  pub kind : String
  pub lab_workspace : Option LabWorkspace

pub record App : Type 0 where
  pub status : String
  pub organization_id : String
  pub organization : Option Organization

pub record Product : Type 0 where
  pub id : String
  pub organization_id : String
  pub active : Bool
  pub scopes : List String
  pub proxies : List String
  pub environments : List String

pub record ProductGrant : Type 0 where
  pub status : String
  pub scopes : List String
  pub product : Product

pub record CredentialRecord : Type 0 where
  pub id : String
  pub app_id : String
  pub consumer_key : String
  pub consumer_secret_hash : String
  pub status : String
  pub issued_at : ℕ
  pub expires_at : Option ℕ
  pub app : App
  pub product_grants : List ProductGrant

abbrev pub is_lab : Option Organization → Bool
is_lab none = false
is_lab (some o) = o.kind == "lab"

abbrev pub workspace_of : Option Organization → Option LabWorkspace
workspace_of none = none
workspace_of (some o) = o.lab_workspace

abbrev pub workspace_is : Option LabWorkspace → String → ℕ → Bool
workspace_is none id now = false
workspace_is (some w) id now = w.id == id && w.status == "active" && ltb now w.expires_at

abbrev pub no_workspace : Option LabWorkspace → Bool
no_workspace none = true
no_workspace (some w) = false

unfoldable pub credential_matches_workspace : CredentialRecord → Option String → ℕ → Bool
credential_matches_workspace credential workspace_id now = elim (present workspace_id) [
  | none ↦
      not (is_lab credential.app.organization)
      && no_workspace (workspace_of credential.app.organization)
  | some id ↦
      is_lab credential.app.organization
      && workspace_is (workspace_of credential.app.organization) id now
]

abbrev pub is_after : Option ℕ → ℕ → Bool
is_after none now = true
is_after (some expires_at) now = ltb now expires_at

unfoldable pub is_credential_valid : CredentialRecord → ℕ → Bool
is_credential_valid credential now =
    credential.status == "approved"
    && credential.app.status == "approved"
    && leb credential.issued_at now
    && is_after credential.expires_at now

-- The four tests of `authorizedProducts`.
abbrev pub is_granted : ProductGrant → Bool
is_granted g = g.status == "approved" && g.product.active

abbrev pub is_own : CredentialRecord → ProductGrant → Bool
is_own credential g = g.product.organization_id == credential.app.organization_id

abbrev pub covers_environment : String → ProductGrant → Bool
covers_environment environment_id g =
    is_empty g.product.environments || includes g.product.environments environment_id

abbrev pub covers_proxy : Option String → ProductGrant → Bool
covers_proxy proxy_id g = elim (present proxy_id) [
  | none ↦ true
  | some id ↦ includes g.product.proxies id
]

abbrev pub to_authorized : ProductGrant → AuthorizedProduct
to_authorized g = record {
  id = g.product.id;
  scopes = filter (λ scope. includes g.product.scopes scope) g.scopes;
  proxy_ids = g.product.proxies;
}

unfoldable pub authorized_products :
    CredentialRecord → String → Option String → List AuthorizedProduct
authorized_products credential environment_id proxy_id = map to_authorized (
    filter (covers_proxy proxy_id) (
      filter (covers_environment environment_id)
        (filter (is_own credential) (filter is_granted credential.product_grants))))

unfoldable pub unique_values : List String → List String
unique_values values = to_unique values
