-- ===== src/Examples/Managing.antt =====
-- Sample tables, and the theorems on applications and lab workspaces at them.
use api_gateway_platform.Common.{String, ◌≡◌, refl, true, none, some, List, [], ◌∷◌}
use api_gateway_platform.Common.Results.{Result, ok, err}
use api_gateway_platform.Common.Chains.{◌>>=◌, ◌>>◌, guard, require}
use api_gateway_platform.Auth.Authorization.{Product}
use api_gateway_platform.Database.Tables.{
  approved, revoked, standard, DeveloperApp, AppCredential, CredentialProductGrant, LabWorkspace,
  active_workspace, Tables,
}
use api_gateway_platform.Applications.Types.{
  Actor, invalid_status_transition, invalid_scope, UpdateManagedCredentialInput,
  ReplaceManagedCredentialGrantsInput, validate_status_transition,
}
use api_gateway_platform.Applications.Updates.{update_managed_credential}
use api_gateway_platform.Applications.Grants.{
  replace_managed_credential_grants, find_products, grant_products, check_product,
}
use api_gateway_platform.Labs.Resources.{
  LabPrincipal, deactivate_workspace_resources, disable_workspace_resources, record_lab_audit,
}
use api_gateway_platform.Labs.Workspaces.{
  lab_expired, current_workspace, get_personal_lab_workspace, reset_personal_lab_workspace,
  expire_personal_lab_workspace,
}

abbrev pub product : String → List String → Product
product id scopes = record {
  id = id;
  organization_id = "org";
  active = true;
  scopes = scopes;
  proxies = "users" ∷ [];
  environments = [];
}

abbrev pub app : DeveloperApp
app = record { id = "app"; name = "App"; status = approved; organization_id = "org" }

abbrev pub credential : String → AppCredential
credential id = record {
  id = id;
  app_id = "app";
  consumer_key = id;
  consumer_secret_hash = "hash";
  status = approved;
  purpose = standard;
  issued_at = 0;
  expires_at = some 9000000;
}

abbrev pub grant : String → CredentialProductGrant
grant product_id = record {
  credential_id = "c1";
  product_id = product_id;
  status = approved;
  scopes = "read" ∷ [];
}

abbrev pub workspace : LabWorkspace
workspace = record {
  id = "w";
  owner_issuer = "issuer";
  owner_subject = "ann";
  organization_id = "org";
  hostname = "w.lab.gateway.localhost";
  status = active_workspace;
  expires_at = 1000;
  created_at = 0;
}

abbrev pub tables : Tables
tables = record {
  organizations = [];
  workspaces = workspace ∷ [];
  upstreams = [];
  proxies = [];
  deployments = [];
  products = product "p1" ("read" ∷ "write" ∷ []) ∷ product "p2" ("read" ∷ []) ∷ [];
  apps = app ∷ [];
  credentials = credential "c1" ∷ record (credential "c2") { status = revoked } ∷ [];
  grants = grant "p1" ∷ [];
  keys = [];
  certificates = [];
  authorities = [];
  audit = [];
  log = record { changes = []; serial = 0 };
}

abbrev pub actor : Actor
actor = record { issuer = "issuer"; subject = "admin"; role = "admin" }

abbrev pub ann : LabPrincipal
ann = record { issuer = "issuer"; subject = "ann" }

-- What a call returns, where it does.
abbrev pub row_of : {E A : Type 0} → A → Result E (A × Tables) → A
row_of a (err e) = a
row_of a (ok (b, db)) = b

abbrev pub state_of : {E A : Type 0} → Result E (A × Tables) → Tables
state_of (err e) = tables
state_of (ok (b, db)) = db

-- Tests.
abbrev revives : UpdateManagedCredentialInput
revives = record {
  credential_id = "c2";
  consumer_key = none;
  expires_at = none;
  status = some approved;
  actor = actor;
}

update_managed_credential_revived :
    update_managed_credential revives tables ≡ err invalid_status_transition
unfolding update_managed_credential validate_status_transition ◌>>=◌ ◌>>◌ guard require
update_managed_credential_revived = refl

abbrev pub replacing : List String → ReplaceManagedCredentialGrantsInput
replacing scopes = record {
  credential_id = "c1";
  products = record { product_id = "p2"; scopes = some scopes } ∷ [];
  actor = actor;
}

replace_managed_credential_grants_scope :
    replace_managed_credential_grants (replacing ("write" ∷ [])) tables ≡ err invalid_scope
unfolding replace_managed_credential_grants find_products grant_products check_product ◌>>=◌ ◌>>◌
    guard require
replace_managed_credential_grants_scope = refl

-- An expired workspace is read, and expires; it is reset, and does not.
get_personal_lab_workspace_expired :
    current_workspace ann (get_personal_lab_workspace ann 2000 tables).1 ≡ none
unfolding get_personal_lab_workspace expire_personal_lab_workspace deactivate_workspace_resources
    disable_workspace_resources record_lab_audit
get_personal_lab_workspace_expired = refl

reset_personal_lab_workspace_expired :
    reset_personal_lab_workspace ann 2000 tables ≡ err lab_expired
unfolding reset_personal_lab_workspace ◌>>=◌ ◌>>◌ guard require
reset_personal_lab_workspace_expired = refl
