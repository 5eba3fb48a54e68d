-- ===== src/Applications/Grants.antt =====
-- packages/database/src/application-management.ts: the products that a credential is granted,
-- `createManagedCredential` and `replaceManagedCredentialGrants`.
use api_gateway_platform.Common.{
  ℕ, String, Bool, not, ◌&&◌, List, [], ◌∷◌, ◌++◌, map, filter, find, any, includes, is_empty,
  length, eqb, if◌then◌else◌, ◌==◌, to_unique,
}
use api_gateway_platform.Common.Results.{Result, ok, err}
use api_gateway_platform.Common.Chains.{◌>>=◌, ◌>>◌, guard, require}
use api_gateway_platform.Auth.Authorization.{Product}
use api_gateway_platform.Database.Tables.{
  approved, revoked, is_revoked, standard, AppCredential, CredentialProductGrant, Tables, find_key,
  app_key, credential_key,
}
use api_gateway_platform.Applications.Types.{
  ApplicationError, Generated, ProductRequest, CreateManagedCredentialInput,
  ReplaceManagedCredentialGrantsInput, product_not_found, app_not_found, credential_not_found,
  product_not_active, organization_mismatch, invalid_scope, invalid_status_transition,
  other_exception, set, are_unique, product_ids, record_audit,
}
use api_gateway_platform.Applications.Updates.{app_of, is_closed}

abbrev pub has_product : String → Product → Bool
has_product id p = p.id == id

abbrev pub requested_scopes : ProductRequest → Product → List String
requested_scopes requested product = to_unique (set requested.scopes product.scopes)

-- The checks of a requested product, and the grant.
unfoldable pub check_product :
    List Product → String → String → ProductRequest → Result ApplicationError CredentialProductGrant
check_product products organization_id credential_id requested = do
  product ← require (find (has_product requested.product_id) products) other_exception
  guard product.active product_not_active
  guard (product.organization_id == organization_id) organization_mismatch
  let scopes = requested_scopes requested product
  guard (is_empty (filter (λ scope. not (includes product.scopes scope)) scopes)) invalid_scope
  ok (record {
    credential_id = credential_id;
    product_id = product.id;
    status = approved;
    scopes = scopes;
  })

unfoldable pub find_products : List String → List Product → Result ApplicationError (List Product)
find_products ids all_products =
    let products = filter (λ p. includes ids p.id) all_products in
    if eqb (length products) (length ids) then ok products else err product_not_found

unfoldable pub check_products :
    List Product
    → String
    → String
    → List ProductRequest
    → Result ApplicationError (List CredentialProductGrant)
unfolding check_product
check_products products organization_id credential_id [] = ok []
check_products products organization_id credential_id (requested ∷ more) = do
  grant ← check_product products organization_id credential_id requested
  grants ← check_products products organization_id credential_id more
  ok (grant ∷ grants)

unfoldable pub create_managed_credential :
    Generated
    → ℕ
    → CreateManagedCredentialInput
    → Tables
    → Result ApplicationError ((AppCredential × String) × Tables)
unfolding check_products find_products
create_managed_credential generated now input db = do
  let ids = product_ids input.products
  guard (not (is_empty ids) && are_unique ids) product_not_found
  app ← require (find_key app_key input.app_id db.apps) app_not_found
  guard (not (is_revoked app.status)) invalid_status_transition
  products ← find_products ids db.products
  grants ← check_products products app.organization_id generated.id input.products
  guard (not (any (λ c. c.consumer_key == generated.consumer_key) db.credentials)) other_exception
  let credential : AppCredential = record {
    id = generated.id;
    app_id = input.app_id;
    consumer_key = generated.consumer_key;
    consumer_secret_hash = generated.consumer_secret_hash;
    status = approved;
    purpose = set input.purpose standard;
    issued_at = now;
    expires_at = input.expires_at;
  }
  ok (
    (credential, generated.consumer_secret),
    record_audit input.actor app.organization_id "credential.create" "AppCredential" generated.id
        (record db {
          credentials = db.credentials ++ credential ∷ [];
          grants = db.grants ++ grants;
        }),
  )

abbrev pub is_grant : String → String → CredentialProductGrant → Bool
is_grant credential_id product_id g = g.credential_id == credential_id && g.product_id == product_id

-- `upsert` on the key of a credential and a product
abbrev pub upsert_grant :
    CredentialProductGrant → List CredentialProductGrant → List CredentialProductGrant
upsert_grant grant [] = grant ∷ []
upsert_grant grant (g ∷ gs) =
    let rest = upsert_grant grant gs in
    if is_grant grant.credential_id grant.product_id g
    then record g { status = approved; scopes = grant.scopes } ∷ gs
    else g ∷ rest

-- The loop over the requested products.
unfoldable pub grant_products :
    List Product
    → String
    → String
    → List ProductRequest
    → List CredentialProductGrant
    → Result ApplicationError (List CredentialProductGrant)
unfolding check_product
grant_products products organization_id credential_id [] grants = ok grants
grant_products products organization_id credential_id (requested ∷ more) grants = do
  grant ← check_product products organization_id credential_id requested
  grant_products products organization_id credential_id more (upsert_grant grant grants)

-- The grants of a credential that are taken away: not revoked before, and not requested.
abbrev pub removed_ids : String → List String → List CredentialProductGrant → List String
removed_ids credential_id ids grants =
    map (λ g. g.product_id)
      (filter
        (λ g.
          g.credential_id == credential_id
          && (not (includes ids g.product_id) && not (is_revoked g.status)))
        grants)

abbrev pub revoke_grants :
    String → List String → List CredentialProductGrant → List CredentialProductGrant
revoke_grants credential_id ids grants =
    map
      (λ g.
        if g.credential_id == credential_id && includes ids g.product_id
        then record g { status = revoked }
        else g)
      grants

-- The credential's grants are returned.
unfoldable pub replace_managed_credential_grants :
    ReplaceManagedCredentialGrantsInput
    → Tables
    → Result ApplicationError (List CredentialProductGrant × Tables)
unfolding grant_products find_products
replace_managed_credential_grants input db = do
  let ids = product_ids input.products
  guard (are_unique ids) product_not_found
  credential ←
      require (find_key credential_key input.credential_id db.credentials) credential_not_found
  app ← app_of credential.app_id db
  guard (not (is_closed credential app)) invalid_status_transition
  products ← find_products ids db.products
  granted ← grant_products products app.organization_id input.credential_id input.products db.grants
  let grants =
      revoke_grants input.credential_id (removed_ids input.credential_id ids db.grants) granted
  ok (
    filter (λ g. g.credential_id == input.credential_id) grants,
    record_audit input.actor app.organization_id "credential.replaceProductGrants" "AppCredential"
        input.credential_id (record db { grants = grants }),
  )
