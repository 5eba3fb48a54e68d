-- ===== src/Applications/Clones.antt =====
-- packages/database/src/application-management.ts: `cloneManagedCredential`.
use api_gateway_platform.Common.{
  ℕ, ◌+◌, String, Bool, true, false, not, ◌&&◌, ◌||◌, Option, none, some, List, [], ◌∷◌, ◌++◌, map,
  filter, any, is_empty, leb, ltb, if◌then◌else◌, ◌==◌, is_some,
}
use api_gateway_platform.Common.Results.{Result, ok, err}
use api_gateway_platform.Common.Chains.{◌>>=◌, ◌>>◌, guard, require}
use api_gateway_platform.Database.Tables.{
  approved, is_approved, CredentialPurpose, standard, playground, AppCredential,
  CredentialProductGrant, Tables, find_key, app_key, credential_key,
}
use api_gateway_platform.Applications.Types.{
  ApplicationError, Generated, CloneManagedCredentialInput, app_not_found, credential_not_found,
  credential_clone_not_allowed, invalid_credential_expiration, other_exception, set, record_audit,
}
use api_gateway_platform.Applications.Updates.{is_closed}

abbrev pub hour : ℕ
hour = 3600000

abbrev pub is_playground : CredentialPurpose → Bool
is_playground playground = true
is_playground _ = false

abbrev pub latest_allowed : Option ℕ → ℕ → ℕ
latest_allowed none now = now + hour
latest_allowed (some source) now = if ltb source (now + hour) then source else now + hour

unfoldable pub resolve_clone_expiration :
    CredentialPurpose → Option ℕ → Option ℕ → ℕ → Result ApplicationError (Option ℕ)
resolve_clone_expiration purpose requested source now =
    let latest = latest_allowed source now in
    let expires_at = set requested latest in
    if not (is_playground purpose)
    then (if is_some requested then err invalid_credential_expiration else ok source)
    else if leb expires_at now || ltb latest expires_at
    then err invalid_credential_expiration
    else ok (some expires_at)

abbrev pub has_expired : Option ℕ → ℕ → Bool
has_expired none now = false
has_expired (some expires_at) now = leb expires_at now

-- The grants that a source passes on.
abbrev pub approved_grants : String → List CredentialProductGrant → List CredentialProductGrant
approved_grants credential_id grants =
    filter (λ g. g.credential_id == credential_id && is_approved g.status) grants

abbrev pub copy_grant : String → CredentialProductGrant → CredentialProductGrant
copy_grant id g = record {
  credential_id = id;
  product_id = g.product_id;
  status = approved;
  scopes = g.scopes;
}

unfoldable pub clone_managed_credential :
    Generated
    → ℕ
    → CloneManagedCredentialInput
    → Tables
    → Result ApplicationError ((AppCredential × String) × Tables)
unfolding resolve_clone_expiration
clone_managed_credential generated now input db = do
  app ← require (find_key app_key input.app_id db.apps) app_not_found
  source ←
      require (find_key credential_key input.source_credential_id db.credentials)
        credential_not_found
  let source_grants = approved_grants source.id db.grants
  guard
      (not (
        not (source.app_id == input.app_id)
        || is_closed source app
        || has_expired source.expires_at now
        || is_empty source_grants))
      credential_clone_not_allowed
  let purpose = set input.purpose standard
  expires_at ← resolve_clone_expiration purpose input.expires_at source.expires_at now
  guard (not (any (λ c. c.consumer_key == generated.consumer_key) db.credentials)) other_exception
  let credential : AppCredential = record {
    id = generated.id;
    app_id = input.app_id;
    consumer_key = generated.consumer_key;
    consumer_secret_hash = generated.consumer_secret_hash;
    status = approved;
    purpose = purpose;
    issued_at = now;
    expires_at = expires_at;
  }
  ok (
    (credential, generated.consumer_secret),
    record_audit input.actor app.organization_id "credential.clone" "AppCredential" generated.id
        (record db {
          credentials = db.credentials ++ credential ∷ [];
          grants = db.grants ++ map (copy_grant generated.id) source_grants;
        }),
  )
