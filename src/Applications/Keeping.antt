-- ===== src/Applications/Keeping.antt =====
-- Each transaction keeps what is revoked.
use api_gateway_platform.Common.{ℕ, String, ◌≡◌, refl, sym, Option, List}
use api_gateway_platform.Common.Results.{ok}
use api_gateway_platform.Common.Chains.{then_returns, next_returns, require_returns}
use api_gateway_platform.Database.Tables.{
  revoked, is_revoked, DeveloperApp, AppCredential, AppPublicKey, Jwk, CredentialProductGrant,
  Tables, update_key, app_key, credential_key, public_key_key,
}
use api_gateway_platform.Database.Keyed.{update_key-holds, append-holds}
use api_gateway_platform.Applications.Types.{
  Generated, UpdateDeveloperApplicationInput, UpdateManagedCredentialInput,
  RotateManagedConsumerSecretInput, RegisterManagedPublicKeyInput, RevokeManagedPublicKeyInput,
  CreateManagedCredentialInput, CloneManagedCredentialInput, ReplaceManagedCredentialGrantsInput,
}
use api_gateway_platform.Applications.Updates.{
  update_app, update_developer_application, update_credential, update_managed_credential,
  rotate_managed_consumer_secret, register_managed_public_key, revoke_managed_public_key,
}
use api_gateway_platform.Applications.Grants.{
  create_managed_credential, replace_managed_credential_grants,
}
use api_gateway_platform.Applications.Clones.{clone_managed_credential}
use api_gateway_platform.Applications.Kept.{
  KeepsRevoked, audited, audited_if, one_row, transition-revoked, returned,
}

pub update_app-KeepsRevoked :
    (input : UpdateDeveloperApplicationInput) (db after : Tables) (row : DeveloperApp)
    → update_developer_application input db ≡ ok (row, after)
    → KeepsRevoked db after
unfolding update_developer_application
update_app-KeepsRevoked input db after row h =
    let (current, found, h) = then_returns h in
    let (allowed, h) = next_returns h in
    returned db after _ row _ refl h (
      audited _ _ _ _ _ db _ (record {
        apps = λ id r.
            update_key-holds app_key (λ a. is_revoked a.status) input.app_id (update_app input) id
              db.apps (λ a. refl)
              (λ a there same good.
                let row = one_row app_key db.apps (require_returns _ _ found) there same in
                transition-revoked a.status input.status (rw (sym row) allowed) good)
              r;
        credentials = λ id r. r;
        keys = λ id r. r;
      }))

pub update_credential-KeepsRevoked :
    (input : UpdateManagedCredentialInput) (db after : Tables) (row : AppCredential)
    → update_managed_credential input db ≡ ok (row, after)
    → KeepsRevoked db after
unfolding update_managed_credential
update_credential-KeepsRevoked input db after row h =
    let (key, _, h) = then_returns h in
    let (current, found, h) = then_returns h in
    let (app, _, h) = then_returns h in
    let (allowed, h) = next_returns h in
    let (_, h) = next_returns h in
    let updated : KeepsRevoked db (record db {
      credentials =
          update_key credential_key input.credential_id (update_credential key input)
            db.credentials;
    }) =
      record {
        apps = λ id r. r;
        credentials = λ id r.
            update_key-holds credential_key (λ c. is_revoked c.status) input.credential_id
              (update_credential key input) id db.credentials (λ c. refl)
              (λ c there same good.
                let row =
                  one_row credential_key db.credentials (require_returns _ _ found) there same in
                transition-revoked c.status input.status (rw (sym row) allowed) good)
              r;
        keys = λ id r. r;
      } in
    returned db after _ row _ refl h
      (audited_if _ _ _ _ _ _ db _ (audited_if _ _ _ _ _ _ db _ updated))

pub rotate-KeepsRevoked :
    (generated : Generated) (input : RotateManagedConsumerSecretInput) (db after : Tables)
    (secret : String)
    → rotate_managed_consumer_secret generated input db ≡ ok (secret, after)
    → KeepsRevoked db after
unfolding rotate_managed_consumer_secret
rotate-KeepsRevoked generated input db after secret h =
    let (current, found, h) = then_returns h in
    let (app, _, h) = then_returns h in
    let (_, h) = next_returns h in
    returned db after _ secret _ refl h (
      audited _ _ _ _ _ db _ (record {
        apps = λ id r. r;
        credentials = λ id r.
            update_key-holds credential_key (λ c. is_revoked c.status) input.credential_id
              (λ c. record c { consumer_secret_hash = generated.consumer_secret_hash }) id
              db.credentials (λ c. refl) (λ c there same good. good) r;
        keys = λ id r. r;
      }))

pub register_key-KeepsRevoked :
    (modulus_length : Jwk → Option ℕ) (generated : Generated) (now : ℕ)
    (input : RegisterManagedPublicKeyInput) (db after : Tables) (row : AppPublicKey)
    → register_managed_public_key modulus_length generated now input db ≡ ok (row, after)
    → KeepsRevoked db after
unfolding register_managed_public_key
register_key-KeepsRevoked modulus_length generated now input db after row h =
    let (_, h) = next_returns h in
    let (_, _, h) = then_returns h in
    let (_, h) = next_returns h in
    let (current, found, h) = then_returns h in
    let (app, _, h) = then_returns h in
    let (_, h) = next_returns h in
    let (_, h) = next_returns h in
    returned db after _ row _ refl h (
      audited _ _ _ _ _ db _ (record {
        apps = λ id r. r;
        credentials = λ id r. r;
        keys = λ id r. append-holds public_key_key (λ k. is_revoked k.status) id db.keys _ r;
      }))

pub revoke_key-KeepsRevoked :
    (input : RevokeManagedPublicKeyInput) (db after : Tables) (row : AppPublicKey)
    → revoke_managed_public_key input db ≡ ok (row, after)
    → KeepsRevoked db after
unfolding revoke_managed_public_key
revoke_key-KeepsRevoked input db after row h =
    let (current, found, h) = then_returns h in
    let (credential, _, h) = then_returns h in
    let (app, _, h) = then_returns h in
    returned db after _ row _ refl h (
      audited _ _ _ _ _ db _ (record {
        apps = λ id r. r;
        credentials = λ id r. r;
        keys = λ id r.
            update_key-holds public_key_key (λ k. is_revoked k.status) input.public_key_id
              (λ k. record k { status = revoked }) id db.keys (λ k. refl)
              (λ k there same good. refl) r;
      }))

pub create-KeepsRevoked :
    (generated : Generated) (now : ℕ) (input : CreateManagedCredentialInput) (db after : Tables)
    (row : AppCredential × String)
    → create_managed_credential generated now input db ≡ ok (row, after)
    → KeepsRevoked db after
unfolding create_managed_credential
create-KeepsRevoked generated now input db after row h =
    let (_, h) = next_returns h in
    let (app, _, h) = then_returns h in
    let (_, h) = next_returns h in
    let (products, _, h) = then_returns h in
    let (grants, _, h) = then_returns h in
    let (_, h) = next_returns h in
    returned db after _ row _ refl h (
      audited _ _ _ _ _ db _ (record {
        apps = λ id r. r;
        credentials =
            λ id r. append-holds credential_key (λ c. is_revoked c.status) id db.credentials _ r;
        keys = λ id r. r;
      }))

pub clone-KeepsRevoked :
    (generated : Generated) (now : ℕ) (input : CloneManagedCredentialInput) (db after : Tables)
    (row : AppCredential × String)
    → clone_managed_credential generated now input db ≡ ok (row, after)
    → KeepsRevoked db after
unfolding clone_managed_credential
clone-KeepsRevoked generated now input db after row h =
    let (app, _, h) = then_returns h in
    let (source, _, h) = then_returns h in
    let (_, h) = next_returns h in
    let (expires_at, _, h) = then_returns h in
    let (_, h) = next_returns h in
    returned db after _ row _ refl h (
      audited _ _ _ _ _ db _ (record {
        apps = λ id r. r;
        credentials =
            λ id r. append-holds credential_key (λ c. is_revoked c.status) id db.credentials _ r;
        keys = λ id r. r;
      }))

pub replace-KeepsRevoked :
    (input : ReplaceManagedCredentialGrantsInput) (db after : Tables)
    (row : List CredentialProductGrant)
    → replace_managed_credential_grants input db ≡ ok (row, after)
    → KeepsRevoked db after
unfolding replace_managed_credential_grants
replace-KeepsRevoked input db after row h =
    let (_, h) = next_returns h in
    let (credential, _, h) = then_returns h in
    let (app, _, h) = then_returns h in
    let (_, h) = next_returns h in
    let (products, _, h) = then_returns h in
    let (granted, _, h) = then_returns h in
    returned db after _ row _ refl h (
      audited _ _ _ _ _ db _
        (record { apps = λ id r. r; credentials = λ id r. r; keys = λ id r. r }))
