-- ===== src/Applications/Revocation.antt =====
-- What is revoked stays revoked.
use api_gateway_platform.Common.{ℕ, String, ◌≡◌, Option, List}
use api_gateway_platform.Common.Results.{ok}
use api_gateway_platform.Database.Tables.{
  DeveloperApp, AppCredential, AppPublicKey, Jwk, CredentialProductGrant, Tables,
}
use api_gateway_platform.Applications.Types.{
  Generated, UpdateDeveloperApplicationInput, UpdateManagedCredentialInput,
  RotateManagedConsumerSecretInput, RegisterManagedPublicKeyInput, RevokeManagedPublicKeyInput,
  CreateManagedCredentialInput, CloneManagedCredentialInput, ReplaceManagedCredentialGrantsInput,
}
use api_gateway_platform.Applications.Updates.{
  update_developer_application, update_managed_credential, rotate_managed_consumer_secret,
  register_managed_public_key, revoke_managed_public_key,
}
use api_gateway_platform.Applications.Grants.{
  create_managed_credential, replace_managed_credential_grants,
}
use api_gateway_platform.Applications.Clones.{clone_managed_credential}
use api_gateway_platform.Applications.Kept.{KeepsRevoked, unchanged}
use api_gateway_platform.Applications.Keeping.{
  update_app-KeepsRevoked, update_credential-KeepsRevoked, rotate-KeepsRevoked,
  register_key-KeepsRevoked, revoke_key-KeepsRevoked, create-KeepsRevoked, clone-KeepsRevoked,
  replace-KeepsRevoked,
}

-- A transaction that succeeds, on applications, credentials, grants or keys.
pub data Step : Tables → Tables → Type 0 where
  application_updated :
      (input : UpdateDeveloperApplicationInput) (before after : Tables) (row : DeveloperApp)
      → update_developer_application input before ≡ ok (row, after)
      → Step before after
  credential_created :
      (generated : Generated) (now : ℕ) (input : CreateManagedCredentialInput)
      (before after : Tables) (row : AppCredential × String)
      → create_managed_credential generated now input before ≡ ok (row, after)
      → Step before after
  credential_updated :
      (input : UpdateManagedCredentialInput) (before after : Tables) (row : AppCredential)
      → update_managed_credential input before ≡ ok (row, after)
      → Step before after
  credential_cloned :
      (generated : Generated) (now : ℕ) (input : CloneManagedCredentialInput)
      (before after : Tables) (row : AppCredential × String)
      → clone_managed_credential generated now input before ≡ ok (row, after)
      → Step before after
  secret_rotated :
      (generated : Generated) (input : RotateManagedConsumerSecretInput) (before after : Tables)
      (secret : String)
      → rotate_managed_consumer_secret generated input before ≡ ok (secret, after)
      → Step before after
  grants_replaced :
      (input : ReplaceManagedCredentialGrantsInput) (before after : Tables)
      (rows : List CredentialProductGrant)
      → replace_managed_credential_grants input before ≡ ok (rows, after)
      → Step before after
  key_registered :
      (modulus_length : Jwk → Option ℕ) (generated : Generated) (now : ℕ)
      (input : RegisterManagedPublicKeyInput) (before after : Tables) (row : AppPublicKey)
      → register_managed_public_key modulus_length generated now input before ≡ ok (row, after)
      → Step before after
  key_revoked_by :
      (input : RevokeManagedPublicKeyInput) (before after : Tables) (row : AppPublicKey)
      → revoke_managed_public_key input before ≡ ok (row, after)
      → Step before after

pub data Steps : Tables → Tables → Type 0 where
  no_step : (db : Tables) → Steps db db
  and_then :
      (before between after : Tables)
      → Steps before between
      → Step between after
      → Steps before after

step-KeepsRevoked : (before after : Tables) → Step before after → KeepsRevoked before after
step-KeepsRevoked before after (application_updated input _ _ row h) =
    update_app-KeepsRevoked input before after row h
step-KeepsRevoked before after (credential_created generated now input _ _ row h) =
    create-KeepsRevoked generated now input before after row h
step-KeepsRevoked before after (credential_updated input _ _ row h) =
    update_credential-KeepsRevoked input before after row h
step-KeepsRevoked before after (credential_cloned generated now input _ _ row h) =
    clone-KeepsRevoked generated now input before after row h
step-KeepsRevoked before after (secret_rotated generated input _ _ secret h) =
    rotate-KeepsRevoked generated input before after secret h
step-KeepsRevoked before after (grants_replaced input _ _ rows h) =
    replace-KeepsRevoked input before after rows h
step-KeepsRevoked before after (key_registered modulus_length generated now input _ _ row h) =
    register_key-KeepsRevoked modulus_length generated now input before after row h
step-KeepsRevoked before after (key_revoked_by input _ _ row h) =
    revoke_key-KeepsRevoked input before after row h

-- Whatever transactions follow one another, an application, a credential or a public key that is
-- revoked before them is there and revoked after them.
pub Steps-KeepsRevoked : (before after : Tables) → Steps before after → KeepsRevoked before after
Steps-KeepsRevoked before after (no_step _) = unchanged before
Steps-KeepsRevoked before after (and_then _ between _ steps step) =
    let first = Steps-KeepsRevoked before between steps in
    let second = step-KeepsRevoked between after step in
    record {
      apps = λ id h. second.apps id (first.apps id h);
      credentials = λ id h. second.credentials id (first.credentials id h);
      keys = λ id h. second.keys id (first.keys id h);
    }
