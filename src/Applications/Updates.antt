-- ===== src/Applications/Updates.antt =====
-- packages/database/src/application-management.ts: updates of applications and credentials, and
-- public keys.
use Prim.Native.Char.{code}
use api_gateway_platform.Common.{
  ℕ, String, Bool, false, not, ◌&&◌, ◌||◌, Option, none, some, List, [], ◌∷◌, ◌++◌, any, eqb, leb,
  ltb, if◌then◌else◌, ◌==◌, is_some,
}
use api_gateway_platform.Common.Text.{trim, text_length, is_blank, is_space}
use api_gateway_platform.Common.Results.{Result, ok, err}
use api_gateway_platform.Common.Chains.{◌>>=◌, ◌>>◌, guard, require}
use api_gateway_platform.Database.Tables.{
  approved, revoked, is_revoked, DeveloperApp, AppCredential, AppPublicKey, Jwk, Tables, find_key,
  update_key, app_key, credential_key, public_key_key,
}
use api_gateway_platform.Applications.Types.{
  ApplicationError, Generated, UpdateDeveloperApplicationInput, UpdateManagedCredentialInput,
  RotateManagedConsumerSecretInput, RegisterManagedPublicKeyInput, RevokeManagedPublicKeyInput,
  invalid_request, app_not_found, credential_not_found, invalid_status_transition,
  consumer_key_conflict, public_key_not_found, public_key_conflict, other_exception,
  check_transition, set, record_audit, record_audit_if,
}

abbrev pub update_app : UpdateDeveloperApplicationInput → DeveloperApp → DeveloperApp
update_app input a = record a {
  name = elim input.name [ none ↦ a.name | some name ↦ trim name ];
  status = set input.status a.status;
}

unfoldable pub update_developer_application :
    UpdateDeveloperApplicationInput → Tables → Result ApplicationError (DeveloperApp × Tables)
update_developer_application input db = do
  current ← require (find_key app_key input.app_id db.apps) app_not_found
  check_transition current.status input.status
  ok (
    update_app input current,
    record_audit input.actor current.organization_id "application.update" "DeveloperApp"
        input.app_id
        (record db { apps = update_key app_key input.app_id (update_app input) db.apps }),
  )

-- `/[\s:\u0000-\u001f\u007f]/u`
abbrev has_forbidden : String → Bool
has_forbidden String.[] = false
has_forbidden (String.◌∷◌ c s) =
    is_space c || eqb (code c) b':' || ltb (code c) 0x20 || eqb (code c) 0x7f || has_forbidden s

unfoldable pub normalize_managed_consumer_key : String → Result ApplicationError String
normalize_managed_consumer_key value =
    let normalized = trim value in
    if is_blank normalized || ltb 120 (text_length normalized) || has_forbidden normalized
    then err invalid_request
    else ok normalized

abbrev normalize_key : Option String → Result ApplicationError (Option String)
normalize_key none = ok none
normalize_key (some value) = do
  normalized ← normalize_managed_consumer_key value
  ok (some normalized)

-- The key is that of another credential: the unique index refuses it.
abbrev pub is_taken : String → Option String → List AppCredential → Bool
is_taken id none credentials = false
is_taken id (some key) credentials =
    any (λ c. c.consumer_key == key && not (c.id == id)) credentials

abbrev pub update_credential :
    Option String → UpdateManagedCredentialInput → AppCredential → AppCredential
update_credential consumer_key input c = record c {
  consumer_key = set consumer_key c.consumer_key;
  expires_at = set input.expires_at c.expires_at;
  status = set input.status c.status;
}

-- The organization of a row's `app` relation.
abbrev pub app_of : String → Tables → Result ApplicationError DeveloperApp
app_of app_id db = require (find_key app_key app_id db.apps) other_exception

abbrev changes_key : Option String → String → Bool
changes_key none current = false
changes_key (some key) current = not (key == current)

unfoldable pub update_managed_credential :
    UpdateManagedCredentialInput → Tables → Result ApplicationError (AppCredential × Tables)
unfolding normalize_managed_consumer_key
update_managed_credential input db = do
  consumer_key ← normalize_key input.consumer_key
  current ←
      require (find_key credential_key input.credential_id db.credentials) credential_not_found
  app ← app_of current.app_id db
  check_transition current.status input.status
  guard (not (is_taken input.credential_id consumer_key db.credentials)) consumer_key_conflict
  let updated = record db {
    credentials =
        update_key credential_key input.credential_id (update_credential consumer_key input)
          db.credentials;
  }
  let audited =
      record_audit_if (is_some input.expires_at || is_some input.status) input.actor
        app.organization_id "credential.update" "AppCredential" input.credential_id updated
  ok (
    update_credential consumer_key input current,
    record_audit_if (changes_key consumer_key current.consumer_key) input.actor app.organization_id
        "credential.updateConsumerKey" "AppCredential" input.credential_id audited,
  )

abbrev pub is_closed : AppCredential → DeveloperApp → Bool
is_closed credential app = is_revoked credential.status || is_revoked app.status

-- The secret is returned, and its hash stored.
unfoldable pub rotate_managed_consumer_secret :
    Generated
    → RotateManagedConsumerSecretInput
    → Tables
    → Result ApplicationError (String × Tables)
rotate_managed_consumer_secret generated input db = do
  credential ←
      require (find_key credential_key input.credential_id db.credentials) credential_not_found
  app ← app_of credential.app_id db
  guard (not (is_closed credential app)) invalid_status_transition
  ok (
    generated.consumer_secret,
    record_audit input.actor app.organization_id "credential.rotateSecret" "AppCredential"
        input.credential_id
        (record db {
          credentials =
              update_key credential_key input.credential_id
                (λ c. record c { consumer_secret_hash = generated.consumer_secret_hash })
                db.credentials;
        }),
  )

-- `modulus_length` is that of the key that `createPublicKey` makes, `none` where it throws.
unfoldable pub register_managed_public_key :
    (modulus_length : Jwk → Option ℕ)
    → Generated
    → ℕ
    → RegisterManagedPublicKeyInput
    → Tables
    → Result ApplicationError (AppPublicKey × Tables)
register_managed_public_key modulus_length generated now input db = do
  guard (elim input.jwk.kty [ none ↦ false | some kty ↦ kty == "RSA" ]) other_exception
  modulus ← require (modulus_length input.jwk) other_exception
  guard (leb 2048 modulus) other_exception
  credential ←
      require (find_key credential_key input.credential_id db.credentials) credential_not_found
  app ← app_of credential.app_id db
  guard (not (is_closed credential app)) invalid_status_transition
  guard (not (any (λ k. k.credential_id == input.credential_id && k.kid == trim input.kid) db.keys))
      public_key_conflict
  let public_key : AppPublicKey = record {
    id = generated.id;
    credential_id = input.credential_id;
    kid = trim input.kid;
    jwk = input.jwk;
    status = approved;
    valid_from = set input.valid_from now;
    expires_at = input.expires_at;
  }
  ok (
    public_key,
    record_audit input.actor app.organization_id "publicKey.register" "AppPublicKey" generated.id
        (record db { keys = db.keys ++ public_key ∷ [] }),
  )

unfoldable pub revoke_managed_public_key :
    RevokeManagedPublicKeyInput → Tables → Result ApplicationError (AppPublicKey × Tables)
revoke_managed_public_key input db = do
  current ← require (find_key public_key_key input.public_key_id db.keys) public_key_not_found
  credential ←
      require (find_key credential_key current.credential_id db.credentials) other_exception
  app ← app_of credential.app_id db
  ok (
    record current { status = revoked },
    record_audit input.actor app.organization_id "publicKey.revoke" "AppPublicKey"
        input.public_key_id
        (record db {
          keys =
              update_key public_key_key input.public_key_id (λ k. record k { status = revoked })
                db.keys;
        }),
  )
