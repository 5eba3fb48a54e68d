-- ===== src/Applications/Types.antt =====
-- packages/database/src/application-management.ts: the errors, the inputs, and the change of an
-- authorization's status. Generated identifiers, keys, secrets and their hashes are inputs.
use api_gateway_platform.Common.{
  ℕ, String, Bool, true, ◌||◌, Option, none, some, List, [], ◌∷◌, ◌++◌, map, length, eqb, to_unique,
  if◌then◌else◌,
}
use api_gateway_platform.Common.Results.{Result, ok}
use api_gateway_platform.Common.Chains.{guard}
use api_gateway_platform.Database.Tables.{
  AuthorizationStatus, pending, approved, revoked, is_approved, is_revoked, CredentialPurpose, Jwk,
  Tables,
}

-- The codes, and any other exception.
pub data ApplicationError : Type 0 where
  invalid_request app_not_found credential_not_found : ApplicationError
  product_not_found product_not_active organization_mismatch invalid_scope : ApplicationError
  invalid_status_transition consumer_key_conflict credential_clone_not_allowed : ApplicationError
  invalid_credential_expiration public_key_not_found public_key_conflict : ApplicationError
  other_exception : ApplicationError

pub record Actor : Type 0 where
  pub issuer : String
  pub subject : String
  pub role : String

pub record ProductRequest : Type 0 where
  pub product_id : String
  pub scopes : Option (List String)

pub record Generated : Type 0 where
  pub id : String
  pub consumer_key : String
  pub consumer_secret : String
  pub consumer_secret_hash : String

pub record UpdateDeveloperApplicationInput : Type 0 where
  pub app_id : String
  pub name : Option String
  pub status : Option AuthorizationStatus
  pub actor : Actor

-- A column that may be null: left as it is, or set.
pub record CreateManagedCredentialInput : Type 0 where
  pub app_id : String
  pub expires_at : Option ℕ
  pub purpose : Option CredentialPurpose
  pub products : List ProductRequest
  pub actor : Actor

pub record UpdateManagedCredentialInput : Type 0 where
  pub credential_id : String
  pub consumer_key : Option String
  pub expires_at : Option (Option ℕ)
  pub status : Option AuthorizationStatus
  pub actor : Actor

pub record CloneManagedCredentialInput : Type 0 where
  pub app_id : String
  pub source_credential_id : String
  pub purpose : Option CredentialPurpose
  pub expires_at : Option ℕ
  pub actor : Actor

pub record RotateManagedConsumerSecretInput : Type 0 where
  pub credential_id : String
  pub actor : Actor

pub record ReplaceManagedCredentialGrantsInput : Type 0 where
  pub credential_id : String
  pub products : List ProductRequest
  pub actor : Actor

pub record RegisterManagedPublicKeyInput : Type 0 where
  pub credential_id : String
  pub kid : String
  pub jwk : Jwk
  pub valid_from : Option ℕ
  pub expires_at : Option ℕ
  pub actor : Actor

pub record RevokeManagedPublicKeyInput : Type 0 where
  pub public_key_id : String
  pub actor : Actor

abbrev pub is_allowed : AuthorizationStatus → AuthorizationStatus → Bool
is_allowed pending next = true
is_allowed approved next = is_approved next || is_revoked next
is_allowed revoked next = is_revoked next

unfoldable pub validate_status_transition :
    AuthorizationStatus → AuthorizationStatus → Result ApplicationError (Unit {0})
validate_status_transition current next = guard (is_allowed current next) invalid_status_transition

-- `if (status) validateStatusTransition(current, status)`
abbrev pub check_transition :
    AuthorizationStatus → Option AuthorizationStatus → Result ApplicationError (Unit {0})
check_transition current none = ok tt
check_transition current (some next) = validate_status_transition current next

-- `undefined` leaves a column as it is.
abbrev pub set {ℓ} : {A : Type ℓ} → Option A → A → A
set none a = a
set (some b) a = b

abbrev pub are_unique : List String → Bool
are_unique ids = eqb (length (to_unique ids)) (length ids)

abbrev pub product_ids : List ProductRequest → List String
product_ids requested = map (λ r. r.product_id) requested

unfoldable pub record_audit : Actor → String → String → String → String → Tables → Tables
record_audit actor organization_id action resource_type resource_id db = record db {
  audit =
      db.audit
      ++ record {
        actor_issuer = actor.issuer;
        actor_subject = actor.subject;
        actor_role = actor.role;
        organization_id = organization_id;
        action = action;
        resource_type = resource_type;
        resource_id = resource_id;
      }
        ∷ [];
}

-- `if (test) await transaction.auditEvent.create(…)`
unfoldable pub record_audit_if : Bool → Actor → String → String → String → String → Tables → Tables
record_audit_if test actor organization_id action resource_type resource_id db =
    if test then record_audit actor organization_id action resource_type resource_id db else db
