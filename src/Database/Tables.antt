-- ===== src/Database/Tables.antt =====
-- packages/database/prisma/schema.prisma: the rows of applications, credentials, grants, keys,
-- certificates and lab workspaces, as their identifiers and the columns that the program decides on.
use api_gateway_platform.Common.{
  ℕ, String, Bool, true, false, Option, List, map, find, if◌then◌else◌, ◌==◌,
}
use api_gateway_platform.Auth.Authorization.{Product}
use api_gateway_platform.Database.Rows.{Deployment}
use api_gateway_platform.Database.Changes.{ChangeLog}

pub data AuthorizationStatus : Type 0 where
  pending approved revoked : AuthorizationStatus

abbrev pub is_pending : AuthorizationStatus → Bool
is_pending pending = true
is_pending _ = false

abbrev pub is_approved : AuthorizationStatus → Bool
is_approved approved = true
is_approved _ = false

abbrev pub is_revoked : AuthorizationStatus → Bool
is_revoked revoked = true
is_revoked _ = false

pub data CredentialPurpose : Type 0 where
  standard playground lab : CredentialPurpose

pub record DeveloperApp : Type 0 where
  pub id : String
  pub name : String
  pub status : AuthorizationStatus
  pub organization_id : String

pub record AppCredential : Type 0 where
  pub id : String
  pub app_id : String
  pub consumer_key : String
  pub consumer_secret_hash : String
  pub status : AuthorizationStatus
  pub purpose : CredentialPurpose
  pub issued_at : ℕ
  pub expires_at : Option ℕ

pub record CredentialProductGrant : Type 0 where
  pub credential_id : String
  pub product_id : String
  pub status : AuthorizationStatus
  pub scopes : List String

-- `parameters` is the text of the object's other members.
pub record Jwk : Type 0 where
  pub kty : Option String
  pub parameters : String

pub record AppPublicKey : Type 0 where
  pub id : String
  pub credential_id : String
  pub kid : String
  pub jwk : Jwk
  pub status : AuthorizationStatus
  pub valid_from : ℕ
  pub expires_at : Option ℕ

pub record AppCertificate : Type 0 where
  pub id : String
  pub credential_id : String
  pub status : AuthorizationStatus
  pub revoked_at : Option ℕ
  pub revocation_reason : Option String

pub data CertificateAuthorityStatus : Type 0 where
  draft active retiring revoked_authority : CertificateAuthorityStatus

pub record CertificateAuthority : Type 0 where
  pub id : String
  pub organization_id : String
  pub status : CertificateAuthorityStatus
  pub is_default_issuer : Bool

pub data OrganizationKind : Type 0 where
  standard_organization lab_organization : OrganizationKind

pub record Organization : Type 0 where
  pub id : String
  pub name : String
  pub kind : OrganizationKind

pub data LabWorkspaceStatus : Type 0 where
  active_workspace expired_workspace revoked_workspace : LabWorkspaceStatus

pub record LabWorkspace : Type 0 where
  pub id : String
  pub owner_issuer : String
  pub owner_subject : String
  pub organization_id : String
  pub hostname : String
  pub status : LabWorkspaceStatus
  pub expires_at : ℕ
  pub created_at : ℕ

pub record LabUpstream : Type 0 where
  pub id : String
  pub workspace_id : String
  pub active : Bool

pub record ApiProxy : Type 0 where
  pub id : String
  pub organization_id : String
  pub active : Bool

-- An audit event, without its metadata.
pub record AuditEntry : Type 0 where
  pub actor_issuer : String
  pub actor_subject : String
  pub actor_role : String
  pub organization_id : String
  pub action : String
  pub resource_type : String
  pub resource_id : String

pub record Tables : Type 0 where
  pub organizations : List Organization
  pub workspaces : List LabWorkspace
  pub upstreams : List LabUpstream
  pub proxies : List ApiProxy
  pub deployments : List Deployment
  pub products : List Product
  pub apps : List DeveloperApp
  pub credentials : List AppCredential
  pub grants : List CredentialProductGrant
  pub keys : List AppPublicKey
  pub certificates : List AppCertificate
  pub authorities : List CertificateAuthority
  pub audit : List AuditEntry
  pub log : ChangeLog

-- Rows that are looked up and updated by a key.
module _ {A : Type 0} (key : A → String) where
  abbrev pub find_key : String → List A → Option A
  find_key k rows = find (λ a. key a == k) rows

  abbrev pub update_key : String → (A → A) → List A → List A
  update_key k f rows = map (λ a. if key a == k then f a else a) rows

abbrev pub app_key : DeveloperApp → String
app_key a = a.id

abbrev pub credential_key : AppCredential → String
credential_key c = c.id

abbrev pub public_key_key : AppPublicKey → String
public_key_key k = k.id
