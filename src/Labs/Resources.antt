-- ===== src/Labs/Resources.antt =====
-- packages/database/src/lab-workspaces.ts: what a workspace holds, and its shutdown.
use api_gateway_platform.Common.{
  ℕ, String, Bool, true, false, ◌&&◌, none, some, List, [], ◌∷◌, ◌++◌, map, filter, any,
  if◌then◌else◌, ◌==◌,
}
use api_gateway_platform.Database.Rows.{Deployment}
use api_gateway_platform.Database.Deployments.{is_active, retire}
use api_gateway_platform.Database.Changes.{ChangeLog, record_gateway_config_change}
use api_gateway_platform.Database.Tables.{
  revoked, DeveloperApp, AppCredential, CertificateAuthority, draft, active, retiring,
  revoked_authority, LabWorkspaceStatus, active_workspace, expired_workspace, revoked_workspace,
  LabWorkspace, Tables, update_key,
}

pub record LabPrincipal : Type 0 where
  pub issuer : String
  pub subject : String

abbrev pub is_active_workspace : LabWorkspace → Bool
is_active_workspace w = elim w.status [
  | active_workspace ↦ true
  | expired_workspace ↦ false
  | revoked_workspace ↦ false
]

abbrev pub is_owned : LabPrincipal → LabWorkspace → Bool
is_owned principal w = w.owner_issuer == principal.issuer && w.owner_subject == principal.subject

-- The active workspace of a principal.
abbrev pub is_current : LabPrincipal → LabWorkspace → Bool
is_current principal w = is_owned principal w && is_active_workspace w

abbrev pub workspace_key : LabWorkspace → String
workspace_key w = w.id

-- `updateMany`
abbrev pub update_where : {A : Type 0} → (A → Bool) → (A → A) → List A → List A
update_where selects f rows = map (λ a. if selects a then f a else a) rows

abbrev pub has_workspace : String → Deployment → Bool
has_workspace id d = elim d.lab_workspace_id [ none ↦ false | some w ↦ w == id ]

abbrev pub is_routed : String → Deployment → Bool
is_routed id d = has_workspace id d && is_active d

-- `app: { organizationId }`
abbrev pub app_in : String → List DeveloperApp → String → Bool
app_in organization_id apps app_id =
    any (λ a. a.id == app_id && a.organization_id == organization_id) apps

-- `credential: { app: { organizationId } }`
abbrev pub credential_in : String → List DeveloperApp → List AppCredential → String → Bool
credential_in organization_id apps credentials id =
    any (λ c. c.id == id && app_in organization_id apps c.app_id) credentials

-- A change for each deployment that is retired.
abbrev pub record_removals : String → List Deployment → ChangeLog → ChangeLog
record_removals workspace_id [] log = log
record_removals workspace_id (d ∷ ds) log =
    record_removals workspace_id ds
      (record_gateway_config_change
        (record {
          change_type = "labWorkspace.routesRemoved";
          resource_type = "LabWorkspace";
          resource_id = workspace_id;
          environment_id = some d.environment.id;
        })
        log).1

unfoldable pub record_lab_audit : LabPrincipal → String → String → String → Tables → Tables
record_lab_audit principal organization_id action workspace_id db = record db {
  audit =
      db.audit
      ++ record {
        actor_issuer = principal.issuer;
        actor_subject = principal.subject;
        actor_role = "viewer";
        organization_id = organization_id;
        action = action;
        resource_type = "LabWorkspace";
        resource_id = workspace_id;
      }
        ∷ [];
}

unfoldable pub disable_workspace_resources :
    String → String → LabPrincipal → ℕ → String → Tables → Tables
disable_workspace_resources workspace_id organization_id principal now action db =
    let owns = credential_in organization_id db.apps db.credentials in
    record_lab_audit principal organization_id action workspace_id (record db {
      deployments = update_where (is_routed workspace_id) retire db.deployments;
      proxies =
          update_where (λ p. p.organization_id == organization_id)
            (λ p. record p { active = false }) db.proxies;
      apps =
          update_where (λ a. a.organization_id == organization_id)
            (λ a. record a { status = revoked }) db.apps;
      credentials =
          update_where (λ c. app_in organization_id db.apps c.app_id)
            (λ c. record c { status = revoked }) db.credentials;
      grants =
          update_where (λ g. owns g.credential_id) (λ g. record g { status = revoked }) db.grants;
      keys = update_where (λ k. owns k.credential_id) (λ k. record k { status = revoked }) db.keys;
      certificates =
          update_where (λ c. owns c.credential_id)
            (λ c. record c {
              status = revoked;
              revoked_at = some now;
              revocation_reason = some action;
            })
            db.certificates;
      upstreams =
          update_where (λ u. u.workspace_id == workspace_id) (λ u. record u { active = false })
            db.upstreams;
      log = record_removals workspace_id (filter (is_routed workspace_id) db.deployments) db.log;
    })

-- draft, active or retiring
abbrev pub can_issue : CertificateAuthority → Bool
can_issue a = elim a.status [
  | draft ↦ true
  | active ↦ true
  | retiring ↦ true
  | revoked_authority ↦ false
]

abbrev action_of : LabWorkspaceStatus → String
action_of expired_workspace = "labWorkspace.expire"
action_of _ = "labWorkspace.revoke"

unfoldable pub deactivate_workspace_resources :
    String → String → LabPrincipal → LabWorkspaceStatus → ℕ → Tables → Tables
unfolding disable_workspace_resources
deactivate_workspace_resources workspace_id organization_id principal status now db =
    let disabled =
      disable_workspace_resources workspace_id organization_id principal now (action_of status)
        db in
    record disabled {
      authorities =
          update_where (λ a. a.organization_id == organization_id && can_issue a)
            (λ a. record a { status = revoked_authority; is_default_issuer = false })
            disabled.authorities;
      workspaces =
          update_key workspace_key workspace_id (λ w. record w { status = status })
            disabled.workspaces;
    }
