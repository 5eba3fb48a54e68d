-- ===== src/Labs/Workspaces.antt =====
-- packages/database/src/lab-workspaces.ts: personal lab workspaces, from creation to the shutdown of
-- all that they hold. A transaction that throws changes nothing; its lock and isolation level make
-- transactions of a principal follow one another. Generated identifiers are inputs, and the clock of the
-- database is that of the program.
use api_gateway_platform.Common.{
  ℕ, ◌+◌, ◌-◌, String, Bool, true, false, ◌&&◌, Option, none, some, List, [], ◌∷◌, ◌++◌, filter,
  find, length, leb, ltb, if◌then◌else◌,
}
use api_gateway_platform.Common.Results.{Result, ok, err}
use api_gateway_platform.Common.Chains.{◌>>=◌, ◌>>◌, guard, require}
use api_gateway_platform.Common.Text.{slice_to, append}
use api_gateway_platform.Database.Tables.{
  Organization, lab_organization, LabWorkspaceStatus, active_workspace, expired_workspace,
  revoked_workspace, LabWorkspace, Tables, find_key,
}
use api_gateway_platform.Labs.Resources.{
  LabPrincipal, is_active_workspace, is_owned, is_current, workspace_key, record_lab_audit,
  disable_workspace_resources, deactivate_workspace_resources,
}

pub data LabWorkspaceError : Type 0 where
  lab_expired lab_limit_reached lab_resource_not_found : LabWorkspaceError
  other_exception : LabWorkspaceError

abbrev pub day : ℕ
day = 86400000

abbrev pub is_recent : LabPrincipal → ℕ → LabWorkspace → Bool
is_recent principal now w = is_owned principal w && leb (now - day) w.created_at

unfoldable pub new_workspace : String → String → LabPrincipal → ℕ → LabWorkspace
new_workspace workspace_id organization_id principal now = record {
  id = workspace_id;
  owner_issuer = principal.issuer;
  owner_subject = principal.subject;
  organization_id = organization_id;
  hostname = append workspace_id ".lab.gateway.localhost";
  status = active_workspace;
  expires_at = now + day;
  created_at = now;
}

-- From the count of recent creations on.
unfoldable pub open_workspace :
    String
    → String
    → LabPrincipal
    → ℕ
    → Tables
    → Result LabWorkspaceError ((LabWorkspace × Bool) × Tables)
unfolding new_workspace record_lab_audit
open_workspace workspace_id organization_id principal now db = do
  guard (ltb (length (filter (is_recent principal now) db.workspaces)) 3) lab_limit_reached
  let organization : Organization = record {
    id = organization_id;
    name = append "Personal Gateway Lab " (slice_to 8 workspace_id);
    kind = lab_organization;
  }
  let workspace = new_workspace workspace_id organization_id principal now
  ok (
    (workspace, true),
    record_lab_audit principal organization_id "labWorkspace.create" workspace_id (record db {
      organizations = db.organizations ++ organization ∷ [];
      workspaces = db.workspaces ++ workspace ∷ [];
    }),
  )

abbrev pub current_workspace : LabPrincipal → Tables → Option LabWorkspace
current_workspace principal db = find (is_current principal) db.workspaces

abbrev pub deactivate_for : LabPrincipal → LabWorkspaceStatus → ℕ → LabWorkspace → Tables → Tables
deactivate_for principal status now w db =
    deactivate_workspace_resources w.id w.organization_id principal status now db

unfoldable pub create_personal_lab_workspace :
    String
    → String
    → LabPrincipal
    → ℕ
    → Tables
    → Result LabWorkspaceError ((LabWorkspace × Bool) × Tables)
unfolding open_workspace deactivate_workspace_resources
create_personal_lab_workspace workspace_id organization_id principal now db =
    elim (current_workspace principal db) [
      | none ↦ open_workspace workspace_id organization_id principal now db
      | some current ↦
          if ltb now current.expires_at
          then ok ((current, false), db)
          else open_workspace workspace_id organization_id principal now
              (deactivate_for principal expired_workspace now current db)
    ]

abbrev owner_of : LabWorkspace → LabPrincipal
owner_of w = record { issuer = w.owner_issuer; subject = w.owner_subject }

unfoldable pub expire_personal_lab_workspace : String → ℕ → Tables → Tables
unfolding deactivate_workspace_resources
expire_personal_lab_workspace workspace_id now db =
    elim (find_key workspace_key workspace_id db.workspaces) [
      | none ↦ db
      | some w ↦
          if is_active_workspace w
          then deactivate_for (owner_of w) expired_workspace now w db
          else db
    ]

-- Expiry is a transaction of its own, so it lasts where the call then throws.
unfoldable pub get_personal_lab_workspace :
    LabPrincipal → ℕ → Tables → Result LabWorkspaceError LabWorkspace × Tables
unfolding expire_personal_lab_workspace
get_personal_lab_workspace principal now db = elim (current_workspace principal db) [
  | none ↦ (err lab_resource_not_found, db)
  | some current ↦
      if leb current.expires_at now
      then (err lab_expired, expire_personal_lab_workspace current.id now db)
      else (ok current, db)
]

-- `findUniqueOrThrow` after the writes; the row is there, since it was found before.
abbrev read_workspace : String → Tables → Result LabWorkspaceError (LabWorkspace × Tables)
read_workspace id db = do
  w ← require (find_key workspace_key id db.workspaces) other_exception
  ok (w, db)

unfoldable pub revoke_personal_lab_workspace :
    LabPrincipal → ℕ → Tables → Result LabWorkspaceError (LabWorkspace × Tables)
unfolding deactivate_workspace_resources
revoke_personal_lab_workspace principal now db = do
  current ← require (current_workspace principal db) lab_resource_not_found
  read_workspace current.id (deactivate_for principal revoked_workspace now current db)

-- In an expired workspace, the resources are deactivated and the exception undoes it.
unfoldable pub reset_personal_lab_workspace :
    LabPrincipal → ℕ → Tables → Result LabWorkspaceError (LabWorkspace × Tables)
unfolding disable_workspace_resources
reset_personal_lab_workspace principal now db = do
  current ← require (current_workspace principal db) lab_resource_not_found
  guard (ltb now current.expires_at) lab_expired
  read_workspace current.id (
      disable_workspace_resources current.id current.organization_id principal now
        "labWorkspace.reset" db)

abbrev pub is_due : ℕ → LabWorkspace → Bool
is_due now w = is_active_workspace w && leb w.expires_at now

abbrev pub expire_each : List LabWorkspace → ℕ → Tables → Tables
expire_each [] now db = db
expire_each (w ∷ ws) now db = expire_each ws now (expire_personal_lab_workspace w.id now db)

-- The number of workspaces that were due is returned.
unfoldable pub expire_due_lab_workspaces : ℕ → Tables → ℕ × Tables
unfolding expire_personal_lab_workspace
expire_due_lab_workspaces now db =
    let due = filter (is_due now) db.workspaces in (length due, expire_each due now db)
