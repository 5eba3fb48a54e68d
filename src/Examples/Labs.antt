-- ===== src/Examples/Labs.antt =====
-- The theorems on lab workspaces at the sample tables.
use api_gateway_platform.Common.{
  ◌≡◌, refl, true, false, ◌&&◌, ◌==◌, any, some, arith, Bool-cases, inl, inr,
}
use api_gateway_platform.Common.Chains.{◌>>=◌, ◌>>◌, guard, require}
use api_gateway_platform.Database.Tables.{revoked_workspace, LabWorkspace, Tables, find_key}
use api_gateway_platform.Labs.Resources.{
  is_active_workspace, is_current, workspace_key, deactivate_workspace_resources,
  disable_workspace_resources, record_lab_audit,
}
use api_gateway_platform.Labs.Workspaces.{
  current_workspace, create_personal_lab_workspace, open_workspace, new_workspace,
  revoke_personal_lab_workspace,
}
use api_gateway_platform.Labs.Shutdown.{IsShut, revoke_personal_lab_workspace-IsShut}
use api_gateway_platform.Labs.Exclusive.{
  IsExclusive, no_step, and_then, created, LabSteps-IsExclusive,
}
use api_gateway_platform.Labs.Creation.{Creates, create_personal_lab_workspace-Creates}
use api_gateway_platform.Examples.Managing.{tables, workspace, ann, state_of}

abbrev shut : Tables
shut = state_of (revoke_personal_lab_workspace ann 5 tables)

revoke_personal_lab_workspace-IsShut_example :
    (current : LabWorkspace) × (current_workspace ann tables ≡ some current)
    × (find_key workspace_key current.id shut.workspaces
        ≡ some (record workspace { status = revoked_workspace }))
    × ((record workspace { status = revoked_workspace }).status ≡ revoked_workspace)
    × (any (λ w. w.id == current.id && is_active_workspace w) shut.workspaces ≡ false)
    × IsShut current.id current.organization_id shut
unfolding revoke_personal_lab_workspace deactivate_workspace_resources disable_workspace_resources
    record_lab_audit ◌>>=◌ ◌>>◌ guard require
revoke_personal_lab_workspace-IsShut_example =
    revoke_personal_lab_workspace-IsShut ann 5 tables shut
      (record workspace { status = revoked_workspace }) refl

-- The workspace has expired, so a new one takes its place.
abbrev renewed : Tables
renewed = state_of (create_personal_lab_workspace "w2" "org2" ann 2000 tables)

create_personal_lab_workspace-Creates_example :
    Creates ann 2000 tables (new_workspace "w2" "org2" ann 2000) true renewed
unfolding create_personal_lab_workspace open_workspace new_workspace deactivate_workspace_resources
    disable_workspace_resources record_lab_audit ◌>>=◌ ◌>>◌ guard require
create_personal_lab_workspace-Creates_example =
    create_personal_lab_workspace-Creates "w2" "org2" ann 2000 tables renewed
      (new_workspace "w2" "org2" ann 2000) true refl

one_each : IsExclusive tables
one_each principal = elim (Bool-cases (is_current principal workspace)) [
  | inl k ↦ rw k (omega arith)
  | inr k ↦ rw k (omega arith)
]

LabSteps-IsExclusive_example : IsExclusive renewed
unfolding create_personal_lab_workspace open_workspace new_workspace deactivate_workspace_resources
    disable_workspace_resources record_lab_audit ◌>>=◌ ◌>>◌ guard require
LabSteps-IsExclusive_example =
    LabSteps-IsExclusive tables renewed
      (and_then tables tables renewed (no_step tables) (
        created "w2" "org2" ann 2000 tables renewed (new_workspace "w2" "org2" ann 2000, true)
          refl))
      one_each
