-- ===== src/Labs/Creation.antt =====
-- What a call that creates a workspace returns.
use api_gateway_platform.Common.{
  ℕ, ◌≤◌, ◌<◌, String, ◌≡◌, refl, sym, inl, inr, Bool, true, false, ltb, arith, eq_refl, Bool-cases,
  Option-cases, find-eq-some,
}
use api_gateway_platform.Common.Results.{ok}
use api_gateway_platform.Common.Chains.{next_returns, guard_returns, same_returns}
use api_gateway_platform.Database.Tables.{expired_workspace, LabWorkspace, Tables}
use api_gateway_platform.Labs.Resources.{LabPrincipal, is_current, record_lab_audit}
use api_gateway_platform.Labs.Workspaces.{
  is_recent, current_workspace, deactivate_for, new_workspace, open_workspace,
  create_personal_lab_workspace,
}
use api_gateway_platform.Labs.Counts.{count, count-append}

-- Of the workspace that is returned, and whether it is new.
pub record Creates (principal : LabPrincipal) (now : ℕ) (before : Tables) (workspace : LabWorkspace)
    (is_new : Bool) (after : Tables) : Type 0 where
  pub is_active : is_current principal workspace ≡ true
  pub is_open : now < workspace.expires_at
  pub is_kept : is_new ≡ false → after ≡ before
  pub is_limited : is_new ≡ true → count (is_recent principal now) after.workspaces ≤ 3

transfer :
    (principal : LabPrincipal) (now : ℕ) (before : Tables) (p q : (LabWorkspace × Bool) × Tables)
    → p ≡ q
    → Creates principal now before p.0.0 p.0.1 p.1
    → Creates principal now before q.0.0 q.0.1 q.1
transfer principal now before p q e h = rw (sym e) h

open-Creates :
    (workspace_id organization_id : String) (principal : LabPrincipal) (now : ℕ)
    (before db after : Tables) (workspace : LabWorkspace) (is_new : Bool)
    → open_workspace workspace_id organization_id principal now db ≡ ok ((workspace, is_new), after)
    → Creates principal now before workspace is_new after
unfolding open_workspace record_lab_audit new_workspace
open-Creates workspace_id organization_id principal now before db after workspace is_new h =
    let (few, h) = next_returns h in
    let fits = guard_returns _ _ few in
    transfer principal now before _ _ (same_returns refl h) (record {
      is_active = rw (eq_refl principal.issuer, eq_refl principal.subject) refl;
      is_open = omega arith;
      is_kept = λ no_way. cc;
      is_limited = λ _.
          rw
            (count-append (is_recent principal now) db.workspaces
              (new_workspace workspace_id organization_id principal now))
            (ground (arith, fits));
    })

-- The workspace that is returned is the principal's, active and not expired. Where it is not new,
-- nothing has changed; where it is, the principal has created at most three in the last 24 hours, this
-- one included.
pub create_personal_lab_workspace-Creates :
    (workspace_id organization_id : String) (principal : LabPrincipal) (now : ℕ) (db after : Tables)
    (workspace : LabWorkspace) (is_new : Bool)
    → create_personal_lab_workspace workspace_id organization_id principal now db
      ≡ ok ((workspace, is_new), after)
    → Creates principal now db workspace is_new after
unfolding create_personal_lab_workspace
create_personal_lab_workspace-Creates workspace_id organization_id principal now db after workspace
      is_new h =
    elim (Option-cases (current_workspace principal db)) [
      | inl missing ↦
          open-Creates workspace_id organization_id principal now db db after workspace is_new
            (rw (missing, create_personal_lab_workspace) at h)
      | inr (w, found) ↦
          let found_h = rw (found, create_personal_lab_workspace) at h in
          elim (Bool-cases (ltb now w.expires_at)) [
            | inl k ↦
                let kept = rw k at found_h in
                transfer principal now db _ _ (same_returns refl kept) (record {
                  is_active = find-eq-some (is_current principal) db.workspaces found;
                  is_open = ground arith;
                  is_kept = λ _. refl;
                  is_limited = λ no_way. cc;
                })
            | inr k ↦
                open-Creates workspace_id organization_id principal now db
                  (deactivate_for principal expired_workspace now w db) after workspace is_new
                  (rw k at found_h)
          ]
    ]
