-- ===== src/Labs/Exclusive.antt =====
-- A principal has one active workspace at most.
use api_gateway_platform.Common.{
  ℕ, ◌+◌, ◌≤◌, String, ◌≡◌, refl, sym, ap, ◌∙◌, ◌⊎◌, inl, inr, Bool, false, List, [], ◌∷◌, filter,
  leb, ltb, if◌then◌else◌, ◌==◌, arith, Bool-cases, Option-cases, and-eq-true, eq_iff,
}
use api_gateway_platform.Common.Results.{ok}
use api_gateway_platform.Common.Chains.{then_returns, next_returns, same_returns}
use api_gateway_platform.Database.Tables.{
  LabWorkspaceStatus, expired_workspace, revoked_workspace, LabWorkspace, Tables, find_key,
}
use api_gateway_platform.Labs.Resources.{
  LabPrincipal, is_active_workspace, is_owned, is_current, workspace_key,
  disable_workspace_resources, record_lab_audit,
}
use api_gateway_platform.Labs.Workspaces.{
  is_due, current_workspace, deactivate_for, new_workspace, open_workspace,
  create_personal_lab_workspace, expire_personal_lab_workspace, get_personal_lab_workspace,
  revoke_personal_lab_workspace, reset_personal_lab_workspace, expire_each,
  expire_due_lab_workspaces,
}
use api_gateway_platform.Labs.Counts.{
  count, update-count_le, update-count_none, count-none, count-append, closes, IsClosing, expires,
  revokes, closes-clears, deactivate-workspaces,
}

-- No principal has two active workspaces.
abbrev pub IsExclusive : Tables → Type 0
IsExclusive db = (principal : LabPrincipal) → count (is_current principal) db.workspaces ≤ 1

deactivate-IsExclusive :
    (principal : LabPrincipal) (status : LabWorkspaceStatus) (now : ℕ) (w : LabWorkspace)
    (db : Tables)
    → IsClosing status
    → IsExclusive db
    → IsExclusive (deactivate_for principal status now w db)
deactivate-IsExclusive principal status now w db closing h other =
    let fewer =
      update-count_le (is_current other) w.id (closes status) db.workspaces
        (closes-clears status closing other) in
    let before = h other in
    rw (deactivate-workspaces principal status now w db) (omega (arith, fewer, before))

expire-IsExclusive :
    (id : String) (now : ℕ) (db : Tables)
    → IsExclusive db
    → IsExclusive (expire_personal_lab_workspace id now db)
unfolding expire_personal_lab_workspace
expire-IsExclusive id now db h = elim (Option-cases (find_key workspace_key id db.workspaces)) [
  | inl missing ↦ rw (missing, expire_personal_lab_workspace) h
  | inr (w, found) ↦
      rw (found, expire_personal_lab_workspace)
        (elim (Bool-cases (is_active_workspace w)) [
          | inl k ↦ rw k (deactivate-IsExclusive _ expired_workspace now w db expires h)
          | inr k ↦ rw k h
        ])
]

expire_each-IsExclusive :
    (ws : List LabWorkspace) (now : ℕ) (db : Tables)
    → IsExclusive db
    → IsExclusive (expire_each ws now db)
expire_each-IsExclusive [] now db h = h
expire_each-IsExclusive (w ∷ ws) now db h =
    expire_each-IsExclusive ws now (expire_personal_lab_workspace w.id now db)
      (expire-IsExclusive w.id now db h)

get-IsExclusive :
    (principal : LabPrincipal) (now : ℕ) (db : Tables)
    → IsExclusive db
    → IsExclusive (get_personal_lab_workspace principal now db).1
unfolding get_personal_lab_workspace
get-IsExclusive principal now db h = elim (Option-cases (current_workspace principal db)) [
  | inl missing ↦ rw (missing, get_personal_lab_workspace) h
  | inr (w, found) ↦
      rw (found, get_personal_lab_workspace)
        (elim (Bool-cases (leb w.expires_at now)) [
          | inl k ↦ rw k (expire-IsExclusive w.id now db h)
          | inr k ↦ rw k h
        ])
]

moved : {R : Type 0} (p q : R × Tables) → p ≡ q → IsExclusive p.1 → IsExclusive q.1
moved p q e h = rw (sym e) h

revoke-IsExclusive :
    (principal : LabPrincipal) (now : ℕ) (db after : Tables) (row : LabWorkspace)
    → revoke_personal_lab_workspace principal now db ≡ ok (row, after)
    → IsExclusive db
    → IsExclusive after
unfolding revoke_personal_lab_workspace
revoke-IsExclusive principal now db after row h exclusive =
    let (current, _, h) = then_returns h in
    let (_, _, h) = then_returns h in
    moved _ _ (same_returns refl h)
      (deactivate-IsExclusive principal revoked_workspace now current db revokes exclusive)

reset-IsExclusive :
    (principal : LabPrincipal) (now : ℕ) (db after : Tables) (row : LabWorkspace)
    → reset_personal_lab_workspace principal now db ≡ ok (row, after)
    → IsExclusive db
    → IsExclusive after
unfolding reset_personal_lab_workspace disable_workspace_resources record_lab_audit
reset-IsExclusive principal now db after row h exclusive =
    let (current, _, h) = then_returns h in
    let (_, h) = next_returns h in
    let (_, _, h) = then_returns h in moved _ _ (same_returns refl h) exclusive

abbrev principal_of : String → String → LabPrincipal
principal_of issuer subject = record { issuer = issuer; subject = subject }

same_owner :
    (p q : LabPrincipal) (workspace_id organization_id : String) (now : ℕ)
    → (is_owned q (new_workspace workspace_id organization_id p now) ≡ false) ⊎ (p ≡ q)
unfolding new_workspace
same_owner p q workspace_id organization_id now =
    elim (Bool-cases (is_owned q (new_workspace workspace_id organization_id p now))) [
      | inr k ↦ inl k
      | inl k ↦
          let (i, t) = and-eq-true (p.issuer == q.issuer) (p.subject == q.subject) k in
          inr (
            ap (λ a. principal_of a p.subject) ((eq_iff p.issuer q.issuer).0 i)
            ∙ ap (λ b. principal_of q.issuer b) ((eq_iff p.subject q.subject).0 t))
    ]

-- A workspace is opened for a principal who has no active one.
open-IsExclusive :
    (workspace_id organization_id : String) (principal : LabPrincipal) (now : ℕ) (db after : Tables)
    (row : LabWorkspace × Bool)
    → open_workspace workspace_id organization_id principal now db ≡ ok (row, after)
    → count (is_current principal) db.workspaces ≤ 0
    → IsExclusive db
    → IsExclusive after
unfolding open_workspace record_lab_audit
open-IsExclusive workspace_id organization_id principal now db after row h free exclusive =
    let (_, h) = next_returns h in
    moved _ _ (same_returns refl h) (λ other.
      rw
        (count-append (is_current other) db.workspaces
          (new_workspace workspace_id organization_id principal now))
        (one_more other))
  where
    one_more :
        (other : LabPrincipal)
        → count (is_current other) db.workspaces
            + (if is_current other (new_workspace workspace_id organization_id principal now)
                then 1
                else 0)
          ≤ 1
    one_more other = elim (same_owner principal other workspace_id organization_id now) [
      | inl apart ↦ let before = exclusive other in rw apart (omega (arith, before))
      | inr same ↦
          let none_there : count (is_current other) db.workspaces ≤ 0 = rw (sym same) free in
          elim (Bool-cases
            (is_current other (new_workspace workspace_id organization_id principal now))) [
              | inl k ↦ rw k (omega (arith, none_there))
              | inr k ↦ rw k (omega (arith, none_there))
            ]
    ]

create-IsExclusive :
    (workspace_id organization_id : String) (principal : LabPrincipal) (now : ℕ) (db after : Tables)
    (row : LabWorkspace × Bool)
    → create_personal_lab_workspace workspace_id organization_id principal now db ≡ ok (row, after)
    → IsExclusive db
    → IsExclusive after
unfolding create_personal_lab_workspace
create-IsExclusive workspace_id organization_id principal now db after row h exclusive =
    elim (Option-cases (current_workspace principal db)) [
      | inl missing ↦
          let opened : open_workspace workspace_id organization_id principal now db
              ≡ ok (row, after) =
            rw (missing, create_personal_lab_workspace) at h in
          open-IsExclusive workspace_id organization_id principal now db after row opened
            (count-none (is_current principal) db.workspaces missing) exclusive
      | inr (w, found) ↦ elim (Bool-cases (ltb now w.expires_at)) [
        | inl k ↦
            let found_h = rw (found, create_personal_lab_workspace) at h in
            let kept = rw k at found_h in moved _ _ (same_returns refl kept) exclusive
        | inr k ↦
            let closed = deactivate_for principal expired_workspace now w db in
            let opened : open_workspace workspace_id organization_id principal now closed
                ≡ ok (row, after) =
              let found_h = rw (found, create_personal_lab_workspace) at h in rw k at found_h in
            let gone =
              update-count_none (is_current principal) (closes expired_workspace) db.workspaces w
                (closes-clears _ expires principal) found (exclusive principal) in
            open-IsExclusive workspace_id organization_id principal now closed after row opened
              (rw (deactivate-workspaces principal expired_workspace now w db) gone)
              (deactivate-IsExclusive principal expired_workspace now w db expires exclusive)
      ]
    ]

-- A call that ends; one that throws leaves the tables as they were, but for a read that expires.
pub data LabStep : Tables → Tables → Type 0 where
  created :
      (workspace_id organization_id : String) (principal : LabPrincipal) (now : ℕ)
      (before after : Tables) (row : LabWorkspace × Bool)
      → create_personal_lab_workspace workspace_id organization_id principal now before
        ≡ ok (row, after)
      → LabStep before after
  read :
      (principal : LabPrincipal) (now : ℕ) (before : Tables)
      → LabStep before (get_personal_lab_workspace principal now before).1
  revoked_by :
      (principal : LabPrincipal) (now : ℕ) (before after : Tables) (row : LabWorkspace)
      → revoke_personal_lab_workspace principal now before ≡ ok (row, after)
      → LabStep before after
  reset :
      (principal : LabPrincipal) (now : ℕ) (before after : Tables) (row : LabWorkspace)
      → reset_personal_lab_workspace principal now before ≡ ok (row, after)
      → LabStep before after
  expired : (now : ℕ) (before : Tables) → LabStep before (expire_due_lab_workspaces now before).1

pub data LabSteps : Tables → Tables → Type 0 where
  no_step : (db : Tables) → LabSteps db db
  and_then :
      (before between after : Tables)
      → LabSteps before between
      → LabStep between after
      → LabSteps before after

step-IsExclusive :
    (before after : Tables) → LabStep before after → IsExclusive before → IsExclusive after
unfolding expire_due_lab_workspaces
step-IsExclusive _ _ (created workspace_id organization_id principal now before after row h)
      exclusive =
    create-IsExclusive workspace_id organization_id principal now before after row h exclusive
step-IsExclusive _ _ (read principal now before) exclusive =
    get-IsExclusive principal now before exclusive
step-IsExclusive _ _ (revoked_by principal now before after row h) exclusive =
    revoke-IsExclusive principal now before after row h exclusive
step-IsExclusive _ _ (reset principal now before after row h) exclusive =
    reset-IsExclusive principal now before after row h exclusive
step-IsExclusive _ _ (expired now before) exclusive =
    expire_each-IsExclusive (filter (is_due now) before.workspaces) now before exclusive

-- Where no principal has two active workspaces, none has after any calls of the lab's operations: what the
-- unique index on active owners asks for.
pub LabSteps-IsExclusive :
    (before after : Tables) → LabSteps before after → IsExclusive before → IsExclusive after
LabSteps-IsExclusive before _ (no_step _) exclusive = exclusive
LabSteps-IsExclusive before after (and_then _ between _ steps step) exclusive =
    step-IsExclusive between after step (LabSteps-IsExclusive before between steps exclusive)
