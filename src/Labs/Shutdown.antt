-- ===== src/Labs/Shutdown.antt =====
-- What is left of a workspace that is revoked.
use api_gateway_platform.Common.{
  ℕ, String, ◌≡◌, refl, sym, ap, ◌∙◌, inl, inr, Bool, false, not, ◌&&◌, none, some, List, [], ◌∷◌,
  any, ◌==◌, arith, Bool-cases,
}
use api_gateway_platform.Common.Results.{ok}
use api_gateway_platform.Common.Chains.{then_returns, require_returns, same_returns}
use api_gateway_platform.Database.Rows.{Deployment}
use api_gateway_platform.Database.Deployments.{retire}
use api_gateway_platform.Database.Tables.{
  is_revoked, revoked, DeveloperApp, AppCredential, LabWorkspaceStatus, revoked_workspace,
  revoked_authority, LabWorkspace, Tables, find_key, update_key,
}
use api_gateway_platform.Labs.Resources.{
  LabPrincipal, is_active_workspace, update_where, is_routed, has_workspace, app_in, credential_in,
  can_issue, deactivate_workspace_resources, disable_workspace_resources, record_lab_audit,
  workspace_key,
}
use api_gateway_platform.Labs.Workspaces.{current_workspace, revoke_personal_lab_workspace}

-- Nothing of the workspace or its organization is in use: no deployment, proxy, application,
-- credential, grant, key, certificate, upstream or authority.
pub record IsShut (workspace_id organization_id : String) (db : Tables) : Type 0 where
  pub deployments : any (is_routed workspace_id) db.deployments ≡ false
  pub proxies : any (λ p. p.organization_id == organization_id && p.active) db.proxies ≡ false
  pub apps :
      any (λ a. a.organization_id == organization_id && not (is_revoked a.status)) db.apps ≡ false
  pub credentials :
      any (λ c. app_in organization_id db.apps c.app_id && not (is_revoked c.status)) db.credentials
      ≡ false
  pub grants :
      any
        (λ g.
          credential_in organization_id db.apps db.credentials g.credential_id
          && not (is_revoked g.status))
        db.grants
      ≡ false
  pub keys :
      any
        (λ k.
          credential_in organization_id db.apps db.credentials k.credential_id
          && not (is_revoked k.status))
        db.keys
      ≡ false
  pub certificates :
      any
        (λ c.
          credential_in organization_id db.apps db.credentials c.credential_id
          && not (is_revoked c.status))
        db.certificates
      ≡ false
  pub upstreams : any (λ u. u.workspace_id == workspace_id && u.active) db.upstreams ≡ false
  pub authorities :
      any (λ a. a.organization_id == organization_id && can_issue a) db.authorities ≡ false

module _ {A : Type 0} (selects bad : A → Bool) (f : A → A) where
  -- What an update leaves alone is not bad, and what it changes is not bad then.
  update_where-none :
      (rows : List A)
      → ((a : A) → selects a ≡ false → bad a ≡ false)
      → ((a : A) → bad (f a) ≡ false)
      → any bad (update_where selects f rows) ≡ false
  update_where-none [] skips clears = refl
  update_where-none (a ∷ rows) skips clears =
      let rest = update_where-none rows skips clears in
      elim (Bool-cases (selects a)) [
        | inl e ↦ rw e (rw (clears a, rest) refl)
        | inr e ↦ rw e (rw (skips a e, rest) refl)
      ]

  -- A test that the change does not touch.
  update_where-same :
      (rows : List A)
      → ((a : A) → bad (f a) ≡ bad a)
      → any bad (update_where selects f rows) ≡ any bad rows
  update_where-same [] same = refl
  update_where-same (a ∷ rows) same =
      let rest = update_where-same rows same in
      elim (Bool-cases (selects a)) [
        | inl e ↦ rw e (rw (same a, rest) refl)
        | inr e ↦ rw e (rw rest refl)
      ]

and_not-false : (a b : Bool) → a ≡ false → (a && b) ≡ false
and_not-false a b h = ground arith

and_of-false : (a b : Bool) → b ≡ false → (a && b) ≡ false
and_of-false a b h = ground arith

-- Rows that are selected and that an update closes.
closed :
    {A : Type 0} (selects is_open : A → Bool) (f : A → A) (rows : List A)
    → ((a : A) → is_open (f a) ≡ false)
    → any (λ a. selects a && is_open a) (update_where selects f rows) ≡ false
closed selects is_open f rows clears =
    update_where-none selects (λ a. selects a && is_open a) f rows
      (λ a e. and_not-false (selects a) (is_open a) e)
      (λ a. and_of-false (selects (f a)) (is_open (f a)) (clears a))

-- The applications and credentials of an organization are the same after the update.
app_in-same :
    (organization_id id : String) (apps : List DeveloperApp)
    → app_in organization_id
        (update_where
          (λ a. a.organization_id == organization_id)
          (λ a. record a { status = revoked })
          apps)
        id
      ≡ app_in organization_id apps id
app_in-same organization_id id apps =
    update_where-same (λ a. a.organization_id == organization_id)
      (λ a. a.id == id && a.organization_id == organization_id) (λ a. record a { status = revoked })
      apps (λ a. refl)

any-cong :
    {A : Type 0} (p q : A → Bool) (rows : List A) → ((a : A) → p a ≡ q a) → any p rows ≡ any q rows
any-cong p q [] same = refl
any-cong p q (a ∷ rows) same = rw (same a, any-cong p q rows same) refl

abbrev revoked_apps : String → List DeveloperApp → List DeveloperApp
revoked_apps organization_id apps =
    update_where (λ a. a.organization_id == organization_id) (λ a. record a { status = revoked })
      apps

abbrev revoked_credentials : String → List DeveloperApp → List AppCredential → List AppCredential
revoked_credentials organization_id apps credentials =
    update_where (λ c. app_in organization_id apps c.app_id) (λ c. record c { status = revoked })
      credentials

credential_in-same :
    (organization_id id : String) (apps : List DeveloperApp) (credentials : List AppCredential)
    → credential_in organization_id
        (revoked_apps organization_id apps)
        (revoked_credentials organization_id apps credentials)
        id
      ≡ credential_in organization_id apps credentials id
credential_in-same organization_id id apps credentials =
    update_where-same (λ c. app_in organization_id apps c.app_id)
      (λ c. c.id == id && app_in organization_id (revoked_apps organization_id apps) c.app_id)
      (λ c. record c { status = revoked }) credentials (λ c. refl)
    ∙ any-cong _ _ credentials
        (λ c. ap (λ b. c.id == id && b) (app_in-same organization_id c.app_id apps))

module _ (organization_id : String) (apps : List DeveloperApp)
    (credentials : List AppCredential) where
  -- Rows of the organization's credentials that an update revokes.
  revoked_rows :
      {A : Type 0} (of : A → String) (is_open : A → Bool) (f : A → A) (rows : List A)
      → ((a : A) → is_open (f a) ≡ false)
      → any
          (λ a.
            credential_in organization_id
              (revoked_apps organization_id apps)
              (revoked_credentials organization_id apps credentials)
              (of a)
            && is_open a)
          (update_where (λ a. credential_in organization_id apps credentials (of a)) f rows)
        ≡ false
  revoked_rows of is_open f rows clears =
      update_where-none (λ a. credential_in organization_id apps credentials (of a)) _ f rows
        (λ a e.
          and_not-false _ (is_open a)
            (credential_in-same organization_id (of a) apps credentials ∙ e))
        (λ a. and_of-false _ _ (clears a))

routed-retired :
    (workspace_id : String) (d : Deployment) → is_routed workspace_id (retire d) ≡ false
routed-retired workspace_id d = and_of-false (has_workspace workspace_id d) false refl

deactivate-IsShut :
    (workspace_id organization_id : String) (principal : LabPrincipal) (status : LabWorkspaceStatus)
    (now : ℕ) (db : Tables)
    → IsShut workspace_id organization_id
        (deactivate_workspace_resources workspace_id organization_id principal status now db)
unfolding deactivate_workspace_resources disable_workspace_resources record_lab_audit
deactivate-IsShut workspace_id organization_id principal status now db = record {
  deployments =
      update_where-none (is_routed workspace_id) (is_routed workspace_id) retire db.deployments
        (λ d e. e) (routed-retired workspace_id);
  proxies =
      closed (λ p. p.organization_id == organization_id) (λ p. p.active)
        (λ p. record p { active = false }) db.proxies (λ p. refl);
  apps =
      closed (λ a. a.organization_id == organization_id) (λ a. not (is_revoked a.status))
        (λ a. record a { status = revoked }) db.apps (λ a. refl);
  credentials =
      update_where-none (λ c. app_in organization_id db.apps c.app_id)
        (λ c.
          app_in organization_id (revoked_apps organization_id db.apps) c.app_id
          && not (is_revoked c.status))
        (λ c. record c { status = revoked }) db.credentials
        (λ c e.
          and_not-false _ (not (is_revoked c.status))
            (app_in-same organization_id c.app_id db.apps ∙ e))
        (λ c.
          and_of-false (app_in organization_id (revoked_apps organization_id db.apps) c.app_id)
            false refl);
  grants =
      revoked_rows organization_id db.apps db.credentials (λ g. g.credential_id)
        (λ g. not (is_revoked g.status)) _ db.grants (λ g. refl);
  keys =
      revoked_rows organization_id db.apps db.credentials (λ k. k.credential_id)
        (λ k. not (is_revoked k.status)) _ db.keys (λ k. refl);
  certificates =
      revoked_rows organization_id db.apps db.credentials (λ c. c.credential_id)
        (λ c. not (is_revoked c.status)) _ db.certificates (λ c. refl);
  upstreams =
      closed (λ u. u.workspace_id == workspace_id) (λ u. u.active)
        (λ u. record u { active = false }) db.upstreams (λ u. refl);
  authorities =
      update_where-none (λ a. a.organization_id == organization_id && can_issue a)
        (λ a. a.organization_id == organization_id && can_issue a)
        (λ a. record a { status = revoked_authority; is_default_issuer = false }) db.authorities
        (λ a e. e) (λ a. and_of-false (a.organization_id == organization_id) false refl);
}

-- The rows of a workspace after the write of its status.
abbrev revoked_workspaces : String → List LabWorkspace → List LabWorkspace
revoked_workspaces id rows =
    update_key workspace_key id (λ w. record w { status = revoked_workspace }) rows

none_active :
    (id : String) (rows : List LabWorkspace)
    → any (λ w. w.id == id && is_active_workspace w) (revoked_workspaces id rows) ≡ false
none_active id rows =
    closed (λ w. w.id == id) is_active_workspace (λ w. record w { status = revoked_workspace }) rows
      (λ w. refl)

find_key-status :
    (id : String) (rows : List LabWorkspace) (w : LabWorkspace)
    → find_key workspace_key id (revoked_workspaces id rows) ≡ some w
    → w.status ≡ revoked_workspace
find_key-status id [] w h = cc
find_key-status id (x ∷ rows) w h = elim (Bool-cases (x.id == id)) [
  | inl mine ↦
      let same : some (record x { status = revoked_workspace }) ≡ some w = rw (mine, mine) at h in
      rw (sym (of_some same)) refl
  | inr other' ↦ find_key-status id rows w (rw (other', other') at h)
]
  where
    of_some : {a b : LabWorkspace} → some a ≡ some b → a ≡ b
    of_some {a} e = ap (λ o. elim o [ none ↦ a | some c ↦ c ]) e

-- The workspaces after a shutdown.
deactivate-workspaces :
    (workspace_id organization_id : String) (principal : LabPrincipal) (now : ℕ) (db : Tables)
    → (deactivate_workspace_resources workspace_id organization_id principal revoked_workspace now
        db).workspaces
      ≡ revoked_workspaces workspace_id db.workspaces
unfolding deactivate_workspace_resources disable_workspace_resources record_lab_audit
deactivate-workspaces workspace_id organization_id principal now db = refl

-- A principal who revokes a lab gets back the workspace that was active, now revoked. No row of that
-- workspace is active afterwards, so it is not the current one of anyone, and nothing of it or of
-- its organization is in use.
pub revoke_personal_lab_workspace-IsShut :
    (principal : LabPrincipal) (now : ℕ) (db after : Tables) (workspace : LabWorkspace)
    → revoke_personal_lab_workspace principal now db ≡ ok (workspace, after)
    → (current : LabWorkspace) × (current_workspace principal db ≡ some current)
      × (find_key workspace_key current.id after.workspaces ≡ some workspace)
      × (workspace.status ≡ revoked_workspace)
      × (any (λ w. w.id == current.id && is_active_workspace w) after.workspaces ≡ false)
      × IsShut current.id current.organization_id after
unfolding revoke_personal_lab_workspace
revoke_personal_lab_workspace-IsShut principal now db after workspace h =
    let (current, found, h) = then_returns h in
    let (row, read, h) = then_returns h in
    let result = same_returns refl h in
    let shut =
      deactivate-IsShut current.id current.organization_id principal revoked_workspace now db in
    let rows = deactivate-workspaces current.id current.organization_id principal now db in
    let stored = require_returns _ _ read in
    let status = find_key-status current.id db.workspaces row (rw rows at stored) in
    let idle =
      ap (any (λ w. w.id == current.id && is_active_workspace w)) rows
      ∙ none_active current.id db.workspaces in
    (
      current,
      require_returns _ _ found,
      moved (λ r. find_key workspace_key current.id r.1.workspaces ≡ some r.0) result stored,
      moved (λ r. r.0.status ≡ revoked_workspace) result status,
      moved (λ r. any (λ w. w.id == current.id && is_active_workspace w) r.1.workspaces ≡ false)
          result idle,
      moved (λ r. IsShut current.id current.organization_id r.1) result shut,
    )
  where
    moved : (C : LabWorkspace × Tables → Type 0) {p q : LabWorkspace × Tables} → p ≡ q → C p → C q
    moved C e h = rw (sym e) h
