-- ===== src/Database/Deployments.antt =====
-- packages/database/src/proxy-deployments.ts: `deployProxyRevision` and `retireProxyDeployment`. A
-- row holds the rows that it refers to. A transaction that throws changes nothing. The locks and the
-- isolation level make transactions follow one another, so each is one step.
use api_gateway_platform.Common.{
  ℕ, String, Bool, true, false, not, ◌&&◌, ◌||◌, Option, none, some, List, [], ◌∷◌, ◌++◌, map, any,
  find, ltb, eqb, if◌then◌else◌, ◌==◌, is_some,
}
use api_gateway_platform.Common.Results.{Result, ok, err, ◌>>=◌, ◌>>◌, guard}
use api_gateway_platform.Resolver.Registry.{present}
use api_gateway_platform.Shared.Deployments.{
  DeploymentStage, qual, pprod, prod, DeploymentRegion, stage_eq, region_name,
}
use api_gateway_platform.Shared.Types.{EndpointMode, forward, local}
use api_gateway_platform.Database.Changes.{record_gateway_config_change}
use api_gateway_platform.Database.Rows.{
  ProxyDeploymentErrorCode, Proxy, Revision, Environment, Workspace, Deployment, Database,
  DeployProxyRevisionInput, RetireProxyDeploymentInput, proxy_not_found, revision_not_found,
  environment_not_found, system_proxy_immutable, upstream_required, promotion_required,
  lab_workspace_invalid, deployment_conflict, active_deployment_not_found, active, retired,
  other_status,
}

unfoldable pub previous_stage : DeploymentStage → Option DeploymentStage
previous_stage pprod = some qual
previous_stage prod = some pprod
previous_stage qual = none

abbrev pub same_region : DeploymentRegion → DeploymentRegion → Bool
same_region a b = region_name a == region_name b

abbrev pub is_active : Deployment → Bool
is_active d = elim d.status [ active ↦ true | retired ↦ false | other_status ↦ false ]

-- active or retired
abbrev pub was_deployed : Deployment → Bool
was_deployed d = elim d.status [ active ↦ true | retired ↦ true | other_status ↦ false ]

-- A column that may be null is compared with a value that may be null.
abbrev pub same_scope : Option String → Option String → Bool
same_scope none none = true
same_scope (some a) (some b) = a == b
same_scope _ _ = false

-- An active deployment in the environment and scope.
abbrev pub is_active_in : String → Option String → Deployment → Bool
is_active_in environment_id scope d =
    is_active d && d.environment.id == environment_id && same_scope d.lab_workspace_id scope

abbrev pub conflicts : DeployProxyRevisionInput → Revision → Deployment → Bool
conflicts input revision d =
    is_active_in input.environment_id input.lab_workspace_id d
    && not (d.proxy.id == input.proxy_id)
    && d.revision.base_path == revision.base_path

abbrev pub replaces : String → String → Option String → Deployment → Bool
replaces proxy_id environment_id scope d =
    is_active_in environment_id scope d && d.proxy.id == proxy_id

abbrev pub promotes : Revision → DeploymentStage → DeploymentRegion → Deployment → Bool
promotes revision stage region d =
    d.revision.id == revision.id
    && not (is_some d.lab_workspace_id)
    && stage_eq d.environment.stage stage
    && same_region d.environment.region region
    && was_deployed d

abbrev pub retire : Deployment → Deployment
retire d = record d { status = retired }

abbrev pub retire_id : String → List Deployment → List Deployment
retire_id id ds = map (λ d. if d.id == id then retire d else d) ds

abbrev pub is_forward : EndpointMode → Bool
is_forward forward = true
is_forward local = false

abbrev pub require :
    {A : Type 0} → Option A → ProxyDeploymentErrorCode → Result ProxyDeploymentErrorCode A
require none e = err e
require (some a) e = ok a

abbrev pub workspace_fits : Workspace → Proxy → Environment → ℕ → Bool
workspace_fits workspace proxy environment now =
    workspace.organization_id == proxy.organization_id
    && workspace.status == "active"
    && ltb now workspace.expires_at
    && stage_eq environment.stage qual

abbrev pub new_deployment :
    DeployProxyRevisionInput → Proxy → Revision → Environment → Option String → String → Deployment
new_deployment input proxy revision environment upstream id = record {
  id = id;
  proxy = proxy;
  revision = revision;
  environment = environment;
  lab_workspace_id = input.lab_workspace_id;
  upstream_base_url = upstream;
  status = active;
}

abbrev pub is_rollback : ℕ → Option Deployment → Bool
is_rollback revision_number none = false
is_rollback revision_number (some previous) = ltb revision_number previous.revision.revision_number

abbrev pub retire_previous : Option Deployment → List Deployment → List Deployment
retire_previous none ds = ds
retire_previous (some previous) ds = retire_id previous.id ds

abbrev pub action_of : Option Deployment → String
action_of none = "proxyDeployment.create"
action_of (some _) = "proxyDeployment.replace"

-- `protocol` is that of the parsed URL, `none` where parsing throws; `strip` removes slashes at the
-- end; `fresh` is the identifier of the next row.
module _ (protocol : String → Option String) (strip : String → String) (fresh : Database → String)
    (now : ℕ) where
  unfoldable pub normalize_upstream :
      Option String → Result ProxyDeploymentErrorCode (Option String)
  normalize_upstream none = ok none
  normalize_upstream (some value) = elim (protocol value) [
    | none ↦ err upstream_required
    | some p ↦
        if p == "http:" || p == "https:" then ok (some (strip value)) else err upstream_required
  ]

  -- The checks between the locks and the first write.
  unfoldable pub check_workspace :
      DeployProxyRevisionInput
      → Proxy
      → Environment
      → Database
      → Result ProxyDeploymentErrorCode (Unit {0})
  check_workspace input proxy environment db = elim (present input.lab_workspace_id) [
    | none ↦ ok tt
    | some id ↦ elim (find (λ w. w.id == id) db.workspaces) [
      | none ↦ err lab_workspace_invalid
      | some workspace ↦
          guard (workspace_fits workspace proxy environment now) lab_workspace_invalid
    ]
  ]

  unfoldable pub required_stage : DeployProxyRevisionInput → Environment → Option DeploymentStage
  required_stage input environment = elim (present input.lab_workspace_id) [
    | some _ ↦ none
    | none ↦ previous_stage environment.stage
  ]

  unfoldable pub check_promotion :
      DeployProxyRevisionInput
      → Revision
      → Environment
      → Database
      → Result ProxyDeploymentErrorCode (Unit {0})
  check_promotion input revision environment db = elim (required_stage input environment) [
    | none ↦ ok tt
    | some stage ↦
        guard (any (promotes revision stage environment.region) db.deployments) promotion_required
  ]

  -- The writes: the previous deployment is retired, the new one is created, and the audit log and
  -- the log of changes get their rows.
  unfoldable pub write_deployment :
      DeployProxyRevisionInput
      → Proxy
      → Revision
      → Environment
      → Option String
      → Database
      → ℕ × Database
  write_deployment input proxy revision environment upstream db =
      let previous =
        find (replaces input.proxy_id input.environment_id input.lab_workspace_id) db.deployments in
      let id = fresh db in
      let rollback = is_rollback input.revision_number previous in
      let (version, log) =
        record_gateway_config_change
          (record {
            change_type = if rollback then "proxyDeployment.rollback" else action_of previous;
            resource_type = "ProxyDeployment";
            resource_id = id;
            environment_id = some input.environment_id;
          })
          db.log in
      (
        version,
        record db {
          deployments =
              retire_previous previous db.deployments
              ++ new_deployment input proxy revision environment upstream id ∷ [];
          audit =
              db.audit
              ++ record {
                actor = input.actor;
                organization_id = proxy.organization_id;
                action = action_of previous;
                resource_id = id;
                rollback = rollback;
              }
                ∷ [];
          log = log;
        },
      )

  -- From the check of the workspace to the writes.
  unfoldable pub deploy_to :
      DeployProxyRevisionInput
      → Option String
      → Proxy
      → Revision
      → Environment
      → Database
      → Result ProxyDeploymentErrorCode (ℕ × Database)
  unfolding write_deployment
  deploy_to input upstream proxy revision environment db = do
    check_workspace input proxy environment db
    guard (not (any is_forward revision.operations) || is_some (present upstream)) upstream_required
    check_promotion input revision environment db
    guard (not (any (conflicts input revision) db.deployments)) deployment_conflict
    ok (write_deployment input proxy revision environment upstream db)

  unfoldable pub deploy_proxy_revision :
      DeployProxyRevisionInput → Database → Result ProxyDeploymentErrorCode (ℕ × Database)
  unfolding deploy_to
  deploy_proxy_revision input db = do
    upstream ← normalize_upstream input.upstream_base_url
    proxy ← require (find (λ p. p.id == input.proxy_id) db.proxies) proxy_not_found
    guard (not proxy.system_managed || input.allow_system_managed) system_proxy_immutable
    revision ←
        require
          (find (λ r. r.proxy_id == input.proxy_id && eqb r.revision_number input.revision_number)
            db.revisions)
          revision_not_found
    environment ←
        require (find (λ e. e.id == input.environment_id) db.environments) environment_not_found
    deploy_to input upstream proxy revision environment db

  abbrev has_id : String → Deployment → Bool
  has_id id d = d.id == id

  -- The second read, after the lock, sees what the first did.
  unfoldable pub retire_proxy_deployment :
      RetireProxyDeploymentInput → Database → Result ProxyDeploymentErrorCode (ℕ × Database)
  retire_proxy_deployment input db = do
    current ← require (find (has_id input.deployment_id) db.deployments) active_deployment_not_found
    guard (is_active current) active_deployment_not_found
    guard (not current.proxy.system_managed || input.allow_system_managed) system_proxy_immutable
    let (version, log) =
        record_gateway_config_change
          (record {
            change_type = "proxyDeployment.retire";
            resource_type = "ProxyDeployment";
            resource_id = input.deployment_id;
            environment_id = some current.environment.id;
          })
          db.log
    ok (
      version,
      record db {
        deployments = retire_id input.deployment_id db.deployments;
        audit =
            db.audit
            ++ record {
              actor = input.actor;
              organization_id = current.proxy.organization_id;
              action = "proxyDeployment.retire";
              resource_id = input.deployment_id;
              rollback = false;
            }
              ∷ [];
        log = log;
      },
    )
