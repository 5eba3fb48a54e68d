-- ===== src/Database/Rows.antt =====
-- packages/database/src/proxy-deployments.ts: the errors, the inputs and the rows that deployments
-- read and write. A row holds the rows that it refers to.
use api_gateway_platform.Common.{ℕ, String, Bool, Option, List}
use api_gateway_platform.Shared.Deployments.{DeploymentStage, DeploymentRegion}
use api_gateway_platform.Shared.Types.{EndpointMode}
use api_gateway_platform.Database.Changes.{ChangeLog}

pub data ProxyDeploymentErrorCode : Type 0 where
  proxy_not_found revision_not_found environment_not_found : ProxyDeploymentErrorCode
  system_proxy_immutable upstream_required promotion_required : ProxyDeploymentErrorCode
  lab_workspace_invalid deployment_conflict active_deployment_not_found : ProxyDeploymentErrorCode

pub record Proxy : Type 0 where
  pub id : String
  pub organization_id : String
  pub system_managed : Bool

pub record Revision : Type 0 where
  pub id : String
  pub proxy_id : String
  pub revision_number : ℕ
  pub base_path : String
  pub operations : List EndpointMode

pub record Environment : Type 0 where
  pub id : String
  pub stage : DeploymentStage
  pub region : DeploymentRegion

pub record Workspace : Type 0 where
  pub id : String
  pub organization_id : String
  pub status : String
  pub expires_at : ℕ

pub data DeploymentStatus : Type 0 where
  active retired other_status : DeploymentStatus

pub record Deployment : Type 0 where
  pub id : String
  pub proxy : Proxy
  pub revision : Revision
  pub environment : Environment
  pub lab_workspace_id : Option String
  pub upstream_base_url : Option String
  pub status : DeploymentStatus

pub record AuditEvent : Type 0 where
  pub actor : String
  pub organization_id : String
  pub action : String
  pub resource_id : String
  pub rollback : Bool

pub record Database : Type 0 where
  pub proxies : List Proxy
  pub revisions : List Revision
  pub environments : List Environment
  pub workspaces : List Workspace
  pub deployments : List Deployment
  pub audit : List AuditEvent
  pub log : ChangeLog

pub record DeployProxyRevisionInput : Type 0 where
  pub proxy_id : String
  pub revision_number : ℕ
  pub environment_id : String
  pub upstream_base_url : Option String
  pub lab_workspace_id : Option String
  pub actor : String
  pub allow_system_managed : Bool

pub record RetireProxyDeploymentInput : Type 0 where
  pub deployment_id : String
  pub actor : String
  pub allow_system_managed : Bool
