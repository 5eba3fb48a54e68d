-- ===== src/Gateway/Rows.antt =====
-- packages/gateway-core/src/db/proxy-loader.ts: the rows of the query, each with the rows that it
-- includes.
use api_gateway_platform.Common.{ℕ, String, Bool, Option, List}
use api_gateway_platform.Shared.Types.{EndpointMode}

pub record PolicyRow : Type 0 where
  pub type : String
  pub order : ℕ
  pub enabled : Bool
  pub config : String

pub record OperationRow : Type 0 where
  pub id : String
  pub operation_id : String
  pub method : String
  pub mode : EndpointMode
  pub path : String
  pub target_path : Option String
  pub policies : List PolicyRow

pub record RevisionRow : Type 0 where
  pub id : String
  pub revision_number : ℕ
  pub base_path : String
  pub operations : List OperationRow

pub record EnvironmentRow : Type 0 where
  pub id : String
  pub stage : String
  pub region : String
  pub public_origin : String

pub record WorkspaceRow : Type 0 where
  pub id : String
  pub hostname : String
  pub status : String
  pub expires_at : ℕ

pub record ProxyRow : Type 0 where
  pub id : String
  pub name : String
  pub active : Bool
  pub system_managed : Bool
  pub organization_id : String
  pub organization_kind : String

pub record DeploymentRow : Type 0 where
  pub id : String
  pub status : String
  pub environment : EnvironmentRow
  pub lab_workspace : Option WorkspaceRow
  pub proxy : ProxyRow
  pub revision : Option RevisionRow
  pub upstream_base_url : Option String
