-- ===== src/Shared/Types.antt =====
-- packages/shared/src/types/common.ts: endpoints and proxies as the gateway holds them.
use api_gateway_platform.Common.{ℕ, String, Bool, Option, List}
use api_gateway_platform.Shared.Policies.{PolicyConfig}
use api_gateway_platform.Shared.Deployments.{EnvironmentConfig}

pub data EndpointMode : Type 0 where
  forward local : EndpointMode

-- A method is the text that the request line is compared with.
pub record EndpointConfig : Type 0 where
  pub id : String
  pub operation_id : String
  pub method : String
  pub mode : EndpointMode
  pub path : String
  pub target_path : Option String
  pub policies : List PolicyConfig

pub record ProxyConfig : Type 0 where
  pub id : String
  pub name : String
  pub base_path : String
  pub deployment_id : String
  pub revision_id : String
  pub revision_number : ℕ
  pub environment : EnvironmentConfig
  pub workspace_id : Option String
  pub runtime_authority : Option String
  pub runtime_public_origin : Option String
  pub system_managed : Bool
  pub upstream_base_url : Option String
  pub endpoints : List EndpointConfig
  pub organization_id : String
  pub active : Bool
