-- ===== src/Examples/Loading.antt =====
-- The theorem on the loader at a lab's deployment and the platform's OAuth proxy.
use api_gateway_platform.Common.{String, ◌≡◌, refl, true, Option, none, some, List, [], ◌∷◌, map}
use api_gateway_platform.Common.Ascii.{to_lower}
use api_gateway_platform.Common.Results.{Result, ok, err}
use api_gateway_platform.Common.Chains.{◌>>=◌, ◌>>◌, guard, require, each}
use api_gateway_platform.Common.Url.{Url}
use api_gateway_platform.Shared.Deployments.{EnvironmentConfig}
use api_gateway_platform.Shared.Policies.{PolicyType, BasePolicyConfig, fail_closed}
use api_gateway_platform.Shared.Types.{ProxyConfig, forward, local}
use api_gateway_platform.Gateway.Validation.{ConfigError, no_target, validate_proxy_configuration}
use api_gateway_platform.Gateway.Rows.{OperationRow, EnvironmentRow, WorkspaceRow, DeploymentRow}
use api_gateway_platform.Gateway.Loader.{
  is_loaded, to_policy, to_endpoint, lab_public_origin, to_config, active_lab_contexts,
  add_contexts, load_proxies_from_database,
}
use api_gateway_platform.Gateway.Valid.{load_proxies_from_database-valid}
use api_gateway_platform.Examples.Data.{environment}

abbrev env : EnvironmentRow
env = record { id = "env"; stage = "qual"; region = "ce"; public_origin = "https://api.test" }

abbrev parsed : Url
parsed = record {
  protocol = "https:";
  username = "";
  password = "";
  host = "Api.Test";
  hostname = "api.test";
  port = "8443";
  pathname = "/";
  search = "";
  hash = "";
  origin = "https://api.test:8443";
}

abbrev parse_environment : EnvironmentRow → Option EnvironmentConfig
parse_environment row = some environment

abbrev parse_policy_config : PolicyType → String → Option BasePolicyConfig
parse_policy_config type raw = some (record { failure_mode = fail_closed; fields = raw })

abbrev parse_url : String → Option Url
parse_url text = some parsed

abbrev token_row : OperationRow
token_row = record {
  id = "token";
  operation_id = "token";
  method = "POST";
  mode = local;
  path = "/token";
  target_path = none;
  policies = record { type = "oauth-token"; order = 1; enabled = true; config = "{}" } ∷ [];
}

abbrev get_row : OperationRow
get_row = record {
  id = "get";
  operation_id = "get";
  method = "GET";
  mode = forward;
  path = "/";
  target_path = some "/";
  policies = [];
}

abbrev deployment : String → String → Option WorkspaceRow → OperationRow → DeploymentRow
deployment id kind workspace row = record {
  id = "d";
  status = "active";
  environment = env;
  lab_workspace = workspace;
  proxy = record {
    id = id;
    name = id;
    active = true;
    system_managed = true;
    organization_id = "org";
    organization_kind = kind;
  };
  revision =
      some (record { id = "r"; revision_number = 1; base_path = "/base"; operations = row ∷ [] });
  upstream_base_url = some "https://backend.test";
}

abbrev rows : List DeploymentRow
rows =
    deployment "proxy-platform-oauth" "standard" none token_row
    ∷ deployment "users" "lab"
        (some (record { id = "w"; hostname = "w.lab"; status = "active"; expires_at = 9 })) get_row
    ∷ []

abbrev configs_of : Result ConfigError (List ProxyConfig) → List ProxyConfig
configs_of (ok configs) = configs
configs_of (err e) = []

-- The platform's OAuth proxy is there for the environment and, once more, for the lab.
abbrev configs : List ProxyConfig
configs =
    configs_of
      (load_proxies_from_database parse_environment parse_policy_config parse_url [] 5 rows)

abbrev workspace_of : ProxyConfig → Option String
workspace_of c = c.workspace_id

load_proxies_from_database_run : map workspace_of configs ≡ none ∷ some "w" ∷ some "w" ∷ []
unfolding load_proxies_from_database is_loaded to_config to_endpoint to_policy lab_public_origin
    active_lab_contexts add_contexts each to_lower ◌>>=◌ ◌>>◌ guard require
load_proxies_from_database_run = refl

load_proxies_from_database_no_target :
    load_proxies_from_database parse_environment parse_policy_config parse_url [] 5
      (deployment "users" "standard" none (record get_row { target_path = none }) ∷ [])
    ≡ err (no_target "get")
unfolding load_proxies_from_database is_loaded to_config to_endpoint to_policy lab_public_origin
    active_lab_contexts add_contexts each to_lower ◌>>=◌ ◌>>◌ guard require
load_proxies_from_database_no_target = refl

load_proxies_from_database-valid_example : validate_proxy_configuration configs ≡ ok tt
unfolding load_proxies_from_database is_loaded to_config to_endpoint to_policy lab_public_origin
    active_lab_contexts add_contexts each to_lower ◌>>=◌ ◌>>◌ guard require
load_proxies_from_database-valid_example =
    load_proxies_from_database-valid parse_environment parse_policy_config parse_url [] 5 rows
      configs refl
