-- ===== src/Gateway/Loader.antt =====
-- packages/gateway-core/src/db/proxy-loader.ts: `loadProxiesFromDatabase`. A row holds the rows that it
-- includes, the policies of an operation by ascending order. The schemas of environments and policy
-- configurations and the parsing of URLs are parameters, `none` standing for their exceptions.
use api_gateway_platform.Common.{
  ℕ, String, Bool, false, not, ◌&&◌, ◌||◌, Option, none, some, List, [], ◌∷◌, ◌++◌, filter, find,
  any, includes, is_empty, length, ltb, if◌then◌else◌, ◌==◌, is_some,
}
use api_gateway_platform.Common.Ascii.{to_lower}
use api_gateway_platform.Common.Maps.{insert}
use api_gateway_platform.Common.Results.{Result, ok}
use api_gateway_platform.Common.Chains.{◌>>=◌, ◌>>◌, guard, require, each}
use api_gateway_platform.Common.Text.{concat}
use api_gateway_platform.Common.Url.{Url, UrlParser}
use api_gateway_platform.Shared.Deployments.{EnvironmentConfig}
use api_gateway_platform.Shared.Policies.{
  PolicyType, PolicyConfig, BasePolicyConfig, policy_name, api_key_auth, oauth_token,
  oauth_access_token, jwks_endpoint, mtls_auth, rate_limit, transform, schema_validation, audit_log,
  cors,
}
use api_gateway_platform.Shared.Types.{EndpointConfig, ProxyConfig}
use api_gateway_platform.Resolver.Registry.{present}
use api_gateway_platform.Gateway.Rows.{
  PolicyRow, OperationRow, EnvironmentRow, WorkspaceRow, DeploymentRow,
}
use api_gateway_platform.Gateway.Validation.{
  ConfigError, several_authentications, no_terminal_policy, no_target, requires_local, no_revision,
  no_upstream, unsupported_policy, invalid_configuration, is_authentication, is_oauth_token,
  is_jwks_endpoint, is_local, enabled_types,
}

abbrev is_open_workspace : Option WorkspaceRow → ℕ → Bool
is_open_workspace none now = false
is_open_workspace (some w) now = w.status == "active" && ltb now w.expires_at

-- The condition of the query.
unfoldable pub is_loaded : List String → ℕ → DeploymentRow → Bool
is_loaded environment_ids now d =
    d.status == "active"
    && d.proxy.active
    && (not (is_some d.lab_workspace) && d.proxy.organization_kind == "standard"
        || is_open_workspace d.lab_workspace now && d.proxy.organization_kind == "lab")
    && (is_empty environment_ids || includes environment_ids d.environment.id)

abbrev policy_types : List PolicyType
policy_types =
    api_key_auth ∷ oauth_token ∷ oauth_access_token ∷ jwks_endpoint ∷ mtls_auth ∷ rate_limit
    ∷ transform ∷ schema_validation ∷ audit_log ∷ cors ∷ []

-- `isPolicyType`, with the type that the text names
abbrev pub to_policy_type : String → Option PolicyType
to_policy_type name = find (λ t. policy_name t == name) policy_types

module _ (parse_environment : EnvironmentRow → Option EnvironmentConfig)
    (parse_policy_config : PolicyType → String → Option BasePolicyConfig)
    (parse_url : UrlParser) where
  unfoldable pub to_policy : String → PolicyRow → Result ConfigError PolicyConfig
  to_policy operation_id row = do
    type ← require (to_policy_type row.type) (unsupported_policy operation_id)
    config ← require (parse_policy_config type row.config) invalid_configuration
    ok (record { type = type; order = row.order; enabled = row.enabled; config = config })

  unfoldable pub to_endpoint :
      String → Option String → OperationRow → Result ConfigError EndpointConfig
  unfolding to_policy
  to_endpoint deployment_id upstream_base_url row = do
    policies ← each (to_policy row.id) row.policies
    let types = enabled_types policies
    guard (not (ltb 1 (length (filter is_authentication types)))) (several_authentications row.id)
    guard (not (is_local row.mode && not (any (λ t. is_oauth_token t || is_jwks_endpoint t) types)))
        (no_terminal_policy row.id)
    guard (not (not (is_local row.mode) && not (is_some (present row.target_path))))
        (no_target row.id)
    guard (not (not (is_local row.mode) && not (is_some (present upstream_base_url))))
        (no_upstream deployment_id)
    guard (not (any is_oauth_token types && not (is_local row.mode))) (requires_local row.id)
    guard (not (any is_jwks_endpoint types && not (is_local row.mode))) (requires_local row.id)
    ok (record {
      id = row.id;
      operation_id = row.operation_id;
      method = row.method;
      mode = row.mode;
      path = row.path;
      target_path = row.target_path;
      policies = policies;
    })

  unfoldable pub lab_public_origin : String → String → Result ConfigError String
  lab_public_origin hostname environment_origin = do
    environment ← require (parse_url environment_origin) invalid_configuration
    ok (
        concat (
          "https://"
          ∷ hostname
          ∷ (if environment.port == "" then "" else concat (":" ∷ environment.port ∷ []))
          ∷ []))

  abbrev origin_of : DeploymentRow → Result ConfigError String
  origin_of d = elim d.lab_workspace [
    | none ↦ ok d.environment.public_origin
    | some w ↦ lab_public_origin w.hostname d.environment.public_origin
  ]

  abbrev workspace_id_of : Option WorkspaceRow → Option String
  workspace_id_of none = none
  workspace_id_of (some w) = some w.id

  unfoldable pub to_config : DeploymentRow → Result ConfigError ProxyConfig
  unfolding to_endpoint lab_public_origin
  to_config d = do
    revision ← require d.revision (no_revision d.id)
    origin ← origin_of d
    environment ← require (parse_environment d.environment) invalid_configuration
    url ← require (parse_url origin) invalid_configuration
    endpoints ← each (to_endpoint d.id d.upstream_base_url) revision.operations
    ok (record {
      id = d.proxy.id;
      name = d.proxy.name;
      base_path = revision.base_path;
      deployment_id = d.id;
      revision_id = revision.id;
      revision_number = revision.revision_number;
      environment = environment;
      workspace_id = workspace_id_of d.lab_workspace;
      runtime_authority = some (to_lower url.host);
      runtime_public_origin = some origin;
      system_managed = d.proxy.system_managed;
      upstream_base_url = d.upstream_base_url;
      endpoints = endpoints;
      organization_id = d.proxy.organization_id;
      active = d.status == "active" && d.proxy.active;
    })

  -- A workspace, its host and an environment.
  abbrev pub LabContext : Type 0
  LabContext = String × (String × String)

  unfoldable pub active_lab_contexts :
      List DeploymentRow → List (String × LabContext) → List (String × LabContext)
  active_lab_contexts [] contexts = contexts
  active_lab_contexts (d ∷ ds) contexts = elim d.lab_workspace [
    | none ↦ active_lab_contexts ds contexts
    | some w ↦ active_lab_contexts ds (
        insert (concat (w.id ∷ ":" ∷ d.environment.id ∷ [])) (w.id, (w.hostname, d.environment.id))
          contexts)
  ]

  abbrev pub is_platform_oauth : String → ProxyConfig → Bool
  is_platform_oauth environment_id c =
      c.id == "proxy-platform-oauth"
      && c.environment.id == environment_id
      && not (is_some (present c.workspace_id))

  abbrev pub oauth_copy : ProxyConfig → String → String → Url → ProxyConfig
  oauth_copy oauth workspace_id origin url = record oauth {
    deployment_id = concat (oauth.deployment_id ∷ ":lab:" ∷ workspace_id ∷ []);
    workspace_id = some workspace_id;
    runtime_authority = some (to_lower url.host);
    runtime_public_origin = some origin;
  }

  -- The platform's OAuth proxy is offered in each lab.
  unfoldable pub add_contexts :
      List (String × LabContext) → List ProxyConfig → Result ConfigError (List ProxyConfig)
  add_contexts [] configs = ok configs
  add_contexts ((_, (workspace_id, (hostname, environment_id))) ∷ contexts) configs =
      elim (find (is_platform_oauth environment_id) configs) [
        | none ↦ add_contexts contexts configs
        | some oauth ↦ lab_public_origin hostname oauth.environment.public_origin >>= (λ origin.
            require (parse_url origin) invalid_configuration >>= (λ url.
              add_contexts contexts (configs ++ oauth_copy oauth workspace_id origin url ∷ [])))
      ]

  unfoldable pub load_proxies_from_database :
      List String → ℕ → List DeploymentRow → Result ConfigError (List ProxyConfig)
  unfolding to_config add_contexts active_lab_contexts is_loaded
  load_proxies_from_database environment_ids now rows = do
    let deployments = filter (is_loaded environment_ids now) rows
    configs ← each to_config deployments
    add_contexts (active_lab_contexts deployments []) configs
