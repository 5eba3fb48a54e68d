-- ===== src/Gateway/Validation.antt =====
-- packages/gateway-core/src/proxy/config-validator.ts.
use api_gateway_platform.Common.{
  String, Bool, true, false, not, ◌&&◌, ◌||◌, Option, List, map, filter, any, length, ltb, is_some,
}
use api_gateway_platform.Common.Results.{Result, ok}
use api_gateway_platform.Common.Chains.{◌>>◌, guard, for_all}
use api_gateway_platform.Shared.Policies.{
  PolicyType, PolicyConfig, api_key_auth, oauth_token, oauth_access_token, jwks_endpoint, mtls_auth,
}
use api_gateway_platform.Shared.Types.{EndpointMode, EndpointConfig, ProxyConfig, forward, local}
use api_gateway_platform.Resolver.Registry.{present}

-- The exceptions, with the identifier that their text names.
pub data ConfigError : Type 0 where
  several_authentications no_terminal_policy no_target requires_local : String → ConfigError
  no_revision no_upstream unsupported_policy : String → ConfigError
  invalid_configuration : ConfigError

abbrev pub is_authentication : PolicyType → Bool
is_authentication api_key_auth = true
is_authentication oauth_access_token = true
is_authentication mtls_auth = true
is_authentication _ = false

abbrev pub is_oauth_token : PolicyType → Bool
is_oauth_token oauth_token = true
is_oauth_token _ = false

abbrev pub is_jwks_endpoint : PolicyType → Bool
is_jwks_endpoint jwks_endpoint = true
is_jwks_endpoint _ = false

abbrev pub is_local : EndpointMode → Bool
is_local local = true
is_local forward = false

-- The types of the enabled policies.
abbrev pub enabled_types : List PolicyConfig → List PolicyType
enabled_types policies = map (λ p. p.type) (filter (λ p. p.enabled) policies)

unfoldable pub validate_endpoint : Option String → EndpointConfig → Result ConfigError (Unit {0})
validate_endpoint upstream_base_url endpoint = do
  let types = enabled_types endpoint.policies
  guard (not (ltb 1 (length (filter is_authentication types))))
      (several_authentications endpoint.id)
  guard
      (not
        (is_local endpoint.mode && not (any (λ t. is_oauth_token t || is_jwks_endpoint t) types)))
      (no_terminal_policy endpoint.id)
  guard
      (not (
        not (is_local endpoint.mode)
        && (not (is_some (present endpoint.target_path))
            || not (is_some (present upstream_base_url)))))
      (no_target endpoint.id)
  guard
      (not
        ((any is_oauth_token types || any is_jwks_endpoint types) && not (is_local endpoint.mode)))
      (requires_local endpoint.id)
  ok tt

abbrev pub validate_proxy : ProxyConfig → Result ConfigError (Unit {0})
validate_proxy proxy = for_all (validate_endpoint proxy.upstream_base_url) proxy.endpoints

unfoldable pub validate_proxy_configuration : List ProxyConfig → Result ConfigError (Unit {0})
unfolding validate_endpoint
validate_proxy_configuration proxies = for_all validate_proxy proxies
