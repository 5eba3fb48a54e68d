-- ===== src/Policies/Registry.antt =====
-- packages/gateway-core/src/policies/registry.ts: factories by policy type. The module's map is the
-- state that the functions take and return.
use api_gateway_platform.Common.{String, Option, none, some, List, [], if◌then◌else◌}
use api_gateway_platform.Common.Maps.{lookup, insert, has}
use api_gateway_platform.Common.Results.{Result, ok, err, ◌>>=◌}
use api_gateway_platform.Shared.Policies.{
  PolicyType, policy_name, api_key_auth, oauth_token, oauth_access_token, jwks_endpoint, mtls_auth,
  rate_limit, BasePolicyConfig,
}
use api_gateway_platform.Policies.Types.{Policy, PolicyFactoryOf}

pub data RegistryError : Type 0 where
  duplicate_registration : PolicyType → RegistryError

-- The factories of the built-in policies.
pub record Builtins (W : Type 0) : Type 0 where
  pub api_key : PolicyFactoryOf BasePolicyConfig W
  pub rate_limit_factory : PolicyFactoryOf BasePolicyConfig W
  pub oauth_token_factory : PolicyFactoryOf BasePolicyConfig W
  pub oauth_access_token_factory : PolicyFactoryOf BasePolicyConfig W
  pub jwks : PolicyFactoryOf BasePolicyConfig W
  pub mtls : PolicyFactoryOf BasePolicyConfig W

abbrev pub Factories : Type 0 → Type 0
Factories W = List (String × PolicyFactoryOf BasePolicyConfig W)

module _ {W : Type 0} where
  -- Throws on a type that is registered, and then changes nothing.
  unfoldable pub register_policy :
      PolicyType
      → PolicyFactoryOf BasePolicyConfig W
      → Factories W
      → Result RegistryError (Factories W)
  register_policy type factory registry =
      if has (policy_name type) registry
      then err (duplicate_registration type)
      else ok (insert (policy_name type) factory registry)

  -- `none` is the exception: the type is unknown, or the factory refuses the configuration.
  unfoldable pub create_policy : Factories W → PolicyType → BasePolicyConfig → Option (Policy W)
  create_policy registry type config = elim (lookup (policy_name type) registry) [
    | none ↦ none
    | some factory ↦ factory config
  ]

  abbrev register_missing :
      PolicyType
      → PolicyFactoryOf BasePolicyConfig W
      → Factories W
      → Result RegistryError (Factories W)
  register_missing type factory registry =
      if has (policy_name type) registry then ok registry else register_policy type factory registry

  unfoldable pub register_builtin_policies :
      Builtins W → Factories W → Result RegistryError (Factories W)
  unfolding register_policy
  register_builtin_policies b r0 = do
    r1 ← register_missing api_key_auth b.api_key r0
    r2 ← register_missing rate_limit b.rate_limit_factory r1
    r3 ← register_missing oauth_token b.oauth_token_factory r2
    r4 ← register_missing oauth_access_token b.oauth_access_token_factory r3
    r5 ← register_missing jwks_endpoint b.jwks r4
    register_missing mtls_auth b.mtls r5

  unfoldable pub clear_policy_registry : Factories W → Factories W
  clear_policy_registry _ = []
