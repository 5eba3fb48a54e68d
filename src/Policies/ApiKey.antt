-- ===== src/Policies/ApiKey.antt =====
-- packages/gateway-core/src/policies/auth/api-key.policy.ts. The credential store and the clock are
-- parameters; the reads of the clock between two awaited calls give one value.
use api_gateway_platform.Common.{
  ℕ, String, not, ◌||◌, Option, none, some, List, [], ◌∷◌, map, flat_map, is_empty, if◌then◌else◌,
  ◌==◌, to_unique,
}
use api_gateway_platform.Common.Maps.{lookup}
use api_gateway_platform.Common.Text.{concat}
use api_gateway_platform.Common.Ascii.{to_lower}
use api_gateway_platform.Resolver.Registry.{present}
use api_gateway_platform.Shared.Policies.{BasePolicyConfig, ApiKeyAuthPolicyConfig, is_open}
use api_gateway_platform.Auth.Authorization.{
  CredentialRecord, AuthorizedProduct, authorized_products, is_credential_valid,
  credential_matches_workspace,
}
use api_gateway_platform.Policies.Types.{
  Policy, PolicyFactoryOf, PolicyContext, PolicyResult, continue, halt, Try, returned, threw, Run,
  mark, set_client, text, ClientContext, single, several,
}

pub record ApiKeyPolicyDependencies (W : Type 0) : Type 0 where
  pub find_credential : String → W → Try (Option CredentialRecord) × W
  pub now : W → ℕ

-- The client that both credential policies write to the context.
unfoldable pub client_of : PolicyContext → CredentialRecord → List AuthorizedProduct → ClientContext
client_of ctx credential products = record {
  app_id = credential.app_id;
  credential_id = credential.id;
  consumer_key = credential.consumer_key;
  organization_id = credential.app.organization_id;
  workspace_id = present ctx.proxy.workspace_id;
  product_ids = map (λ (p : AuthorizedProduct). p.id) products;
  scopes = to_unique (flat_map (λ (p : AuthorizedProduct). p.scopes) products);
}

module _ {W : Type 0} (dependencies : ApiKeyPolicyDependencies W) where
  open dependencies use {find_credential, now}

  -- What follows a lookup that did not throw.
  unfoldable pub check_credential : Option CredentialRecord → Run W → Try PolicyResult × Run W
  check_credential none s = (
    returned (
        halt 401
          (("error", text "Unauthorized") ∷ ("message", text "Invalid or revoked API key") ∷ [])),
    s,
  )
  check_credential (some credential) (ctx, w) =
      let products = authorized_products credential ctx.proxy.environment.id (some ctx.proxy.id) in
      if not (is_credential_valid credential (now w))
        || not (credential_matches_workspace credential ctx.proxy.workspace_id (now w))
      then (
        returned (
            halt 401 (
              ("error", text "Unauthorized")
              ∷ ("message", text "Invalid or revoked API key")
              ∷ [])),
        (ctx, w),
      )
      else if is_empty products
      then (
        returned (
            halt 403 (
              ("error", text "Forbidden")
              ∷ (
                "message",
                text "Your API key does not have access to this API in the current environment.",
              )
              ∷ [])),
        (ctx, w),
      )
      else (returned continue, set_client (client_of ctx credential products) (ctx, w))

  unfoldable pub api_key_lookup : ApiKeyAuthPolicyConfig → String → Policy W
  unfolding check_credential
  api_key_lookup config consumer_key (ctx, w) =
      let (answer, w') = find_credential consumer_key w in
      elim answer [
        | returned credential ↦ check_credential credential (ctx, w')
        | threw ↦ (
          returned (
              if is_open config.failure_mode
              then continue
              else halt 503 (
                  ("error", text "Service Unavailable")
                  ∷ ("message", text "Authentication service is temporarily unavailable")
                  ∷ ("requestId", text ctx.req.id)
                  ∷ [])),
          mark "api-key-auth.degraded" (ctx, w'),
        )
      ]

  missing_key : String → PolicyResult
  missing_key header_name = halt 401 (
      ("error", text "Unauthorized")
      ∷ ("message", text (concat ("Missing required authentication header: " ∷ header_name ∷ [])))
      ∷ [])

  unfoldable pub api_key_policy : ApiKeyAuthPolicyConfig → Policy W
  unfolding api_key_lookup missing_key
  api_key_policy config (ctx, w) =
      let header_name = to_lower config.header in
      elim (lookup header_name ctx.req.headers) [
        | none ↦ (returned (missing_key header_name), (ctx, w))
        | some (several _) ↦ (returned (missing_key header_name), (ctx, w))
        | some (single consumer_key) ↦
            if consumer_key == ""
            then (returned (missing_key header_name), (ctx, w))
            else api_key_lookup config consumer_key (ctx, w)
      ]

  unfoldable pub create_api_key_policy :
      (BasePolicyConfig → Option ApiKeyAuthPolicyConfig) → PolicyFactoryOf BasePolicyConfig W
  unfolding api_key_policy
  create_api_key_policy parse raw_config = elim (parse raw_config) [
    | none ↦ none
    | some config ↦ some (api_key_policy config)
  ]
