-- ===== src/Policies/Admission.antt =====
-- When the API-key policy lets a request through.
use mathlib.Core.List.{Memᴰ}
use api_gateway_platform.Common.{
  ℕ, String, ◌≡◌, refl, ◌≢◌, inl, inr, true, false, Option, none, some, List, [], ◌∷◌, arith,
  is_empty, ◌==◌, eq_iff, Bool-cases, Option-cases,
}
use api_gateway_platform.Common.Maps.{lookup}
use api_gateway_platform.Common.Ascii.{to_lower}
use api_gateway_platform.Shared.Policies.{ApiKeyAuthPolicyConfig, is_open}
use api_gateway_platform.Auth.Authorization.{
  CredentialRecord, AuthorizedProduct, ProductGrant, authorized_products, is_credential_valid,
  credential_matches_workspace,
}
use api_gateway_platform.Auth.Grants.{Authorizes, authorized_products_iff}
use api_gateway_platform.Policies.Types.{
  PolicyContext, continue, Try, returned, threw, Run, mark, set_client, single, several,
}
use api_gateway_platform.Policies.ApiKey.{
  ApiKeyPolicyDependencies, client_of, check_credential, api_key_lookup, api_key_policy,
}

-- The credential is good for the proxy of the request: valid at the time, of the proxy's workspace,
-- and with a grant that authorizes the proxy in its environment.
pub record IsAdmitted (ctx : PolicyContext) (credential : CredentialRecord) (time : ℕ)
    : Type 0 where
  pub valid : is_credential_valid credential time ≡ true
  pub workspace : credential_matches_workspace credential ctx.proxy.workspace_id time ≡ true
  pub grant : ProductGrant
  pub authorizes : Authorizes credential ctx.proxy.environment.id (some ctx.proxy.id) grant

unfoldable pub products_of : PolicyContext → CredentialRecord → List AuthorizedProduct
products_of ctx credential =
    authorized_products credential ctx.proxy.environment.id (some ctx.proxy.id)

first_of_products :
    (l : List AuthorizedProduct) → is_empty l ≡ false → (a : AuthorizedProduct) × Memᴰ a l
first_of_products [] h = cc
first_of_products (a ∷ l) h = (a, Memᴰ.head refl)

pub IsAdmitted-of :
    (ctx : PolicyContext) (credential : CredentialRecord) (time : ℕ)
    → is_credential_valid credential time ≡ true
    → credential_matches_workspace credential ctx.proxy.workspace_id time ≡ true
    → is_empty (products_of ctx credential) ≡ false
    → IsAdmitted ctx credential time
unfolding products_of
IsAdmitted-of ctx credential time v m p =
    let (a, k) = first_of_products _ p in
    let (g, h, _) =
      (authorized_products_iff credential ctx.proxy.environment.id (some ctx.proxy.id) a).0 k in
    record { valid = v; workspace = m; grant = g; authorizes = h }

module _ {W : Type 0} (dependencies : ApiKeyPolicyDependencies W) where
  open dependencies use {find_credential, now}

  -- Why a request went on, and in which state.
  pub data Admits (config : ApiKeyAuthPolicyConfig) (ctx : PolicyContext) (w : W)
      : Run W → Type 0 where
    credential_found :
        (key : String) (credential : CredentialRecord) (w' : W)
        → lookup (to_lower config.header) ctx.req.headers ≡ some (single key)
        → key ≢ ""
        → find_credential key w ≡ (returned (some credential), w')
        → IsAdmitted ctx credential (now w')
        → Admits config ctx w
            (set_client (client_of ctx credential (products_of ctx credential)) (ctx, w'))
    store_failed :
        (key : String) (w' : W)
        → find_credential key w ≡ (threw, w')
        → is_open config.failure_mode ≡ true
        → Admits config ctx w (mark "api-key-auth.degraded" (ctx, w'))

  check_credential-continue :
      (o : Option CredentialRecord) (ctx : PolicyContext) (w : W) (t : Run W)
      → check_credential dependencies o (ctx, w) ≡ (returned continue, t)
      → (c : CredentialRecord) × (o ≡ some c)
        × IsAdmitted ctx c (now w)
        × (t ≡ set_client (client_of ctx c (products_of ctx c)) (ctx, w))
  unfolding check_credential products_of
  check_credential-continue none ctx w t h = absurd (ground arith)
  check_credential-continue (some c) ctx w t h =
      let v : is_credential_valid c (now w) ≡ true = ground arith in
      let m : credential_matches_workspace c ctx.proxy.workspace_id (now w) ≡ true = ground arith in
      let p : is_empty (products_of ctx c) ≡ false = ground arith in
      (c, refl, IsAdmitted-of ctx c (now w) v m p, ground arith)

  api_key_lookup-Admits :
      (config : ApiKeyAuthPolicyConfig) (key : String) (ctx : PolicyContext) (w : W) (t : Run W)
      → lookup (to_lower config.header) ctx.req.headers ≡ some (single key)
      → key ≢ ""
      → api_key_lookup dependencies config key (ctx, w) ≡ (returned continue, t)
      → Admits config ctx w t
  unfolding api_key_lookup
  api_key_lookup-Admits config key ctx w t there filled h = step (find_credential key w) refl
    where
      step :
          (x : Try (Option CredentialRecord) × W)
          → find_credential key w ≡ x
          → Admits config ctx w t
      step (returned o, w') e =
          let checked : check_credential dependencies o (ctx, w') ≡ (returned continue, t) =
            ground arith in
          let (c, found, ok', same) = check_credential-continue o ctx w' t checked in
          rw same (credential_found key c w' there filled (rw found at e) ok')
      step (threw, w') e = elim (Bool-cases (is_open config.failure_mode)) [
        | inl open' ↦
            let same : t ≡ mark "api-key-auth.degraded" (ctx, w') = ground arith in
            rw same (store_failed key w' e open')
        | inr shut ↦ absurd (ground arith)
      ]

  -- A request that the API-key policy lets through carried a key in the configured header under
  -- which the store has a credential that is good for the proxy, and then the client of the context
  -- is that credential's; or the store failed and the policy is configured to fail open.
  pub api_key_policy-Admits :
      (config : ApiKeyAuthPolicyConfig) (ctx : PolicyContext) (w : W) (t : Run W)
      → api_key_policy dependencies config (ctx, w) ≡ (returned continue, t)
      → Admits config ctx w t
  unfolding api_key_policy
  api_key_policy-Admits config ctx w t h =
      elim (Option-cases (lookup (to_lower config.header) ctx.req.headers)) [
        | inl missing ↦ absurd (ground arith)
        | inr (several l, found) ↦ absurd (ground arith)
        | inr (single key, found) ↦ elim (Bool-cases (key == "")) [
          | inl blank ↦ absurd (ground arith)
          | inr filled ↦
              api_key_lookup-Admits config key ctx w t found (ground (arith, eq_iff key ""))
                (ground arith)
        ]
      ]
