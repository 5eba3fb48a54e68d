-- ===== src/Policies/Mtls.antt =====
-- packages/gateway-core/src/policies/auth/mtls.policy.ts, and the fingerprint's normal form of
-- packages/database/src/credentials.ts. The certificate store, the clock and the test of the peer's
-- address are parameters; the last may throw, outside the policy's own `try`.
use Prim.Native.Char.{code}
use Prim.Native.String.{String}
use api_gateway_platform.Common.{
  ℕ, Bool, true, false, not, ◌&&◌, ◌||◌, Option, none, some, [], ◌∷◌, leb, eqb, is_empty,
  if◌then◌else◌, ◌==◌,
}
use api_gateway_platform.Common.Maps.{lookup}
use api_gateway_platform.Common.Text.{trim, text_length}
use api_gateway_platform.Common.Ascii.{to_lower}
use api_gateway_platform.Resolver.Registry.{present}
use api_gateway_platform.Shared.Policies.{BasePolicyConfig, is_open}
use api_gateway_platform.Auth.Authorization.{
  CredentialRecord, authorized_products, is_credential_valid, credential_matches_workspace,
  is_after,
}
use api_gateway_platform.Policies.Types.{
  Policy, PolicyResult, continue, halt, Try, returned, threw, Run, set_client, text, single,
  several,
}
use api_gateway_platform.Policies.ApiKey.{client_of}

pub record CertificateRecord : Type 0 where
  pub status : String
  pub valid_from : ℕ
  pub expires_at : Option ℕ
  pub credential : CredentialRecord

pub record MtlsPolicyDependencies (W : Type 0) : Type 0 where
  pub is_trusted_proxy : String → W → Try Bool
  pub find_certificate : String → W → Try (Option CertificateRecord) × W
  pub now : W → ℕ

-- `value.replaceAll(':', '')`
abbrev pub without_colons : String → String
without_colons String.[] = ""
without_colons (String.◌∷◌ c s) =
    let rest = without_colons s in if eqb (code c) b':' then rest else String.◌∷◌ c rest

-- `/^[a-f0-9]+$/`
abbrev pub is_hex : String → Bool
is_hex String.[] = true
is_hex (String.◌∷◌ c s) =
    let n = code c in (leb b'a' n && leb n b'f' || leb b'0' n && leb n b'9') && is_hex s

-- `none` is the exception.
unfoldable pub normalize_certificate_fingerprint : String → Option String
normalize_certificate_fingerprint value =
    let normalized = to_lower (trim (without_colons value)) in
    if is_hex normalized && eqb (text_length normalized) 64 then some normalized else none

unauthorized : String → PolicyResult
unauthorized message = halt 401 (("error", text "Unauthorized") ∷ ("message", text message) ∷ [])

unfoldable pub is_certificate_valid : CertificateRecord → ℕ → Bool
is_certificate_valid certificate time =
    certificate.status == "approved"
    && leb certificate.valid_from time
    && is_after certificate.expires_at time

module _ {W : Type 0} (dependencies : MtlsPolicyDependencies W) where
  open dependencies use {is_trusted_proxy, find_certificate, now}

  -- What follows a lookup that did not throw.
  unfoldable pub check_certificate : Option CertificateRecord → Run W → PolicyResult × Run W
  unfolding unauthorized
  check_certificate none s = (unauthorized "Invalid or revoked client certificate", s)
  check_certificate (some certificate) (ctx, w) =
      let credential = certificate.credential in
      let products = authorized_products credential ctx.proxy.environment.id (some ctx.proxy.id) in
      if not (is_certificate_valid certificate (now w))
        || not (is_credential_valid credential (now w))
        || not (credential_matches_workspace credential ctx.proxy.workspace_id (now w))
      then (unauthorized "Invalid or revoked client certificate", (ctx, w))
      else if is_empty products
      then (
        halt 403 (
            ("error", text "Forbidden")
            ∷ ("message", text "Certificate is not authorized for this API")
            ∷ []),
        (ctx, w),
      )
      else (continue, set_client (client_of ctx credential products) (ctx, w))

  unfoldable pub mtls_lookup : BasePolicyConfig → String → Run W → PolicyResult × Run W
  unfolding check_certificate
  mtls_lookup config fingerprint (ctx, w) =
      let (answer, w') = find_certificate fingerprint w in
      elim answer [
        | returned certificate ↦ check_certificate certificate (ctx, w')
        | threw ↦ (
          if is_open config.failure_mode
              then continue
              else halt 503 (
                  ("error", text "Service Unavailable")
                  ∷ ("message", text "Certificate authentication is temporarily unavailable")
                  ∷ ("requestId", text ctx.req.id)
                  ∷ []),
          (ctx, w'),
        )
      ]

  -- The fingerprint header, from a peer that is trusted.
  unfoldable pub mtls_header : BasePolicyConfig → Run W → PolicyResult × Run W
  unfolding mtls_lookup unauthorized
  mtls_header config (ctx, w) = elim (lookup "x-gateway-client-cert-sha256" ctx.req.headers) [
    | none ↦ (unauthorized "Client certificate fingerprint is missing", (ctx, w))
    | some (several _) ↦ (unauthorized "Client certificate fingerprint is missing", (ctx, w))
    | some (single raw_fingerprint) ↦ elim (normalize_certificate_fingerprint raw_fingerprint) [
      | none ↦ (unauthorized "Client certificate fingerprint is invalid", (ctx, w))
      | some fingerprint ↦ mtls_lookup config fingerprint (ctx, w)
    ]
  ]

  abbrev answer_of : PolicyResult × Run W → Try PolicyResult × Run W
  answer_of (r, s) = (returned r, s)

  unfoldable pub mtls_policy : BasePolicyConfig → Policy W
  unfolding mtls_header unauthorized
  mtls_policy config (ctx, w) =
      let untrusted = unauthorized "mTLS headers are not from a trusted ingress" in
      elim (present ctx.req.remote_address) [
        | none ↦ (returned untrusted, (ctx, w))
        | some address ↦ elim (is_trusted_proxy address w) [
          | threw ↦ (threw, (ctx, w))
          | returned false ↦ (returned untrusted, (ctx, w))
          | returned true ↦ answer_of (mtls_header config (ctx, w))
        ]
      ]
