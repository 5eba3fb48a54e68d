-- ===== src/Policies/Certificates.antt =====
-- When the mTLS policy lets a request through.
use api_gateway_platform.Common.{
  String, ◌≡◌, refl, inl, inr, Bool, true, false, Option, none, some, arith, is_empty, Bool-cases,
  Option-cases,
}
use api_gateway_platform.Common.Maps.{lookup}
use api_gateway_platform.Resolver.Registry.{present}
use api_gateway_platform.Shared.Policies.{BasePolicyConfig, is_open}
use api_gateway_platform.Auth.Authorization.{is_credential_valid, credential_matches_workspace}
use api_gateway_platform.Policies.Types.{
  PolicyContext, continue, Try, returned, threw, Run, set_client, single, several,
}
use api_gateway_platform.Policies.ApiKey.{client_of}
use api_gateway_platform.Policies.Admission.{IsAdmitted, IsAdmitted-of, products_of}
use api_gateway_platform.Policies.Mtls.{
  CertificateRecord, MtlsPolicyDependencies, normalize_certificate_fingerprint,
  is_certificate_valid, check_certificate, mtls_lookup, mtls_header, mtls_policy,
}

module _ {W : Type 0} (dependencies : MtlsPolicyDependencies W) where
  open dependencies use {is_trusted_proxy, find_certificate, now}

  -- Why a request with a client certificate went on, and in which state.
  pub data Certifies (config : BasePolicyConfig) (ctx : PolicyContext) (w : W)
      : Run W → Type 0 where
    certificate_found :
        (address raw fingerprint : String) (certificate : CertificateRecord) (w' : W)
        → present ctx.req.remote_address ≡ some address
        → is_trusted_proxy address w ≡ returned true
        → lookup "x-gateway-client-cert-sha256" ctx.req.headers ≡ some (single raw)
        → normalize_certificate_fingerprint raw ≡ some fingerprint
        → find_certificate fingerprint w ≡ (returned (some certificate), w')
        → is_certificate_valid certificate (now w') ≡ true
        → IsAdmitted ctx certificate.credential (now w')
        → Certifies config ctx w (
            set_client
              (client_of ctx certificate.credential (products_of ctx certificate.credential))
              (ctx, w'))
    store_failed :
        (address fingerprint : String) (w' : W)
        → present ctx.req.remote_address ≡ some address
        → is_trusted_proxy address w ≡ returned true
        → find_certificate fingerprint w ≡ (threw, w')
        → is_open config.failure_mode ≡ true
        → Certifies config ctx w (ctx, w')

  check_certificate-continue :
      (o : Option CertificateRecord) (ctx : PolicyContext) (w : W) (t : Run W)
      → check_certificate dependencies o (ctx, w) ≡ (continue, t)
      → (c : CertificateRecord) × (o ≡ some c)
        × (is_certificate_valid c (now w) ≡ true)
        × IsAdmitted ctx c.credential (now w)
        × (t ≡ set_client (client_of ctx c.credential (products_of ctx c.credential)) (ctx, w))
  unfolding check_certificate products_of
  check_certificate-continue none ctx w t h = absurd (ground arith)
  check_certificate-continue (some c) ctx w t h =
      let k : is_certificate_valid c (now w) ≡ true = ground arith in
      let v : is_credential_valid c.credential (now w) ≡ true = ground arith in
      let m : credential_matches_workspace c.credential ctx.proxy.workspace_id (now w) ≡ true =
        ground arith in
      let p : is_empty (products_of ctx c.credential) ≡ false = ground arith in
      (c, refl, k, IsAdmitted-of ctx c.credential (now w) v m p, ground arith)

  mtls_lookup-Certifies :
      (config : BasePolicyConfig) (address raw fingerprint : String) (ctx : PolicyContext) (w : W)
      (t : Run W)
      → present ctx.req.remote_address ≡ some address
      → is_trusted_proxy address w ≡ returned true
      → lookup "x-gateway-client-cert-sha256" ctx.req.headers ≡ some (single raw)
      → normalize_certificate_fingerprint raw ≡ some fingerprint
      → mtls_lookup dependencies config fingerprint (ctx, w) ≡ (continue, t)
      → Certifies config ctx w t
  unfolding mtls_lookup
  mtls_lookup-Certifies config address raw fingerprint ctx w t a b c d h =
      step (find_certificate fingerprint w) refl
    where
      step :
          (x : Try (Option CertificateRecord) × W)
          → find_certificate fingerprint w ≡ x
          → Certifies config ctx w t
      step (returned o, w') e =
          let checked : check_certificate dependencies o (ctx, w') ≡ (continue, t) = ground arith in
          let (cert, found, valid, admitted, same) =
            check_certificate-continue o ctx w' t checked in
          rw same (
            certificate_found address raw fingerprint cert w' a b c d (rw found at e) valid
              admitted)
      step (threw, w') e = elim (Bool-cases (is_open config.failure_mode)) [
        | inl open' ↦
            let same : t ≡ (ctx, w') = ground arith in
            rw same (store_failed address fingerprint w' a b e open')
        | inr shut ↦ absurd (ground arith)
      ]

  -- A request that the mTLS policy lets through came from a trusted peer, with a fingerprint under
  -- which the store has a valid certificate whose credential is good for the proxy, and then the
  -- client of the context is that credential's; or the store failed and the policy fails open.
  pub mtls_policy-Certifies :
      (config : BasePolicyConfig) (ctx : PolicyContext) (w : W) (t : Run W)
      → mtls_policy dependencies config (ctx, w) ≡ (returned continue, t)
      → Certifies config ctx w t
  unfolding mtls_policy
  mtls_policy-Certifies config ctx w t h = elim (Option-cases (present ctx.req.remote_address)) [
    | inl missing ↦ absurd (ground arith)
    | inr (address, a) ↦ trusted address a (is_trusted_proxy address w) refl
  ]
    where
      headed :
          (address : String)
          → present ctx.req.remote_address ≡ some address
          → is_trusted_proxy address w ≡ returned true
          → mtls_header dependencies config (ctx, w) ≡ (continue, t)
          → Certifies config ctx w t
      headed address a b k =
          elim (Option-cases (lookup "x-gateway-client-cert-sha256" ctx.req.headers)) [
            | inl none_there ↦ absurd (ground arith)
            | inr (several l, found) ↦ absurd (ground arith)
            | inr (single raw, found) ↦
                elim (Option-cases (normalize_certificate_fingerprint raw)) [
                  | inl bad ↦ absurd (ground arith)
                  | inr (fingerprint, normal) ↦
                      mtls_lookup-Certifies config address raw fingerprint ctx w t a b found normal
                        (ground arith)
                ]
          ]

      trusted :
          (address : String)
          → present ctx.req.remote_address ≡ some address
          → (x : Try Bool) → is_trusted_proxy address w ≡ x
          → Certifies config ctx w t
      trusted address a threw e = absurd (ground arith)
      trusted address a (returned false) e = absurd (ground arith)
      trusted address a (returned true) e = headed address a e (ground arith)
