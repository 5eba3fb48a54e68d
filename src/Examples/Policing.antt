-- ===== src/Examples/Policing.antt =====
-- The theorems on the pipeline and its policies at sample policies, requests and stores.
use Prim.Native.Nat.{min}
use api_gateway_platform.Common.{
  ℕ, suc, ◌-◌, ◌<◌, String, ◌≡◌, refl, ◌↔◌, Option, none, some, List, [], ◌∷◌, ◌&&◌, filter, eqb,
  if◌then◌else◌, ◌==◌, arith,
}
use api_gateway_platform.Common.Ascii.{to_lower}
use api_gateway_platform.Common.Sort.{Reordered}
use api_gateway_platform.Shared.Policies.{
  PolicyType, BasePolicyConfig, PolicyConfig, ApiKeyAuthPolicyConfig, RateLimitPolicyConfig,
  fail_open, fail_closed,
}
use api_gateway_platform.Auth.Authorization.{
  is_credential_valid, credential_matches_workspace, authorized_products,
}
use api_gateway_platform.Policies.Types.{Policy, continue, returned, Run, single, set_client}
use api_gateway_platform.Policies.Pipeline.{execute_pipeline}
use api_gateway_platform.Policies.Order.{execute_pipeline-Reordered}
use api_gateway_platform.Policies.Flow.{IsAscending, Ends, execute_pipeline-Ends}
use api_gateway_platform.Policies.ApiKey.{ApiKeyPolicyDependencies, api_key_policy, client_of}
use api_gateway_platform.Policies.Admission.{Admits, products_of, api_key_policy-Admits}
use api_gateway_platform.Policies.Mtls.{
  MtlsPolicyDependencies, CertificateRecord, mtls_policy, normalize_certificate_fingerprint,
  is_certificate_valid,
}
use api_gateway_platform.Policies.Certificates.{Certifies, mtls_policy-Certifies}
use api_gateway_platform.Policies.RateLimit.{CounterStore, window_key, rate_limit_policy}
use api_gateway_platform.Policies.Windows.{
  Counts, script_runs, script_runs_lem, rate_limit_policy-count,
}
use api_gateway_platform.Examples.Data.{context, credential, cors_policy, off_policy, plain}

-- A registry that knows every type: its policies continue and count their runs.
abbrev counting : PolicyType → BasePolicyConfig → Option (Policy ℕ)
counting _ _ = some (λ run. (returned continue, (run.0, suc run.1)))

abbrev start : Run ℕ
start = (context [], 0)

execute_pipeline-Reordered_example :
    execute_pipeline counting (cors_policy ∷ off_policy ∷ []) start
    ≡ execute_pipeline counting (off_policy ∷ cors_policy ∷ []) start
execute_pipeline-Reordered_example =
    execute_pipeline-Reordered counting start
      (Reordered.swap cors_policy off_policy [] (λ e. absurd (omega (arith, e))))

execute_pipeline-Ends_example :
    (active : List PolicyConfig) × IsAscending active
    × ((n : ℕ)
        → filter (λ p. eqb p.order n) active
          ≡ filter (λ p. p.enabled && eqb p.order n) (cors_policy ∷ off_policy ∷ []))
    × Ends counting active start
        (execute_pipeline counting (cors_policy ∷ off_policy ∷ []) start).0
        (execute_pipeline counting (cors_policy ∷ off_policy ∷ []) start).1
execute_pipeline-Ends_example = execute_pipeline-Ends counting (cors_policy ∷ off_policy ∷ []) start

abbrev keys : ApiKeyPolicyDependencies ℕ
keys = record {
  find_credential = λ key w. (returned (if key == "key" then some credential else none), suc w);
  now = λ w. w;
}

abbrev by_header : ApiKeyAuthPolicyConfig
by_header = record { failure_mode = fail_closed; header = "X-Api-Key" }

api_key_policy-Admits_example :
    Admits keys by_header (context (("x-api-key", single "key") ∷ [])) 0 (
      set_client
        (client_of
          (context (("x-api-key", single "key") ∷ []))
          credential
          (products_of (context (("x-api-key", single "key") ∷ [])) credential))
        (context (("x-api-key", single "key") ∷ []), 1))
unfolding api_key_policy client_of to_lower is_credential_valid credential_matches_workspace
    authorized_products products_of
api_key_policy-Admits_example =
    api_key_policy-Admits keys by_header (context (("x-api-key", single "key") ∷ [])) 0 _ refl

abbrev certificate : CertificateRecord
certificate = record {
  status = "approved";
  valid_from = 0;
  expires_at = none;
  credential = credential;
}

abbrev certificates : MtlsPolicyDependencies ℕ
certificates = record {
  is_trusted_proxy = λ address w. returned (address == "10.0.0.2");
  find_certificate = λ fingerprint w. (returned (some certificate), suc w);
  now = λ w. w;
}

abbrev fingerprint : String
fingerprint = "00112233445566778899aabbccddeeff00112233445566778899aabbccddeeff"

mtls_policy-Certifies_example :
    Certifies certificates plain
      (context (("x-gateway-client-cert-sha256", single fingerprint) ∷ []))
      0
      (set_client
        (client_of
          (context (("x-gateway-client-cert-sha256", single fingerprint) ∷ []))
          credential
          (products_of
            (context (("x-gateway-client-cert-sha256", single fingerprint) ∷ []))
            credential))
        (context (("x-gateway-client-cert-sha256", single fingerprint) ∷ []), 1))
unfolding mtls_policy client_of normalize_certificate_fingerprint to_lower is_certificate_valid
    is_credential_valid credential_matches_workspace authorized_products products_of
mtls_policy-Certifies_example =
    mtls_policy-Certifies certificates plain
      (context (("x-gateway-client-cert-sha256", single fingerprint) ∷ [])) 0 _ refl

-- A store that is a function from keys to counts, and one that is always out.
abbrev store : CounterStore (String → ℕ)
store = record {
  incr = λ key w. (suc (w key), (λ other. if key == other then suc (w key) else w other));
  expire = λ key seconds w. w;
  ttl = λ key w. 30;
  outage = λ w. none;
  now = λ w. 0;
}

abbrev lost : CounterStore (String → ℕ)
lost = record store { outage = λ w. some w }

abbrev counts : Counts store
counts = record {
  count = λ key w. w key;
  incr_answer = λ key w. refl;
  count-incr = λ key other w. refl;
  count-expire = λ key other seconds w. refl;
}

abbrev empty : String → ℕ
empty _ = 0

abbrev limits : RateLimitPolicyConfig
limits = record { failure_mode = fail_open; limit = 2; window_seconds = 60 }

script_runs_lem_example : (script_runs store counts "k" 2 60 3 empty).0 ≡ min 3 (2 - 0)
script_runs_lem_example = script_runs_lem store counts "k" 2 60 3 empty

rate_limit_policy-count_example :
    (((rate_limit_policy store limits (context [], empty)).0 ≡ returned continue) ↔ (0 < 2))
    × ((other : String)
        → (rate_limit_policy store limits (context [], empty)).1.1 other
          ≡ (if window_key store limits (context []) empty == other then 1 else 0))
rate_limit_policy-count_example =
    rate_limit_policy-count store counts limits (context []) empty refl
