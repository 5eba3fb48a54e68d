-- ===== src/Management/Acceptance.antt =====
-- The gateway reads what the management API writes.
use api_gateway_platform.Common.{
  ℕ, ◌+◌, ◌-◌, ◌≤◌, String, ◌≡◌, refl, true, false, not, all, is_empty, to_unique, arith, eq_refl,
  ltb, le→ltb,
}
use api_gateway_platform.Common.Text.{is_blank, join, words}
use api_gateway_platform.Oauth.Assertions.{OauthTokenPolicyDependencies, grant_refused, grant_of}
use api_gateway_platform.Management.Tokens.{DeveloperTokenRequest, assertion_claims}

-- What the schema asks of a request.
pub record IsRequest (input : DeveloperTokenRequest) : Type 0 where
  pub products : not (is_empty input.product_ids) ≡ true
  pub named_products : all (λ id. not (is_blank id)) input.product_ids ≡ true
  pub proxies : not (is_empty input.proxy_ids) ≡ true
  pub named_proxies : all (λ id. not (is_blank id)) input.proxy_ids ≡ true
  pub at_least : 60 ≤ input.ttl_seconds
  pub at_most : input.ttl_seconds ≤ 900

-- The claims that the management API signs for a request that fits its schema are not refused by the gateway
-- of the environment, whose clock is at most three seconds behind, and the gateway's grant has the request's products,
-- proxies and time to live, and its scopes as the words of their text.
pub grant_of-assertion_claims :
    {W : Type 0} (dependencies : OauthTokenPolicyDependencies W) (organization_id : String)
    (input : DeveloperTokenRequest) (subject token_endpoint : String) (now : ℕ) (grant_id : String)
    (time : ℕ)
    → IsRequest input
    → now ≤ time + 3
    → (grant_refused dependencies input.environment_id
          (assertion_claims organization_id input subject token_endpoint now grant_id)
          time
        ≡ false)
      × (grant_of dependencies input.environment_id
            (assertion_claims organization_id input subject token_endpoint now grant_id)
          ≡ record {
            grant_id = grant_id;
            subject = subject;
            organization_id = organization_id;
            environment_id = input.environment_id;
            product_ids = input.product_ids;
            proxy_ids = input.proxy_ids;
            scopes = to_unique (words (join " " input.scopes));
            ttl_seconds = input.ttl_seconds;
          })
unfolding grant_refused grant_of assertion_claims
grant_of-assertion_claims dependencies organization_id input subject token_endpoint now grant_id
      time fits clock =
    let short : ltb 30 (now + 30 - now) ≡ false = ground arith in
    let past : ltb (time + 3) now ≡ false = le→ltb (time + 3) now clock in
    let least : ltb input.ttl_seconds 60 ≡ false = le→ltb input.ttl_seconds 60 fits.at_least in
    let most : ltb 900 input.ttl_seconds ≡ false = le→ltb 900 input.ttl_seconds fits.at_most in
    (
      rw
          (
            short,
            past,
            least,
            most,
            eq_refl input.environment_id,
            eq_refl subject,
            fits.products,
            fits.named_products,
            fits.proxies,
            fits.named_proxies,
          )
          refl,
      refl,
    )
