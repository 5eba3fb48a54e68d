-- ===== src/Oauth/Bounded.antt =====
-- What an accepted developer grant has been checked for.
use api_gateway_platform.Common.{
  ℕ, ◌+◌, ◌-◌, ◌≤◌, max, String, ◌≡◌, inl, inr, true, false, Option, some, arith, if◌then◌else◌, ap,
  ltb→le, eq_iff, Bool-cases, Option-cases, or-eq-false, not-eq-false,
}
use api_gateway_platform.Policies.Types.{returned}
use api_gateway_platform.Oauth.Jwt.{Claim, str, Payload, claim, claim_is, str_or, OauthRuntime}
use api_gateway_platform.Oauth.Assertions.{
  value, replayed, pure, call, OauthTokenPolicyDependencies, DeveloperGrant, num_or, seconds,
  grant_refused, grant_of, check_grant, authenticate_developer_grant,
}
use api_gateway_platform.Oauth.Effects.{next-eq-value, call-eq-value}
use api_gateway_platform.Oauth.Vouched.{fresh-verdict}

module _ {W : Type 0} (dependencies : OauthTokenPolicyDependencies W) where
  open dependencies use {
    find_credential, find_public_key, consume_assertion, now, decode_header, decode_jwt, import_jwk,
    verify_jwt, verify_hs256,
  }

  -- The bounds that a developer's grant is within, and its single use.
  pub record IsBounded (environment_id : String) (payload : Payload) (grant : DeveloperGrant)
      (w w' : W) : Type 0 where
    pub environment : claim "environment_id" payload ≡ str environment_id
    pub short : num_or (claim "exp" payload) 0 - num_or (claim "iat" payload) 0 ≤ 30
    pub not_future : num_or (claim "iat" payload) 0 ≤ seconds dependencies w + 3
    pub at_least : 60 ≤ grant.ttl_seconds
    pub at_most : grant.ttl_seconds ≤ 900
    pub taken : grant ≡ grant_of dependencies environment_id payload
    pub consumed :
        consume_assertion "developer-token"
          (str_or (claim "jti" payload) "")
          (max 1 (num_or (claim "exp" payload) 0 - seconds dependencies w))
          w
        ≡ (returned true, w')

  claim_is-str : (c : Claim) (t : String) → claim_is c t ≡ true → c ≡ str t
  claim_is-str (str s) t h = ground (arith, eq_iff s t)
  claim_is-str _ t h = cc

  grant-bounds :
      (environment_id : String) (payload : Payload) (time : ℕ)
      → grant_refused dependencies environment_id payload time ≡ false
      → (claim "environment_id" payload ≡ str environment_id)
        × (num_or (claim "exp" payload) 0 - num_or (claim "iat" payload) 0 ≤ 30)
        × (num_or (claim "iat" payload) 0 ≤ time + 3)
        × (60 ≤ num_or (claim "ttl_seconds" payload) 0)
        × (num_or (claim "ttl_seconds" payload) 0 ≤ 900)
  unfolding grant_refused
  grant-bounds environment_id payload time h =
      let (h14, most) = or-eq-false _ _ h in
      let (h13, least) = or-eq-false _ _ h14 in
      let (h12, _) = or-eq-false _ _ h13 in
      let (h11, _) = or-eq-false _ _ h12 in
      let (h10, _) = or-eq-false _ _ h11 in
      let (h9, _) = or-eq-false _ _ h10 in
      let (h8, _) = or-eq-false _ _ h9 in
      let (h7, _) = or-eq-false _ _ h8 in
      let (h6, environment) = or-eq-false _ _ h7 in
      let (h5, future) = or-eq-false _ _ h6 in
      let (h4, short) = or-eq-false _ _ h5 in
      (
        claim_is-str _ environment_id (not-eq-false _ environment),
        ltb→le 30 _ short,
        ltb→le (time + 3) _ future,
        ltb→le _ 60 least,
        ltb→le 900 _ most,
      )

  check-IsBounded :
      (environment_id : String) (payload : Payload) (grant : DeveloperGrant) (w w' : W)
      → check_grant dependencies environment_id payload w ≡ (value (some grant), w')
      → IsBounded environment_id payload grant w w'
  unfolding check_grant grant_of
  check-IsBounded environment_id payload grant w w' h =
      elim (Bool-cases
        (grant_refused dependencies environment_id payload (seconds dependencies w))) [
          | inl refused ↦ absurd (ground arith)
          | inr fits ↦
              let mark =
                consume_assertion "developer-token" (str_or (claim "jti" payload) "")
                  (max 1 (num_or (claim "exp" payload) 0 - seconds dependencies w)) in
              let (fresh, w1, called, last) =
                next-eq-value (call mark w)
                  (λ fresh.
                    if fresh
                    then pure (some (grant_of dependencies environment_id payload))
                    else (λ w2. (replayed, w2)))
                  (rw (fits, check_grant) at h) in
              let used : mark w ≡ (returned fresh, w1) = call-eq-value mark w called in
              let (ok, taken, ends) =
                fresh-verdict dependencies fresh (grant_of dependencies environment_id payload) w1
                  last in
              let (environment, short, not_future, at_least, at_most) =
                grant-bounds environment_id payload (seconds dependencies w) fits in
              let ttl : grant.ttl_seconds ≡ num_or (claim "ttl_seconds" payload) 0 =
                ap (λ g. g.ttl_seconds) taken in
              record {
                environment = environment;
                short = short;
                not_future = not_future;
                at_least = rw ttl at_least;
                at_most = rw ttl at_most;
                taken = taken;
                consumed = cc;
              }
        ]

  -- A developer's grant is accepted only if the issuance key verified it, for this environment, for
  -- at most thirty seconds, once, and for a token that lives from one to fifteen minutes.
  pub authenticate_developer_grant-IsBounded :
      (runtime : Option OauthRuntime) (assertion audience environment_id : String)
      (grant : DeveloperGrant) (w w' : W)
      → authenticate_developer_grant dependencies runtime assertion audience environment_id w
        ≡ (value (some grant), w')
      → (rt : OauthRuntime) × (runtime ≡ some rt)
        × (secret : String) × (rt.developer_token_issuance_key ≡ some secret)
        × (payload : Payload) × (verify_hs256 assertion secret audience (seconds dependencies w)
            ≡ some payload)
        × IsBounded environment_id payload grant w w'
  unfolding authenticate_developer_grant
  authenticate_developer_grant-IsBounded runtime assertion audience environment_id grant w w' h =
      elim (Option-cases runtime) [
        | inl off ↦ absurd (ground arith)
        | inr (rt, e) ↦ elim (Option-cases rt.developer_token_issuance_key) [
          | inl none' ↦ absurd (ground arith)
          | inr (secret, f) ↦
              elim (Option-cases
                (verify_hs256 assertion secret audience (seconds dependencies w))) [
                  | inl bad ↦ absurd (ground arith)
                  | inr (payload, g) ↦ (
                    rt,
                    e,
                    secret,
                    f,
                    payload,
                    g,
                    check-IsBounded environment_id payload grant w w'
                        (rw g at (rw f at (rw (e, authenticate_developer_grant) at h))),
                  )
                ]
        ]
      ]
