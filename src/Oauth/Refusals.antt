-- ===== src/Oauth/Refusals.antt =====
-- The refusals of the token endpoint.
use api_gateway_platform.Common.{
  ℕ, ◌≤◌, String, ◌≡◌, refl, sym, ◌∙◌, inl, inr, Bool, true, false, not, Option, none, some, List,
  arith, ◌==◌, ◌||◌, Bool-cases, Option-cases,
}
use api_gateway_platform.Common.Maps.{lookup}
use api_gateway_platform.Auth.Authorization.{
  CredentialRecord, is_credential_valid, credential_matches_workspace,
}
use api_gateway_platform.Resolver.Registry.{present}
use api_gateway_platform.Shared.Types.{ProxyConfig}
use api_gateway_platform.Policies.Types.{PolicyContext, PolicyResult, respond, Body}
use api_gateway_platform.Oauth.Jwt.{OauthRuntime, GatewayKey}
use api_gateway_platform.Oauth.Assertions.{
  Caught, value, pure, call, OauthTokenPolicyDependencies, DeveloperGrant,
  authenticate_jwt_assertion, authenticate_developer_grant,
}
use api_gateway_platform.Oauth.Effects.{next-eq-value}
use api_gateway_platform.Oauth.Token.{
  Grant, refused, oauth_error, jwt_bearer, developer_token_grant_type, invalid_client,
  token_audience, verdict, assertion_verdict, developer_verdict, check_client, client_grant,
  assertion_grant, developer_grant, authenticate,
}

-- An answer that is an error.
pub record IsError (answer : PolicyResult) : Type 0 where
  pub status : ℕ
  pub error : String
  pub description : String
  pub bad : 400 ≤ status
  pub answered : answer ≡ oauth_error status error description

pub not-200 :
    {answer : PolicyResult} {headers : List (String × String)} {body : Body}
    → IsError answer
    → answer ≡ respond 200 headers body
    → ⊥
not-200 {answer} {headers} {body} e h =
    let k : oauth_error e.status e.error e.description ≡ respond 200 headers body =
      sym e.answered ∙ h in
    let l : e.status ≡ 200 = cc in let m : 400 ≤ e.status = e.bad in absurd (ground arith)

module _ {W : Type 0} (key : GatewayKey) (runtime : Option OauthRuntime)
    (dependencies : OauthTokenPolicyDependencies W) where
  open dependencies use {find_credential, verify_secret, now}

  refused-IsError :
      (x : PolicyResult) {answer : PolicyResult} {w w' : W}
      → IsError x
      → Path (Caught Grant × W) (value (refused x), w) (value (refused answer), w')
      → IsError answer
  refused-IsError x {answer} e h = let same : x ≡ answer = ground arith in rw (sym same) e

  client-IsError : IsError invalid_client
  client-IsError = record {
    status = 401;
    error = _;
    description = _;
    bad = omega arith;
    answered = refl;
  }

  verdict-IsError :
      (found : CredentialRecord) (ok : Bool) {answer : PolicyResult} (w1 : W) {w' : W}
      → pure {W = W} (verdict key runtime dependencies found ok) w1 ≡ (value (refused answer), w')
      → IsError answer
  verdict-IsError found true w1 h = absurd (ground arith)
  verdict-IsError found false w1 h = refused-IsError invalid_client client-IsError h

  check-refused :
      (proxy : ProxyConfig) (secret : String) (o : Option CredentialRecord) (answer : PolicyResult)
      (w w' : W)
      → check_client key runtime dependencies proxy secret o w ≡ (value (refused answer), w')
      → IsError answer
  unfolding check_client
  check-refused proxy secret none answer w w' h = refused-IsError invalid_client client-IsError h
  check-refused proxy secret (some found) answer w w' h =
      elim (Bool-cases (
        found.consumer_secret_hash == ""
        || not (is_credential_valid found (now w))
        || not (credential_matches_workspace found proxy.workspace_id (now w)))) [
          | inl bad ↦ refused-IsError invalid_client client-IsError (rw (bad, check_client) at h)
          | inr fits ↦
              let secret_of = verify_secret secret found.consumer_secret_hash in
              let (ok, w2, _, ends) =
                next-eq-value (call secret_of w)
                  (λ b. pure (verdict key runtime dependencies found b))
                  (rw (fits, check_client) at h) in
              verdict-IsError found ok w2 ends
        ]

  client-refused :
      (proxy : ProxyConfig) (basic : Option (String × String)) (answer : PolicyResult) (w w' : W)
      → client_grant key runtime dependencies proxy basic w ≡ (value (refused answer), w')
      → IsError answer
  unfolding client_grant
  client-refused proxy none answer w w' h = refused-IsError invalid_client client-IsError h
  client-refused proxy (some (id, secret)) answer w w' h =
      let (o, w1, _, last) =
        next-eq-value (call (find_credential id) w)
          (check_client key runtime dependencies proxy secret) h in
      check-refused proxy secret o answer w1 w' last

  assertion-refused :
      (proxy : ProxyConfig) (assertion : Option String) (answer : PolicyResult) (w w' : W)
      → assertion_grant key runtime dependencies proxy assertion w ≡ (value (refused answer), w')
      → IsError answer
  unfolding assertion_grant
  assertion-refused proxy assertion answer w w' h = elim (Option-cases (present assertion)) [
    | inl missing ↦
        refused-IsError (oauth_error 400 "invalid_request" "assertion is required")
          (record { status = 400; error = _; description = _; bad = omega arith; answered = refl })
          (rw (missing, assertion_grant) at h)
    | inr (a, there) ↦
        let (o, w1, _, last) =
          next-eq-value
            (authenticate_jwt_assertion dependencies a
              (token_audience key runtime dependencies proxy) w)
            (λ credential. pure (assertion_verdict key runtime dependencies credential))
            (rw (there, assertion_grant) at h) in
        judged o w1 last
  ]
    where
      judged :
          (o : Option CredentialRecord) (w1 : W)
          → pure {W = W} (assertion_verdict key runtime dependencies o) w1
            ≡ (value (refused answer), w')
          → IsError answer
      judged none w1 e =
          refused-IsError (oauth_error 400 "invalid_grant" "JWT assertion is invalid")
            (record {
              status = 400;
              error = _;
              description = _;
              bad = omega arith;
              answered = refl;
            })
            e
      judged (some c) w1 e = absurd (ground arith)

  developer-refused :
      (proxy : ProxyConfig) (assertion : Option String) (answer : PolicyResult) (w w' : W)
      → developer_grant key runtime dependencies proxy assertion w ≡ (value (refused answer), w')
      → IsError answer
  unfolding developer_grant
  developer-refused proxy assertion answer w w' h = elim (Option-cases (present assertion)) [
    | inl missing ↦
        refused-IsError (oauth_error 400 "invalid_request" "developer_assertion is required")
          (record { status = 400; error = _; description = _; bad = omega arith; answered = refl })
          (rw (missing, developer_grant) at h)
    | inr (a, there) ↦ elim (Option-cases (present proxy.workspace_id)) [
      | inr (id, lab) ↦
          refused-IsError
            (oauth_error 400 "invalid_grant" "Developer tokens are unavailable in lab workspaces")
            (record {
              status = 400;
              error = _;
              description = _;
              bad = omega arith;
              answered = refl;
            })
            (rw (lab, developer_grant) at (rw (there, developer_grant) at h))
      | inl standard ↦
          let (o, w1, _, last) =
            next-eq-value
              (authenticate_developer_grant dependencies runtime a
                (token_audience key runtime dependencies proxy) proxy.environment.id w)
              (λ grant. pure (developer_verdict key runtime dependencies grant))
              (rw (standard, developer_grant) at (rw (there, developer_grant) at h)) in
          judged o w1 last
    ]
  ]
    where
      judged :
          (o : Option DeveloperGrant) (w1 : W)
          → pure {W = W} (developer_verdict key runtime dependencies o) w1
            ≡ (value (refused answer), w')
          → IsError answer
      judged none w1 e =
          refused-IsError (oauth_error 400 "invalid_grant" "Developer authorization is invalid")
            (record {
              status = 400;
              error = _;
              description = _;
              bad = omega arith;
              answered = refl;
            })
            e
      judged (some c) w1 e = absurd (ground arith)

  -- A grant that is refused is answered with an error.
  pub authenticate-refused :
      (ctx : PolicyContext) (form : List (String × String)) (grant_type : String)
      (answer : PolicyResult) (w w' : W)
      → authenticate key runtime dependencies ctx form grant_type w ≡ (value (refused answer), w')
      → IsError answer
  unfolding authenticate
  authenticate-refused ctx form grant_type answer w w' h =
      elim (Bool-cases (grant_type == "client_credentials")) [
        | inl c ↦ client-refused ctx.proxy _ answer w w' (rw (c, authenticate) at h)
        | inr nc ↦ elim (Bool-cases (grant_type == jwt_bearer)) [
          | inl j ↦
              assertion-refused ctx.proxy (lookup "assertion" form) answer w w'
                (rw (j, authenticate) at (rw (nc, authenticate) at h))
          | inr nj ↦ elim (Bool-cases (grant_type == developer_token_grant_type)) [
            | inl d ↦
                developer-refused ctx.proxy (lookup "developer_assertion" form) answer w w'
                  (rw (d, authenticate) at (rw (nj, authenticate) at (rw (nc, authenticate) at h)))
            | inr nd ↦ absurd (ground arith)
          ]
        ]
      ]
