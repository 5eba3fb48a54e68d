-- ===== src/Oauth/Clients.antt =====
-- Who gets an answer 200 from the token endpoint.
use api_gateway_platform.Common.{
  String, ◌≡◌, refl, ◌⊎◌, inl, inr, Bool, true, false, not, Option, some, List, arith, includes,
  ◌==◌, ◌||◌, Bool-cases, Option-cases, or-eq-false, not-eq-false,
}
use api_gateway_platform.Common.Maps.{lookup}
use api_gateway_platform.Auth.Authorization.{
  CredentialRecord, is_credential_valid, credential_matches_workspace,
}
use api_gateway_platform.Resolver.Registry.{present}
use api_gateway_platform.Shared.Policies.{OauthTokenPolicyConfig}
use api_gateway_platform.Shared.Types.{ProxyConfig, EndpointMode, forward, local}
use api_gateway_platform.Policies.Types.{
  PolicyContext, PolicyResult, respond, Body, Try, returned, Run,
}
use api_gateway_platform.Oauth.Jwt.{OauthRuntime, GatewayKey}
use api_gateway_platform.Oauth.Assertions.{
  Caught, value, replayed, failed, pure, call, OauthTokenPolicyDependencies, DeveloperGrant,
}
use api_gateway_platform.Oauth.Effects.{next-eq-value, call-eq-value}
use api_gateway_platform.Oauth.Token.{
  Grant, refused, client, developer, neither, is_form, verdict, check_client, client_grant,
  authenticate, issue_developer, issue_application, conclude, oauth_token_policy,
}
use api_gateway_platform.Oauth.Refusals.{IsError, not-200, authenticate-refused}

module _ {W : Type 0} (key : GatewayKey) (runtime : Option OauthRuntime)
    (dependencies : OauthTokenPolicyDependencies W) where
  open dependencies use {find_credential, verify_secret, now}

  -- The credential has a secret, is valid, belongs to the proxy's workspace, and the secret given
  -- was verified against its hash.
  pub record IsAuthenticated (proxy : ProxyConfig) (id secret : String)
      (credential : CredentialRecord) (w w' : W) : Type 0 where
    pub w1 : W
    pub found : find_credential id w ≡ (returned (some credential), w1)
    pub hashed : (credential.consumer_secret_hash == "") ≡ false
    pub valid : is_credential_valid credential (now w1) ≡ true
    pub matches : credential_matches_workspace credential proxy.workspace_id (now w1) ≡ true
    pub verified : verify_secret secret credential.consumer_secret_hash w1 ≡ (returned true, w')

  verdict-client :
      (found credential : CredentialRecord) (ok : Bool) (w1 : W) {w' : W}
      → pure {W = W} (verdict key runtime dependencies found ok) w1
        ≡ (value (client credential), w')
      → (ok ≡ true) × (credential ≡ found) × (w1 ≡ w')
  verdict-client found credential true w1 h = (refl, ground arith, ground arith)
  verdict-client found credential false w1 h = absurd (ground arith)

  -- The client-credentials grant accepts only a client that IsAuthenticated describes.
  pub client_grant-IsAuthenticated :
      (proxy : ProxyConfig) (id secret : String) (credential : CredentialRecord) (w w' : W)
      → client_grant key runtime dependencies proxy (some (id, secret)) w
        ≡ (value (client credential), w')
      → IsAuthenticated proxy id secret credential w w'
  unfolding client_grant check_client
  client_grant-IsAuthenticated proxy id secret credential w w' h =
      let (o, w1, called, last) = next-eq-value (call (find_credential id) w) _ h in
      elim (Option-cases o) [
        | inl missing ↦ absurd (ground arith)
        | inr (found, there) ↦
            elim (Bool-cases (
              found.consumer_secret_hash == ""
              || not (is_credential_valid found (now w1))
              || not (credential_matches_workspace found proxy.workspace_id (now w1)))) [
                | inl bad ↦ absurd (ground arith)
                | inr fits ↦
                    let secret_of = verify_secret secret found.consumer_secret_hash in
                    let k = rw (fits, check_client) at (rw (there, check_client) at last) in
                    let (ok, w2, verified, ends) =
                      next-eq-value (call secret_of w1)
                        (λ b. pure (verdict key runtime dependencies found b)) k in
                    let (yes', same, done) = verdict-client found credential ok w2 ends in
                    let (rest, matches) = or-eq-false _ _ fits in
                    let (hashed, valid) = or-eq-false _ _ rest in
                    rw same (record {
                      w1 = w1;
                      found = rw there at (call-eq-value (find_credential id) w called);
                      hashed = hashed;
                      valid = not-eq-false _ valid;
                      matches = not-eq-false _ matches;
                      verified = rw done at (rw yes' at (call-eq-value secret_of w1 verified));
                    })
              ]
      ]

  conclude-cases :
      (config : OauthTokenPolicyConfig) (form : List (String × String)) (ctx : PolicyContext)
      (c : Caught Grant × W) (headers : List (String × String)) (body : Body) (t : Run W)
      → ((answer : PolicyResult) (w' : W) → c ≡ (value (refused answer), w') → IsError answer)
      → conclude key runtime dependencies config form ctx c
        ≡ (returned (respond 200 headers body), t)
      → ((credential : CredentialRecord) × (w' : W) × (c ≡ (value (client credential), w'))
          × (issue_application key runtime dependencies config form credential (ctx, w')
              ≡ (returned (respond 200 headers body), t)))
        ⊎ ((grant : DeveloperGrant) × (w' : W) × (c ≡ (value (developer grant), w'))
            × (issue_developer key runtime dependencies config grant (ctx, w')
                ≡ (returned (respond 200 headers body), t)))
  unfolding conclude
  conclude-cases config form ctx (value (refused answer), w') headers body t e h = absurd (
      not-200 {answer = answer} {headers = headers} {body = body} (e answer w' refl) (ground arith))
  conclude-cases config form ctx (value (client credential), w') headers body t e h =
      inl (credential, w', refl, h)
  conclude-cases config form ctx (value (developer grant), w') headers body t e h =
      inr (grant, w', refl, h)
  conclude-cases config form ctx (value neither, w') headers body t e h = absurd (ground arith)
  conclude-cases config form ctx (replayed, w') headers body t e h = absurd (ground arith)
  conclude-cases config form ctx (failed, w') headers body t e h = absurd (ground arith)

  -- The grant of a form ends with a credential or a developer's grant, from which a token is issued.
  pub record IsGranted (config : OauthTokenPolicyConfig) (ctx : PolicyContext) (w : W)
      (answer : Try PolicyResult × Run W) : Type 0 where
    pub mode : ctx.endpoint.mode ≡ local
    pub grant_type : String
    pub asked :
        present (lookup "grant_type" (dependencies.parse_form ctx.req.body)) ≡ some grant_type
    pub supported : includes config.grant_types grant_type ≡ true
    pub w' : W
    pub granted :
        ((credential : CredentialRecord) × (authenticate key runtime dependencies ctx
              (dependencies.parse_form ctx.req.body)
              grant_type
              w
            ≡ (value (client credential), w'))
          × (issue_application key runtime dependencies config
                (dependencies.parse_form ctx.req.body)
                credential
                (ctx, w')
              ≡ answer))
        ⊎ ((grant : DeveloperGrant) × (authenticate key runtime dependencies ctx
                (dependencies.parse_form ctx.req.body)
                grant_type
                w
              ≡ (value (developer grant), w'))
            × (issue_developer key runtime dependencies config grant (ctx, w') ≡ answer))

  -- The token endpoint answers 200 only to a supported grant that was authenticated, with the token
  -- of the client or of the developer's grant.
  pub oauth_token_policy-IsGranted :
      (config : OauthTokenPolicyConfig) (ctx : PolicyContext) (w : W)
      (headers : List (String × String)) (body : Body) (t : Run W)
      → oauth_token_policy key runtime dependencies config (ctx, w)
        ≡ (returned (respond 200 headers body), t)
      → IsGranted config ctx w (returned (respond 200 headers body), t)
  unfolding oauth_token_policy
  oauth_token_policy-IsGranted config ctx w headers body t h = by_mode ctx.endpoint.mode refl
    where
      form : List (String × String)
      form = dependencies.parse_form ctx.req.body

      by_type :
          (mode : ctx.endpoint.mode ≡ local) (grant_type : String)
          → present (lookup "grant_type" form) ≡ some grant_type
          → includes config.grant_types grant_type ≡ true
          → conclude key runtime dependencies config form ctx
              (authenticate key runtime dependencies ctx form grant_type w)
            ≡ (returned (respond 200 headers body), t)
          → IsGranted config ctx w (returned (respond 200 headers body), t)
      by_type mode grant_type asked supported k =
          elim (conclude-cases config form ctx
            (authenticate key runtime dependencies ctx form grant_type w) headers body t
            (λ answer w' e.
              authenticate-refused key runtime dependencies ctx form grant_type answer w w' e)
            k) [
              | inl (credential, w', e, issued) ↦ record {
                mode = mode;
                grant_type = grant_type;
                asked = asked;
                supported = supported;
                w' = w';
                granted = inl (credential, e, issued);
              }
              | inr (grant, w', e, issued) ↦ record {
                mode = mode;
                grant_type = grant_type;
                asked = asked;
                supported = supported;
                w' = w';
                granted = inr (grant, e, issued);
              }
            ]

      by_mode :
          (m : EndpointMode)
          → ctx.endpoint.mode ≡ m
          → IsGranted config ctx w (returned (respond 200 headers body), t)
      by_mode forward e = absurd (ground arith)
      by_mode local e = elim (Bool-cases (is_form (lookup "content-type" ctx.req.headers))) [
        | inr other' ↦ absurd (ground arith)
        | inl form_type ↦ elim (Option-cases (present (lookup "grant_type" form))) [
          | inl missing ↦ absurd (ground arith)
          | inr (grant_type, asked) ↦ elim (Bool-cases (includes config.grant_types grant_type)) [
            | inr no' ↦ absurd (ground arith)
            | inl supported ↦ by_type e grant_type asked supported (ground arith)
          ]
        ]
      ]
