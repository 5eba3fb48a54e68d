-- ===== src/Oauth/Issue.antt =====
-- What the token endpoint issues, and that the access-token policy takes it.
use mathlib.Core.List.{Memᴰ}
use api_gateway_platform.Common.{
  ℕ, ◌+◌, ◌/◌, ◌≤◌, ◌<◌, String, ◌≡◌, refl, sym, ap, ◌∙◌, inl, inr, Bool, true, false, not, Option,
  none, some, List, [], ◌∷◌, arith, any, includes, is_empty, flat_map, ◌==◌, eq_refl, Bool-cases,
  Option-cases, any_of_mem,
}
use api_gateway_platform.Common.Maps.{lookup}
use api_gateway_platform.Common.Text.{join, words}
use api_gateway_platform.Auth.Authorization.{
  AuthorizedProduct, CredentialRecord, credential_matches_workspace, authorized_products,
  unique_values,
}
use api_gateway_platform.Resolver.Registry.{present}
use api_gateway_platform.Shared.Policies.{OauthTokenPolicyConfig, OauthAccessTokenPolicyConfig}
use api_gateway_platform.Shared.Types.{ProxyConfig}
use api_gateway_platform.Policies.Types.{
  PolicyContext, continue, respond, returned, ClientContext, Run, Body, text, number, set_client,
}
use api_gateway_platform.Oauth.Jwt.{str, Payload, OauthRuntime, GatewayKey, SignsAndVerifies}
use api_gateway_platform.Oauth.AccessToken.{
  origin_of, claims_refused, check_claims, verify_token, options_of, token_client, wrong_workspace,
}
use api_gateway_platform.Oauth.Assertions.{OauthTokenPolicyDependencies}
use api_gateway_platform.Oauth.Token.{
  requested_scopes, available_scopes, application_payload, granted_scopes, issue, issue_application,
}

abbrev pub token_body : String → ℕ → List String → Body
token_body token ttl scopes =
    ("access_token", text token)
    ∷ ("token_type", text "Bearer")
    ∷ ("expires_in", number ttl)
    ∷ ("scope", text (join " " scopes))
    ∷ []

body-token :
    (token t : String) (ttl : ℕ) (scopes : List String)
    → lookup "access_token" (token_body token ttl scopes) ≡ some (text t)
    → t ≡ token
body-token token t ttl scopes h = cc

body-scope :
    (token s : String) (ttl : ℕ) (scopes : List String)
    → lookup "scope" (token_body token ttl scopes) ≡ some (text s)
    → s ≡ join " " scopes
body-scope token s ttl scopes h = cc

none-any :
    {A : Type 0} (p : A → Bool) {a : A} {xs : List A}
    → any (λ x. not (p x)) xs ≡ false
    → Memᴰ a xs
    → p a ≡ true
none-any p {a} h m = elim (Bool-cases (p a)) [
  | inl yes' ↦ yes'
  | inr no' ↦ let found = any_of_mem (λ x. not (p x)) m (rw no') in cc
]

module _ {W : Type 0} (key : GatewayKey) (runtime : Option OauthRuntime)
    (dependencies : OauthTokenPolicyDependencies W) where
  open dependencies use {now, random_uuid}

  -- The claims of the token that is issued to a credential for a form.
  abbrev pub issued_payload :
      OauthTokenPolicyConfig
      → List (String × String)
      → CredentialRecord
      → PolicyContext
      → W
      → Payload
  issued_payload config form credential ctx w =
      let products = authorized_products credential ctx.proxy.environment.id none in
      application_payload config ctx.proxy credential products
        (granted_scopes (requested_scopes form) (available_scopes config products)) (now w / 1000)
        (random_uuid w).0

  -- The tests that were passed, and the answer that was made.
  pub record Issues (config : OauthTokenPolicyConfig) (form : List (String × String))
      (credential : CredentialRecord) (ctx : PolicyContext) (w : W) (body : Body) : Type 0 where
    pub rt : OauthRuntime
    pub configured : runtime ≡ some rt
    pub matches : credential_matches_workspace credential ctx.proxy.workspace_id (now w) ≡ true
    pub products : List AuthorizedProduct
    pub approved : products ≡ authorized_products credential ctx.proxy.environment.id none
    pub some_product : is_empty products ≡ false
    pub scopes : List String
    pub chosen : scopes ≡ granted_scopes (requested_scopes form) (available_scopes config products)
    pub granted :
        (s : String) → Memᴰ s scopes → includes (available_scopes config products) s ≡ true
    pub answer :
        body
        ≡ token_body
            (key.sign rt.signing_key_id (
              application_payload config ctx.proxy credential products scopes
                (now w / 1000)
                (random_uuid w).0))
            config.access_token_ttl_seconds
            scopes

  pub issue_application-Issues :
      (config : OauthTokenPolicyConfig) (form : List (String × String))
      (credential : CredentialRecord) (ctx : PolicyContext) (w : W)
      (headers : List (String × String)) (body : Body) (t : Run W)
      → issue_application key runtime dependencies config form credential (ctx, w)
        ≡ (returned (respond 200 headers body), t)
      → Issues config form credential ctx w body
  unfolding issue_application issue
  issue_application-Issues config form credential ctx w headers body t h =
      let products = authorized_products credential ctx.proxy.environment.id none in
      let available = available_scopes config products in
      let scopes = granted_scopes (requested_scopes form) available in
      elim (Bool-cases (credential_matches_workspace credential ctx.proxy.workspace_id (now w))) [
        | inr other' ↦ absurd (ground arith)
        | inl matches ↦ elim (Bool-cases (is_empty products)) [
          | inl nothing ↦ absurd (ground arith)
          | inr some_product ↦ elim (Bool-cases (any (λ s. not (includes available s)) scopes)) [
            | inl beyond ↦ absurd (ground arith)
            | inr within ↦ elim (Option-cases runtime) [
              | inl off ↦ absurd (ground arith)
              | inr (rt, configured) ↦ record {
                rt = rt;
                configured = configured;
                matches = matches;
                products = products;
                approved = refl;
                some_product = some_product;
                scopes = scopes;
                chosen = refl;
                granted = λ s m. none-any (includes available) within m;
                answer = ground arith;
              }
            ]
          ]
        ]
      ]

  workspace-accepted :
      (config : OauthTokenPolicyConfig) (proxy served : ProxyConfig) (credential : CredentialRecord)
      (products : List AuthorizedProduct) (scopes : List String) (time : ℕ) (jti : String)
      → present served.workspace_id ≡ present proxy.workspace_id
      → wrong_workspace served
          (application_payload config proxy credential products scopes time jti)
        ≡ false
  unfolding application_payload
  workspace-accepted config proxy served credential products scopes time jti workspace =
      elim (Option-cases (present proxy.workspace_id)) [
        | inl standard ↦
            rw (workspace ∙ standard, wrong_workspace) (rw (standard, application_payload) refl)
        | inr (id, lab) ↦
            rw (workspace ∙ lab, wrong_workspace)
              (rw (lab, application_payload) (rw (eq_refl id) refl))
      ]

  -- The claims of an application's token pass the access-token policy of a proxy that it names.
  accepted-application :
      (config : OauthTokenPolicyConfig) (proxy served : ProxyConfig) (credential : CredentialRecord)
      (products : List AuthorizedProduct) (scopes : List String) (time : ℕ) (jti : String)
      (rt : OauthRuntime)
      → served.environment.id ≡ proxy.environment.id
      → present served.workspace_id ≡ present proxy.workspace_id
      → includes (unique_values (flat_map (λ p. p.proxy_ids) products)) served.id ≡ true
      → claims_refused rt.signing_key_id rt served
          (application_payload config proxy credential products scopes time jti)
        ≡ false
  unfolding claims_refused application_payload
  accepted-application config proxy served credential products scopes time jti rt environment
        workspace listed =
      let fit =
        workspace-accepted config proxy served credential products scopes time jti workspace in
      let here : (proxy.environment.id == served.environment.id) ≡ true =
        rw environment (eq_refl proxy.environment.id) in
      rw (eq_refl rt.signing_key_id, claims_refused)
        (rw (here, claims_refused) (rw (fit, claims_refused) (rw listed refl)))

  verify_token-signed :
      (config : OauthTokenPolicyConfig) (access : OauthAccessTokenPolicyConfig)
      (proxy : ProxyConfig) (credential : CredentialRecord) (products : List AuthorizedProduct)
      (scopes : List String) (time : ℕ) (jti : String) (rt : OauthRuntime) (ctx : PolicyContext)
      (w : W)
      → SignsAndVerifies key rt.signing_key_id
          (application_payload config proxy credential products scopes time jti)
      → runtime ≡ some rt
      → access.audience ≡ config.audience
      → origin_of ctx.proxy ≡ origin_of proxy
      → claims_refused rt.signing_key_id rt ctx.proxy
          (application_payload config proxy credential products scopes time jti)
        ≡ false
      → any (λ s. not (includes (words (join " " scopes)) s)) access.required_scopes ≡ false
      → time ≤ now w / 1000
      → now w / 1000 < time + config.access_token_ttl_seconds
      → verify_token key runtime now access
          (key.sign rt.signing_key_id
            (application_payload config proxy credential products scopes time jti))
          (ctx, w)
        ≡ (
          continue,
          set_client
              (token_client ctx.proxy
                (application_payload config proxy credential products scopes time jti))
              (ctx, w),
        )
  unfolding verify_token check_claims application_payload
  verify_token-signed config access proxy credential products scopes time jti rt ctx w signs
        configured audience origin fit enough from to =
      let payload = application_payload config proxy credential products scopes time jti in
      let verified : key.verify (key.sign rt.signing_key_id payload)
            (options_of key runtime now access ctx.proxy) (now w / 1000)
          ≡ some (rt.signing_key_id, payload) =
        signs.verify-sign (options_of key runtime now access ctx.proxy) (now w / 1000) time
          (time + config.access_token_ttl_seconds) (ap str (sym origin)) (ap str (sym audience))
          refl refl from to refl in
      rw (configured, verify_token)
        (rw (verified, verify_token) (rw (fit, check_claims) (rw (enough, check_claims) refl)))

  -- A token that the endpoint issues to an application is accepted, while it lives, by the
  -- access-token policy with the same audience, on every proxy of the token that has the same
  -- environment, workspace and origin, if the token's scopes have the required ones.
  pub verify_token-issue_application :
      (config : OauthTokenPolicyConfig) (form : List (String × String))
      (credential : CredentialRecord) (ctx : PolicyContext) (w : W)
      (headers : List (String × String)) (body : Body) (t : Run W) (token scope : String)
      (access : OauthAccessTokenPolicyConfig) (served : PolicyContext) (w' : W)
      → ((rt : OauthRuntime)
          → runtime ≡ some rt
          → SignsAndVerifies key rt.signing_key_id (issued_payload config form credential ctx w))
      → issue_application key runtime dependencies config form credential (ctx, w)
        ≡ (returned (respond 200 headers body), t)
      → lookup "access_token" body ≡ some (text token)
      → lookup "scope" body ≡ some (text scope)
      → access.audience ≡ config.audience
      → served.proxy.environment.id ≡ ctx.proxy.environment.id
      → present served.proxy.workspace_id ≡ present ctx.proxy.workspace_id
      → origin_of served.proxy ≡ origin_of ctx.proxy
      → includes
          (unique_values (
            flat_map
              (λ p. p.proxy_ids)
              (authorized_products credential ctx.proxy.environment.id none)))
          served.proxy.id
        ≡ true
      → any (λ s. not (includes (words scope) s)) access.required_scopes ≡ false
      → now w / 1000 ≤ now w' / 1000
      → now w' / 1000 < now w / 1000 + config.access_token_ttl_seconds
      → (client : ClientContext) × (verify_token key runtime now access token (served, w')
          ≡ (continue, set_client client (served, w')))
  verify_token-issue_application config form credential ctx w headers body t token scope access
        served w' signs h is_token is_scope audience environment workspace origin listed enough from
        to =
      let issued = issue_application-Issues config form credential ctx w headers body t h in
      let time = now w / 1000 in
      let jti = (random_uuid w).0 in
      let payload =
        application_payload config ctx.proxy credential issued.products issued.scopes time jti in
      let named : token ≡ key.sign issued.rt.signing_key_id payload =
        body-token (key.sign issued.rt.signing_key_id payload) token config.access_token_ttl_seconds
          issued.scopes (rw issued.answer at is_token) in
      let joined : scope ≡ join " " issued.scopes =
        body-scope (key.sign issued.rt.signing_key_id payload) scope config.access_token_ttl_seconds
          issued.scopes (rw issued.answer at is_scope) in
      let products : includes (unique_values (flat_map (λ p. p.proxy_ids) issued.products))
            served.proxy.id
          ≡ true =
        rw issued.approved listed in
      (
        token_client served.proxy payload,
        rw named (
            verify_token-signed config access ctx.proxy credential issued.products issued.scopes
              time jti issued.rt served w'
              (rw issued.chosen (rw issued.approved (signs issued.rt issued.configured)))
              issued.configured audience origin
              (accepted-application config ctx.proxy served.proxy credential issued.products
                issued.scopes time jti issued.rt environment workspace products)
              (rw joined at enough) from to),
      )
