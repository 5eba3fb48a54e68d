-- ===== src/Oauth/Access.antt =====
-- What an access token must say to be let through.
use mathlib.Core.List.{Memᴰ}
use api_gateway_platform.Common.{
  ℕ, ◌/◌, String, ◌≡◌, refl, ◌⊎◌, inl, inr, true, false, not, Option, none, some, arith, any,
  includes, eq_iff, Bool-cases, Option-cases, any_of_mem, or-eq-false, not-eq-false, ◌&&◌,
}
use api_gateway_platform.Common.Maps.{lookup}
use api_gateway_platform.Common.Text.{starts_with, slice_from}
use api_gateway_platform.Resolver.Registry.{present}
use api_gateway_platform.Shared.Policies.{OauthAccessTokenPolicyConfig}
use api_gateway_platform.Shared.Types.{ProxyConfig}
use api_gateway_platform.Policies.Types.{PolicyContext, continue, returned, Run, set_client}
use api_gateway_platform.Oauth.Jwt.{
  Claim, str, undefined, Payload, claim, claim_is, is_undefined, texts_of, OauthRuntime, GatewayKey,
}
use api_gateway_platform.Oauth.AccessToken.{
  first_value, wrong_workspace, claims_refused, scopes_of, token_client, options_of,
  oauth_access_token_policy,
}

-- The claims are for this proxy, in this environment and workspace, and carry the scopes required.
pub record IsForProxy (config : OauthAccessTokenPolicyConfig) (proxy : ProxyConfig)
    (claims : Payload) : Type 0 where
  pub environment : claim "environment_id" claims ≡ str proxy.environment.id
  pub workspace :
      (id : String) → present proxy.workspace_id ≡ some id → claim "workspace_id" claims ≡ str id
  pub no_workspace : present proxy.workspace_id ≡ none → claim "workspace_id" claims ≡ undefined
  pub proxy_listed : includes (texts_of (claim "proxy_ids" claims)) proxy.id ≡ true
  pub kind :
      ((claim "token_kind" claims ≡ str "developer")
        × (claim "organization_id" claims ≡ str proxy.organization_id))
      ⊎ (claim "token_kind" claims ≡ str "application")
      ⊎ (claim "token_kind" claims ≡ undefined)
  pub scopes : (s : String) → Memᴰ s config.required_scopes → includes (scopes_of claims) s ≡ true

claim_is-str : (c : Claim) (t : String) → claim_is c t ≡ true → c ≡ str t
claim_is-str (str s) t h = ground (arith, eq_iff s t)
claim_is-str undefined t h = cc
claim_is-str _ t h = cc

is_undefined-undefined : (c : Claim) → is_undefined c ≡ true → c ≡ undefined
is_undefined-undefined undefined h = refl
is_undefined-undefined _ h = cc

workspace-claim :
    (proxy : ProxyConfig) (claims : Payload)
    → wrong_workspace proxy claims ≡ false
    → ((id : String) → present proxy.workspace_id ≡ some id → claim "workspace_id" claims ≡ str id)
      × (present proxy.workspace_id ≡ none → claim "workspace_id" claims ≡ undefined)
workspace-claim proxy claims h = (
  (λ id p. claim_is-str _ id (not-eq-false _ (rw (p, wrong_workspace) at h))),
  (λ p. is_undefined-undefined _ (not-eq-false _ (rw (p, wrong_workspace) at h))),
)

kind-claim :
    (kind organization : Claim) (organization_id : String)
    → (claim_is kind "developer" && not (claim_is organization organization_id)) ≡ false
    → (not (claim_is kind "developer")
        && not (is_undefined kind)
        && not (claim_is kind "application"))
      ≡ false
    → ((kind ≡ str "developer") × (organization ≡ str organization_id))
      ⊎ (kind ≡ str "application")
      ⊎ (kind ≡ undefined)
kind-claim kind organization organization_id h k = elim (Bool-cases (claim_is kind "developer")) [
  | inl dev ↦ inl (claim_is-str kind _ dev, claim_is-str organization _ (ground arith))
  | inr app ↦ elim (Bool-cases (is_undefined kind)) [
    | inl absent ↦ inr (inr (is_undefined-undefined kind absent))
    | inr there ↦ inr (inl (claim_is-str kind _ (ground arith)))
  ]
]

-- Claims that are not refused are for the proxy.
accepted-IsForProxy :
    (config : OauthAccessTokenPolicyConfig) (kid : String) (rt : OauthRuntime) (proxy : ProxyConfig)
    (claims : Payload)
    → claims_refused kid rt proxy claims ≡ false
    → any (λ scope. not (includes (scopes_of claims) scope)) config.required_scopes ≡ false
    → (kid ≡ rt.signing_key_id) × IsForProxy config proxy claims
unfolding claims_refused
accepted-IsForProxy config kid rt proxy claims h k =
    let (h11, _) = or-eq-false _ _ h in
    let (h10, listed) = or-eq-false _ _ h11 in
    let (h9, _) = or-eq-false _ _ h10 in
    let (h8, _) = or-eq-false _ _ h9 in
    let (h7, workspace) = or-eq-false _ _ h8 in
    let (h6, environment) = or-eq-false _ _ h7 in
    let (h5, application) = or-eq-false _ _ h6 in
    let (h4, developer) = or-eq-false _ _ h5 in
    let (h3, _) = or-eq-false _ _ h4 in
    let (h2, _) = or-eq-false _ _ h3 in
    let (signed, _) = or-eq-false _ _ h2 in
    let (here, absent) = workspace-claim proxy claims workspace in
    (
      (eq_iff _ _).0 (not-eq-false _ signed),
      record {
        environment = claim_is-str _ _ (not-eq-false _ environment);
        workspace = here;
        no_workspace = absent;
        proxy_listed = not-eq-false _ listed;
        kind = kind-claim _ _ _ developer application;
        scopes = λ s m. covered s m (Bool-cases (includes (scopes_of claims) s));
      },
    )
  where
    covered :
        (s : String)
        → Memᴰ s config.required_scopes
        → (includes (scopes_of claims) s ≡ true) ⊎ (includes (scopes_of claims) s ≡ false)
        → includes (scopes_of claims) s ≡ true
    covered s m (inl yes') = yes'
    covered s m (inr missing) =
        let found = any_of_mem (λ scope. not (includes (scopes_of claims) scope)) m (rw missing) in
        cc

module _ {W : Type 0} (key : GatewayKey) (runtime : Option OauthRuntime) (now : W → ℕ) where
  -- The request carried a token that the gateway's key verifies now, for the proxy's origin and the
  -- audience, with claims for the proxy; the client of the context is that of the claims.
  pub record IsBearer (config : OauthAccessTokenPolicyConfig) (ctx : PolicyContext) (w : W)
      (t : Run W) : Type 0 where
    pub value : String
    pub header : first_value (lookup "authorization" ctx.req.headers) ≡ some value
    pub bearer : starts_with value "Bearer " ≡ true
    pub rt : OauthRuntime
    pub configured : runtime ≡ some rt
    pub kid : String
    pub claims : Payload
    pub verified :
        key.verify (slice_from 7 value) (options_of key runtime now config ctx.proxy) (now w / 1000)
        ≡ some (kid, claims)
    pub signed : kid ≡ rt.signing_key_id
    pub for_proxy : IsForProxy config ctx.proxy claims
    pub client : t ≡ set_client (token_client ctx.proxy claims) (ctx, w)

  -- A request passes the access-token policy, whatever the failure mode, only with a bearer token
  -- that the gateway's key verifies at the time for the proxy's origin and the audience, and whose
  -- claims are for the proxy, its environment and its workspace and have the scopes required; the
  -- client of the context is then that of the claims.
  pub oauth_access_token_policy-IsBearer :
      (config : OauthAccessTokenPolicyConfig) (ctx : PolicyContext) (w : W) (t : Run W)
      → oauth_access_token_policy key runtime now config (ctx, w) ≡ (returned continue, t)
      → IsBearer config ctx w t
  unfolding oauth_access_token_policy
  oauth_access_token_policy-IsBearer config ctx w t h =
      elim (Option-cases (first_value (lookup "authorization" ctx.req.headers))) [
        | inl missing ↦ absurd (ground arith)
        | inr (value, header) ↦ elim (Bool-cases (starts_with value "Bearer ")) [
          | inr basic ↦ absurd (ground arith)
          | inl bearer ↦ elim (Option-cases runtime) [
            | inl off ↦ absurd (ground arith)
            | inr (rt, configured) ↦
                elim (Option-cases (
                  key.verify (slice_from 7 value) (options_of key runtime now config ctx.proxy)
                    (now w / 1000))) [
                      | inl bad ↦ absurd (ground arith)
                      | inr ((kid, claims), verified) ↦
                          let fit : claims_refused kid rt ctx.proxy claims ≡ false = ground arith in
                          let enough : any (λ scope. not (includes (scopes_of claims) scope))
                                config.required_scopes
                              ≡ false =
                            ground arith in
                          let (signed, for_proxy) =
                            accepted-IsForProxy config kid rt ctx.proxy claims fit enough in
                          record {
                            value = value;
                            header = header;
                            bearer = bearer;
                            rt = rt;
                            configured = configured;
                            kid = kid;
                            claims = claims;
                            verified = verified;
                            signed = signed;
                            for_proxy = for_proxy;
                            client = ground arith;
                          }
                    ]
          ]
        ]
      ]
