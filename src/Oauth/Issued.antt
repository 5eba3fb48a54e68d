-- ===== src/Oauth/Issued.antt =====
-- The token that is issued to an application, by its claims and the grants of the credential.
use mathlib.Core.List.{Memᴰ}
use api_gateway_platform.Common.{
  ◌+◌, ◌/◌, String, ◌≡◌, refl, sym, ap, ◌∙◌, ◌↔◌, ◌⊎◌, inl, inr, true, false, ◌||◌, Option, none,
  some, List, [], ◌∷◌, includes, is_empty, flat_map, map, mem-map, mem-map_inv, mem-filter,
  filter-mem, or-eq-true,
}
use api_gateway_platform.Common.Members.{
  mem-unique_from, unique_from-mem, mem-flat_map, flat_map-mem, includes-mem,
}
use api_gateway_platform.Common.Maps.{lookup}
use api_gateway_platform.Common.Text.{join, words}
use api_gateway_platform.Auth.Authorization.{
  AuthorizedProduct, CredentialRecord, ProductGrant, credential_matches_workspace,
  authorized_products, unique_values,
}
use api_gateway_platform.Auth.Grants.{
  Authorizes, authorized_products_sound, authorized_products_complete, authorized_products-scopes,
}
use api_gateway_platform.Shared.Policies.{OauthTokenPolicyConfig}
use api_gateway_platform.Policies.Types.{PolicyContext, respond, returned, Run, Body, text, number}
use api_gateway_platform.Oauth.Jwt.{str, num, texts, claim, Payload, OauthRuntime, GatewayKey}
use api_gateway_platform.Oauth.Assertions.{OauthTokenPolicyDependencies}
use api_gateway_platform.Oauth.Token.{
  is_allowed, requested_scopes, available_scopes, application_payload, granted_scopes,
  issue_application,
}
use api_gateway_platform.Oauth.Issue.{issue_application-Issues}

mem-unique_values : {x : String} (xs : List String) → Memᴰ x (unique_values xs) → Memᴰ x xs
unfolding unique_values
mem-unique_values xs m = elim (mem-unique_from [] xs m) [ inl k ↦ elim k [ ] | inr k ↦ k ]

unique_values-mem : {x : String} (xs : List String) → Memᴰ x xs → Memᴰ x (unique_values xs)
unfolding unique_values
unique_values-mem xs m = unique_from-mem [] xs (inr m)

map_nonempty :
    (ps : List AuthorizedProduct) → is_empty ps ≡ false → is_empty (map (λ p. p.id) ps) ≡ false
map_nonempty [] h = h
map_nonempty (p ∷ ps) h = refl

unique_nonempty : (xs : List String) → is_empty xs ≡ false → is_empty (unique_values xs) ≡ false
unique_nonempty [] h = cc
unique_nonempty (x ∷ xs) h =
    member (unique_values (x ∷ xs)) (unique_values-mem (x ∷ xs) (Memᴰ.head refl))
  where
    member : (l : List String) → Memᴰ x l → is_empty l ≡ false
    member [] m = elim m [ ]
    member (y ∷ l) m = refl

module _ {W : Type 0} (key : GatewayKey) (runtime : Option OauthRuntime)
    (dependencies : OauthTokenPolicyDependencies W) where
  open dependencies use {now}

  -- A token whose products, proxies and scopes are those of the credential's grants.
  pub record IsIssued (config : OauthTokenPolicyConfig) (form : List (String × String))
      (credential : CredentialRecord) (ctx : PolicyContext) (w : W) (body : Body) : Type 0 where
    pub rt : OauthRuntime
    pub configured : runtime ≡ some rt
    pub matches : credential_matches_workspace credential ctx.proxy.workspace_id (now w) ≡ true
    pub payload : Payload
    pub token : lookup "access_token" body ≡ some (text (key.sign rt.signing_key_id payload))
    pub expires_in : lookup "expires_in" body ≡ some (number config.access_token_ttl_seconds)
    pub expires : claim "exp" payload ≡ num (now w / 1000 + config.access_token_ttl_seconds)
    pub client : claim "client_id" payload ≡ str credential.consumer_key
    pub credential_claim : claim "credential_id" payload ≡ str credential.id
    pub environment : claim "environment_id" payload ≡ str ctx.proxy.environment.id
    pub scopes : List String
    pub scope_answer : lookup "scope" body ≡ some (text (join " " scopes))
    pub scope_claim : claim "scope" payload ≡ str (join " " scopes)
    pub permitted :
        (s : String)
        → Memᴰ s scopes
        → ((is_empty config.allowed_scopes ≡ true) ⊎ (includes config.allowed_scopes s ≡ true))
          × (g : ProductGrant) × Authorizes credential ctx.proxy.environment.id none g
          × Memᴰ s g.scopes
          × (includes g.product.scopes s ≡ true)
    pub requested :
        (given : String)
        → lookup "scope" form ≡ some given
        → is_empty (words given) ≡ false
        → (s : String) → Memᴰ s scopes ↔ Memᴰ s (words given)
    pub by_default :
        (s : String) (g : ProductGrant)
        → lookup "scope" form ≡ none
        → Authorizes credential ctx.proxy.environment.id none g
        → Memᴰ s g.scopes
        → includes g.product.scopes s ≡ true
        → (is_empty config.allowed_scopes || includes config.allowed_scopes s) ≡ true
        → Memᴰ s scopes
    pub product_ids : List String
    pub product_claim : claim "product_ids" payload ≡ texts product_ids
    pub granted_products :
        (id : String)
        → Memᴰ id product_ids ↔ (
            (g : ProductGrant) × Authorizes credential ctx.proxy.environment.id none g
            × (g.product.id ≡ id))
    pub some_product : is_empty product_ids ≡ false
    pub proxy_ids : List String
    pub proxy_claim : claim "proxy_ids" payload ≡ texts proxy_ids
    pub granted_proxies :
        (id : String)
        → Memᴰ id proxy_ids ↔ (
            (g : ProductGrant) × Authorizes credential ctx.proxy.environment.id none g
            × Memᴰ id g.product.proxies)

  module _ (config : OauthTokenPolicyConfig) (form : List (String × String))
      (credential : CredentialRecord) (environment_id : String) where
    abbrev products : List AuthorizedProduct
    products = authorized_products credential environment_id none

    -- A scope is available exactly where the endpoint allows it and a grant gives it.
    available_sound :
        (s : String)
        → Memᴰ s (available_scopes config products)
        → ((is_empty config.allowed_scopes ≡ true) ⊎ (includes config.allowed_scopes s ≡ true))
          × (g : ProductGrant) × Authorizes credential environment_id none g
          × Memᴰ s g.scopes
          × (includes g.product.scopes s ≡ true)
    unfolding available_scopes
    available_sound s m =
        let (listed, allowed) = mem-filter (is_allowed config) _ m in
        let (p, is_product, has) =
          mem-flat_map (λ p. p.scopes) products (mem-unique_values _ listed) in
        let (g, h, given, offered) =
          authorized_products-scopes credential environment_id none p s is_product has in
        (or-eq-true _ _ allowed, g, h, given, offered)

    available_complete :
        (s : String) (g : ProductGrant)
        → Authorizes credential environment_id none g
        → Memᴰ s g.scopes
        → includes g.product.scopes s ≡ true
        → (is_empty config.allowed_scopes || includes config.allowed_scopes s) ≡ true
        → Memᴰ s (available_scopes config products)
    unfolding available_scopes
    available_complete s g h m offered allowed =
        filter-mem (is_allowed config)
          (unique_values-mem _ (
            flat_map-mem (λ p. p.scopes)
              (authorized_products_complete credential environment_id none g h)
              (filter-mem (λ t. includes g.product.scopes t) m offered)))
          allowed

    requested-granted :
        (given : String) (available : List String)
        → lookup "scope" form ≡ some given
        → is_empty (words given) ≡ false
        → (s : String)
        → Memᴰ s (granted_scopes (requested_scopes form) available) ↔ Memᴰ s (words given)
    requested-granted given available e some_word s =
        let some_scope = unique_nonempty (words given) some_word in
        rw e (rw some_scope (mem-unique_values (words given), unique_values-mem (words given)))

    none_requested :
        (available : List String)
        → lookup "scope" form ≡ none
        → granted_scopes (requested_scopes form) available ≡ available
    unfolding unique_values words
    none_requested available e = rw e refl

    product_iff :
        (id : String)
        → Memᴰ id (map (λ p. p.id) products)
          ↔ ((g : ProductGrant) × Authorizes credential environment_id none g × (g.product.id ≡ id))
    product_iff id = (
      λ m.
          let (p, is_product, e) = mem-map_inv (λ p. p.id) products m in
          let (g, h, same) =
            authorized_products_sound credential environment_id none p is_product in
          (g, h, sym (e ∙ ap (λ p. p.id) same)),
      λ (g, h, e).
          rw (sym e)
            (mem-map (λ p. p.id) (authorized_products_complete credential environment_id none g h)),
    )

    proxy_iff :
        (id : String)
        → Memᴰ id (unique_values (flat_map (λ p. p.proxy_ids) products)) ↔ (
            (g : ProductGrant) × Authorizes credential environment_id none g
            × Memᴰ id g.product.proxies)
    proxy_iff id = (
      λ m.
          let (p, is_product, has) =
            mem-flat_map (λ p. p.proxy_ids) products (mem-unique_values _ m) in
          let (g, h, same) =
            authorized_products_sound credential environment_id none p is_product in
          (g, h, rw same at has),
      λ (g, h, m). unique_values-mem _ (
          flat_map-mem (λ p. p.proxy_ids)
            (authorized_products_complete credential environment_id none g h) m),
    )

  -- Every answer 200 to a credential carries a token of the client and the environment, which lives
  -- as long as the answer says. It names exactly the products of the credential's approved grants
  -- for active products of its own organization that cover the environment, of which there is one,
  -- and exactly their proxies. Each of its scopes is allowed by the endpoint, and granted by such a
  -- grant and its product; where the form asks for some scopes, these are the token's, and where the
  -- form has none, the token has all such scopes.
  pub issue_application-IsIssued :
      (config : OauthTokenPolicyConfig) (form : List (String × String))
      (credential : CredentialRecord) (ctx : PolicyContext) (w : W)
      (headers : List (String × String)) (body : Body) (t : Run W)
      → issue_application key runtime dependencies config form credential (ctx, w)
        ≡ (returned (respond 200 headers body), t)
      → IsIssued config form credential ctx w body
  unfolding application_payload
  issue_application-IsIssued config form credential ctx w headers body t h =
      let i =
        issue_application-Issues key runtime dependencies config form credential ctx w headers body
          t h in
      let id = ctx.proxy.environment.id in
      record {
        rt = i.rt;
        configured = i.configured;
        matches = i.matches;
        payload =
            application_payload config ctx.proxy credential i.products i.scopes (now w / 1000)
              (dependencies.random_uuid w).0;
        token = ap (lookup "access_token") i.answer;
        expires_in = ap (lookup "expires_in") i.answer;
        expires = refl;
        client = refl;
        credential_claim = refl;
        environment = refl;
        scopes = i.scopes;
        scope_answer = ap (lookup "scope") i.answer;
        scope_claim = refl;
        permitted = λ s m.
            available_sound config form credential id s (
              rw i.approved at (includes-mem (available_scopes config i.products) (i.granted s m)));
        requested = λ given e some_word s. rw i.chosen (
            requested-granted config form credential id given (available_scopes config i.products) e
              some_word s);
        by_default = λ s g e a m offered allowed.
            rw (i.chosen ∙ none_requested config form credential id _ e) (
              rw i.approved (available_complete config form credential id s g a m offered allowed));
        product_ids = map (λ p. p.id) i.products;
        product_claim = refl;
        granted_products = λ p. rw i.approved (product_iff config form credential id p);
        some_product = map_nonempty i.products i.some_product;
        proxy_ids = unique_values (flat_map (λ p. p.proxy_ids) i.products);
        proxy_claim = refl;
        granted_proxies = λ p. rw i.approved (proxy_iff config form credential id p);
      }
