-- ===== src/Auth/Grants.antt =====
-- What an authorized product stands for, and the separation of workspaces.
use mathlib.Core.List.{Memᴰ}
use api_gateway_platform.Common.{
  ℕ, String, ◌≡◌, sym, ap, ◌∙◌, ◌↔◌, ◌⊎◌, inl, inr, true, Option, some, arith, mem-filter,
  filter-mem, mem-map, mem-map_inv, includes, is_empty, eq_iff, Option-cases,
}
use api_gateway_platform.Resolver.Registry.{present}
use api_gateway_platform.Auth.Authorization.{
  CredentialRecord, ProductGrant, AuthorizedProduct, authorized_products, to_authorized, is_granted,
  is_own, covers_environment, covers_proxy, credential_matches_workspace, workspace_of,
}

-- The grant is one of the credential's, approved, for an active product of its own organization,
-- that is global or lists the environment, and that lists the proxy, if one is asked for.
pub record Authorizes (credential : CredentialRecord) (environment_id : String)
    (proxy_id : Option String) (g : ProductGrant) : Type 0 where
  pub listed : Memᴰ g credential.product_grants
  pub approved : g.status ≡ "approved"
  pub active : g.product.active ≡ true
  pub own : g.product.organization_id ≡ credential.app.organization_id
  pub environment :
      (is_empty g.product.environments ≡ true)
      ⊎ (includes g.product.environments environment_id ≡ true)
  pub proxy : (id : String) → present proxy_id ≡ some id → includes g.product.proxies id ≡ true

module _ (credential : CredentialRecord) (environment_id : String) (proxy_id : Option String) where
  pub authorized_products_sound :
      (a : AuthorizedProduct)
      → Memᴰ a (authorized_products credential environment_id proxy_id)
      → (g : ProductGrant) × Authorizes credential environment_id proxy_id g × (a ≡ to_authorized g)
  unfolding authorized_products
  authorized_products_sound a m =
      let (g, m1, e) = mem-map_inv to_authorized _ m in
      let (m2, t_proxy) = mem-filter (covers_proxy proxy_id) _ m1 in
      let (m3, t_env) = mem-filter (covers_environment environment_id) _ m2 in
      let (m4, t_own) = mem-filter (is_own credential) _ m3 in
      let (m5, t_granted) = mem-filter is_granted _ m4 in
      (
        g,
        record {
          listed = m5;
          approved = ground (arith, eq_iff g.status "approved");
          active = ground arith;
          own = (eq_iff _ _).0 t_own;
          environment = ground arith;
          proxy = λ id p. ground arith;
        },
        e,
      )

  pub authorized_products_complete :
      (g : ProductGrant)
      → Authorizes credential environment_id proxy_id g
      → Memᴰ (to_authorized g) (authorized_products credential environment_id proxy_id)
  unfolding authorized_products
  authorized_products_complete g h =
      let granted : is_granted g ≡ true = ground (arith, eq_iff g.status "approved") in
      let own : is_own credential g ≡ true = (eq_iff _ _).1 h.own in
      let env : covers_environment environment_id g ≡ true = ground arith in
      mem-map to_authorized (
        filter-mem (covers_proxy proxy_id)
          (filter-mem (covers_environment environment_id)
            (filter-mem (is_own credential) (filter-mem is_granted h.listed granted) own) env)
          covered)
    where
      covered : covers_proxy proxy_id g ≡ true
      covered = elim (Option-cases (present proxy_id)) [
        | inl missing ↦ ground arith
        | inr (id, found) ↦ let listed = h.proxy id found in ground arith
      ]

  -- The authorized products are exactly those of the grants that authorize: nothing else is
  -- offered, and no such grant is left out.
  pub authorized_products_iff :
      (a : AuthorizedProduct)
      → Memᴰ a (authorized_products credential environment_id proxy_id) ↔ (
          (g : ProductGrant) × Authorizes credential environment_id proxy_id g
          × (a ≡ to_authorized g))
  authorized_products_iff a =
      (authorized_products_sound a, λ (g, h, e). rw e (authorized_products_complete g h))

  -- A scope of an authorized product is one that the grant and the product both have.
  pub authorized_products-scopes :
      (a : AuthorizedProduct) (scope : String)
      → Memᴰ a (authorized_products credential environment_id proxy_id)
      → Memᴰ scope a.scopes
      → (g : ProductGrant) × Authorizes credential environment_id proxy_id g
        × Memᴰ scope g.scopes
        × (includes g.product.scopes scope ≡ true)
  authorized_products-scopes a scope m k =
      let (g, h, e) = authorized_products_sound a m in
      let (listed, offered) = mem-filter (λ s. includes g.product.scopes s) g.scopes (rw e at k) in
      (g, h, listed, offered)

-- A credential that is accepted for two workspaces, at any two times, is accepted for one: either
-- both are absent or they are the same.
pub credential_matches_workspace-same :
    (credential : CredentialRecord) (a b : Option String) (now later : ℕ)
    → credential_matches_workspace credential a now ≡ true
    → credential_matches_workspace credential b later ≡ true
    → present a ≡ present b
unfolding credential_matches_workspace
credential_matches_workspace-same credential a b now later h k = elim (Option-cases (present a)) [
  | inl na ↦ elim (Option-cases (present b)) [
    | inl nb ↦ na ∙ sym nb
    | inr (y, fb) ↦ absurd (ground arith)
  ]
  | inr (x, fa) ↦ elim (Option-cases (present b)) [
    | inl nb ↦ absurd (ground arith)
    | inr (y, fb) ↦ elim (Option-cases (workspace_of credential.app.organization)) [
      | inl none_there ↦ absurd (ground arith)
      | inr (w, found) ↦
          let left : x ≡ y = ground (arith, eq_iff w.id x, eq_iff w.id y) in
          rw (fa, fb) (ap some left)
    ]
  ]
]
