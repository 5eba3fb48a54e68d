-- ===== src/Applications/Coverage.antt =====
-- What a new credential is granted.
use mathlib.Core.List.{Memᴰ}
use api_gateway_platform.Common.{
  ℕ, String, ◌≡◌, refl, sym, ap, inl, inr, Bool, true, false, not, none, some, List, [], ◌∷◌, ◌++◌,
  filter, find, includes, is_empty, all, eq_iff, Bool-cases, mem-filter, length, eqb,
}
use api_gateway_platform.Common.Results.{ok}
use api_gateway_platform.Common.Chains.{
  then_returns, next_returns, guard_returns, require_returns, same_returns,
}
use api_gateway_platform.Auth.Authorization.{Product}
use api_gateway_platform.Database.Tables.{
  approved, is_revoked, DeveloperApp, AppCredential, CredentialProductGrant, Tables, find_key,
  app_key,
}
use api_gateway_platform.Applications.Types.{
  Generated, ProductRequest, CreateManagedCredentialInput, product_ids, record_audit,
}
use api_gateway_platform.Applications.Grants.{
  has_product, requested_scopes, check_product, check_products, find_products,
  create_managed_credential,
}

-- The grant is approved and for an active product of the organization, and it has scopes of the product only.
pub record IsCovered (products : List Product) (organization_id : String)
    (grant : CredentialProductGrant) : Type 0 where
  pub product : Product
  pub is_listed : Memᴰ product products
  pub is_named : product.id ≡ grant.product_id
  pub is_active : product.active ≡ true
  pub is_own : product.organization_id ≡ organization_id
  pub is_offered : all (λ scope. includes product.scopes scope) grant.scopes ≡ true
  pub is_approved : grant.status ≡ approved

find-mem : {A : Type 0} (p : A → Bool) (xs : List A) {a : A} → find p xs ≡ some a → Memᴰ a xs
find-mem p [] h = cc
find-mem p (x ∷ xs) {a} h = elim (Bool-cases (p x)) [
  | inl k ↦ Memᴰ.head (ap (λ o. elim o [ none ↦ a | some y ↦ y ]) (sym (rw k at h)))
  | inr k ↦ Memᴰ.tail (find-mem p xs (rw k at h))
]

none_left-all :
    {A : Type 0} (p : A → Bool) (xs : List A)
    → is_empty (filter (λ x. not (p x)) xs) ≡ true
    → all p xs ≡ true
none_left-all p [] h = refl
none_left-all p (x ∷ xs) h = elim (Bool-cases (p x)) [
  | inl k ↦ rw k (none_left-all p xs (rw k at h))
  | inr k ↦ let left = rw k at h in cc
]

moved :
    (products : List Product) (organization_id : String) (g h : CredentialProductGrant)
    → g ≡ h
    → IsCovered products organization_id g
    → IsCovered products organization_id h
moved products organization_id g h e c = rw (sym e) c

check_product-IsCovered :
    (products : List Product) (organization_id credential_id : String) (requested : ProductRequest)
    (grant : CredentialProductGrant)
    → check_product products organization_id credential_id requested ≡ ok grant
    → IsCovered products organization_id grant
unfolding check_product
check_product-IsCovered products organization_id credential_id requested grant h =
    let (product, found, h) = then_returns h in
    let (active, h) = next_returns h in
    let (own, h) = next_returns h in
    let (offered, h) = next_returns h in
    moved products organization_id _ _ (same_returns refl h) (record {
      product = product;
      is_listed = find-mem (has_product requested.product_id) products (require_returns _ _ found);
      is_named = refl;
      is_active = guard_returns _ _ active;
      is_own = (eq_iff product.organization_id organization_id).0 (guard_returns _ _ own);
      is_offered =
          none_left-all (λ scope. includes product.scopes scope)
            (requested_scopes requested product) (guard_returns _ _ offered);
      is_approved = refl;
    })

check_products-IsCovered :
    (products : List Product) (organization_id credential_id : String)
    (requested : List ProductRequest) (grants : List CredentialProductGrant)
    → check_products products organization_id credential_id requested ≡ ok grants
    → (grant : CredentialProductGrant) → Memᴰ grant grants
    → IsCovered products organization_id grant
unfolding check_products
check_products-IsCovered products organization_id credential_id [] grants h grant m =
    let none_there : Memᴰ grant [] = rw (sym (same_returns refl h)) at m in elim none_there [ ]
check_products-IsCovered products organization_id credential_id (r ∷ more) grants h grant m =
    let (first, checked, h) = then_returns h in
    let (rest, others, h) = then_returns h in
    split first (check_product-IsCovered products organization_id credential_id r first checked)
      (λ k.
        check_products-IsCovered products organization_id credential_id more rest others grant k)
      (rw (sym (same_returns refl h)) at m)
  where
    split :
        (first : CredentialProductGrant) {rest : List CredentialProductGrant}
        → IsCovered products organization_id first
        → (Memᴰ grant rest → IsCovered products organization_id grant)
        → Memᴰ grant (first ∷ rest)
        → IsCovered products organization_id grant
    split first covered others (Memᴰ.head e) =
        moved products organization_id first grant (sym e) covered
    split first covered others (Memᴰ.tail k) = others k

-- The products that are found are among those there are.
find_products-mem :
    (ids : List String) (all_products products : List Product) (product : Product)
    → find_products ids all_products ≡ ok products
    → Memᴰ product products
    → Memᴰ product all_products
unfolding find_products
find_products-mem ids all_products products product h m =
    let kept = filter (λ p. includes ids p.id) all_products in
    elim (Bool-cases (eqb (length kept) (length ids))) [
      | inl same ↦
          let e = same_returns refl (rw same at h) in
          let found : Memᴰ product kept = rw e m in
          (mem-filter (λ p. includes ids p.id) all_products found).0
      | inr apart ↦ let failed = rw apart at h in cc
    ]

from_all :
    (ids : List String) (all_products products : List Product) (organization_id : String)
    (grant : CredentialProductGrant)
    → find_products ids all_products ≡ ok products
    → IsCovered products organization_id grant
    → IsCovered all_products organization_id grant
from_all ids all_products products organization_id grant h c = record {
  product = c.product;
  is_listed = find_products-mem ids all_products products c.product h c.is_listed;
  is_named = c.is_named;
  is_active = c.is_active;
  is_own = c.is_own;
  is_offered = c.is_offered;
  is_approved = c.is_approved;
}

-- A credential is created for an application that is there and not revoked, and each grant that comes with it is
-- approved, for an active product of the application's organization, with scopes that the product has.
pub create_managed_credential-Covers :
    (generated : Generated) (now : ℕ) (input : CreateManagedCredentialInput) (db after : Tables)
    (row : AppCredential × String)
    → create_managed_credential generated now input db ≡ ok (row, after)
    → (app : DeveloperApp) × (find_key app_key input.app_id db.apps ≡ some app)
      × (is_revoked app.status ≡ false)
      × (grants : List CredentialProductGrant) × (after.grants ≡ db.grants ++ grants)
      × ((grant : CredentialProductGrant)
          → Memᴰ grant grants
          → IsCovered db.products app.organization_id grant)
unfolding create_managed_credential record_audit
create_managed_credential-Covers generated now input db after row h =
    let (_, h) = next_returns h in
    let (app, found, h) = then_returns h in
    let (active, h) = next_returns h in
    let (products, listed, h) = then_returns h in
    let (grants, checked, h) = then_returns h in
    let (_, h) = next_returns h in
    let is_active = guard_returns _ _ active in
    (
      app,
      require_returns _ _ found,
      not-eq-true (is_revoked app.status) is_active,
      grants,
      ap (λ p. p.1.grants) (sym (same_returns refl h)),
      λ grant m.
          from_all (product_ids input.products) db.products products app.organization_id grant
            listed
            (check_products-IsCovered products app.organization_id generated.id input.products
              grants checked grant m),
    )
  where
    not-eq-true : (b : Bool) → not b ≡ true → b ≡ false
    not-eq-true true e = cc
    not-eq-true false e = refl
