-- ===== src/Applications/Replacement.antt =====
-- The products that a credential is granted after a replacement.
use api_gateway_platform.Common.{
  String, ◌≡◌, refl, sym, ap, ◌∙◌, inl, inr, Bool, true, not, ◌&&◌, ◌||◌, List, [], ◌∷◌, any,
  includes, arith, eq_iff, Bool-cases, and-eq-true, find-eq-some,
}
use api_gateway_platform.Common.Results.{ok}
use api_gateway_platform.Common.Chains.{then_returns, next_returns, require_returns, same_returns}
use api_gateway_platform.Auth.Authorization.{Product}
use api_gateway_platform.Database.Tables.{
  approved, is_approved, is_revoked, CredentialProductGrant, Tables,
}
use api_gateway_platform.Applications.Types.{
  ProductRequest, ReplaceManagedCredentialGrantsInput, product_ids, record_audit,
}
use api_gateway_platform.Applications.Grants.{
  has_product, check_product, is_grant, upsert_grant, grant_products, removed_ids, revoke_grants,
  replace_managed_credential_grants,
}

-- The credential has an approved grant of the product.
abbrev pub is_granted : String → String → List CredentialProductGrant → Bool
is_granted credential_id product_id grants =
    any (λ g. is_grant credential_id product_id g && is_approved g.status) grants

-- It has one that is not revoked.
abbrev is_open : String → String → List CredentialProductGrant → Bool
is_open credential_id product_id grants =
    any (λ g. is_grant credential_id product_id g && not (is_revoked g.status)) grants

absorbs : (a b c : Bool) → ((a && true) || c) ≡ (a || (a && b || c))
absorbs a b c = ground arith

swaps : (a b c : Bool) → (a || (b || c)) ≡ (b || (a || c))
swaps a b c = ground arith

upsert-granted :
    (cid pid : String) (grant : CredentialProductGrant) (gs : List CredentialProductGrant)
    → grant.status ≡ approved
    → is_granted cid pid (upsert_grant grant gs) ≡ (is_grant cid pid grant || is_granted cid pid gs)
upsert-granted cid pid grant [] s = rw s (ground arith)
upsert-granted cid pid grant (g ∷ gs) s =
    elim (Bool-cases (is_grant grant.credential_id grant.product_id g)) [
      | inl here ↦
          let (c, p) = and-eq-true _ _ here in
          let same_c = (eq_iff g.credential_id grant.credential_id).0 c in
          let same_p = (eq_iff g.product_id grant.product_id).0 p in
          rw here (
            rw (sym same_c, sym same_p)
              (absorbs (is_grant cid pid g) (is_approved g.status) (is_granted cid pid gs)))
      | inr other ↦ rw other (
          rw (upsert-granted cid pid grant gs s) (
            swaps (is_grant cid pid g && is_approved g.status) (is_grant cid pid grant)
              (is_granted cid pid gs)))
    ]

revoke-granted :
    (cid pid : String) (ids : List String) (gs : List CredentialProductGrant)
    → is_granted cid pid (revoke_grants cid ids gs)
      ≡ (is_granted cid pid gs && not (includes ids pid))
revoke-granted cid pid ids [] = refl
revoke-granted cid pid ids (g ∷ gs) =
    ground (arith, eq_iff g.product_id pid, revoke-granted cid pid ids gs)

removed-includes :
    (cid pid : String) (ids : List String) (gs : List CredentialProductGrant)
    → includes (removed_ids cid ids gs) pid ≡ (not (includes ids pid) && is_open cid pid gs)
removed-includes cid pid ids [] = ground arith
removed-includes cid pid ids (g ∷ gs) =
    ground (arith, eq_iff g.product_id pid, removed-includes cid pid ids gs)

granted-open :
    (cid pid : String) (gs : List CredentialProductGrant)
    → is_granted cid pid gs ≡ true
    → is_open cid pid gs ≡ true
granted-open cid pid [] h = h
granted-open cid pid (g ∷ gs) h = ground (arith, granted-open cid pid gs)

check_product-grant :
    (products : List Product) (organization_id credential_id : String) (requested : ProductRequest)
    (grant : CredentialProductGrant)
    → check_product products organization_id credential_id requested ≡ ok grant
    → (grant.credential_id ≡ credential_id)
      × (grant.product_id ≡ requested.product_id)
      × (grant.status ≡ approved)
unfolding check_product
check_product-grant products organization_id credential_id requested grant h =
    let (product, found, h) = then_returns h in
    let (_, h) = next_returns h in
    let (_, h) = next_returns h in
    let (_, h) = next_returns h in
    let same = same_returns refl h in
    let named : product.id ≡ requested.product_id =
      (eq_iff product.id requested.product_id).0
        (find-eq-some (has_product requested.product_id) products (require_returns _ _ found)) in
    (
      ap (λ g. g.credential_id) (sym same),
      ap (λ g. g.product_id) (sym same) ∙ named,
      ap (λ g. g.status) (sym same),
    )

grant_products-granted :
    (products : List Product) (organization_id cid : String) (requested : List ProductRequest)
    (gs after : List CredentialProductGrant) (pid : String)
    → grant_products products organization_id cid requested gs ≡ ok after
    → is_granted cid pid after ≡ (is_granted cid pid gs || includes (product_ids requested) pid)
unfolding grant_products
grant_products-granted products organization_id cid [] gs after pid h =
    rw (sym (same_returns refl h)) (ground arith)
grant_products-granted products organization_id cid (r ∷ more) gs after pid h =
    let (grant, checked, h) = then_returns h in
    let (c, p, s) = check_product-grant products organization_id cid r grant checked in
    let rest =
      grant_products-granted products organization_id cid more (upsert_grant grant gs) after pid
        h in
    let upserted = upsert-granted cid pid grant gs s in
    let own = (eq_iff grant.credential_id cid).1 c in
    ground (arith, eq_iff r.product_id pid, eq_iff grant.product_id pid)

-- After a replacement, the credential has an approved grant of a product exactly when the product is
-- among those requested.
pub replace_managed_credential_grants-exact :
    (input : ReplaceManagedCredentialGrantsInput) (db after : Tables)
    (rows : List CredentialProductGrant) (product_id : String)
    → replace_managed_credential_grants input db ≡ ok (rows, after)
    → is_granted input.credential_id product_id after.grants
      ≡ includes (product_ids input.products) product_id
unfolding replace_managed_credential_grants record_audit
replace_managed_credential_grants-exact input db after rows product_id h =
    let (_, h) = next_returns h in
    let (credential, _, h) = then_returns h in
    let (app, _, h) = then_returns h in
    let (_, h) = next_returns h in
    let (products, _, h) = then_returns h in
    let (granted, upserts, h) = then_returns h in
    let ids = product_ids input.products in
    let cid = input.credential_id in
    let a =
      grant_products-granted products app.organization_id cid input.products db.grants granted
        product_id upserts in
    let removed = removed_ids cid ids db.grants in
    let b = revoke-granted cid product_id removed granted in
    let c = removed-includes cid product_id ids db.grants in
    let d = granted-open cid product_id db.grants in
    ap (λ p. is_granted cid product_id p.1.grants) (sym (same_returns refl h))
    ∙ conclude (includes ids product_id) (is_granted cid product_id db.grants)
        (is_open cid product_id db.grants) (includes removed product_id) _ _ a b c d
  where
    conclude :
        (asked before still gone granted after : Bool)
        → granted ≡ (before || asked)
        → after ≡ (granted && not gone)
        → gone ≡ (not asked && still)
        → (before ≡ true → still ≡ true)
        → after ≡ asked
    conclude asked before still gone granted after a b c d = ground (arith, d)
