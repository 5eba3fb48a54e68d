-- ===== src/Applications/Narrowing.antt =====
-- A clone of a credential grants no more than its source, for no longer.
use api_gateway_platform.Common.{
  ℕ, ◌+◌, ◌≤◌, ◌<◌, String, ◌≡◌, refl, sym, ap, ◌∙◌, inl, inr, true, ◌||◌, Option, some, List, [],
  ◌∷◌, map, leb, ltb, arith, eq_iff, eq_refl, filter-append, Bool-cases,
}
use api_gateway_platform.Common.Results.{ok}
use api_gateway_platform.Common.Chains.{
  then_returns, next_returns, require_returns, guard_returns, same_returns,
}
use api_gateway_platform.Database.Tables.{
  CredentialPurpose, standard, AppCredential, CredentialProductGrant, Tables, find_key,
  credential_key,
}
use api_gateway_platform.Applications.Types.{
  Generated, CloneManagedCredentialInput, set, record_audit,
}
use api_gateway_platform.Applications.Clones.{
  hour, is_playground, latest_allowed, resolve_clone_expiration, has_expired, approved_grants,
  copy_grant, clone_managed_credential,
}

-- Of the clone `credential` of `source`: its application; it has expired whenever the source has; a
-- playground credential expires within the hour, and not at once; and its grants.
pub record IsNarrower (now : ℕ) (source credential : AppCredential)
    (before after : List CredentialProductGrant) : Type 0 where
  pub same_app : credential.app_id ≡ source.app_id
  pub no_longer :
      (t : ℕ) → has_expired source.expires_at t ≡ true → has_expired credential.expires_at t ≡ true
  pub is_brief :
      is_playground credential.purpose ≡ true
      → (t : ℕ) × (credential.expires_at ≡ some t) × (now < t) × (t ≤ now + hour)
  pub no_wider :
      approved_grants credential.id after
      ≡ map (copy_grant credential.id) (approved_grants source.id before)

resolve-no_longer :
    (purpose : CredentialPurpose) (requested source : Option ℕ) (now : ℕ) (result : Option ℕ)
    → resolve_clone_expiration purpose requested source now ≡ ok result
    → (t : ℕ) → has_expired source t ≡ true
    → has_expired result t ≡ true
unfolding resolve_clone_expiration
resolve-no_longer purpose requested source now result h t e =
    elim (Bool-cases (is_playground purpose)) [ inl p ↦ ground arith | inr p ↦ ground arith ]

resolve-is_brief :
    (purpose : CredentialPurpose) (requested source : Option ℕ) (now : ℕ) (result : Option ℕ)
    → resolve_clone_expiration purpose requested source now ≡ ok result
    → is_playground purpose ≡ true
    → (t : ℕ) × (result ≡ some t) × (now < t) × (t ≤ now + hour)
unfolding resolve_clone_expiration
resolve-is_brief purpose requested source now result h p =
    let latest = latest_allowed source now in
    let expires_at = set requested latest in
    elim (Bool-cases (leb expires_at now || ltb latest expires_at)) [
      | inl bad ↦ absurd (ground arith)
      | inr good ↦ (expires_at, ground arith, ground arith, ground arith)
    ]

approved-copies :
    (id : String) (grants : List CredentialProductGrant)
    → approved_grants id (map (copy_grant id) grants) ≡ map (copy_grant id) grants
approved-copies id [] = refl
approved-copies id (g ∷ grants) =
    rw (eq_refl id) (ap (λ t. copy_grant id g ∷ t) (approved-copies id grants))

transfer :
    (now : ℕ) (source : AppCredential) (before : List CredentialProductGrant)
    (p q : (AppCredential × String) × Tables)
    → p ≡ q
    → IsNarrower now source p.0.0 before p.1.grants
    → IsNarrower now source q.0.0 before q.1.grants
transfer now source before p q e narrow = rw (sym e) narrow

-- A clone belongs to the application of its source. It has expired whenever the source has, and where it is
-- for the playground, it expires within an hour, after now. Where no grant has its identifier
-- before, its approved grants are copies of the source's approved grants.
pub clone_managed_credential-IsNarrower :
    (generated : Generated) (now : ℕ) (input : CloneManagedCredentialInput) (db after : Tables)
    (credential : AppCredential) (secret : String)
    → clone_managed_credential generated now input db ≡ ok ((credential, secret), after)
    → approved_grants generated.id db.grants ≡ []
    → (source : AppCredential) × (find_key credential_key input.source_credential_id db.credentials
        ≡ some source)
      × IsNarrower now source credential db.grants after.grants
unfolding clone_managed_credential record_audit
clone_managed_credential-IsNarrower generated now input db after credential secret h fresh =
    let (app, _, h) = then_returns h in
    let (source, found, h) = then_returns h in
    let (allowed, h) = next_returns h in
    let (expires_at, resolved, h) = then_returns h in
    let (_, h) = next_returns h in
    let result = same_returns refl h in
    let clonable = guard_returns _ _ allowed in
    (
      source,
      require_returns _ _ found,
      transfer now source db.grants _ _ result (record {
        same_app = ground (arith, eq_iff source.app_id input.app_id);
        no_longer =
            resolve-no_longer (set input.purpose standard) input.expires_at source.expires_at now _
              resolved;
        is_brief =
            resolve-is_brief (set input.purpose standard) input.expires_at source.expires_at now _
              resolved;
        no_wider =
            filter-append _ db.grants _
            ∙ rw fresh (approved-copies generated.id (approved_grants source.id db.grants));
      }),
    )
