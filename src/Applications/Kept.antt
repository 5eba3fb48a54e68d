-- ===== src/Applications/Kept.antt =====
-- Authorizations that are revoked, and states that keep them so.
use api_gateway_platform.Common.{
  String, ◌≡◌, sym, ap, ◌∙◌, Bool, true, false, Option, none, some, List, arith,
}
use api_gateway_platform.Common.Results.{Result, ok}
use api_gateway_platform.Common.Chains.{same_returns, guard}
use api_gateway_platform.Database.Tables.{
  AuthorizationStatus, pending, approved, revoked, is_revoked, Tables, find_key, app_key,
  credential_key, public_key_key,
}
use api_gateway_platform.Database.Keyed.{holds}
use api_gateway_platform.Applications.Types.{
  Actor, ApplicationError, check_transition, validate_status_transition, set, record_audit,
  record_audit_if,
}

abbrev pub app_revoked : String → Tables → Bool
app_revoked id db = holds app_key (λ a. is_revoked a.status) id db.apps

abbrev pub credential_revoked : String → Tables → Bool
credential_revoked id db = holds credential_key (λ c. is_revoked c.status) id db.credentials

abbrev pub key_revoked : String → Tables → Bool
key_revoked id db = holds public_key_key (λ k. is_revoked k.status) id db.keys

-- What is revoked before is revoked after.
pub record KeepsRevoked (before after : Tables) : Type 0 where
  pub apps : (id : String) → app_revoked id before ≡ true → app_revoked id after ≡ true
  pub credentials :
      (id : String) → credential_revoked id before ≡ true → credential_revoked id after ≡ true
  pub keys : (id : String) → key_revoked id before ≡ true → key_revoked id after ≡ true

pub unchanged : (db : Tables) → KeepsRevoked db db
unchanged db = record { apps = λ id h. h; credentials = λ id h. h; keys = λ id h. h }

pub audited :
    (actor : Actor) (organization_id action resource_type resource_id : String)
    (before after : Tables)
    → KeepsRevoked before after
    → KeepsRevoked before
        (record_audit actor organization_id action resource_type resource_id after)
unfolding record_audit
audited actor organization_id action resource_type resource_id before after h = record {
  apps = h.apps;
  credentials = h.credentials;
  keys = h.keys;
}

pub audited_if :
    (test : Bool) (actor : Actor) (organization_id action resource_type resource_id : String)
    (before after : Tables)
    → KeepsRevoked before after
    → KeepsRevoked before
        (record_audit_if test actor organization_id action resource_type resource_id after)
unfolding record_audit_if
audited_if true actor organization_id action resource_type resource_id before after h =
    audited actor organization_id action resource_type resource_id before after h
audited_if false actor organization_id action resource_type resource_id before after h = h

pub one_row :
    {A : Type 0} (key : A → String) (rows : List A) {j k : String} {a b : A}
    → find_key key k rows ≡ some a
    → find_key key j rows ≡ some b
    → j ≡ k
    → a ≡ b
one_row key rows {b} h t e =
    ap (λ o. elim o [ none ↦ b | some x ↦ x ]) (sym h ∙ ap (λ i. find_key key i rows) (sym e) ∙ t)

pub transition-revoked :
    (current : AuthorizationStatus) (next : Option AuthorizationStatus)
    → check_transition current next ≡ ok tt
    → is_revoked current ≡ true
    → is_revoked (set next current) ≡ true
unfolding validate_status_transition guard
transition-revoked current none h r = r
transition-revoked revoked (some next) h r = ground arith
transition-revoked pending (some next) h r = cc
transition-revoked approved (some next) h r = cc

-- A transaction's result is the state that it ends with.
pub returned :
    {R : Type 0} (before after state : Tables) (row answer : R)
    {r : Result ApplicationError (R × Tables)}
    → r ≡ ok (answer, state)
    → r ≡ ok (row, after)
    → KeepsRevoked before state
    → KeepsRevoked before after
returned before after state row answer h k kept =
    let e = ap (λ p. p.1) (same_returns h k) in rw (sym e) kept
