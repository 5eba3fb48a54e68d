-- ===== src/Oauth/Assertions.antt =====
-- packages/gateway-core/src/policies/oauth/oauth-token.policy.ts: how the token endpoint
-- authenticates its three grants. Calls of stores and of the token library are parameters.
use Prim.Native.Char.{code}
use api_gateway_platform.Common.{
  ℕ, ◌+◌, ◌-◌, ◌/◌, max, String, Bool, true, false, not, ◌&&◌, ◌||◌, Option, none, some, List, all,
  is_empty, leb, ltb, eqb, if◌then◌else◌, ◌==◌, to_unique,
}
use api_gateway_platform.Common.Text.{
  starts_with, slice_from, words, before_char, has_char, is_blank,
}
use api_gateway_platform.Auth.Authorization.{CredentialRecord, is_credential_valid, is_after}
use api_gateway_platform.Policies.Types.{Try, returned, threw}
use api_gateway_platform.Oauth.Jwt.{
  Claim, num, Payload, claim, claim_is, is_str, str_or, is_texts, texts_of, positive, OauthRuntime,
}

-- What an awaited step of a grant gives: a value, the replay error, or any other exception.
pub data Caught {ℓ} (A : Type ℓ) : Type ℓ where
  value : A → Caught A
  replayed : Caught A
  failed : Caught A

abbrev pub Io : Type 0 → Type 0 → Type 0
Io W A = W → Caught A × W

abbrev pub next : {W A B : Type 0} → Caught A × W → (A → Io W B) → Caught B × W
next (value a, w) k = k a w
next (replayed, w) k = (replayed, w)
next (failed, w) k = (failed, w)

infixl 5 ◌>>=◌
abbrev pub ◌>>=◌ : {W A B : Type 0} → Io W A → (A → Io W B) → Io W B
◌>>=◌ m k w = next (m w) k

abbrev pub pure : {W A : Type 0} → A → Io W A
pure a w = (value a, w)

-- A call that may throw.
abbrev pub call : {W A : Type 0} → (W → Try A × W) → Io W A
call m w = let (r, w') = m w in elim r [ returned a ↦ (value a, w') | threw ↦ (failed, w') ]

pub record PublicKeyRecord : Type 0 where
  pub status : String
  pub algorithm : String
  pub jwk : String
  pub valid_from : ℕ
  pub expires_at : Option ℕ

-- A protected header: `alg` and `kid`.
pub record Header : Type 0 where
  pub alg : Claim
  pub kid : Claim

-- Stores, platform functions and the token library; `none` stands for an exception. `now` is in
-- milliseconds.
pub record OauthTokenPolicyDependencies (W : Type 0) : Type 0 where
  pub find_credential : String → W → Try (Option CredentialRecord) × W
  pub verify_secret : String → String → W → Try Bool × W
  pub find_public_key : String → String → W → Try (Option PublicKeyRecord) × W
  pub consume_assertion : String → String → ℕ → W → Try Bool × W
  pub now : W → ℕ
  pub decode_header : String → Option Header
  pub decode_jwt : String → Option Payload
  pub import_jwk : String → W → Try String × W
  pub verify_jwt : String → String → String → String → ℕ → Option Payload
  pub verify_hs256 : String → String → String → ℕ → Option Payload
  pub decode_base64 : String → String
  pub decode_uri_component : String → Option String
  pub parse_form : String → List (String × String)
  pub random_uuid : W → String × W

pub record DeveloperGrant : Type 0 where
  pub grant_id : String
  pub subject : String
  pub organization_id : String
  pub environment_id : String
  pub product_ids : List String
  pub proxy_ids : List String
  pub scopes : List String
  pub ttl_seconds : ℕ

-- `decoded.slice(separator + 1)` at the first `:`.
abbrev after_colon : String → String
after_colon String.[] = ""
after_colon (String.◌∷◌ c s) = let rest = after_colon s in if eqb (code c) b':' then s else rest

abbrev both : Option String → Option String → Option (String × String)
both (some a) (some b) = some (a, b)
both _ _ = none

abbrev pub non_empty_texts : Claim → Bool
non_empty_texts c =
    is_texts c && not (is_empty (texts_of c)) && all (λ item. not (is_blank item)) (texts_of c)

abbrev pub num_or : Claim → ℕ → ℕ
num_or (num n) d = n
num_or _ d = d

abbrev pub is_num : Claim → Bool
is_num (num n) = true
is_num _ = false

module _ {W : Type 0} (dependencies : OauthTokenPolicyDependencies W) where
  open dependencies use {
    find_credential, find_public_key, consume_assertion, now, decode_header, decode_jwt, import_jwk,
    verify_jwt, verify_hs256, decode_base64, decode_uri_component,
  }

  unfoldable pub parse_basic_authorization : Option String → Option (String × String)
  parse_basic_authorization none = none
  parse_basic_authorization (some value') =
      let decoded = decode_base64 (slice_from 6 value') in
      let id = before_char b':' decoded in
      if not (starts_with value' "Basic ") || not (has_char b':' decoded) || is_blank id
      then none
      else both (decode_uri_component id) (decode_uri_component (after_colon decoded))

  abbrev pub seconds : W → ℕ
  seconds w = now w / 1000

  unfoldable pub is_key_usable : PublicKeyRecord → ℕ → Bool
  is_key_usable key time =
      key.status == "approved"
      && key.algorithm == "RS256"
      && leb key.valid_from time
      && is_after key.expires_at time

  -- The claims of a verified assertion, and the time that its replay mark lives.
  unfoldable pub consume : CredentialRecord → Payload → Io W (Option CredentialRecord)
  consume credential payload w =
      let current = seconds w in
      elim (positive (claim "iat" payload)) [
        | none ↦ (value none, w)
        | some iat ↦ elim (positive (claim "exp" payload)) [
          | none ↦ (value none, w)
          | some exp ↦
              let jti = str_or (claim "jti" payload) "" in
              if jti == "" || ltb (current + 5) iat || leb exp iat || ltb 120 (exp - iat)
              then (value none, w)
              else next (call (consume_assertion credential.id jti (max 1 (exp - current))) w)
                  (λ fresh. if fresh then pure (some credential) else (λ w'. (replayed, w')))
        ]
      ]

  unfoldable pub check_assertion :
      String → String → CredentialRecord → PublicKeyRecord → Io W (Option CredentialRecord)
  unfolding consume
  check_assertion assertion audience credential key = do
    public_key ← call (import_jwk key.jwk)
    λ w. elim (verify_jwt assertion public_key audience credential.consumer_key (seconds w)) [
      | none ↦ (value none, w)
      | some payload ↦ consume credential payload w
    ]

  unfoldable pub find_key :
      String → String → String → CredentialRecord → Io W (Option CredentialRecord)
  unfolding check_assertion
  find_key assertion audience kid credential = do
    key ← call (find_public_key credential.id kid)
    elim key [
      | none ↦ pure none
      | some k ↦ λ w.
          if is_key_usable k (now w)
          then check_assertion assertion audience credential k w
          else (value none, w)
    ]

  unfoldable pub authenticate_jwt_assertion : String → String → Io W (Option CredentialRecord)
  unfolding find_key
  authenticate_jwt_assertion assertion audience = elim (decode_header assertion) [
    | none ↦ pure none
    | some header ↦ elim (decode_jwt assertion) [
      | none ↦ pure none
      | some unverified ↦
          let iss = str_or (claim "iss" unverified) "" in
          if not (claim_is header.alg "RS256")
            || not (is_str header.kid)
            || not (is_str (claim "iss" unverified))
            || not (claim_is (claim "sub" unverified) iss)
          then pure none
          else do
            found ← call (find_credential iss)
            elim found [
              | none ↦ pure none
              | some credential ↦ λ w.
                  if is_credential_valid credential (now w)
                  then find_key assertion audience (str_or header.kid "") credential w
                  else (value none, w)
            ]
    ]
  ]

  -- The tests of `authenticateDeveloperGrant` on the claims, at the time in seconds.
  unfoldable pub grant_refused : String → Payload → ℕ → Bool
  grant_refused environment_id payload time =
      let ttl = num_or (claim "ttl_seconds" payload) 0 in
      not (is_str (claim "sub" payload))
      || not (is_str (claim "jti" payload))
      || not (is_num (claim "iat" payload))
      || not (is_num (claim "exp" payload))
      || ltb 30 (num_or (claim "exp" payload) 0 - num_or (claim "iat" payload) 0)
      || ltb (time + 3) (num_or (claim "iat" payload) 0)
      || not (claim_is (claim "environment_id" payload) environment_id)
      || not (is_str (claim "organization_id" payload))
      || not (claim_is (claim "developer_subject" payload) (str_or (claim "sub" payload) ""))
      || not (non_empty_texts (claim "product_ids" payload))
      || not (non_empty_texts (claim "proxy_ids" payload))
      || not (is_str (claim "scope" payload))
      || not (is_num (claim "ttl_seconds" payload))
      || ltb ttl 60
      || ltb 900 ttl

  unfoldable pub grant_of : String → Payload → DeveloperGrant
  grant_of environment_id payload = record {
    grant_id = str_or (claim "jti" payload) "";
    subject = str_or (claim "sub" payload) "";
    organization_id = str_or (claim "organization_id" payload) "";
    environment_id = environment_id;
    product_ids = texts_of (claim "product_ids" payload);
    proxy_ids = texts_of (claim "proxy_ids" payload);
    scopes = to_unique (words (str_or (claim "scope" payload) ""));
    ttl_seconds = num_or (claim "ttl_seconds" payload) 0;
  }

  unfoldable pub check_grant : String → Payload → Io W (Option DeveloperGrant)
  check_grant environment_id payload w =
      let time = seconds w in
      if grant_refused environment_id payload time
      then (value none, w)
      else next
          (call
            (consume_assertion "developer-token" (str_or (claim "jti" payload) "")
              (max 1 (num_or (claim "exp" payload) 0 - time)))
            w)
          (λ fresh.
            if fresh then pure (some (grant_of environment_id payload)) else (λ w'. (replayed, w')))

  unfoldable pub authenticate_developer_grant :
      Option OauthRuntime → String → String → String → Io W (Option DeveloperGrant)
  unfolding check_grant
  authenticate_developer_grant runtime assertion audience environment_id w = elim runtime [
    | none ↦ (failed, w)
    | some rt ↦ elim rt.developer_token_issuance_key [
      | none ↦ (value none, w)
      | some secret ↦ elim (verify_hs256 assertion secret audience (seconds w)) [
        | none ↦ (value none, w)
        | some payload ↦ check_grant environment_id payload w
      ]
    ]
  ]
