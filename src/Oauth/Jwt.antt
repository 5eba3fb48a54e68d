-- ===== src/Oauth/Jwt.antt =====
-- packages/gateway-core/src/oauth/runtime.ts, and the interface of the token library that the OAuth
-- policies call: signing and verifying are parameters.
use api_gateway_platform.Common.{
  ℕ, ◌≤◌, ◌<◌, String, ◌≡◌, Bool, true, false, Option, none, some, List, [], all, eqb,
  if◌then◌else◌, ◌==◌,
}
use api_gateway_platform.Common.Maps.{lookup}

-- A claim of a token: any JSON value, where an array is `texts` if all its items are texts.
pub data Claim : Type 0 where
  undefined : Claim
  str : String → Claim
  num : ℕ → Claim
  texts : List String → Claim
  other : Claim

abbrev pub Payload : Type 0
Payload = List (String × Claim)

-- `payload.name`
abbrev pub claim : String → Payload → Claim
claim name payload = elim (lookup name payload) [ none ↦ undefined | some c ↦ c ]

-- `c === text`
abbrev pub claim_is : Claim → String → Bool
claim_is (str s) t = s == t
claim_is _ t = false

abbrev pub is_str : Claim → Bool
is_str (str s) = true
is_str _ = false

abbrev pub is_undefined : Claim → Bool
is_undefined undefined = true
is_undefined _ = false

abbrev pub str_or : Claim → String → String
str_or (str s) d = s
str_or _ d = d

abbrev pub is_texts : Claim → Bool
is_texts (texts l) = true
is_texts _ = false

abbrev pub texts_of : Claim → List String
texts_of (texts l) = l
texts_of _ = []

-- A number that is not zero.
abbrev pub positive : Claim → Option ℕ
positive (num n) = if eqb n 0 then none else some n
positive _ = none

pub record OauthRuntime : Type 0 where
  pub signing_key_id : String
  pub developer_token_issuance_key : Option String

-- What `jwtVerify` is asked to check; times are in seconds.
pub record VerifyOptions : Type 0 where
  pub issuer : String
  pub audience : String
  pub required_claims : List String

-- The gateway's own key: `sign` makes a token with a key identifier, `verify` answers the key
-- identifier and the claims of a token that passes at the time given, and `none` if it throws.
pub record GatewayKey : Type 0 where
  pub sign : String → Payload → String
  pub verify : String → VerifyOptions → ℕ → Option (String × Payload)

abbrev pub has_claims : List String → Payload → Bool
has_claims names payload = all (λ n. if is_undefined (claim n payload) then false else true) names

-- The library's documented behaviour on the token that it signed with a key identifier for some
-- claims: it is accepted for its issuer and audience from its `nbf` up to its `exp`, if the claims
-- that are required are there, and its claims are answered.
pub record SignsAndVerifies (key : GatewayKey) (kid : String) (payload : Payload) : Type 0 where
  pub verify-sign :
      (options : VerifyOptions) (now nbf exp : ℕ)
      → claim "iss" payload ≡ str options.issuer
      → claim "aud" payload ≡ str options.audience
      → claim "nbf" payload ≡ num nbf
      → claim "exp" payload ≡ num exp
      → nbf ≤ now
      → now < exp
      → has_claims options.required_claims payload ≡ true
      → key.verify (key.sign kid payload) options now ≡ some (kid, payload)
