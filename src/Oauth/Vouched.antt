-- ===== src/Oauth/Vouched.antt =====
-- What an accepted assertion has been checked for.
use api_gateway_platform.Common.{
  ℕ, ◌+◌, ◌-◌, ◌≤◌, ◌<◌, max, String, ◌≡◌, refl, inl, inr, Bool, true, false, not, some, arith, leb,
  ltb, if◌then◌else◌, ◌==◌, Bool-cases, Option-cases, ◌||◌,
}
use api_gateway_platform.Auth.Authorization.{CredentialRecord, is_credential_valid}
use api_gateway_platform.Policies.Types.{returned}
use api_gateway_platform.Oauth.Jwt.{Payload, claim, claim_is, is_str, str_or, positive}
use api_gateway_platform.Oauth.Assertions.{
  value, replayed, pure, call, PublicKeyRecord, OauthTokenPolicyDependencies, seconds,
  is_key_usable, consume, check_assertion, find_key, authenticate_jwt_assertion,
}
use api_gateway_platform.Oauth.Effects.{next-eq-value, call-eq-value}

module _ {W : Type 0} (dependencies : OauthTokenPolicyDependencies W) where
  open dependencies use {
    find_credential, find_public_key, consume_assertion, now, decode_header, decode_jwt, import_jwk,
    verify_jwt, verify_hs256,
  }

  -- The claims bound the assertion's life, and its identifier had not been used before.
  pub record IsFresh (credential : CredentialRecord) (payload : Payload) (w w' : W) : Type 0 where
    pub iat : ℕ
    pub exp : ℕ
    pub issued : positive (claim "iat" payload) ≡ some iat
    pub expires : positive (claim "exp" payload) ≡ some exp
    pub not_future : iat ≤ seconds dependencies w + 5
    pub ordered : iat < exp
    pub short : exp - iat ≤ 120
    pub consumed :
        consume_assertion credential.id
          (str_or (claim "jti" payload) "")
          (max 1 (exp - seconds dependencies w))
          w
        ≡ (returned true, w')

  pub fresh-verdict :
      {A : Type 0} (fresh : Bool) (a : A) {b : A} (w1 : W) {w' : W}
      → (if fresh then pure (some a) else (λ w2. (replayed, w2))) w1 ≡ (value (some b), w')
      → (fresh ≡ true) × (b ≡ a) × (w1 ≡ w')
  fresh-verdict true a w1 h = (refl, ground arith, ground arith)
  fresh-verdict false a w1 h = absurd (ground arith)

  consume-IsFresh :
      (credential found : CredentialRecord) (payload : Payload) (w w' : W)
      → consume dependencies credential payload w ≡ (value (some found), w')
      → (found ≡ credential) × IsFresh credential payload w w'
  unfolding consume
  consume-IsFresh credential found payload w w' h =
      elim (Option-cases (positive (claim "iat" payload))) [
        | inl a ↦ absurd (ground arith)
        | inr (iat, issued) ↦ elim (Option-cases (positive (claim "exp" payload))) [
          | inl b ↦ absurd (ground arith)
          | inr (exp, expires) ↦
              elim (Bool-cases (
                str_or (claim "jti" payload) "" == ""
                || ltb (seconds dependencies w + 5) iat
                || leb exp iat
                || ltb 120 (exp - iat))) [
                  | inl refused ↦ absurd (ground arith)
                  | inr fits ↦
                      let k = rw fits at (rw expires at (rw (issued, consume) at h)) in
                      let mark =
                        consume_assertion credential.id (str_or (claim "jti" payload) "")
                          (max 1 (exp - seconds dependencies w)) in
                      let (fresh, w1, called, last) =
                        next-eq-value (call mark w)
                          (λ fresh.
                            if fresh then pure (some credential) else (λ w2. (replayed, w2)))
                          k in
                      let used : mark w ≡ (returned fresh, w1) = call-eq-value mark w called in
                      let (ok, same, ends) = fresh-verdict fresh credential w1 last in
                      (
                        same,
                        record {
                          iat = iat;
                          exp = exp;
                          issued = issued;
                          expires = expires;
                          not_future = ground arith;
                          ordered = ground arith;
                          short = ground arith;
                          consumed = cc;
                        },
                      )
                ]
        ]
      ]

  check-IsFresh :
      (assertion audience : String) (credential found : CredentialRecord) (key : PublicKeyRecord)
      (w w' : W)
      → check_assertion dependencies assertion audience credential key w ≡ (value (some found), w')
      → (found ≡ credential)
        × (public_key : String) × (w1 : W) × (import_jwk key.jwk w ≡ (returned public_key, w1))
        × (payload : Payload) × (verify_jwt assertion public_key audience credential.consumer_key
              (seconds dependencies w1)
            ≡ some payload)
        × IsFresh credential payload w1 w'
  unfolding check_assertion
  check-IsFresh assertion audience credential found key w w' h =
      let (public_key, w1, called, last) = next-eq-value (call (import_jwk key.jwk) w) _ h in
      elim (Option-cases (
        verify_jwt assertion public_key audience credential.consumer_key
          (seconds dependencies w1))) [
            | inl bad ↦ absurd (ground arith)
            | inr (payload, verified) ↦
                let (same, fresh) =
                  consume-IsFresh credential found payload w1 w' (rw verified at last) in
                (
                  same,
                  public_key,
                  w1,
                  call-eq-value (import_jwk key.jwk) w called,
                  payload,
                  verified,
                  fresh,
                )
          ]

  -- A valid client's usable key verified the assertion, whose header, issuer and subject name that
  -- client; it lives at most two minutes and is used for the first time.
  pub record IsVouched (assertion audience : String) (credential : CredentialRecord) (w w' : W)
      : Type 0 where
    pub iss : String
    pub w1 : W
    pub w2 : W
    pub w3 : W
    pub found : find_credential iss w ≡ (returned (some credential), w1)
    pub valid : is_credential_valid credential (now w1) ≡ true
    pub kid : String
    pub key : PublicKeyRecord
    pub listed : find_public_key credential.id kid w1 ≡ (returned (some key), w2)
    pub usable : is_key_usable dependencies key (now w2) ≡ true
    pub public_key : String
    pub imported : import_jwk key.jwk w2 ≡ (returned public_key, w3)
    pub payload : Payload
    pub verified :
        verify_jwt assertion public_key audience credential.consumer_key (seconds dependencies w3)
        ≡ some payload
    pub fresh : IsFresh credential payload w3 w'

  find-IsVouched :
      (assertion audience iss kid : String) (credential found : CredentialRecord) (w w1 w' : W)
      → find_credential iss w ≡ (returned (some credential), w1)
      → is_credential_valid credential (now w1) ≡ true
      → find_key dependencies assertion audience kid credential w1 ≡ (value (some found), w')
      → IsVouched assertion audience found w w'
  unfolding find_key
  find-IsVouched assertion audience iss kid credential found w w1 w' e valid h =
      let (o, w2, called, last) = next-eq-value (call (find_public_key credential.id kid) w1) _ h in
      elim (Option-cases o) [
        | inl missing ↦ absurd (ground arith)
        | inr (key, there) ↦ elim (Bool-cases (is_key_usable dependencies key (now w2))) [
          | inr no' ↦ absurd (ground arith)
          | inl usable ↦
              let k : check_assertion dependencies assertion audience credential key w2
                  ≡ (value (some found), w') =
                ground arith in
              let (same, public_key, w3, imported, payload, verified, fresh) =
                check-IsFresh assertion audience credential found key w2 w' k in
              rw same (record {
                iss = iss;
                w1 = w1;
                w2 = w2;
                w3 = w3;
                found = e;
                valid = valid;
                kid = kid;
                key = key;
                listed = rw there at (call-eq-value (find_public_key credential.id kid) w1 called);
                usable = usable;
                public_key = public_key;
                imported = imported;
                payload = payload;
                verified = verified;
                fresh = fresh;
              })
        ]
      ]

  -- An assertion is accepted only from a valid client, signed with one of its usable keys, for at
  -- most two minutes, and once.
  pub authenticate_jwt_assertion-IsVouched :
      (assertion audience : String) (credential : CredentialRecord) (w w' : W)
      → authenticate_jwt_assertion dependencies assertion audience w ≡ (value (some credential), w')
      → IsVouched assertion audience credential w w'
  unfolding authenticate_jwt_assertion
  authenticate_jwt_assertion-IsVouched assertion audience credential w w' h =
      elim (Option-cases (decode_header assertion)) [
        | inl bad ↦ absurd (ground arith)
        | inr (header, e) ↦ elim (Option-cases (decode_jwt assertion)) [
          | inl bad ↦ absurd (ground arith)
          | inr (unverified, f) ↦
              elim (Bool-cases (
                not (claim_is header.alg "RS256")
                || not (is_str header.kid)
                || not (is_str (claim "iss" unverified))
                || not (claim_is (claim "sub" unverified) (str_or (claim "iss" unverified) "")))) [
                  | inl refused ↦ absurd (ground arith)
                  | inr fits ↦
                      let iss = str_or (claim "iss" unverified) "" in
                      let k = rw fits at (rw f at (rw (e, authenticate_jwt_assertion) at h)) in
                      let (o, w1, called, last) =
                        next-eq-value (call (find_credential iss) w) _ k in
                      elim (Option-cases o) [
                        | inl missing ↦ absurd (ground arith)
                        | inr (found, there) ↦
                            elim (Bool-cases (is_credential_valid found (now w1))) [
                              | inr no' ↦ absurd (ground arith)
                              | inl valid ↦
                                  find-IsVouched assertion audience iss (str_or header.kid "") found
                                    credential w w1 w'
                                    (rw there at (call-eq-value (find_credential iss) w called))
                                    valid (ground arith)
                            ]
                      ]
                ]
        ]
      ]
