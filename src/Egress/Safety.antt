-- ===== src/Egress/Safety.antt =====
-- Where the egress proxy sends requests, and how many.
use api_gateway_platform.Common.{
  ℕ, zero, suc, String, ◌≡◌, refl, ap, ◌∙◌, inl, inr, Bool, true, not, Option, none, some, List, [],
  ◌∷◌, all, any, filter, includes, if◌then◌else◌, arith, Bool-cases, Option-cases, or-eq-false,
  not-eq-false,
}
use api_gateway_platform.Common.Ascii.{to_lower}
use api_gateway_platform.Common.Results.{Result, ok, err}
use api_gateway_platform.Common.Url.{Url}
use api_gateway_platform.Egress.Security.{
  Headers, blocked_headers, is_public_address, without_request_body_headers,
}
use api_gateway_platform.Egress.Redirects.{
  EgressError, Bytes, Response, PublicResponse, Io, Network, location_of, is_redirect, is_https,
  becomes_get, has_no_body, Hop, next_hop, follow_location, public_address, handle_response, send,
  execute_hop, execute_public_request,
}

-- No header that the proxy blocks.
abbrev pub is_unblocked : Headers → Bool
is_unblocked headers = all (λ h. not (includes blocked_headers (to_lower h.0))) headers

all-filter :
    {A : Type 0} (p q : A → Bool) (xs : List A) → all p xs ≡ true → all p (filter q xs) ≡ true
all-filter p q [] h = refl
all-filter p q (x ∷ xs) h = ground (arith, all-filter p q xs)

pub filter-all : {A : Type 0} (p : A → Bool) (xs : List A) → all p (filter p xs) ≡ true
filter-all p [] = refl
filter-all p (x ∷ xs) = ground (arith, filter-all p xs)

module _ {W : Type 0} (network : Network W)
    (request2 : Url → String → String → Headers → Option Bytes → Io W Response)
    (agrees : (target : Url) (address method : String) (headers : Headers) (body : Option Bytes)
        (w : W)
      → is_https target ≡ true
      → is_public_address network.is_ip address ≡ true
      → is_unblocked headers ≡ true
      → network.request target address method headers body w
        ≡ request2 target address method headers body w) where
  abbrev other : Network W
  other = record network { request = request2 }

  -- Two ways to go on that agree on unblocked headers.
  abbrev SameFollow :
      Option (Hop → Io W PublicResponse) → Option (Hop → Io W PublicResponse) → Type 0
  SameFollow none none = Unit {0}
  SameFollow (some go) (some go2) =
      (hop : Hop) (w : W) → is_unblocked hop.headers ≡ true → go hop w ≡ go2 hop w
  SameFollow _ _ = ⊥

  public_address-public :
      (answer : Result EgressError (List String)) (address : String)
      → public_address network answer ≡ ok address
      → is_public_address network.is_ip address ≡ true
  unfolding public_address
  public_address-public (err e) address h = absurd (ground arith)
  public_address-public (ok []) address h = absurd (ground arith)
  public_address-public (ok (a ∷ more)) address h =
      elim (Bool-cases (any (λ x. not (is_public_address network.is_ip x)) (a ∷ more))) [
        | inl bad ↦ absurd (ground arith)
        | inr good ↦
            let same : address ≡ a = ground arith in
            rw same (not-eq-false _ (or-eq-false _ _ good).0)
      ]

  next_hop-unblocked :
      (hop : Hop) (status : ℕ) (target : Url)
      → is_unblocked hop.headers ≡ true
      → is_unblocked (next_hop hop status target).headers ≡ true
  unfolding without_request_body_headers
  next_hop-unblocked hop status target h = elim (Bool-cases (becomes_get status hop.method)) [
    | inl gets ↦ rw gets (all-filter _ _ hop.headers h)
    | inr keeps ↦ rw keeps h
  ]

  follow_location-same :
      (follow follow2 : Option (Hop → Io W PublicResponse)) (hop : Hop) (status : ℕ)
      (location : String) (r : Result EgressError (Unit {0}) × W)
      → SameFollow follow follow2
      → is_unblocked hop.headers ≡ true
      → follow_location network follow hop status location r
        ≡ follow_location other follow2 hop status location r
  unfolding follow_location
  follow_location-same follow follow2 hop status location (err e, w) s h = refl
  follow_location-same none none hop status location (ok _, w) s h = refl
  follow_location-same none (some go2) hop status location (ok _, w) s h = absurd s
  follow_location-same (some go) none hop status location (ok _, w) s h = absurd s
  follow_location-same (some go) (some go2) hop status location (ok _, w) s h =
      elim (Option-cases (network.resolve location hop.target)) [
        | inl bad ↦ rw (bad, follow_location) refl
        | inr (target, e) ↦
            rw (e, follow_location)
              (s (next_hop hop status target) w (next_hop-unblocked hop status target h))
      ]

  handle_response-same :
      (follow follow2 : Option (Hop → Io W PublicResponse)) (hop : Hop)
      (r : Result EgressError Response × W)
      → SameFollow follow follow2
      → is_unblocked hop.headers ≡ true
      → handle_response network follow hop r ≡ handle_response other follow2 hop r
  unfolding handle_response
  handle_response-same follow follow2 hop (err e, w) s h = refl
  handle_response-same follow follow2 hop (ok response, w) s h =
      elim (Option-cases
        (if is_redirect response.status_code then location_of response.headers else none)) [
          | inl stays ↦ rw (stays, handle_response) refl
          | inr (location, moved) ↦
              rw (moved, handle_response)
                (follow_location-same follow follow2 hop response.status_code location
                  (network.dump response w) s h)
        ]

  send-same :
      (follow follow2 : Option (Hop → Io W PublicResponse)) (hop : Hop)
      (r : Result EgressError String × W)
      → SameFollow follow follow2
      → is_unblocked hop.headers ≡ true
      → is_https hop.target ≡ true
      → ((address : String) → r.0 ≡ ok address → is_public_address network.is_ip address ≡ true)
      → send network follow hop r ≡ send other follow2 hop r
  unfolding send
  send-same follow follow2 hop (err e, w) s h secure public = refl
  send-same follow follow2 hop (ok address, w) s h secure public =
      let body = if has_no_body hop.method then none else hop.body in
      handle_response-same follow follow2 hop
        (network.request hop.target address hop.method hop.headers body w) s h
      ∙ ap (handle_response other follow2 hop)
          (agrees hop.target address hop.method hop.headers body w secure (public address refl) h)

  execute_hop-same :
      (follow follow2 : Option (Hop → Io W PublicResponse)) (hop : Hop) (w : W)
      → SameFollow follow follow2
      → is_unblocked hop.headers ≡ true
      → execute_hop network follow hop w ≡ execute_hop other follow2 hop w
  unfolding execute_hop public_address
  execute_hop-same follow follow2 hop w s h = elim (Bool-cases (is_https hop.target)) [
    | inr insecure ↦ rw insecure refl
    | inl secure ↦ rw secure (
        send-same follow follow2 hop
          (
            public_address network (network.lookup_all hop.target.hostname w).0,
            (network.lookup_all hop.target.hostname w).1,
          )
          s h secure
          (λ address e.
            public_address-public (network.lookup_all hop.target.hostname w).0 address e))
  ]

  pub execute_public_request-safe :
      (left : ℕ) (hop : Hop) (w : W)
      → is_unblocked hop.headers ≡ true
      → execute_public_request network left hop w ≡ execute_public_request other left hop w
  unfolding execute_public_request
  execute_public_request-safe zero hop w h = execute_hop-same none none hop w tt h
  execute_public_request-safe (suc left) hop w h =
      execute_hop-same (some (execute_public_request network left))
        (some (execute_public_request other left)) hop w
        (λ next w' k. execute_public_request-safe left next w' k) h
