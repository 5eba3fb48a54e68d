-- ===== src/Egress/Bounds.antt =====
-- How many requests the egress proxy sends for one.
use api_gateway_platform.Common.{
  ℕ, zero, suc, ◌+◌, ◌≤◌, String, inl, inr, Option, none, some, if◌then◌else◌, arith, Bool-cases,
  Option-cases,
}
use api_gateway_platform.Common.Results.{Result, ok, err}
use api_gateway_platform.Common.Url.{Url}
use api_gateway_platform.Egress.Security.{Headers}
use api_gateway_platform.Egress.Redirects.{
  EgressError, Bytes, Response, PublicResponse, Io, Network, location_of, is_redirect, is_https,
  has_no_body, Hop, next_hop, follow_location, public_address, handle_response, send, execute_hop,
  execute_public_request,
}

-- A count of the requests that a network was asked for.
pub record Meter {W : Type 0} (network : Network W) : Type 0 where
  pub requests : W → ℕ
  pub per_request :
      (target : Url) (address method : String) (headers : Headers) (body : Option Bytes) (w : W)
      → requests (network.request target address method headers body w).1 ≤ requests w + 1
  pub per_lookup :
      (hostname : String) (w : W) → requests (network.lookup_all hostname w).1 ≤ requests w
  pub per_dump : (response : Response) (w : W) → requests (network.dump response w).1 ≤ requests w

module _ {W : Type 0} (network : Network W) (meter : Meter network) where
  open meter use {requests, per_request, per_lookup, per_dump}

  abbrev Costs : Option (Hop → Io W PublicResponse) → ℕ → Type 0
  Costs none k = Unit {0}
  Costs (some go) k = (hop : Hop) (w : W) → requests (go hop w).1 ≤ requests w + k

  follow_location-Costs :
      (follow : Option (Hop → Io W PublicResponse)) (k : ℕ) (hop : Hop) (status : ℕ)
      (location : String) (r : Result EgressError (Unit {0}) × W)
      → Costs follow k
      → requests (follow_location network follow hop status location r).1 ≤ requests r.1 + k
  unfolding follow_location
  follow_location-Costs follow k hop status location (err e, w) c = omega arith
  follow_location-Costs none k hop status location (ok _, w) c = omega arith
  follow_location-Costs (some go) k hop status location (ok _, w) c =
      elim (Option-cases (network.resolve location hop.target)) [
        | inl bad ↦ rw (bad, follow_location) (omega arith)
        | inr (target, e) ↦ rw (e, follow_location) (c (next_hop hop status target) w)
      ]

  handle_response-Costs :
      (follow : Option (Hop → Io W PublicResponse)) (k : ℕ) (hop : Hop)
      (r : Result EgressError Response × W)
      → Costs follow k
      → requests (handle_response network follow hop r).1 ≤ requests r.1 + k
  unfolding handle_response
  handle_response-Costs follow k hop (err e, w) c = omega arith
  handle_response-Costs follow k hop (ok response, w) c =
      elim (Option-cases
        (if is_redirect response.status_code then location_of response.headers else none)) [
          | inl stays ↦ rw (stays, handle_response) (omega arith)
          | inr (location, moved) ↦
              rw (moved, handle_response)
                (omega (
                  arith,
                  per_dump response w,
                  follow_location-Costs follow k hop response.status_code location
                      (network.dump response w) c,
                ))
        ]

  send-Costs :
      (follow : Option (Hop → Io W PublicResponse)) (k : ℕ) (hop : Hop)
      (r : Result EgressError String × W)
      → Costs follow k
      → requests (send network follow hop r).1 ≤ requests r.1 + (k + 1)
  unfolding send
  send-Costs follow k hop (err e, w) c = omega arith
  send-Costs follow k hop (ok address, w) c =
      let body = if has_no_body hop.method then none else hop.body in
      omega (
        arith,
        per_request hop.target address hop.method hop.headers body w,
        handle_response-Costs follow k hop
            (network.request hop.target address hop.method hop.headers body w) c,
      )

  execute_hop-Costs :
      (follow : Option (Hop → Io W PublicResponse)) (k : ℕ) (hop : Hop) (w : W)
      → Costs follow k
      → requests (execute_hop network follow hop w).1 ≤ requests w + (k + 1)
  unfolding execute_hop
  execute_hop-Costs follow k hop w c = elim (Bool-cases (is_https hop.target)) [
    | inr insecure ↦ rw insecure (omega arith)
    | inl secure ↦
        let found = network.lookup_all hop.target.hostname w in
        rw secure (
          omega (
            arith,
            per_lookup hop.target.hostname w,
            send-Costs follow k hop (public_address network found.0, found.1) c,
          ))
  ]

  -- With a number of redirects left, at most one request more than that number is sent, whatever the
  -- upstreams answer.
  pub execute_public_request-requests :
      (left : ℕ) (hop : Hop) (w : W)
      → requests (execute_public_request network left hop w).1 ≤ requests w + (left + 1)
  unfolding execute_public_request
  execute_public_request-requests zero hop w = execute_hop-Costs none 0 hop w tt
  execute_public_request-requests (suc left) hop w =
      let cost =
        execute_hop-Costs (some (execute_public_request network left)) (left + 1) hop w
          (λ next w'. execute_public_request-requests left next w') in
      omega (arith, cost)
