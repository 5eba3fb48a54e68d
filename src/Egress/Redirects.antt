-- ===== src/Egress/Redirects.antt =====
-- packages/lab-egress/src/server.ts: `publicDispatcher`, `readLimitedBody` and the redirect loop of
-- `executePublicRequest`. DNS, requests and URL resolution are the operations of `Network`.
use api_gateway_platform.Common.{
  ℕ, zero, suc, ◌+◌, String, Bool, not, ◌&&◌, ◌||◌, Option, none, some, List, [], ◌∷◌, ◌++◌, any,
  length, eqb, ltb, if◌then◌else◌, ◌==◌,
}
use api_gateway_platform.Common.Maps.{lookup}
use api_gateway_platform.Common.Results.{Result, ok, err}
use api_gateway_platform.Common.Url.{Url}
use api_gateway_platform.Policies.Types.{single, several}
use api_gateway_platform.Egress.Security.{
  Headers, is_public_address, safe_response_headers, without_request_body_headers,
}

-- The `code` of the error that is thrown, if it has one.
pub data EgressError : Type 0 where
  lab_upstream_blocked lab_upstream_response_too_large : EgressError
  other_error : Option String → EgressError

abbrev pub Bytes : Type 0
Bytes = List ℕ

pub record Response : Type 0 where
  pub status_code : ℕ
  pub headers : Headers
  pub chunks : List Bytes

pub record PublicResponse : Type 0 where
  pub status_code : ℕ
  pub headers : Headers
  pub body : Bytes

abbrev pub Io : Type 0 → Type 0 → Type 0
Io W A = W → Result EgressError A × W

-- A request is sent to the address that the dispatcher is pinned to.
pub record Network (W : Type 0) : Type 0 where
  pub is_ip : String → ℕ
  pub lookup_all : String → Io W (List String)
  pub request : Url → String → String → Headers → Option Bytes → Io W Response
  pub dump : Response → Io W (Unit {0})
  pub resolve : String → Url → Option Url

abbrev pub response_limit : ℕ
response_limit = 1048576

-- `for await (const chunk of body)`
unfoldable pub read_limited_body : List Bytes → ℕ → Bytes → Result EgressError Bytes
read_limited_body [] size read = ok read
read_limited_body (chunk ∷ chunks) size read =
    let rest = read_limited_body chunks (size + length chunk) (read ++ chunk) in
    if ltb response_limit (size + length chunk) then err lab_upstream_response_too_large else rest

-- `response.headers.location`, where an empty text counts as none
abbrev pub location_of : Headers → Option String
location_of headers = elim (lookup "location" headers) [
  | none ↦ none
  | some (single s) ↦ if s == "" then none else some s
  | some (several []) ↦ some "undefined"
  | some (several (s ∷ _)) ↦ some s
]

abbrev pub is_redirect : ℕ → Bool
is_redirect status = any (eqb status) (301 ∷ 302 ∷ 303 ∷ 307 ∷ 308 ∷ [])

-- `target.protocol === 'https:'`, on no port or 443
abbrev pub is_https : Url → Bool
is_https target = target.protocol == "https:" && (target.port == "" || target.port == "443")

abbrev pub becomes_get : ℕ → String → Bool
becomes_get status method = eqb status 303 || (eqb status 301 || eqb status 302) && method == "POST"

abbrev pub has_no_body : String → Bool
has_no_body method = method == "GET" || method == "HEAD"

-- The variables of the loop.
pub record Hop : Type 0 where
  pub target : Url
  pub method : String
  pub headers : Headers
  pub body : Option Bytes

abbrev pub next_hop : Hop → ℕ → Url → Hop
next_hop hop status target =
    if becomes_get status hop.method
    then record {
      target = target;
      method = "GET";
      headers = without_request_body_headers hop.headers;
      body = none;
    }
    else record hop { target = target }

abbrev public_response : Response → Result EgressError PublicResponse
public_response response = elim (read_limited_body response.chunks 0 []) [
  | err e ↦ err e
  | ok body ↦ ok (record {
    status_code = response.status_code;
    headers = safe_response_headers response.headers;
    body = body;
  })
]

module _ {W : Type 0} (network : Network W) where
  open network use {is_ip, lookup_all, request, dump, resolve}

  -- The first address of a host all of whose addresses are public.
  unfoldable pub public_address : Result EgressError (List String) → Result EgressError String
  public_address (err e) = err e
  public_address (ok []) = err lab_upstream_blocked
  public_address (ok (address ∷ addresses)) =
      if any (λ a. not (is_public_address is_ip a)) (address ∷ addresses)
      then err lab_upstream_blocked
      else ok address

  -- What follows `dump`; `follow` goes on with a hop, where redirects are left.
  unfoldable pub follow_location :
      Option (Hop → Io W PublicResponse)
      → Hop
      → ℕ
      → String
      → Result EgressError (Unit {0}) × W
      → Result EgressError PublicResponse × W
  unfolding without_request_body_headers
  follow_location follow hop status location (err e, w) = (err e, w)
  follow_location none hop status location (ok _, w) = (err lab_upstream_blocked, w)
  follow_location (some go) hop status location (ok _, w) = elim (resolve location hop.target) [
    | none ↦ (err (other_error (some "ERR_INVALID_URL")), w)
    | some target ↦ go (next_hop hop status target) w
  ]

  unfoldable pub handle_response :
      Option (Hop → Io W PublicResponse)
      → Hop
      → Result EgressError Response × W
      → Result EgressError PublicResponse × W
  unfolding follow_location read_limited_body safe_response_headers
  handle_response follow hop (err e, w) = (err e, w)
  handle_response follow hop (ok response, w) =
      elim (if is_redirect response.status_code then location_of response.headers else none) [
        | none ↦ (public_response response, w)
        | some location ↦ follow_location follow hop response.status_code location (dump response w)
      ]

  unfoldable pub send :
      Option (Hop → Io W PublicResponse)
      → Hop
      → Result EgressError String × W
      → Result EgressError PublicResponse × W
  unfolding handle_response
  send follow hop (err e, w) = (err e, w)
  send follow hop (ok address, w) = handle_response follow hop (
      request hop.target address hop.method hop.headers
        (if has_no_body hop.method then none else hop.body) w)

  abbrev checked : Result EgressError (List String) × W → Result EgressError String × W
  checked (answer, w) = (public_address answer, w)

  -- A round of the loop.
  unfoldable pub execute_hop : Option (Hop → Io W PublicResponse) → Hop → Io W PublicResponse
  unfolding send public_address
  execute_hop follow hop w =
      if is_https hop.target
      then send follow hop (checked (lookup_all hop.target.hostname w))
      else (err lab_upstream_blocked, w)

  -- With this many redirects left.
  unfoldable pub execute_public_request : ℕ → Hop → Io W PublicResponse
  unfolding execute_hop
  execute_public_request zero hop w = execute_hop none hop w
  execute_public_request (suc left) hop w = execute_hop (some (execute_public_request left)) hop w

abbrev pub max_redirects : ℕ
max_redirects = 3
