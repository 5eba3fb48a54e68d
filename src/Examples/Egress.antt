-- ===== src/Examples/Egress.antt =====
-- The theorems on the egress proxy at a network that answers every request with a redirect.
use api_gateway_platform.Common.{
  ℕ, ◌+◌, ◌≤◌, String, refl, true, Option, none, some, List, [], ◌∷◌, ◌≡◌, if◌then◌else◌, ◌==◌,
  arith,
}
use api_gateway_platform.Common.Ascii.{to_lower}
use api_gateway_platform.Common.Results.{ok, err}
use api_gateway_platform.Common.Url.{Url}
use api_gateway_platform.Policies.Types.{single}
use api_gateway_platform.Egress.Security.{Headers, is_public_address, is_public_v4}
use api_gateway_platform.Egress.Redirects.{
  other_error, lab_upstream_blocked, Bytes, Response, Io, Network, Hop, max_redirects,
  execute_public_request, execute_hop, send, public_address, handle_response, follow_location,
  is_https,
}
use api_gateway_platform.Egress.Safety.{is_unblocked}
use api_gateway_platform.Egress.Quota.{consume_quota}
use api_gateway_platform.Egress.Server.{
  Upstream, public_https, EgressRequest, failed, build_public_target, relay, serve_kind,
  serve_upstream,
}
use api_gateway_platform.Egress.Relays.{serve_upstream-safe}
use api_gateway_platform.Egress.Bounds.{Meter, execute_public_request-requests}

abbrev url : String → Url
url hostname = record {
  protocol = "https:";
  username = "";
  password = "";
  host = hostname;
  hostname = hostname;
  port = "";
  pathname = "/";
  search = "";
  hash = "";
  origin = "";
}

abbrev moved : Response
moved = record {
  status_code = 302;
  headers = ("location", single "https://a.test/") ∷ [];
  chunks = [];
}

abbrev address_of : String → List String
address_of hostname = if hostname == "a.test" then "93.184.216.34" ∷ [] else "10.0.0.1" ∷ []

-- The world is the number of requests.
abbrev redirecting : Network ℕ
redirecting = record {
  is_ip = λ _. 4;
  lookup_all = λ hostname n. (ok (address_of hostname), n);
  request = λ _ _ _ _ _ n. (ok moved, n + 1);
  dump = λ _ n. (ok tt, n);
  resolve = λ location target. some target;
}

abbrev hop : Hop
hop = record {
  target = url "a.test";
  method = "POST";
  headers = ("accept", single "*/*") ∷ [];
  body = none;
}

-- One more than the redirects are sent.
execute_public_request_run :
    execute_public_request redirecting max_redirects hop 0 ≡ (err lab_upstream_blocked, 4)
unfolding execute_public_request execute_hop send public_address handle_response follow_location
    is_public_address is_public_v4 to_lower
execute_public_request_run = refl

execute_public_request_private :
    execute_public_request redirecting max_redirects (record hop { target = url "b.test" }) 0
    ≡ (err lab_upstream_blocked, 0)
unfolding execute_public_request execute_hop send public_address handle_response follow_location
    is_public_address is_public_v4 to_lower
execute_public_request_private = refl

-- A network that is told apart at targets that are not HTTPS.
abbrev request2 : Url → String → String → Headers → Option Bytes → Io ℕ Response
request2 target _ _ _ _ n =
    if is_https target then (ok moved, n + 1) else (err (other_error none), n + 7)

same_request :
    (target : Url) (address method : String) (headers : Headers) (body : Option Bytes) (w : ℕ)
    → is_https target ≡ true
    → is_public_address redirecting.is_ip address ≡ true
    → is_unblocked headers ≡ true
    → redirecting.request target address method headers body w
      ≡ request2 target address method headers body w
same_request target address method headers body w secure public clean = rw secure refl

abbrev upstream : Upstream
upstream = record {
  id = "u";
  active = true;
  workspace_id = "w";
  workspace_is_active = true;
  expires_at = 100;
  kind = public_https (some "https://a.test/base/");
}

abbrev egress_request : EgressRequest
egress_request = record {
  upstream_id = "u";
  wildcard = "x";
  url = "/upstreams/u/x?q=1";
  method = "POST";
  headers = ("cookie", single "a=b") ∷ ("accept", single "*/*") ∷ [];
  body = none;
}

abbrev parse_from : Option String → String → Option Url
parse_from base text = some (url "a.test")

abbrev set_pathname : String → Url → Url
set_pathname pathname target = record target { pathname = pathname }

abbrev set_search : String → Url → Url
set_search search target = record target { search = search }

-- The request reaches the network: the fourth answer is a redirect too.
serve_upstream_run :
    serve_upstream parse_from set_pathname set_search redirecting
      (upstream ∷ [])
      egress_request
      5
      []
      0
    ≡ (
      failed 400 "lab_upstream_blocked",
      (("w", record { window_started_at = 5; count = 1 }) ∷ [], 4),
    )
unfolding serve_upstream serve_kind relay build_public_target consume_quota execute_public_request
    execute_hop send public_address handle_response follow_location is_public_address is_public_v4
    to_lower
serve_upstream_run = refl

serve_upstream-safe_example :
    serve_upstream parse_from set_pathname set_search redirecting
      (upstream ∷ [])
      egress_request
      5
      []
      0
    ≡ serve_upstream parse_from set_pathname set_search
        (record redirecting { request = request2 })
        (upstream ∷ [])
        egress_request
        5
        []
        0
serve_upstream-safe_example =
    serve_upstream-safe parse_from set_pathname set_search redirecting request2 same_request
      (upstream ∷ []) egress_request 5 [] 0

abbrev meter : Meter redirecting
meter = record {
  requests = λ n. n;
  per_request = λ _ _ _ _ _ n. omega arith;
  per_lookup = λ _ n. omega arith;
  per_dump = λ _ n. omega arith;
}

execute_public_request-requests_example :
    (execute_public_request redirecting max_redirects hop 0).1 ≤ 0 + (max_redirects + 1)
execute_public_request-requests_example =
    execute_public_request-requests redirecting meter max_redirects hop 0
