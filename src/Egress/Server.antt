-- ===== src/Egress/Server.antt =====
-- packages/lab-egress/src/server.ts: the handler of `/upstreams/:upstreamId/*`, and `buildPublicTarget`
-- of security.ts. The parsing of URLs and their setters are parameters. A body is what `rawBody` makes.
use api_gateway_platform.Common.{
  ℕ, String, Bool, not, ◌&&◌, Option, none, some, List, [], ◌∷◌, filter, find, ltb, if◌then◌else◌,
  ◌==◌,
}
use api_gateway_platform.Common.Results.{Result, ok, err}
use api_gateway_platform.Common.Text.{
  without_first, without_last, append, concat, join, starts_with, is_blank,
}
use api_gateway_platform.Common.Url.{Url}
use api_gateway_platform.Egress.Security.{Headers, safe_request_headers}
use api_gateway_platform.Egress.Quota.{Counters, consume_quota}
use api_gateway_platform.Egress.Redirects.{
  EgressError, lab_upstream_blocked, lab_upstream_response_too_large, other_error, Bytes,
  PublicResponse, Network, Hop, max_redirects, execute_public_request,
}

pub record MockRoute : Type 0 where
  pub method : String
  pub path : String
  pub status : ℕ
  pub headers : List (String × String)
  pub body : Option Bytes

pub data UpstreamKind : Type 0 where
  mock : List MockRoute → UpstreamKind
  public_https : Option String → UpstreamKind

-- A row with the columns of its workspace.
pub record Upstream : Type 0 where
  pub id : String
  pub active : Bool
  pub workspace_id : String
  pub workspace_is_active : Bool
  pub expires_at : ℕ
  pub kind : UpstreamKind

-- `wildcard` is the rest of the path.
pub record EgressRequest : Type 0 where
  pub upstream_id : String
  pub wildcard : String
  pub url : String
  pub method : String
  pub headers : Headers
  pub body : Option Bytes

pub data EgressReply : Type 0 where
  failed : ℕ → String → EgressReply
  mocked : MockRoute → EgressReply
  relayed : PublicResponse → EgressReply
  thrown : EgressReply

abbrev pub is_served : String → ℕ → Upstream → Bool
is_served id now u = u.id == id && u.active && u.workspace_is_active && ltb now u.expires_at

abbrev pub target_text : Option String → String
target_text none = ""
target_text (some url) = url

abbrev code_text : EgressError → String
code_text lab_upstream_blocked = "lab_upstream_blocked"
code_text lab_upstream_response_too_large = "lab_upstream_response_too_large"
code_text (other_error none) = "lab_upstream_unavailable"
code_text (other_error (some c)) = c

abbrev status_of : EgressError → ℕ
status_of lab_upstream_blocked = 400
status_of lab_upstream_response_too_large = 502
status_of (other_error _) = 502

abbrev pub answer : {W : Type 0} → Result EgressError PublicResponse × W → EgressReply × W
answer (ok response, w) = (relayed response, w)
answer (err e, w) = (failed (status_of e) (code_text e), w)

abbrev pub first_hop : EgressRequest → Url → Hop
first_hop request target = record {
  target = target;
  method = request.method;
  headers = safe_request_headers request.headers;
  body = request.body;
}

-- `parse_from` is `new URL(url, base)`, without a base where that is `none`.
module _ (parse_from : Option String → String → Option Url)
    (set_pathname set_search : String → Url → Url) where
  unfoldable pub build_public_target : String → String → Option Url
  build_public_target base request_path = elim (parse_from none base) [
    | none ↦ none
    | some target ↦ elim (parse_from (some "http://lab-egress.local") request_path) [
      | none ↦ none
      | some incoming ↦
          let parts =
            without_last b'/' target.pathname ∷ without_first b'/' incoming.pathname ∷ [] in
          let joined = set_pathname (join "/" (filter (λ s. not (is_blank s)) parts)) target in
          let rooted =
            if starts_with joined.pathname "/"
            then joined
            else set_pathname (append "/" joined.pathname) joined in
          some (set_search incoming.search rooted)
    ]
  ]

  module _ {W : Type 0} (network : Network W) (upstreams : List Upstream) where
    -- The `try` block.
    unfoldable pub relay : EgressRequest → String → String → W → EgressReply × W
    unfolding build_public_target safe_request_headers
    relay request base request_path w = elim (build_public_target base request_path) [
      | none ↦ answer (err (other_error (some "ERR_INVALID_URL")), w)
      | some target ↦
          answer (execute_public_request network max_redirects (first_hop request target) w)
    ]

    abbrev mock_reply : List MockRoute → EgressRequest → EgressReply
    mock_reply routes request =
        elim (find (λ r. r.method == request.method && r.path == append "/" request.wildcard)
          routes) [ none ↦ failed 404 "lab_mock_route_not_found" | some route ↦ mocked route ]

    -- By the kind of the upstream; an empty target counts as none.
    unfoldable pub serve_kind : UpstreamKind → EgressRequest → String → W → EgressReply × W
    unfolding relay
    serve_kind (mock routes) request request_path w = (mock_reply routes request, w)
    serve_kind (public_https target) request request_path w =
        if is_blank (target_text target)
        then (failed 502 "lab_upstream_invalid", w)
        else relay request (target_text target) request_path w

    unfoldable pub serve_upstream : EgressRequest → ℕ → Counters → W → EgressReply × (Counters × W)
    unfolding serve_kind consume_quota
    serve_upstream request now counters w =
        elim (find (is_served request.upstream_id now) upstreams) [
          | none ↦ (failed 404 "lab_resource_not_found", (counters, w))
          | some upstream ↦
              let (within, counters) = consume_quota upstream.workspace_id now counters in
              if within
              then elim (parse_from (some "http://local") request.url) [
                | none ↦ (thrown, (counters, w))
                | some url ↦
                    let (reply, w) =
                      serve_kind upstream.kind request
                        (concat ("/" ∷ request.wildcard ∷ url.search ∷ [])) w in
                    (reply, (counters, w))
              ]
              else (failed 429 "lab_rate_limit_exceeded", (counters, w))
        ]
