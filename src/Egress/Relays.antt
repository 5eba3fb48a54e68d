-- ===== src/Egress/Relays.antt =====
-- Where the requests of a lab's upstreams go.
use api_gateway_platform.Common.{
  ℕ, String, ◌≡◌, refl, ap, inl, inr, true, Option, some, List, [], ◌∷◌, Bool-cases, Option-cases,
  find,
}
use api_gateway_platform.Common.Text.{is_blank, concat}
use api_gateway_platform.Common.Url.{Url}
use api_gateway_platform.Egress.Security.{Headers, is_public_address, safe_request_headers}
use api_gateway_platform.Egress.Quota.{Counters, consume_quota}
use api_gateway_platform.Egress.Redirects.{Bytes, Response, Io, Network, is_https, max_redirects}
use api_gateway_platform.Egress.Safety.{is_unblocked, filter-all, execute_public_request-safe}
use api_gateway_platform.Egress.Server.{
  Upstream, UpstreamKind, mock, public_https, EgressRequest, build_public_target, relay, serve_kind,
  serve_upstream, target_text, answer, first_hop, is_served,
}

module _ (parse_from : Option String → String → Option Url)
    (set_pathname set_search : String → Url → Url) {W : Type 0} (network : Network W)
    (request2 : Url → String → String → Headers → Option Bytes → Io W Response)
    (agrees : (target : Url) (address method : String) (headers : Headers) (body : Option Bytes)
        (w : W)
      → is_https target ≡ true
      → is_public_address network.is_ip address ≡ true
      → is_unblocked headers ≡ true
      → network.request target address method headers body w
        ≡ request2 target address method headers body w)
    (upstreams : List Upstream) where
  abbrev other : Network W
  other = record network { request = request2 }

  relay-safe :
      (request : EgressRequest) (base request_path : String) (w : W)
      → relay parse_from set_pathname set_search network upstreams request base request_path w
        ≡ relay parse_from set_pathname set_search other upstreams request base request_path w
  unfolding relay safe_request_headers
  relay-safe request base request_path w =
      elim (Option-cases
        (build_public_target parse_from set_pathname set_search base request_path)) [
          | inl bad ↦ rw (bad, relay) refl
          | inr (target, e) ↦
              rw (e, relay)
                (ap answer (
                  execute_public_request-safe network request2 agrees max_redirects
                    (first_hop request target) w (filter-all _ request.headers)))
        ]

  serve_kind-safe :
      (kind : UpstreamKind) (request : EgressRequest) (request_path : String) (w : W)
      → serve_kind parse_from set_pathname set_search network upstreams kind request request_path w
        ≡ serve_kind parse_from set_pathname set_search other upstreams kind request request_path w
  unfolding serve_kind
  serve_kind-safe (mock routes) request request_path w = refl
  serve_kind-safe (public_https target) request request_path w =
      elim (Bool-cases (is_blank (target_text target))) [
        | inl none_there ↦ rw none_there refl
        | inr there ↦ rw there (relay-safe request (target_text target) request_path w)
      ]

  -- No request to an upstream leaves the proxy but over HTTPS to a public address, without a blocked header,
  -- redirects included: another network that treats such requests alike, and any other as it likes,
  -- gives the same reply, the same counters and the same world.
  pub serve_upstream-safe :
      (request : EgressRequest) (now : ℕ) (counters : Counters) (w : W)
      → serve_upstream parse_from set_pathname set_search network upstreams request now counters w
        ≡ serve_upstream parse_from set_pathname set_search other upstreams request now counters w
  unfolding serve_upstream
  serve_upstream-safe request now counters w =
      elim (Option-cases (find (is_served request.upstream_id now) upstreams)) [
        | inl missing ↦ rw (missing, serve_upstream) refl
        | inr (upstream, found) ↦
            let quota = consume_quota upstream.workspace_id now counters in
            elim (Bool-cases quota.0) [
              | inr beyond ↦ rw (found, serve_upstream) (rw beyond refl)
              | inl within ↦ elim (Option-cases (parse_from (some "http://local") request.url)) [
                | inl bad ↦ rw (found, serve_upstream) (rw (within, bad) refl)
                | inr (url, e) ↦
                    rw (found, serve_upstream)
                      (rw (within, e)
                        (ap (λ p. (p.0, (quota.1, p.1)))
                          (serve_kind-safe upstream.kind request
                            (concat ("/" ∷ request.wildcard ∷ url.search ∷ [])) w)))
              ]
            ]
      ]
