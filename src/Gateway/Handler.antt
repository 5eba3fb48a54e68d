-- ===== src/Gateway/Handler.antt =====
-- packages/gateway-core/src/server.ts: the handler of `/*`, from the request to the answer or to the
-- call of the forwarder. `none` of `create_policy` is its exception.
use api_gateway_platform.Common.{ℕ, String, Option, none, some, List, [], ◌∷◌, if◌then◌else◌, ◌==◌}
use api_gateway_platform.Common.Maps.{lookup, insert}
use api_gateway_platform.Common.Text.{before_char, slice_from, text_length, concat, join}
use api_gateway_platform.Common.Url.{UrlParser}
use api_gateway_platform.Shared.Policies.{PolicyType, BasePolicyConfig}
use api_gateway_platform.Shared.Types.{ProxyConfig, EndpointConfig, forward, local}
use api_gateway_platform.Resolver.Registry.{Registry, resolve_runtime_target, resolve_proxy}
use api_gateway_platform.Resolver.Template.{
  EndpointResolution, resolved, method_not_allowed, no_endpoint, resolve_endpoint,
}
use api_gateway_platform.Policies.Types.{
  Request, PolicyContext, PolicyResult, continue, halt, respond, Policy, Run, Body, text,
  HeaderValue, single,
}
use api_gateway_platform.Policies.Pipeline.{execute_pipeline}

-- What the handler ends with: an answer with the headers of the reply, or the forwarder's call with
-- the proxy, the endpoint, the parameters and the context that holds the reply's headers.
pub data Outcome : Type 0 where
  replied : ℕ → List (String × String) → Body → Outcome
  forwarded : ProxyConfig → EndpointConfig → List (String × String) → PolicyContext → Outcome

-- `req.headers.host ?? ''`
abbrev pub host_of : Option HeaderValue → String
host_of (some (single host)) = host
host_of _ = ""

abbrev pub path_of : Request → String
path_of req = before_char b'?' req.url

abbrev pub authority : Request → String
authority req = host_of (lookup "host" req.headers)

abbrev pub initial_context :
    Request → ProxyConfig → EndpointConfig → List (String × String) → PolicyContext
initial_context req proxy endpoint params = record {
  req = req;
  reply_headers = [];
  proxy = proxy;
  endpoint = endpoint;
  params = params;
  client = none;
  state = [];
}

-- `for (const [name, value] of Object.entries(headers)) reply.header(name, value)`
abbrev pub set_headers : List (String × String) → List (String × String) → List (String × String)
set_headers [] reply = reply
set_headers ((name, value) ∷ headers) reply = set_headers headers (insert name value reply)

abbrev suffix_name : String → String
suffix_name suffix = if suffix == "" then "/" else suffix

module _ {W : Type 0} (parse_url : UrlParser)
    (create : PolicyType → BasePolicyConfig → Option (Policy W)) where
  abbrev not_local : Request → Outcome
  not_local req = replied 500 [] (
      ("error", text "Internal Server Error")
      ∷ ("message", text "Local endpoint is not configured with a terminal policy")
      ∷ ("requestId", text req.id)
      ∷ [])

  -- What follows the pipeline.
  unfoldable pub conclude_pipeline :
      Request
      → ProxyConfig
      → EndpointConfig
      → List (String × String)
      → PolicyResult × Run W
      → Outcome × W
  conclude_pipeline req proxy endpoint params (halt code body, (ctx, w)) =
      (replied code ctx.reply_headers body, w)
  conclude_pipeline req proxy endpoint params (respond code headers body, (ctx, w)) =
      (replied code (set_headers headers ctx.reply_headers) body, w)
  conclude_pipeline req proxy endpoint params (continue, (ctx, w)) = elim endpoint.mode [
    | local ↦ (not_local req, w)
    | forward ↦ (forwarded proxy endpoint params ctx, w)
  ]

  unfoldable pub serve_endpoint : Request → ProxyConfig → EndpointResolution → W → Outcome × W
  unfolding conclude_pipeline
  serve_endpoint req proxy no_endpoint w =
      let suffix = slice_from (text_length proxy.base_path) (path_of req) in
      (
        replied 404 [] (
            ("error", text "Not Found")
            ∷ (
              "message",
              text (
                  concat (
                    "Endpoint not found in proxy "
                    ∷ proxy.id
                    ∷ " for path suffix: "
                    ∷ suffix_name suffix
                    ∷ [])),
            )
            ∷ ("hint", text "Check the explicit endpoints configured for this proxy")
            ∷ []),
        w,
      )
  serve_endpoint req proxy (method_not_allowed methods) w = (
    replied 405 (("allow", join ", " methods) ∷ []) (
        ("error", text "Method Not Allowed")
        ∷ ("message", text "The path exists but does not allow this HTTP method")
        ∷ ("requestId", text req.id)
        ∷ []),
    w,
  )
  serve_endpoint req proxy (resolved endpoint params) w =
      conclude_pipeline req proxy endpoint params
        (execute_pipeline create endpoint.policies (initial_context req proxy endpoint params, w))

  unfoldable pub handle_request : Request → Registry → W → Outcome × W
  unfolding serve_endpoint
  handle_request req state w = elim (resolve_runtime_target parse_url (authority req) state) [
    | none ↦ (
      replied 421 [] (
          ("error", text "Misdirected Request")
          ∷ (
            "message",
            text (concat ("No gateway environment is configured for host: " ∷ authority req ∷ [])),
          )
          ∷ []),
      w,
    )
    | some runtime ↦ elim (resolve_proxy runtime.registry_key (path_of req) state) [
      | none ↦ (
        replied 404 [] (
            ("error", text "Not Found")
            ∷ ("message", text (concat ("No proxy is configured for path: " ∷ path_of req ∷ [])))
            ∷ (
              "hint",
              text "Check that the proxy exists and is active in the gateway configuration",
            )
            ∷ []),
        w,
      )
      | some proxy ↦
          serve_endpoint req proxy
            (resolve_endpoint proxy (slice_from (text_length proxy.base_path) (path_of req))
              req.method)
            w
    ]
  ]
