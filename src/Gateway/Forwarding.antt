-- ===== src/Gateway/Forwarding.antt =====
-- Which requests reach an upstream.
use api_gateway_platform.Common.{
  String, ◌≡◌, refl, sym, inl, inr, Option, some, List, arith, Option-cases,
}
use api_gateway_platform.Common.Text.{slice_from, text_length}
use api_gateway_platform.Common.Url.{UrlParser}
use api_gateway_platform.Shared.Policies.{PolicyType, BasePolicyConfig}
use api_gateway_platform.Shared.Types.{ProxyConfig, EndpointConfig, EndpointMode, forward, local}
use api_gateway_platform.Resolver.Registry.{
  Registry, RuntimeTarget, resolve_runtime_target, resolve_proxy,
}
use api_gateway_platform.Resolver.Best.{IsChosen, entries_of, resolve_proxy-IsChosen}
use api_gateway_platform.Resolver.Template.{
  EndpointResolution, resolved, method_not_allowed, no_endpoint, resolve_endpoint,
}
use api_gateway_platform.Policies.Types.{
  Request, PolicyContext, PolicyResult, continue, halt, respond, Policy, Run,
}
use api_gateway_platform.Policies.Pipeline.{active_policies, execute_pipeline}
use api_gateway_platform.Policies.Flow.{Passes, execute_pipeline-continue_iff}
use api_gateway_platform.Gateway.Handler.{
  Outcome, forwarded, path_of, authority, initial_context, conclude_pipeline, serve_endpoint,
  handle_request,
}

module _ {W : Type 0} (parse_url : UrlParser)
    (create : PolicyType → BasePolicyConfig → Option (Policy W)) where
  conclude-continue :
      (req : Request) (proxy proxy2 : ProxyConfig) (endpoint endpoint2 : EndpointConfig)
      (params params2 : List (String × String)) (r : PolicyResult × Run W) (ctx : PolicyContext)
      (w' : W)
      → conclude_pipeline parse_url create req proxy2 endpoint2 params2 r
        ≡ (forwarded proxy endpoint params ctx, w')
      → (r ≡ (continue, (ctx, w')))
        × (endpoint2.mode ≡ forward)
        × (proxy2 ≡ proxy)
        × (endpoint2 ≡ endpoint)
        × (params2 ≡ params)
  unfolding conclude_pipeline
  conclude-continue req proxy proxy2 endpoint endpoint2 params params2 (halt code body, (c, w)) ctx
        w' h =
      absurd (ground arith)
  conclude-continue req proxy proxy2 endpoint endpoint2 params params2
        (respond code headers body, (c, w)) ctx w' h =
      absurd (ground arith)
  conclude-continue req proxy proxy2 endpoint endpoint2 params params2 (continue, (c, w)) ctx w' h =
      by_mode endpoint2.mode refl
    where
      by_mode :
          (m : EndpointMode)
          → endpoint2.mode ≡ m
          → (◌≡◌ {A = PolicyResult × Run W} (continue, (c, w)) (continue, (ctx, w')))
            × (endpoint2.mode ≡ forward)
            × (proxy2 ≡ proxy)
            × (endpoint2 ≡ endpoint)
            × (params2 ≡ params)
      by_mode local e = absurd (ground arith)
      by_mode forward e =
          let k : ◌≡◌ {A = Outcome × W} (forwarded proxy2 endpoint2 params2 c, w)
              (forwarded proxy endpoint params ctx, w') =
            rw (e, conclude_pipeline) at h in
          let same : c ≡ ctx = cc in
          let world : w ≡ w' = cc in (rw same (rw world refl), e, cc, cc, cc)

  -- The route that the request took, and the policies that it passed.
  pub record IsRouted (req : Request) (state : Registry) (w : W) (proxy : ProxyConfig)
      (endpoint : EndpointConfig) (params : List (String × String)) (ctx : PolicyContext) (w' : W)
      : Type 0 where
    pub runtime : RuntimeTarget
    pub known : resolve_runtime_target parse_url (authority req) state ≡ some runtime
    pub chosen : IsChosen (path_of req) (entries_of runtime.registry_key state) 0 proxy
    pub found :
        resolve_endpoint proxy (slice_from (text_length proxy.base_path) (path_of req)) req.method
        ≡ resolved endpoint params
    pub passed :
        Passes create
          (active_policies endpoint.policies)
          (initial_context req proxy endpoint params, w)
          (ctx, w')
    pub mode : endpoint.mode ≡ forward

  -- A request is handed to the forwarder, with a proxy, an endpoint and parameters, only if its host
  -- has a runtime, the proxy is a longest match of its path there, the endpoint and the parameters
  -- are what its method and the rest of its path resolve to, every active policy of the endpoint
  -- passed in order, and the endpoint is one that forwards.
  pub handle_request-IsRouted :
      (req : Request) (state : Registry) (w : W) (proxy : ProxyConfig) (endpoint : EndpointConfig)
      (params : List (String × String)) (ctx : PolicyContext) (w' : W)
      → handle_request parse_url create req state w ≡ (forwarded proxy endpoint params ctx, w')
      → IsRouted req state w proxy endpoint params ctx w'
  unfolding handle_request serve_endpoint
  handle_request-IsRouted req state w proxy endpoint params ctx w' h =
      elim (Option-cases (resolve_runtime_target parse_url (authority req) state)) [
        | inl missing ↦ absurd (ground arith)
        | inr (runtime, known) ↦
            elim (Option-cases (resolve_proxy runtime.registry_key (path_of req) state)) [
              | inl missing ↦ absurd (ground arith)
              | inr (found, p) ↦
                  by_endpoint runtime known found p
                    (resolve_endpoint found (slice_from (text_length found.base_path) (path_of req))
                      req.method)
                    refl (rw (p, handle_request) at (rw (known, handle_request) at h))
            ]
      ]
    where
      by_endpoint :
          (runtime : RuntimeTarget)
          → resolve_runtime_target parse_url (authority req) state ≡ some runtime
          → (found : ProxyConfig)
          → resolve_proxy runtime.registry_key (path_of req) state ≡ some found
          → (r : EndpointResolution)
          → resolve_endpoint found
              (slice_from (text_length found.base_path) (path_of req))
              req.method
            ≡ r
          → serve_endpoint parse_url create req found r w
            ≡ (forwarded proxy endpoint params ctx, w')
          → IsRouted req state w proxy endpoint params ctx w'
      by_endpoint runtime known found p no_endpoint e k = absurd (ground arith)
      by_endpoint runtime known found p (method_not_allowed methods) e k = absurd (ground arith)
      by_endpoint runtime known found p (resolved endpoint2 params2) e k =
          let start : Run W = (initial_context req found endpoint2 params2, w) in
          let (passed, mode, same_proxy, same_endpoint, same_params) =
            conclude-continue req proxy found endpoint endpoint2 params params2
              (execute_pipeline create endpoint2.policies start) ctx w' k in
          rw (sym same_proxy) (
            rw (sym same_endpoint) (
              rw (sym same_params) (record {
                runtime = runtime;
                known = known;
                chosen = resolve_proxy-IsChosen (path_of req) runtime.registry_key state found p;
                found = e;
                passed =
                    (execute_pipeline-continue_iff create endpoint2.policies start (ctx, w')).0
                      passed;
                mode = mode;
              })))
