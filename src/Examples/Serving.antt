-- ===== src/Examples/Serving.antt =====
-- The theorems on the handler and the reloader at a sample request and sample versions.
use api_gateway_platform.Common.{ℕ, ◌≡◌, refl, ◌⊎◌, Option, none, some, [], ◌∷◌, arith}
use api_gateway_platform.Shared.Policies.{PolicyType, BasePolicyConfig}
use api_gateway_platform.Resolver.Registry.{
  Registry, resolve_runtime_target, resolve_proxy, target_of, registry_key,
}
use api_gateway_platform.Common.Ascii.{to_lower, to_upper}
use api_gateway_platform.Resolver.Template.{
  resolve_endpoint, match_endpoint, compile_endpoint_path, match_parts, take_group,
}
use api_gateway_platform.Policies.Types.{Policy, PolicyContext, single, returned, continue}
use api_gateway_platform.Policies.Pipeline.{execute_pipeline, execute_policies, active_policies}
use api_gateway_platform.Gateway.Handler.{handle_request, initial_context}
use api_gateway_platform.Gateway.Forwarding.{IsRouted, handle_request-IsRouted}
use api_gateway_platform.Sync.Reloader.{
  Reloader, idle, loading, leaving, loading_state, create_reloader, request_reload, start_if_idle,
  begin_round, settle, finish_round, Steps, requested, finished, reported, settled, none_left,
  one_more,
}
use api_gateway_platform.Sync.Drains.{finish_round-idle}
use api_gateway_platform.Examples.Data.{users, get_user, loaded, parse_api, request}

abbrev create : PolicyType → BasePolicyConfig → Option (Policy ℕ)
create _ _ = some (λ run. (returned continue, run))

abbrev state : Registry
state = record loaded { runtimes_by_authority = ("api.test", target_of users) ∷ [] }

abbrev served : PolicyContext
served =
    initial_context (request (("host", single "api.test") ∷ []) "") users get_user
      (("id", "7") ∷ [])

handle_request-IsRouted_example :
    IsRouted parse_api create
      (request (("host", single "api.test") ∷ []) "")
      state
      0
      users
      get_user
      (("id", "7") ∷ [])
      served
      0
unfolding handle_request resolve_runtime_target registry_key resolve_proxy resolve_endpoint
    match_endpoint compile_endpoint_path match_parts take_group execute_pipeline active_policies
    execute_policies to_lower to_upper
handle_request-IsRouted_example =
    handle_request-IsRouted parse_api create (request (("host", single "api.test") ∷ []) "") state 0
      users get_user (("id", "7") ∷ []) served 0 refl

-- A round for 9, whose loop ends, a request for 12 that comes too late for it, and the callback.
abbrev fresh_reloader : Reloader
fresh_reloader = create_reloader 4 0

abbrev in_round : Reloader
in_round = request_reload 9 fresh_reloader

abbrev loop_over : Reloader
loop_over = begin_round (finish_round 9 1 in_round)

abbrev rested : Reloader
rested = settle (request_reload 12 loop_over)

abbrev late_story : Steps fresh_reloader rested
unfolding create_reloader request_reload start_if_idle begin_round finish_round settle
late_story = one_more (requested 9 fresh_reloader) (
    one_more (finished 1 9 in_round refl) (
      one_more (reported (finish_round 9 1 in_round) refl) (
        one_more (requested 12 loop_over)
          (one_more (settled (request_reload 12 loop_over) refl) none_left))))

-- The late request is kept, and starts no round.
rested_run :
    (rested.active_reload ≡ idle) × (rested.requested_version ≡ 12) × (rested.applied_version ≡ 9)
unfolding create_reloader request_reload start_if_idle begin_round finish_round settle
rested_run = (refl, refl, refl)

abbrev busy : Reloader
busy = record {
  applied_version = 4;
  requested_version = 9;
  active_reload = loading 7;
  last_applied_at = 0;
  last_error = none;
  state = loading_state;
}

finish_round-idle_example :
    (((begin_round (finish_round 7 1 busy)).active_reload ≡ leaving)
      × ((settle (begin_round (finish_round 7 1 busy))).active_reload ≡ idle)
      × ((begin_round (finish_round 7 1 busy)).applied_version ≡ 9))
    ⊎ (((begin_round (finish_round 7 1 busy)).active_reload ≡ loading 9)
        × ((begin_round (finish_round 9 2 (begin_round (finish_round 7 1 busy)))).active_reload
            ≡ leaving)
        × ((settle
              (begin_round (finish_round 9 2 (begin_round (finish_round 7 1 busy))))).active_reload
            ≡ idle)
        × ((begin_round (finish_round 9 2 (begin_round (finish_round 7 1 busy)))).applied_version
            ≡ 9))
finish_round-idle_example = finish_round-idle busy 7 1 2 refl (omega arith, omega arith)
