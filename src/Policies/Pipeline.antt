-- ===== src/Policies/Pipeline.antt =====
-- packages/gateway-core/src/policies/pipeline.ts: `executePipeline`. `create` is `createPolicy` of
-- the registry; logging is left out.
use api_gateway_platform.Common.{Bool, true, false, Option, none, some, List, [], ◌∷◌, filter, leb}
use api_gateway_platform.Common.Text.{concat}
use api_gateway_platform.Common.Sort.{sort}
use api_gateway_platform.Shared.Policies.{
  PolicyConfig, PolicyType, BasePolicyConfig, policy_name, is_open,
}
use api_gateway_platform.Policies.Types.{
  Policy, PolicyResult, continue, halt, respond, Try, returned, threw, Run, mark, text,
}

-- `.filter(p => p.enabled).sort((a, b) => a.order - b.order)`
abbrev pub is_enabled : PolicyConfig → Bool
is_enabled p = p.enabled

abbrev pub order_leq : PolicyConfig → PolicyConfig → Bool
order_leq a b = leb a.order b.order

unfoldable pub active_policies : List PolicyConfig → List PolicyConfig
active_policies policies = sort order_leq (filter is_enabled policies)

module _ {W : Type 0} (create : PolicyType → BasePolicyConfig → Option (Policy W)) where
  -- The `try` block: creating the policy and running it.
  unfoldable pub run_policy : PolicyConfig → Run W → Try PolicyResult × Run W
  run_policy p s = elim (create p.type p.config) [ none ↦ (threw, s) | some policy ↦ policy s ]

  abbrev pub unavailable : PolicyConfig → Run W → PolicyResult
  unavailable p (ctx, w) = halt 503 (
      ("error", text "Service Unavailable")
      ∷ (
        "message",
        text (concat ("Policy \"" ∷ policy_name p.type ∷ "\" is temporarily unavailable" ∷ [])),
      )
      ∷ ("requestId", text ctx.req.id)
      ∷ [])

  abbrev pub degraded : PolicyConfig → Run W → Run W
  degraded p s = mark (concat (policy_name p.type ∷ ".degraded" ∷ [])) s

  -- The loop over the active policies.
  unfoldable pub execute_policies : List PolicyConfig → Run W → PolicyResult × Run W
  execute_policies [] s = (continue, s)
  execute_policies (p ∷ ps) s =
      let (result, t) = run_policy p s in
      elim result [
        | threw ↦ elim (is_open p.config.failure_mode) [
          | true ↦ execute_policies ps (degraded p t)
          | false ↦ (unavailable p t, degraded p t)
        ]
        | returned continue ↦ execute_policies ps t
        | returned (halt code body) ↦ (halt code body, t)
        | returned (respond code headers body) ↦ (respond code headers body, t)
      ]

  unfoldable pub execute_pipeline : List PolicyConfig → Run W → PolicyResult × Run W
  execute_pipeline policies s = execute_policies (active_policies policies) s
