-- ===== src/Policies/RateLimit.antt =====
-- packages/gateway-core/src/policies/rate-limit/rate-limit.policy.ts: the fixed-window limiter. The
-- commands of the store that the script calls are a parameter; the script itself is modelled. The
-- store runs a script as one step.
use api_gateway_platform.Common.{
  ℕ, ◌/◌, String, Bool, true, false, Option, none, some, [], ◌∷◌, eqb, ltb, if◌then◌else◌,
}
use api_gateway_platform.Common.Text.{join, concat}
use api_gateway_platform.Common.Decimal.{show}
use api_gateway_platform.Shared.Policies.{BasePolicyConfig, RateLimitPolicyConfig, is_open}
use api_gateway_platform.Policies.Types.{
  Policy, PolicyFactoryOf, PolicyContext, PolicyResult, continue, halt, Try, returned, threw, Run,
  mark, reply_header, text, number,
}

-- The store's commands, and the clock in milliseconds. `outage` is `some` where an `eval` throws,
-- with the state that this leaves, whether or not the script was run.
pub record CounterStore (W : Type 0) : Type 0 where
  pub incr : String → W → ℕ × W
  pub expire : String → ℕ → W → W
  pub ttl : String → W → ℕ
  pub outage : W → Option W
  pub now : W → ℕ

-- What the script returns: whether the limit is passed, and the seconds until the window ends.
pub record Verdict : Type 0 where
  pub is_limited : Bool
  pub retry_after : ℕ

module _ {W : Type 0} (store : CounterStore W) where
  open store use {incr, expire, ttl, outage, now}

  -- `RATE_LIMIT_LUA`
  unfoldable pub rate_limit_script : String → ℕ → ℕ → W → Verdict × W
  rate_limit_script key limit window w =
      let (current, counted) = incr key w in
      let w' = if eqb current 1 then expire key window counted else counted in
      if ltb limit current
      then (record { is_limited = true; retry_after = ttl key w' }, w')
      else (record { is_limited = false; retry_after = 0 }, w')

  -- `getClient().eval(…)`
  unfoldable pub eval_script : String → ℕ → ℕ → W → Try Verdict × W
  unfolding rate_limit_script
  eval_script key limit window w =
      let (verdict, w') = rate_limit_script key limit window w in
      elim (outage w) [ none ↦ (returned verdict, w') | some lost ↦ (threw, lost) ]

  -- `ctx.client?.appId ?? ctx.req.ip`
  abbrev pub identifier : PolicyContext → String
  identifier ctx = elim ctx.client [ none ↦ ctx.req.ip | some client ↦ client.app_id ]

  -- `Math.floor(Date.now() / 1000 / config.windowSeconds)`
  abbrev pub window_bucket : RateLimitPolicyConfig → W → ℕ
  window_bucket config w = now w / 1000 / config.window_seconds

  unfoldable pub window_key : RateLimitPolicyConfig → PolicyContext → W → String
  window_key config ctx w = join ":" (
      "ratelimit"
      ∷ ctx.proxy.environment.id
      ∷ identifier ctx
      ∷ ctx.proxy.id
      ∷ show (window_bucket config w)
      ∷ [])

  too_many : RateLimitPolicyConfig → ℕ → PolicyResult
  too_many config retry_after = halt 429 (
      ("error", text "Too Many Requests")
      ∷ (
        "message",
        text (
            concat (
              "Rate limit of "
              ∷ show config.limit
              ∷ " requests per "
              ∷ show config.window_seconds
              ∷ "s exceeded."
              ∷ [])),
      )
      ∷ ("retryAfter", number retry_after)
      ∷ [])

  unfoldable pub decide : RateLimitPolicyConfig → Try Verdict → Run W → Try PolicyResult × Run W
  unfolding too_many
  decide config threw s =
      let (ctx, _) = s in
      if is_open config.failure_mode
      then (
        returned continue,
        reply_header "X-RateLimit-Policy" "degraded" (mark "rate-limit.degraded" s),
      )
      else (
        returned (
            halt 503 (
              ("error", text "Service Unavailable")
              ∷ ("message", text "Rate limiting service is temporarily unavailable")
              ∷ ("requestId", text ctx.req.id)
              ∷ [])),
        mark "rate-limit.degraded" s,
      )
  decide config (returned verdict) s =
      if verdict.is_limited
      then (
        returned (too_many config verdict.retry_after),
        reply_header "X-RateLimit-Remaining" "0"
            (reply_header "Retry-After" (show verdict.retry_after) s),
      )
      else (returned continue, s)

  unfoldable pub rate_limit_policy : RateLimitPolicyConfig → Policy W
  unfolding decide
  rate_limit_policy config (ctx, w) =
      let (answer, w') =
        eval_script (window_key config ctx w) config.limit config.window_seconds w in
      decide config answer (reply_header "X-RateLimit-Limit" (show config.limit) (ctx, w'))

  unfoldable pub create_rate_limit_policy :
      (BasePolicyConfig → Option RateLimitPolicyConfig) → PolicyFactoryOf BasePolicyConfig W
  unfolding rate_limit_policy
  create_rate_limit_policy parse raw_config = elim (parse raw_config) [
    | none ↦ none
    | some config ↦ some (rate_limit_policy config)
  ]
