-- ===== src/Policies/Windows.antt =====
-- How many requests of a window the limiter lets through.
use api_gateway_platform.Common.{
  ℕ, zero, suc, ◌-◌, ◌<◌, String, ◌≡◌, true, arith, leb, if◌then◌else◌, ◌==◌, eq_refl, ◌↔◌, none,
  some,
}
use Prim.Native.Nat.{min}
use api_gateway_platform.Common.Maps.{lookup, lookup-insert}
use api_gateway_platform.Shared.Policies.{RateLimitPolicyConfig, is_open}
use api_gateway_platform.Policies.Types.{PolicyContext, continue, returned}
use api_gateway_platform.Policies.RateLimit.{
  CounterStore, rate_limit_script, eval_script, window_key, rate_limit_policy,
}

-- The store counts: `INCR` answers one more than the count of the key, keeps that, and touches no
-- other key; `EXPIRE` leaves the counts as they are while no key runs out.
pub record Counts {W : Type 0} (store : CounterStore W) : Type 0 where
  pub count : String → W → ℕ
  pub incr_answer : (key : String) (w : W) → (store.incr key w).0 ≡ suc (count key w)
  pub count-incr :
      (key other : String) (w : W)
      → count other (store.incr key w).1
        ≡ (if key == other then suc (count key w) else count other w)
  pub count-expire :
      (key other : String) (seconds : ℕ) (w : W)
      → count other (store.expire key seconds w) ≡ count other w

module _ {W : Type 0} (store : CounterStore W) (counts : Counts store) where
  open counts use {count, incr_answer, count-incr, count-expire}

  -- `n` runs of the script on one key, and how many of them passed.
  pub script_runs : String → ℕ → ℕ → ℕ → W → ℕ × W
  script_runs key limit window zero w = (0, w)
  script_runs key limit window (suc n) w =
      let (verdict, w') = rate_limit_script store key limit window w in
      let (passed, last) = script_runs key limit window n w' in
      ((if verdict.is_limited then passed else suc passed), last)

  script_verdict :
      (key : String) (limit window : ℕ) (w : W)
      → (rate_limit_script store key limit window w).0.is_limited ≡ leb limit (count key w)
  unfolding rate_limit_script
  script_verdict key limit window w = ground (arith, incr_answer key w)

  count-script :
      (key other : String) (limit window : ℕ) (w : W)
      → count other (rate_limit_script store key limit window w).1
        ≡ (if key == other then suc (count key w) else count other w)
  unfolding rate_limit_script
  count-script key other limit window w = ground (
    arith,
    incr_answer key w,
    count-incr key other w,
    count-expire key other window (store.incr key w).1,
  )

  -- Of `n` requests of one window the limiter lets through the first ones, as many as the limit
  -- leaves after those counted before, and no more.
  pub script_runs_lem :
      (key : String) (limit window n : ℕ) (w : W)
      → (script_runs key limit window n w).0 ≡ min n (limit - count key w)
  unfolding script_runs
  script_runs_lem key limit window zero w = omega arith
  script_runs_lem key limit window (suc n) w = ground (
    arith,
    script_verdict key limit window w,
    count-script key key limit window w,
    eq_refl key,
    script_runs_lem key limit window n (rate_limit_script store key limit window w).1,
  )

  eval_script_up :
      (key : String) (limit window : ℕ) (w : W)
      → store.outage w ≡ none
      → eval_script store key limit window w ≡ (
        returned (rate_limit_script store key limit window w).0,
        (rate_limit_script store key limit window w).1,
      )
  unfolding eval_script
  eval_script_up key limit window w up = ground arith

  -- While the store answers, the policy lets a request through exactly when fewer requests than the
  -- limit are counted under its key, and counts the request under that key and no other.
  pub rate_limit_policy-count :
      (config : RateLimitPolicyConfig) (ctx : PolicyContext) (w : W)
      → store.outage w ≡ none
      → (((rate_limit_policy store config (ctx, w)).0 ≡ returned continue)
          ↔ (count (window_key store config ctx w) w < config.limit))
        × ((other : String)
            → count other (rate_limit_policy store config (ctx, w)).1.1 ≡ (
                if window_key store config ctx w == other
                then suc (count (window_key store config ctx w) w)
                else count other w))
  unfolding rate_limit_policy
  rate_limit_policy-count config ctx w up =
      let key = window_key store config ctx w in
      let v = script_verdict key config.limit config.window_seconds w in
      let e = eval_script_up key config.limit config.window_seconds w up in
      (
        ((λ h. ground arith), (λ h. ground arith)),
        λ other. ground (arith, count-script key other config.limit config.window_seconds w),
      )

module _ {W : Type 0} (store : CounterStore W) where
  -- While the store is out, the policy lets the request through exactly when it fails open, and
  -- marks the context as degraded in either case.
  pub rate_limit_policy_outage :
      (config : RateLimitPolicyConfig) (ctx : PolicyContext) (w lost : W)
      → store.outage w ≡ some lost
      → (((rate_limit_policy store config (ctx, w)).0 ≡ returned continue)
          ↔ (is_open config.failure_mode ≡ true))
        × (lookup "rate-limit.degraded" (rate_limit_policy store config (ctx, w)).1.0.state
            ≡ some true)
  unfolding rate_limit_policy eval_script
  rate_limit_policy_outage config ctx w lost down =
      let l = lookup-insert "rate-limit.degraded" "rate-limit.degraded" true ctx.state in
      (((λ h. ground arith), (λ h. ground arith)), ground (arith, l))
