-- ===== src/Egress/Quota.antt =====
-- packages/lab-egress/src/server.ts: `consumeQuota`, the counters of requests by workspace.
use api_gateway_platform.Common.{
  ℕ, ◌+◌, ◌-◌, String, Bool, true, none, some, List, leb, if◌then◌else◌,
}
use api_gateway_platform.Common.Maps.{lookup, insert}

pub record Counter : Type 0 where
  pub window_started_at : ℕ
  pub count : ℕ

abbrev pub Counters : Type 0
Counters = List (String × Counter)

abbrev pub rate_limit : ℕ
rate_limit = 120

abbrev pub minute : ℕ
minute = 60000

abbrev new_window : String → ℕ → Counters → Bool × Counters
new_window workspace_id now counters =
    (true, insert workspace_id (record { window_started_at = now; count = 1 }) counters)

-- The clock does not run backwards, so `now` is not before the window's start.
unfoldable pub consume_quota : String → ℕ → Counters → Bool × Counters
consume_quota workspace_id now counters = elim (lookup workspace_id counters) [
  | none ↦ new_window workspace_id now counters
  | some current ↦
      if leb minute (now - current.window_started_at)
      then new_window workspace_id now counters
      else (
        leb (current.count + 1) rate_limit,
        insert workspace_id (record current { count = current.count + 1 }) counters,
      )
]
