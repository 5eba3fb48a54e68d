-- ===== src/Policies/Flow.antt =====
-- Which policies the pipeline runs, and what stops it.
use api_gateway_platform.Common.{
  ℕ, ◌≤◌, ◌<◌, ◌⊎◌, ◌&&◌, filter, eqb, leb→le, leb→lt, ◌≡◌, refl, ◌∙◌, ◌≢◌, ◌↔◌, true, false,
  Option, List, [], ◌∷◌, ◌++◌, arith, Bool-cases, inl, inr, ap,
}
use api_gateway_platform.Common.Sort.{sort, insert_sorted}
use api_gateway_platform.Shared.Policies.{PolicyConfig, PolicyType, BasePolicyConfig, is_open}
use api_gateway_platform.Policies.Types.{
  Policy, PolicyResult, continue, halt, respond, Try, returned, threw, Run,
}
use api_gateway_platform.Policies.Pipeline.{
  is_enabled, order_leq, active_policies, run_policy, unavailable, degraded, execute_policies,
  execute_pipeline,
}

-- Each policy has an order number that is no greater than that of the next.
pub data IsAscending : List PolicyConfig → Type 0 where
  nil : IsAscending []
  one : (p : PolicyConfig) → IsAscending (p ∷ [])
  more :
      {q r : PolicyConfig} {l : List PolicyConfig}
      → q.order ≤ r.order
      → IsAscending (r ∷ l)
      → IsAscending (q ∷ r ∷ l)

insert_sorted-IsAscending :
    (p : PolicyConfig) {l : List PolicyConfig}
    → IsAscending l
    → IsAscending (insert_sorted order_leq p l)
insert_sorted-IsAscending p nil = one p
insert_sorted-IsAscending p (one q) = elim (Bool-cases (order_leq p q)) [
  | inl le ↦ rw le (more (leb→le _ _ le) (one q))
  | inr gt ↦ rw gt (more (omega (arith, leb→lt _ _ gt)) (one p))
]
insert_sorted-IsAscending p (more {q} {r} {l} h rest) =
    let tail = insert_sorted-IsAscending p rest in
    elim (Bool-cases (order_leq p q)) [
      | inl le ↦ rw le (more (leb→le _ _ le) (more h rest))
      | inr gt ↦ rw gt (after tail (Bool-cases (order_leq p r)) (leb→lt _ _ gt))
    ]
  where
    after :
        IsAscending (insert_sorted order_leq p (r ∷ l))
        → (order_leq p r ≡ true) ⊎ (order_leq p r ≡ false)
        → q.order < p.order
        → IsAscending (q ∷ insert_sorted order_leq p (r ∷ l))
    after t (inl le) lt = rw le (more (omega (arith, lt)) (rw le at t))
    after t (inr gt) lt = rw gt (more h (rw gt at t))

sort-IsAscending : (l : List PolicyConfig) → IsAscending (sort order_leq l)
sort-IsAscending [] = nil
sort-IsAscending (p ∷ l) = insert_sorted-IsAscending p (sort-IsAscending l)

-- Sorting leaves the policies of one order number as they stand.
insert_sorted-stable :
    (n : ℕ) (p : PolicyConfig) (l : List PolicyConfig)
    → filter (λ q. eqb q.order n) (insert_sorted order_leq p l)
      ≡ filter (λ q. eqb q.order n) (p ∷ l)
insert_sorted-stable n p [] = refl
insert_sorted-stable n p (q ∷ l) = ground (arith, insert_sorted-stable n p l)

sort-stable :
    (n : ℕ) (l : List PolicyConfig)
    → filter (λ q. eqb q.order n) (sort order_leq l) ≡ filter (λ q. eqb q.order n) l
sort-stable n [] = refl
sort-stable n (p ∷ l) =
    insert_sorted-stable n p (sort order_leq l) ∙ ground (arith, sort-stable n l)

filter_enabled :
    (n : ℕ) (l : List PolicyConfig)
    → filter (λ q. eqb q.order n) (filter is_enabled l) ≡ filter (λ q. q.enabled && eqb q.order n) l
filter_enabled n [] = refl
filter_enabled n (p ∷ l) = ground (arith, filter_enabled n l)

module _ {W : Type 0} (create : PolicyType → BasePolicyConfig → Option (Policy W)) where
  -- The policies ran one after the other, from `s` to the last argument: each continued, or threw
  -- and is configured to fail open.
  pub data Passes : List PolicyConfig → Run W → Run W → Type 0 where
    done : {s : Run W} → Passes [] s s
    ran :
        {p : PolicyConfig} {ps : List PolicyConfig} {s t u : Run W}
        → run_policy create p s ≡ (returned continue, t)
        → Passes ps t u
        → Passes (p ∷ ps) s u
    tolerated :
        {p : PolicyConfig} {ps : List PolicyConfig} {s t u : Run W}
        → run_policy create p s ≡ (threw, t)
        → is_open p.config.failure_mode ≡ true
        → Passes ps (degraded create p t) u
        → Passes (p ∷ ps) s u

  -- The policy ends the pipeline: by its own answer, or because it threw and fails closed.
  pub data Stops (p : PolicyConfig) (s : Run W) : PolicyResult → Run W → Type 0 where
    answered :
        {r : PolicyResult} {t : Run W}
        → r ≢ continue
        → run_policy create p s ≡ (returned r, t)
        → Stops p s r t
    refused :
        {t : Run W}
        → run_policy create p s ≡ (threw, t)
        → is_open p.config.failure_mode ≡ false
        → Stops p s (unavailable create p t) (degraded create p t)

  pub data Ends (ps : List PolicyConfig) (s : Run W) : PolicyResult → Run W → Type 0 where
    passed : {t : Run W} → Passes ps s t → Ends ps s continue t
    stopped :
        (before after : List PolicyConfig) {p : PolicyConfig} {t u : Run W} {r : PolicyResult}
        → ps ≡ before ++ p ∷ after
        → Passes before s t
        → Stops p t r u
        → Ends ps s r u

  abbrev Ended : List PolicyConfig → Run W → PolicyResult × Run W → Type 0
  Ended ps s (r, u) = Ends ps s r u

  Ends-ran :
      {p : PolicyConfig} {ps : List PolicyConfig} {s t u : Run W} {r : PolicyResult}
      → run_policy create p s ≡ (returned continue, t)
      → Ends ps t r u
      → Ends (p ∷ ps) s r u
  Ends-ran e (passed q) = passed (ran e q)
  Ends-ran {p} e (stopped before after q k h) =
      stopped (p ∷ before) after (ap (λ l. p ∷ l) q) (ran e k) h

  Ends-tolerated :
      {p : PolicyConfig} {ps : List PolicyConfig} {s t u : Run W} {r : PolicyResult}
      → run_policy create p s ≡ (threw, t)
      → is_open p.config.failure_mode ≡ true
      → Ends ps (degraded create p t) r u
      → Ends (p ∷ ps) s r u
  Ends-tolerated e o (passed q) = passed (tolerated e o q)
  Ends-tolerated {p} e o (stopped before after q k h) =
      stopped (p ∷ before) after (ap (λ l. p ∷ l) q) (tolerated e o k) h

  -- One round of the loop, for each way that the policy can end.
  module _ (p : PolicyConfig) (ps : List PolicyConfig) (s t : Run W) where
    round_ran :
        run_policy create p s ≡ (returned continue, t)
        → execute_policies create (p ∷ ps) s ≡ execute_policies create ps t
    unfolding execute_policies
    round_ran e = ground arith

    round_tolerated :
        run_policy create p s ≡ (threw, t)
        → is_open p.config.failure_mode ≡ true
        → execute_policies create (p ∷ ps) s ≡ execute_policies create ps (degraded create p t)
    unfolding execute_policies
    round_tolerated e o = ground arith

    round_refused :
        run_policy create p s ≡ (threw, t)
        → is_open p.config.failure_mode ≡ false
        → execute_policies create (p ∷ ps) s ≡ (unavailable create p t, degraded create p t)
    unfolding execute_policies
    round_refused e o = ground arith

    round_answered :
        (r : PolicyResult)
        → r ≢ continue
        → run_policy create p s ≡ (returned r, t)
        → execute_policies create (p ∷ ps) s ≡ (r, t)
    unfolding execute_policies
    round_answered continue n e = absurd (n refl)
    round_answered (halt code body) n e = ground arith
    round_answered (respond code headers body) n e = ground arith

  execute_policies-Ends :
      (ps : List PolicyConfig) (s : Run W) → Ended ps s (execute_policies create ps s)
  unfolding execute_policies
  execute_policies-Ends [] s = passed done
  execute_policies-Ends (p ∷ ps) s =
      step (λ t. execute_policies-Ends ps t) (run_policy create p s) refl
    where
      step :
          ((t : Run W) → Ended ps t (execute_policies create ps t))
          → (x : Try PolicyResult × Run W) → run_policy create p s ≡ x
          → Ended (p ∷ ps) s (execute_policies create (p ∷ ps) s)
      step ih (threw, t) e = elim (Bool-cases (is_open p.config.failure_mode)) [
        | inl open' ↦
            rw (round_tolerated p ps s t e open')
              (Ends-tolerated e open' (ih (degraded create p t)))
        | inr shut ↦ rw (round_refused p ps s t e shut) (stopped [] ps refl done (refused e shut))
      ]
      step ih (returned continue, t) e = rw (round_ran p ps s t e) (Ends-ran e (ih t))
      step ih (returned (halt code body), t) e =
          rw (round_answered p ps s t (halt code body) (λ q. cc) e)
            (stopped [] ps refl done (answered (λ q. cc) e))
      step ih (returned (respond code headers body), t) e =
          rw (round_answered p ps s t (respond code headers body) (λ q. cc) e)
            (stopped [] ps refl done (answered (λ q. cc) e))

  -- The policies that run are the enabled ones of the endpoint, in ascending order of their order
  -- numbers, those of one number as they stand in the configuration. The pipeline either runs them
  -- all, each of which continues or throws and fails open, and then continues; or it runs those
  -- before some policy in that way, and the answer, the context and the outside world are those of
  -- that policy, which answered or threw and fails closed. No policy after it runs.
  pub execute_pipeline-Ends :
      (policies : List PolicyConfig) (s : Run W)
      → (active : List PolicyConfig) × IsAscending active
        × ((n : ℕ)
            → filter (λ p. eqb p.order n) active
              ≡ filter (λ p. p.enabled && eqb p.order n) policies)
        × Ends active s
            (execute_pipeline create policies s).0
            (execute_pipeline create policies s).1
  unfolding execute_pipeline active_policies
  execute_pipeline-Ends policies s = (
    active_policies policies,
    sort-IsAscending (filter is_enabled policies),
    (λ n. sort-stable n (filter is_enabled policies) ∙ filter_enabled n policies),
    execute_policies-Ends (active_policies policies) s,
  )

  Passes-execute_policies :
      {ps : List PolicyConfig} {s t : Run W}
      → Passes ps s t
      → execute_policies create ps s ≡ (continue, t)
  unfolding execute_policies
  Passes-execute_policies done = refl
  Passes-execute_policies (ran {p} {ps} {s} {t} e k) =
      round_ran p ps s t e ∙ Passes-execute_policies k
  Passes-execute_policies (tolerated {p} {ps} {s} {t} e o k) =
      round_tolerated p ps s t e o ∙ Passes-execute_policies k

  -- The gateway goes on to forward the request exactly when every active policy passes.
  pub execute_pipeline-continue_iff :
      (policies : List PolicyConfig) (s t : Run W)
      → (execute_pipeline create policies s ≡ (continue, t)) ↔ Passes (active_policies policies) s t
  unfolding execute_pipeline
  execute_pipeline-continue_iff policies s t = (
    λ e. all_pass (execute_policies-Ends (active_policies policies) s) e,
    Passes-execute_policies,
  )
    where
      all_pass :
          Ended (active_policies policies) s (execute_policies create (active_policies policies) s)
          → execute_policies create (active_policies policies) s ≡ (continue, t)
          → Passes (active_policies policies) s t
      all_pass h e = from (rw e at h)
        where
          from :
              Ends (active_policies policies) s continue t → Passes (active_policies policies) s t
          from (passed k) = k
          from (stopped before after q k (answered n r)) = absurd (n refl)
