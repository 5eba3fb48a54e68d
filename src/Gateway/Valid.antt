-- ===== src/Gateway/Valid.antt =====
-- What the loader returns passes the validator.
use api_gateway_platform.Common.{
  ℕ, String, ◌≡◌, refl, sym, ap, ◌∙◌, inl, inr, Bool, true, not, ◌&&◌, ◌||◌, Option, none, some,
  List, [], ◌∷◌, ◌++◌, filter, find, any, arith, Bool-cases, Option-cases, is_some,
}
use api_gateway_platform.Common.Results.{Result, ok}
use api_gateway_platform.Common.Chains.{
  then_returns, next_returns, guard_returns, same_returns, guard_then, passes_then, for_all,
  for_all-each,
}
use api_gateway_platform.Common.Url.{UrlParser}
use api_gateway_platform.Shared.Deployments.{EnvironmentConfig}
use api_gateway_platform.Shared.Policies.{PolicyType, BasePolicyConfig}
use api_gateway_platform.Shared.Types.{EndpointConfig, ProxyConfig}
use api_gateway_platform.Resolver.Registry.{present}
use api_gateway_platform.Gateway.Validation.{
  validate_endpoint, validate_proxy, validate_proxy_configuration, enabled_types, is_oauth_token,
  is_jwks_endpoint, is_local,
}
use api_gateway_platform.Gateway.Rows.{OperationRow, DeploymentRow, EnvironmentRow}
use api_gateway_platform.Gateway.Loader.{
  to_endpoint, to_config, add_contexts, is_platform_oauth, load_proxies_from_database, is_loaded,
}

-- The loader tests the terminal types one by one, and the two parts of a target.
both_terminals :
    (a b l : Bool) → not (a && l) ≡ true → not (b && l) ≡ true → not ((a || b) && l) ≡ true
both_terminals a b l h k = ground arith

both_targets :
    (l t u : Bool)
    → not (l && not t) ≡ true
    → not (l && not u) ≡ true
    → not (l && (not t || not u)) ≡ true
both_targets l t u h k = ground arith

for_all-append :
    {A E : Type 0} (body : A → Result E (Unit {0})) (xs : List A) (a : A)
    → for_all body xs ≡ ok tt
    → body a ≡ ok tt
    → for_all body (xs ++ a ∷ []) ≡ ok tt
unfolding for_all
for_all-append body [] a h k = passes_then (body a) _ k refl
for_all-append body (x ∷ xs) a h k =
    let (first, rest) = next_returns h in
    passes_then (body x) _ first (for_all-append body xs a rest k)

for_all-find :
    {A E : Type 0} (body : A → Result E (Unit {0})) (p : A → Bool) (xs : List A) (a : A)
    → for_all body xs ≡ ok tt
    → find p xs ≡ some a
    → body a ≡ ok tt
unfolding for_all
for_all-find body p [] a h found = cc
for_all-find body p (x ∷ xs) a h found =
    let (first, rest) = next_returns h in
    elim (Bool-cases (p x)) [
      | inl k ↦
          let same : x ≡ a = ap (λ o. elim o [ none ↦ a | some y ↦ y ]) (rw k at found) in
          rw (sym same) first
      | inr k ↦ for_all-find body p xs a rest (rw k at found)
    ]

module _ (parse_environment : EnvironmentRow → Option EnvironmentConfig)
    (parse_policy_config : PolicyType → String → Option BasePolicyConfig)
    (parse_url : UrlParser) where
  to_endpoint-valid :
      (deployment_id : String) (upstream_base_url : Option String) (row : OperationRow)
      (endpoint : EndpointConfig)
      → to_endpoint parse_environment parse_policy_config parse_url deployment_id upstream_base_url
          row
        ≡ ok endpoint
      → validate_endpoint upstream_base_url endpoint ≡ ok tt
  unfolding to_endpoint validate_endpoint
  to_endpoint-valid deployment_id upstream_base_url row endpoint h =
      let (policies, _, h) = then_returns h in
      let (one, h) = next_returns h in
      let (terminal, h) = next_returns h in
      let (target, h) = next_returns h in
      let (upstream, h) = next_returns h in
      let (token, h) = next_returns h in
      let (jwks, h) = next_returns h in
      let e = same_returns refl h in
      let types = enabled_types policies in
      ap (validate_endpoint upstream_base_url) (sym e)
      ∙ guard_then _ _ _ (guard_returns _ _ one) (
          guard_then _ _ _ (guard_returns _ _ terminal) (
            guard_then _ _ _
              (both_targets (not (is_local row.mode)) (is_some (present row.target_path))
                (is_some (present upstream_base_url)) (guard_returns _ _ target)
                (guard_returns _ _ upstream))
              (guard_then _ _ _
                (both_terminals (any is_oauth_token types) (any is_jwks_endpoint types)
                  (not (is_local row.mode)) (guard_returns _ _ token) (guard_returns _ _ jwks))
                refl)))

  to_config-valid :
      (d : DeploymentRow) (config : ProxyConfig)
      → to_config parse_environment parse_policy_config parse_url d ≡ ok config
      → validate_proxy config ≡ ok tt
  unfolding to_config
  to_config-valid d config h =
      let (revision, _, h) = then_returns h in
      let (_, _, h) = then_returns h in
      let (_, _, h) = then_returns h in
      let (_, _, h) = then_returns h in
      let (endpoints, made, h) = then_returns h in
      ap validate_proxy (sym (same_returns refl h))
      ∙ for_all-each
          (to_endpoint parse_environment parse_policy_config parse_url d.id d.upstream_base_url)
          (validate_endpoint d.upstream_base_url) revision.operations endpoints
          (λ row endpoint e. to_endpoint-valid d.id d.upstream_base_url row endpoint e) made

  add_contexts-valid :
      (contexts : List (String × (String × (String × String)))) (configs after : List ProxyConfig)
      → for_all validate_proxy configs ≡ ok tt
      → add_contexts parse_environment parse_policy_config parse_url contexts configs ≡ ok after
      → for_all validate_proxy after ≡ ok tt
  unfolding add_contexts
  add_contexts-valid [] configs after valid h = rw (sym (same_returns refl h)) valid
  add_contexts-valid ((key, (workspace_id, (hostname, environment_id))) ∷ contexts) configs after
        valid h =
      elim (Option-cases (
        find (is_platform_oauth parse_environment parse_policy_config parse_url environment_id)
          configs)) [
            | inl missing ↦
                add_contexts-valid contexts configs after valid (rw (missing, add_contexts) at h)
            | inr (oauth, found) ↦
                let opened = rw (found, add_contexts) at h in
                let (origin, _, opened) = then_returns opened in
                let (url, _, opened) = then_returns opened in
                add_contexts-valid contexts _ after
                  (for_all-append validate_proxy configs _ valid
                    (for_all-find validate_proxy _ configs oauth valid found))
                  opened
          ]

  -- A configuration that is loaded from the database passes the validator, whatever the rows are, the
  -- OAuth proxies that are added for labs included.
  pub load_proxies_from_database-valid :
      (environment_ids : List String) (now : ℕ) (rows : List DeploymentRow)
      (configs : List ProxyConfig)
      → load_proxies_from_database parse_environment parse_policy_config parse_url environment_ids
          now rows
        ≡ ok configs
      → validate_proxy_configuration configs ≡ ok tt
  unfolding load_proxies_from_database validate_proxy_configuration
  load_proxies_from_database-valid environment_ids now rows configs h =
      let (loaded, made, h) = then_returns h in
      add_contexts-valid _ loaded configs
        (for_all-each (to_config parse_environment parse_policy_config parse_url) validate_proxy
          (filter (is_loaded environment_ids now) rows) loaded to_config-valid made)
        h
