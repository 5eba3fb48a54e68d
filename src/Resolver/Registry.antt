-- ===== src/Resolver/Registry.antt =====
-- packages/gateway-core/src/proxy/resolver.ts: loading the registry and resolving a request to a
-- proxy. The module-level variables are the record `Registry`.
use api_gateway_platform.Common.{
  ℕ, ◌+◌, String, Bool, true, false, ◌&&◌, ◌||◌, Option, none, some, List, [], ◌∷◌, leb, ltb,
  if◌then◌else◌, length, ◌==◌, not,
}
use mathlib.Core.Option
use api_gateway_platform.Common.Text.{concat, append, trim, text_length, starts_with, has_char}
use api_gateway_platform.Common.Maps.{lookup, insert, has}
use api_gateway_platform.Common.Url.{UrlParser}
use api_gateway_platform.Common.Sort.{sort}
use api_gateway_platform.Common.Results.{Result, ok, err, ◌>>=◌, ◌>>◌, guard}
use api_gateway_platform.Shared.Deployments.{EnvironmentConfig}
use api_gateway_platform.Shared.Types.{EndpointConfig, ProxyConfig}
use api_gateway_platform.Common.Ascii.{to_lower}

pub record RuntimeTarget : Type 0 where
  pub registry_key : String
  pub environment : EnvironmentConfig
  pub workspace_id : Option String

abbrev pub Entries : Type 0
Entries = List (String × ProxyConfig)

-- `registry`, `runtimesByAuthority`, `registryInitialized`
pub record Registry : Type 0 where
  pub by_key : List (String × Entries)
  pub runtimes_by_authority : List (String × RuntimeTarget)
  pub initialized : Bool

abbrev pub initial : Registry
initial = record { by_key = []; runtimes_by_authority = []; initialized = false }

pub data LoadError : Type 0 where
  invalid_url : LoadError
  authority_conflict : String → LoadError
  base_path_conflict : String → String → LoadError

-- An empty workspace identifier counts as none.
abbrev pub present : Option String → Option String
present none = none
present (some s) = if s == "" then none else some s

unfoldable pub registry_key : ProxyConfig → String
registry_key proxy = elim (present proxy.workspace_id) [
  | some workspace ↦ concat ("workspace:" ∷ workspace ∷ [])
  | none ↦ concat ("environment:" ∷ proxy.environment.id ∷ [])
]

abbrev pub is_dynamic : EndpointConfig → Bool
is_dynamic e = has_char b':' e.path || has_char b'{' e.path

-- The comparison that orders endpoints: static before dynamic, then the longest path first.
unfoldable pub endpoint_leq : EndpointConfig → EndpointConfig → Bool
endpoint_leq a b =
    if is_dynamic a && not (is_dynamic b)
    then false
    else if not (is_dynamic a) && is_dynamic b
    then true
    else leb (text_length b.path) (text_length a.path)

unfoldable pub sorted_proxy : ProxyConfig → ProxyConfig
sorted_proxy proxy = record proxy { endpoints = sort endpoint_leq proxy.endpoints }

abbrev pub entries_at : String → List (String × Entries) → Entries
entries_at key registry = elim (lookup key registry) [ none ↦ [] | some m ↦ m ]

-- The runtime target that a proxy is registered with.
abbrev pub target_of : ProxyConfig → RuntimeTarget
target_of proxy = record {
  registry_key = registry_key proxy;
  environment = proxy.environment;
  workspace_id = proxy.workspace_id;
}

pub record Candidate : Type 0 where
  pub registry : List (String × Entries)
  pub runtimes : List (String × RuntimeTarget)

module _ (parse_url : UrlParser) where
  -- `proxy.runtimeAuthority ?? new URL(proxy.environment.publicOrigin).host.toLowerCase()`
  unfoldable pub authority_of : ProxyConfig → Result LoadError String
  authority_of proxy = elim proxy.runtime_authority [
    | some authority ↦ ok authority
    | none ↦ elim (parse_url proxy.environment.public_origin) [
      | none ↦ err invalid_url
      | some url ↦ ok (to_lower url.host)
    ]
  ]

  abbrev pub other_runtime : String → Option RuntimeTarget → Bool
  other_runtime key none = false
  other_runtime key (some existing) = not (existing.registry_key == key)

  -- One round of the loop of `loadProxies`.
  unfoldable pub register_proxy : ProxyConfig → Candidate → Result LoadError Candidate
  register_proxy proxy c =
      let key = registry_key proxy in
      let environment_registry = entries_at key c.registry in
      if not proxy.active then ok c else do
        authority ← authority_of proxy
        guard (not (other_runtime key (lookup authority c.runtimes))) (authority_conflict authority)
        guard (not (has proxy.base_path environment_registry))
            (base_path_conflict key proxy.base_path)
        ok (record {
          registry =
              insert key (insert proxy.base_path (sorted_proxy proxy) environment_registry)
                c.registry;
          runtimes = insert authority (target_of proxy) c.runtimes;
        })

  unfoldable pub register_all : List ProxyConfig → Candidate → Result LoadError Candidate
  register_all [] c = ok c
  register_all (proxy ∷ proxies) c = register_proxy proxy c >>= λ d. register_all proxies d

  -- A load that throws leaves the registry as it was: the state comes back beside the result.
  unfoldable pub load_proxies : List ProxyConfig → Registry → Result LoadError (Unit {0}) × Registry
  unfolding register_all register_proxy
  load_proxies proxies state =
      elim (register_all proxies (record { registry = []; runtimes = [] })) [
        | err e ↦ (err e, state)
        | ok c ↦ (
          ok tt,
          record { by_key = c.registry; runtimes_by_authority = c.runtimes; initialized = true },
        )
      ]

  unfoldable pub normalize_authority : String → Option String
  normalize_authority authority = elim (parse_url (concat ("https://" ∷ trim authority ∷ []))) [
    | none ↦ none
    | some url ↦
        if not (url.username == "")
          || not (url.password == "")
          || not (url.pathname == "/")
          || not (url.search == "")
          || not (url.hash == "")
        then none
        else some (to_lower url.host)
  ]

  unfoldable pub resolve_runtime_target : String → Registry → Option RuntimeTarget
  unfolding normalize_authority
  resolve_runtime_target authority state = elim (present (normalize_authority authority)) [
    | none ↦ none
    | some normalized ↦ lookup normalized state.runtimes_by_authority
  ]

  unfoldable pub resolve_environment : String → Registry → Option EnvironmentConfig
  unfolding normalize_authority
  resolve_environment authority state =
      Option.map (λ (t : RuntimeTarget). t.environment) (resolve_runtime_target authority state)

-- `requestPath === basePath || requestPath.startsWith(basePath + '/')`
unfoldable pub path_matches : String → String → Bool
path_matches request_path base_path =
    request_path == base_path || starts_with request_path (append base_path "/")

-- The loop of `resolveProxy`.
unfoldable pub best_match : String → Entries → Option ProxyConfig → ℕ → Option ProxyConfig
best_match path [] best longest = best
best_match path ((base_path, proxy) ∷ entries) best longest =
    let better = path_matches path base_path && ltb longest (text_length base_path) in
    best_match path entries (if better then some proxy else best)
      (if better then text_length base_path else longest)

abbrev pub registry_of : String → List (String × Entries) → Option Entries
registry_of environment_id registry = elim (lookup environment_id registry) [
  | some m ↦ some m
  | none ↦ lookup (concat ("environment:" ∷ environment_id ∷ [])) registry
]

unfoldable pub resolve_proxy : String → String → Registry → Option ProxyConfig
unfolding best_match path_matches
resolve_proxy environment_id request_path state = elim (registry_of environment_id state.by_key) [
  | none ↦ none
  | some entries ↦ best_match request_path entries none 0
]

abbrev pub size_from : List (String × Entries) → ℕ
size_from [] = 0
size_from ((_, m) ∷ rest) = length m + size_from rest

unfoldable pub get_registry_size : Registry → ℕ
get_registry_size state = size_from state.by_key

unfoldable pub get_registry_environment_count : Registry → ℕ
get_registry_environment_count state = length state.by_key

unfoldable pub is_registry_ready : Registry → Bool
is_registry_ready state = state.initialized
