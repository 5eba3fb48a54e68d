-- ===== src/Examples/Routing.antt =====
-- The theorems on the resolver at sample proxies and requests.
use mathlib.Core.List.{Memᴰ}
use api_gateway_platform.Common.{
  String, ◌≡◌, refl, ◌⊎◌, ◌↔◌, true, none, some, List, [], ◌∷◌, map, filter, arith, if◌then◌else◌,
  ◌==◌,
}
use api_gateway_platform.Common.Results.{ok, err}
use api_gateway_platform.Common.Ascii.{to_upper, to_lower}
use api_gateway_platform.Common.Url.{UrlParser}
use api_gateway_platform.Auth.Authorization.{
  ProductGrant, authorized_products, to_authorized, credential_matches_workspace,
}
use api_gateway_platform.Auth.Grants.{
  Authorizes, authorized_products_iff, credential_matches_workspace-same,
}
use api_gateway_platform.Resolver.Registry.{
  initial, LoadError, load_proxies, authority_of, path_matches, resolve_proxy, entries_at, present,
}
use api_gateway_platform.Resolver.Best.{IsChosen, entries_of, resolve_proxy-IsChosen}
use api_gateway_platform.Resolver.Loading.{load_proxies-entries, entry_of, is_for}
use api_gateway_platform.Resolver.Runtimes.{Routes, load_proxies-Routes}
use api_gateway_platform.Resolver.Template.{resolve_endpoint, match_parts, compile_endpoint_path}
use api_gateway_platform.Resolver.Matching.{Matches, match_parts_iff}
use api_gateway_platform.Resolver.Endpoint.{Explains, suffix_or_root, resolve_endpoint-Explains}
use api_gateway_platform.Examples.Data.{
  users, loaded, parse_api, api_url, credential, grant, get_user,
}

resolve_proxy-IsChosen_example : IsChosen "/users/7" (entries_of "env" loaded) 0 users
unfolding resolve_proxy
resolve_proxy-IsChosen_example = resolve_proxy-IsChosen "/users/7" "env" loaded users refl

load_proxies-entries_example :
    ((e : LoadError) × (load_proxies parse_api (users ∷ []) initial ≡ (err e, initial)))
    ⊎ (((load_proxies parse_api (users ∷ []) initial).0 ≡ ok tt)
        × ((load_proxies parse_api (users ∷ []) initial).1.initialized ≡ true)
        × (entries_at "environment:env" (load_proxies parse_api (users ∷ []) initial).1.by_key
            ≡ map entry_of (filter (is_for "environment:env") (users ∷ []))))
load_proxies-entries_example = load_proxies-entries parse_api (users ∷ []) initial "environment:env"

-- A parser that knows one host.
abbrev parse_hosts : UrlParser
parse_hosts text = if text == "https://API.test" then some api_url else none

load_proxies-Routes_example :
    Routes parse_hosts
      (users ∷ [])
      (load_proxies parse_hosts (users ∷ []) initial).1
      users
      " API.test "
      "/users/7"
unfolding load_proxies authority_of path_matches to_lower
load_proxies-Routes_example =
    load_proxies-Routes parse_hosts (users ∷ []) initial users " API.test " "/users/7" api_url refl
      (Memᴰ.head refl) refl refl refl refl refl refl refl refl refl refl (omega arith)

match_parts_iff_example :
    ((vs : List String)
      → match_parts (compile_endpoint_path "/:id") "/7" ≡ some vs
      → Matches (compile_endpoint_path "/:id") "/7" vs)
    × ((vs : List String)
        → Matches (compile_endpoint_path "/:id") "/7" vs
        → (ws : List String) × (match_parts (compile_endpoint_path "/:id") "/7" ≡ some ws))
match_parts_iff_example = match_parts_iff (compile_endpoint_path "/:id") "/7"

resolve_endpoint-Explains_example :
    Explains
      (suffix_or_root "/7")
      (to_upper "get")
      (get_user ∷ [])
      (resolve_endpoint users "/7" "get")
resolve_endpoint-Explains_example = resolve_endpoint-Explains users "/7" "get"

authorized_products_iff_example :
    Memᴰ (to_authorized grant) (authorized_products credential "env" (some "users")) ↔ (
      (g : ProductGrant) × Authorizes credential "env" (some "users") g
      × (to_authorized grant ≡ to_authorized g))
authorized_products_iff_example =
    authorized_products_iff credential "env" (some "users") (to_authorized grant)

credential_matches_workspace-same_example : present none ≡ present (some "")
unfolding credential_matches_workspace
credential_matches_workspace-same_example =
    credential_matches_workspace-same credential none (some "") 5 9 refl refl
