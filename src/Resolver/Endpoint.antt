-- ===== src/Resolver/Endpoint.antt =====
-- What `resolveEndpoint` answers: the endpoint, the methods that the path allows, or nothing.
use mathlib.Core.List.{Memᴰ}
use api_gateway_platform.Common.{
  String, ◌≡◌, refl, sym, ◌≢◌, ◌⊎◌, inl, inr, true, none, some, List, [], ◌∷◌, ◌++◌, arith,
  if◌then◌else◌, ◌==◌, eq_iff, Bool-cases, Option-cases, includes, any-eq-true,
}
use api_gateway_platform.Common.Ascii.{to_upper}
use api_gateway_platform.Common.Sort.{mem-sort, sort-mem}
use api_gateway_platform.Shared.Types.{EndpointConfig, ProxyConfig}
use api_gateway_platform.Resolver.Template.{
  EndpointResolution, resolved, method_not_allowed, no_endpoint, compile_endpoint_path, keys,
  bind_params, match_endpoint, text_leq, no_match, add_unique, resolve_in, resolve_endpoint,
}
use api_gateway_platform.Resolver.Matching.{Matches, match_parts_iff}

-- The endpoint's path matches the suffix of the request.
abbrev pub Accepts : String → EndpointConfig → Type 0
Accepts suffix e = (vs : List String) × Matches (compile_endpoint_path e.path) suffix vs

-- No endpoint of the list has both the path and the method.
abbrev pub NoneServes : String → String → List EndpointConfig → Type 0
NoneServes suffix method es =
    (e : EndpointConfig) → Memᴰ e es → Accepts suffix e → e.method ≢ method

-- What an answer says about the endpoints of the proxy.
pub data Explains (suffix method : String) (es : List EndpointConfig)
    : EndpointResolution → Type 0 where
  served :
      {e : EndpointConfig} {params : List (String × String)} {vs : List String}
      → Memᴰ e es
      → e.method ≡ method
      → Matches (compile_endpoint_path e.path) suffix vs
      → params ≡ bind_params (keys (compile_endpoint_path e.path)) vs []
      → Explains suffix method es (resolved e params)
  other_methods :
      {ms : List String}
      → NoneServes suffix method es
      → ((m : String)
          → Memᴰ m ms
          → (e : EndpointConfig) × Memᴰ e es × (e.method ≡ m) × Accepts suffix e)
      → ((e : EndpointConfig) → Memᴰ e es → Accepts suffix e → Memᴰ e.method ms)
      → Explains suffix method es (method_not_allowed ms)
  unknown_path :
      ((e : EndpointConfig) → Memᴰ e es → ¬ Accepts suffix e)
      → Explains suffix method es no_endpoint

match_endpoint_sound :
    (e : EndpointConfig) (suffix : String) (vs : List String)
    → match_endpoint e suffix ≡ some vs
    → Matches (compile_endpoint_path e.path) suffix vs
unfolding match_endpoint
match_endpoint_sound e suffix vs h = (match_parts_iff _ suffix).0 vs h

match_endpoint-none :
    (e : EndpointConfig) (suffix : String) → match_endpoint e suffix ≡ none → ¬ Accepts suffix e
unfolding match_endpoint
match_endpoint-none e suffix h (vs, m) = let (ws, found) = (match_parts_iff _ suffix).1 vs m in cc

mem-add_unique_self : (ms : List String) (x : String) → Memᴰ x (add_unique ms x)
mem-add_unique_self ms x = elim (Bool-cases (includes ms x)) [
  | inl old ↦ rw old (known (any-eq-true (λ y. y == x) ms old))
  | inr new ↦ rw new (last ms)
]
  where
    known : (a : String) × Memᴰ a ms × ((a == x) ≡ true) → Memᴰ x ms
    known (a, m, e) = let same : a ≡ x = (eq_iff _ _).0 e in rw (← same) m

    last : (xs : List String) → Memᴰ x (xs ++ x ∷ [])
    last [] = Memᴰ.head refl
    last (y ∷ ys) = Memᴰ.tail (last ys)

mem-append_left : (xs : List String) (y : String) {a : String} → Memᴰ a xs → Memᴰ a (xs ++ y ∷ [])
mem-append_left (x ∷ xs) y (Memᴰ.head e) = Memᴰ.head e
mem-append_left (x ∷ xs) y (Memᴰ.tail m) = Memᴰ.tail (mem-append_left xs y m)
mem-append_left [] y m = elim m [ ]

mem-append_last : (xs : List String) {a y : String} → Memᴰ a (xs ++ y ∷ []) → Memᴰ a xs ⊎ (a ≡ y)
mem-append_last [] (Memᴰ.head e) = inr e
mem-append_last [] (Memᴰ.tail m) = elim m [ ]
mem-append_last (x ∷ xs) (Memᴰ.head e) = inl (Memᴰ.head e)
mem-append_last (x ∷ xs) (Memᴰ.tail m) = elim (mem-append_last xs m) [
  | inl k ↦ inl (Memᴰ.tail k)
  | inr e ↦ inr e
]

mem-add_unique : (ms : List String) (x : String) {a : String} → Memᴰ a ms → Memᴰ a (add_unique ms x)
mem-add_unique ms x m = elim (Bool-cases (includes ms x)) [
  | inl old ↦ rw old m
  | inr new ↦ rw new (mem-append_left ms x m)
]

mem-add_unique_inv :
    (ms : List String) (x : String) {a : String} → Memᴰ a (add_unique ms x) → Memᴰ a ms ⊎ (a ≡ x)
mem-add_unique_inv ms x {a} m = elim (Bool-cases (includes ms x)) [
  | inl old ↦ inl (rw old at m)
  | inr new ↦ mem-append_last ms (rw new at m)
]

module _ (suffix method : String) (whole : List EndpointConfig) where
  -- What the loop knows when `es` is left of the endpoints.
  record Loop (es : List EndpointConfig) (allowed : List String) : Type 0 where
    within : (e : EndpointConfig) → Memᴰ e es → Memᴰ e whole
    split :
        (e : EndpointConfig)
        → Memᴰ e whole
        → Accepts suffix e
        → ((e.method ≢ method) × Memᴰ e.method allowed) ⊎ Memᴰ e es
    origin :
        (m : String)
        → Memᴰ m allowed
        → (e : EndpointConfig) × Memᴰ e whole × (e.method ≡ m) × Accepts suffix e

  Loop-skip :
      {e : EndpointConfig} {es : List EndpointConfig} {allowed : List String}
      → ¬ Accepts suffix e
      → Loop (e ∷ es) allowed
      → Loop es allowed
  Loop-skip {e} {es} {allowed} off l = record {
    within = λ x m. l.within x (Memᴰ.tail m);
    split = λ x m a. other x a (l.split x m a);
    origin = l.origin;
  }
    where
      other :
          (x : EndpointConfig)
          → Accepts suffix x
          → ((x.method ≢ method) × Memᴰ x.method allowed) ⊎ Memᴰ x (e ∷ es)
          → ((x.method ≢ method) × Memᴰ x.method allowed) ⊎ Memᴰ x es
      other x a (inl k) = inl k
      other x a (inr (Memᴰ.head p)) = absurd (off (rw p at a))
      other x a (inr (Memᴰ.tail m)) = inr m

  Loop-other :
      {e : EndpointConfig} {es : List EndpointConfig} {allowed : List String}
      → Accepts suffix e
      → e.method ≢ method
      → Loop (e ∷ es) allowed
      → Loop es (add_unique allowed e.method)
  Loop-other {e} {es} {allowed} on differs l = record {
    within = λ x m. l.within x (Memᴰ.tail m);
    split = λ x m a. other x (l.split x m a);
    origin = λ m k. back m (mem-add_unique_inv allowed e.method k);
  }
    where
      other :
          (x : EndpointConfig)
          → ((x.method ≢ method) × Memᴰ x.method allowed) ⊎ Memᴰ x (e ∷ es)
          → ((x.method ≢ method) × Memᴰ x.method (add_unique allowed e.method)) ⊎ Memᴰ x es
      other x (inl (d, k)) = inl (d, mem-add_unique allowed e.method k)
      other x (inr (Memᴰ.head p)) = inl (rw p (differs, mem-add_unique_self allowed e.method))
      other x (inr (Memᴰ.tail m)) = inr m

      back :
          (m : String)
          → Memᴰ m allowed ⊎ (m ≡ e.method)
          → (x : EndpointConfig) × Memᴰ x whole × (x.method ≡ m) × Accepts suffix x
      back m (inl k) = l.origin m k
      back m (inr p) = (e, l.within e (Memᴰ.head refl), sym p, on)

  no_match-Explains :
      (allowed : List String) → Loop [] allowed → Explains suffix method whole (no_match allowed)
  no_match-Explains [] l =
      unknown_path (λ e m a. elim (l.split e m a) [ inl (_, k) ↦ elim k [ ] | inr k ↦ elim k [ ] ])
  no_match-Explains (m ∷ ms) l =
      other_methods (λ e k a. (rest e k a).0) (λ x k. l.origin x (mem-sort text_leq (m ∷ ms) k))
        (λ e k a. sort-mem text_leq (rest e k a).1)
    where
      rest :
          (e : EndpointConfig)
          → Memᴰ e whole
          → Accepts suffix e
          → (e.method ≢ method) × Memᴰ e.method (m ∷ ms)
      rest e k a = elim (l.split e k a) [ inl done ↦ done | inr left ↦ elim left [ ] ]

  resolve_in-Explains :
      (es : List EndpointConfig) (allowed : List String)
      → Loop es allowed
      → Explains suffix method whole (resolve_in suffix method es allowed)
  unfolding resolve_in
  resolve_in-Explains [] allowed l = no_match-Explains allowed l
  resolve_in-Explains (e ∷ es) allowed l = elim (Option-cases (match_endpoint e suffix)) [
    | inl missing ↦
        rw (missing, resolve_in)
          (resolve_in-Explains es allowed (Loop-skip (match_endpoint-none e suffix missing) l))
    | inr (vs, found) ↦ elim (Bool-cases (e.method == method)) [
      | inl same ↦
          rw (found, resolve_in)
            (rw same (
              served (l.within e (Memᴰ.head refl)) ((eq_iff _ _).0 same)
                (match_endpoint_sound e suffix vs found) refl))
      | inr other ↦
          rw (found, resolve_in)
            (rw other (
              resolve_in-Explains es (add_unique allowed e.method) (
                Loop-other (vs, match_endpoint_sound e suffix vs found)
                  (ground (arith, eq_iff e.method method)) l)))
    ]
  ]

-- The suffix that `resolveEndpoint` matches: `/` in place of the empty one.
abbrev pub suffix_or_root : String → String
suffix_or_root suffix = if suffix == "" then "/" else suffix

-- Every answer of `resolveEndpoint` is explained by the proxy's endpoints. An endpoint is one of
-- them that has the method and whose path matches, with the parameters of that match. A list of
-- methods is exactly the methods of the endpoints whose path matches, and none of those has the
-- method of the request. No answer means that no endpoint's path matches.
pub resolve_endpoint-Explains :
    (proxy : ProxyConfig) (request_suffix request_method : String)
    → Explains
        (suffix_or_root request_suffix)
        (to_upper request_method)
        proxy.endpoints
        (resolve_endpoint proxy request_suffix request_method)
unfolding resolve_endpoint
resolve_endpoint-Explains proxy request_suffix request_method =
    resolve_in-Explains (suffix_or_root request_suffix) (to_upper request_method) proxy.endpoints
      proxy.endpoints []
      (record { within = λ e m. m; split = λ e m a. inr m; origin = λ m k. elim k [ ] })
