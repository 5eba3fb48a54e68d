-- ===== src/Resolver/Template.antt =====
-- packages/gateway-core/src/proxy/resolver.ts: `compileEndpointPath`, `resolveEndpoint`. The
-- regular expression that the source builds is the list of its parts: a literal character, or a
-- group `([^/]+)`; `/?$` ends it. Matching takes groups greedily and backtracks, as `match` does.
use Prim.Native.Char.{Char, code}
use Prim.Native.String.{String, [], ◌∷◌}
use mathlib.Core.List
use mathlib.Core.List.{List}
use mathlib.Core.Option
use api_gateway_platform.Common.{
  ◌≡◌, refl, Bool, true, false, ◌&&◌, ◌||◌, Option, none, some, leb, eqb, if◌then◌else◌, ◌==◌,
  includes,
}
use api_gateway_platform.Common.Text.{append, is_blank}
use api_gateway_platform.Common.Ascii.{to_upper}
use api_gateway_platform.Common.Maps.{insert}
use api_gateway_platform.Common.Sort.{sort}
use api_gateway_platform.Shared.Types.{EndpointConfig, ProxyConfig}

pub data Part : Type 0 where
  lit : Char → Part
  param : String → Part

-- `[a-zA-Z0-9_]`
abbrev is_word : Char → Bool
is_word c =
    let n = code c in
    leb b'a' n && leb n b'z' || leb b'A' n && leb n b'Z' || leb b'0' n && leb n b'9' || eqb n b'_'

-- Where the scan for `\{(word+)\}|:(word+)` is: outside, or in a name that began with `:` or `{`.
pub data Scan : Type 0 where
  outside : Scan
  after_colon after_brace : String → Scan

abbrev literals : String → List Part → List Part
literals [] rest = rest
literals (c ∷ s) rest = List.◌∷◌ (lit c) (literals s rest)

-- A character outside a name; `go` is the scan of what follows it.
abbrev scan_char : Char → (Scan → List Part) → List Part
scan_char c go =
    let brace = go (after_brace "") in
    let colon = go (after_colon "") in
    let plain = List.◌∷◌ (lit c) (go outside) in
    if eqb (code c) b'{' then brace else if eqb (code c) b':' then colon else plain

push : String → Char → String
push s c = append s (c ∷ [])

scan : String → Scan → List Part
scan [] outside = List.[]
scan [] (after_colon name) =
    if is_blank name then literals ":" List.[] else List.◌∷◌ (param name) List.[]
scan [] (after_brace name) = literals "{" (literals name List.[])
scan (c ∷ s) outside = scan_char c (scan s)
scan (c ∷ s) (after_colon name) =
    let longer = scan s (after_colon (push name c)) in
    let closed = scan_char c (scan s) in
    if is_word c
    then longer
    else if is_blank name
    then literals ":" closed
    else List.◌∷◌ (param name) closed
scan (c ∷ s) (after_brace name) =
    let longer = scan s (after_brace (push name c)) in
    let closed = List.◌∷◌ (param name) (scan s outside) in
    let broken = literals "{" (literals name (scan_char c (scan s))) in
    if is_word c
    then longer
    else if eqb (code c) b'}' && (if is_blank name then false else true)
    then closed
    else broken

unfoldable pub compile_endpoint_path : String → List Part
unfolding scan push
compile_endpoint_path path = scan path outside

abbrev pub keys : List Part → List String
keys List.[] = List.[]
keys (List.◌∷◌ (lit _) ps) = keys ps
keys (List.◌∷◌ (param k) ps) = List.◌∷◌ k (keys ps)

-- `([^/]+)` and then `rest`: the longest run of characters other than `/` that lets `rest` match.
unfoldable pub take_group : (String → Option (List String)) → String → Option (String × List String)
take_group rest [] = none
take_group rest (c ∷ s) =
    let longer = take_group rest s in
    if eqb (code c) b'/' then none else elim longer [
      | some (v, vs) ↦ some (c ∷ v, vs)
      | none ↦ elim (rest s) [ some vs ↦ some (c ∷ [], vs) | none ↦ none ]
    ]

abbrev cons_pair : String × List String → List String
cons_pair (v, vs) = List.◌∷◌ v vs

-- `suffix.match(regex)`: the groups.
unfoldable pub match_parts : List Part → String → Option (List String)
match_parts List.[] s = if s == "" || s == "/" then some List.[] else none
match_parts (List.◌∷◌ (lit c) ps) [] = none
match_parts (List.◌∷◌ (lit c) ps) (d ∷ s) = if eqb (code c) (code d) then match_parts ps s else none
match_parts (List.◌∷◌ (param k) ps) s = Option.map cons_pair (take_group (match_parts ps) s)

-- `keys.forEach((key, index) => { params[key] = match[index + 1]; })`
abbrev pub bind_params : List String → List String → List (String × String) → List (String × String)
bind_params List.[] vs m = m
bind_params (List.◌∷◌ k ks) List.[] m = m
bind_params (List.◌∷◌ k ks) (List.◌∷◌ v vs) m = bind_params ks vs (insert k v m)

pub data EndpointResolution : Type 0 where
  resolved : EndpointConfig → List (String × String) → EndpointResolution
  method_not_allowed : List String → EndpointResolution
  no_endpoint : EndpointResolution

unfoldable pub match_endpoint : EndpointConfig → String → Option (List String)
match_endpoint e suffix = match_parts (compile_endpoint_path e.path) suffix

-- `a <= b`, for sorting texts by code points.
abbrev pub text_leq : String → String → Bool
text_leq [] _ = true
text_leq (_ ∷ _) [] = false
text_leq (c ∷ s) (d ∷ t) = if eqb (code c) (code d) then text_leq s t else leb (code c) (code d)

abbrev pub add_unique : List String → String → List String
add_unique set x = if includes set x then set else List.◌++◌ set (List.◌∷◌ x List.[])

abbrev pub no_match : List String → EndpointResolution
no_match List.[] = no_endpoint
no_match (List.◌∷◌ m ms) = method_not_allowed (sort text_leq (List.◌∷◌ m ms))

-- The loop of `resolveEndpoint`.
unfoldable pub resolve_in : String → String → List EndpointConfig → List String → EndpointResolution
resolve_in suffix method List.[] allowed = no_match allowed
resolve_in suffix method (List.◌∷◌ e es) allowed = elim (match_endpoint e suffix) [
  | none ↦ resolve_in suffix method es allowed
  | some groups ↦
      if e.method == method
      then resolved e (bind_params (keys (compile_endpoint_path e.path)) groups List.[])
      else resolve_in suffix method es (add_unique allowed e.method)
]

unfoldable pub resolve_endpoint : ProxyConfig → String → String → EndpointResolution
unfolding resolve_in
resolve_endpoint proxy request_suffix request_method =
    let suffix = if request_suffix == "" then "/" else request_suffix in
    resolve_in suffix (to_upper request_method) proxy.endpoints List.[]

compile_runs :
    compile_endpoint_path "/u/:id/{x}{"
    ≡ List.◌∷◌ (lit "/") (
        List.◌∷◌ (lit "u") (
          List.◌∷◌ (lit "/") (
            List.◌∷◌
              (param "id")
              (List.◌∷◌ (lit "/") (List.◌∷◌ (param "x") (List.◌∷◌ (lit "{") List.[]))))))
unfolding compile_endpoint_path
compile_runs = refl
