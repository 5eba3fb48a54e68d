-- ===== src/Gateway/Stripping.antt =====
-- The headers of a request that is forwarded.
use api_gateway_platform.Common.{
  String, ◌≡◌, refl, sym, ap, ◌∙◌, inl, inr, Bool, true, false, Option, none, some, List, [], ◌∷◌,
  ◌++◌, ◌||◌, map, any, includes, arith, Bool-cases, Option-cases, if◌then◌else◌, ◌==◌, eq_iff,
  eq_refl, or-eq-false, or-eq-true,
}
use api_gateway_platform.Common.Ascii.{to_lower}
use api_gateway_platform.Common.Maps.{lookup, insert, lookup-insert}
use api_gateway_platform.Common.Text.{concat, join, split_char, trim, is_blank}
use api_gateway_platform.Common.Url.{Url}
use api_gateway_platform.Policies.Types.{HeaderValue, single, several}
use api_gateway_platform.Gateway.Forwarder.{
  Headers, ForwardedRequest, hop_by_hop_headers, listed_names, connection_specific_headers,
  excluded, copy_headers, forwarded_for, build_upstream_headers, upstream_headers,
}

-- The headers that the gateway writes itself.
abbrev pub written : List String
written =
    "host" ∷ "x-forwarded-for" ∷ "x-forwarded-host" ∷ "x-forwarded-proto" ∷ "x-request-id"
    ∷ "x-correlation-id" ∷ "x-proxy-id" ∷ []

-- The headers that are about one connection, and the length of a body that is sent anew.
abbrev pub never_sent : List String
never_sent =
    "connection" ∷ "keep-alive" ∷ "proxy-authenticate" ∷ "proxy-authorization" ∷ "te" ∷ "trailer"
    ∷ "transfer-encoding" ∷ "upgrade" ∷ "content-length" ∷ []

-- Of the headers for the backend: none about the connection and none that the header `connection` of
-- the request lists, unless it is written; the address of the client alone, or after those that
-- came; the identifiers of the request and the proxy.
pub record IsStripped (req : ForwardedRequest) (proxy_id : String) (headers : Headers)
    : Type 0 where
  pub is_clean :
      (name : String)
      → includes never_sent (to_lower name) ≡ true
      → includes written name ≡ false
      → lookup name headers ≡ none
  pub unlisted :
      (name names : String)
      → lookup "connection" req.headers ≡ some (single names)
      → any (λ n. to_lower (trim n) == to_lower name) (split_char b',' names) ≡ true
      → includes written name ≡ false
      → lookup name headers ≡ none
  pub first_address :
      lookup "x-forwarded-for" req.headers ≡ none
      → lookup "x-forwarded-for" headers ≡ some (single req.ip)
  pub next_address :
      (previous : String)
      → lookup "x-forwarded-for" req.headers ≡ some (single previous)
      → lookup "x-forwarded-for" headers
        ≡ some
            (single (if is_blank previous then req.ip else concat (previous ∷ ", " ∷ req.ip ∷ [])))
  pub joined_addresses :
      (previous : List String)
      → lookup "x-forwarded-for" req.headers ≡ some (several previous)
      → is_blank (join ", " previous) ≡ false
      → lookup "x-forwarded-for" headers
        ≡ some (single (concat (join ", " previous ∷ ", " ∷ req.ip ∷ [])))
  pub request_id : lookup "x-request-id" headers ≡ some (single req.id)
  pub correlation_id : lookup "x-correlation-id" headers ≡ some (single req.id)
  pub proxy : lookup "x-proxy-id" headers ≡ some (single proxy_id)

any-append :
    {A : Type 0} (p : A → Bool) (xs ys : List A) → any p (xs ++ ys) ≡ (any p xs || any p ys)
any-append p [] ys = refl
any-append p (x ∷ xs) ys = ground (arith, any-append p xs ys)

any-map :
    {A B : Type 0} (p : B → Bool) (f : A → B) (xs : List A)
    → any p (map f xs) ≡ any (λ a. p (f a)) xs
any-map p f [] = refl
any-map p f (x ∷ xs) = rw (any-map p f xs) refl

-- What is not sent is excluded from the copy.
excluded-append :
    (headers : Headers) (x : String)
    → includes (excluded headers) x ≡ (
        (includes hop_by_hop_headers x || includes (listed_names (lookup "connection" headers)) x)
        || includes ("host" ∷ "content-length" ∷ []) x)
unfolding connection_specific_headers
excluded-append headers x =
    any-append (λ y. y == x) (connection_specific_headers headers) ("host" ∷ "content-length" ∷ [])
    ∙ ap (λ b. b || includes ("host" ∷ "content-length" ∷ []) x)
        (any-append (λ y. y == x) hop_by_hop_headers (listed_names (lookup "connection" headers)))

excluded_never :
    (headers : Headers) (x : String)
    → includes never_sent x ≡ true
    → includes (excluded headers) x ≡ true
excluded_never headers x h =
    excluded-append headers x ∙ elim (or-eq-true (includes hop_by_hop_headers x) _ split) [
      | inl hop ↦ rw hop refl
      | inr length' ↦ late _ _ (or_true ("host" == x) _ length')
    ]
  where
    split : (includes hop_by_hop_headers x || includes ("content-length" ∷ []) x) ≡ true
    split = sym (any-append (λ y. y == x) hop_by_hop_headers ("content-length" ∷ [])) ∙ h

    or_true : (a b : Bool) → b ≡ true → (a || b) ≡ true
    or_true a b k = ground arith

    late : (a b : Bool) → b ≡ true → (a || b) ≡ true
    late a b k = ground arith

excluded_listed :
    (headers : Headers) (names x : String)
    → lookup "connection" headers ≡ some (single names)
    → any (λ n. to_lower (trim n) == x) (split_char b',' names) ≡ true
    → includes (excluded headers) x ≡ true
excluded_listed headers names x e h =
    excluded-append headers x
    ∙ middle (includes hop_by_hop_headers x)
        (includes (listed_names (lookup "connection" headers)) x)
        (includes ("host" ∷ "content-length" ∷ []) x) listed
  where
    listed : includes (listed_names (lookup "connection" headers)) x ≡ true
    listed =
        ap (λ o. includes (listed_names o) x) e
        ∙ any-map (λ y. y == x) (λ name. to_lower (trim name)) (split_char b',' names)
        ∙ h

    middle : (a b c : Bool) → b ≡ true → ((a || b) || c) ≡ true
    middle a b c k = ground arith

copy_headers-clean :
    (names : List String) (entries headers : Headers) (name : String)
    → includes names (to_lower name) ≡ true
    → lookup name headers ≡ none
    → lookup name (copy_headers names entries headers) ≡ none
copy_headers-clean names [] headers name h clean = clean
copy_headers-clean names ((key, value) ∷ entries) headers name h clean =
    copy_headers-clean names entries _ name h (kept (includes names (to_lower key)) refl)
  where
    kept :
        (b : Bool)
        → includes names (to_lower key) ≡ b
        → lookup name (if b then headers else insert key value headers) ≡ none
    kept true e = clean
    kept false e = lookup-insert key name value headers ∙ elim (Bool-cases (key == name)) [
      | inl same ↦ let k = (eq_iff key name).0 same in let e' = rw k at e in cc
      | inr apart ↦ rw apart clean
    ]

-- A header that is written, and one that stays as it was.
lookup-written :
    (name : String) (value : HeaderValue) (headers : Headers)
    → lookup name (insert name value headers) ≡ some value
lookup-written name value headers = lookup-insert name name value headers ∙ rw (eq_refl name) refl

lookup-other :
    (key name : String) (value : HeaderValue) (headers : Headers)
    → (key == name) ≡ false
    → lookup name (insert key value headers) ≡ lookup name headers
lookup-other key name value headers h = lookup-insert key name value headers ∙ rw h refl

module _ (req : ForwardedRequest) (host proxy_id : String) where
  abbrev copied : Headers
  copied = copy_headers (excluded req.headers) req.headers []

  abbrev with_host : Headers
  with_host = insert "host" (single host) copied

  abbrev with_forwarded_for : Headers
  with_forwarded_for =
      insert "x-forwarded-for"
        (single (forwarded_for (lookup "x-forwarded-for" req.headers) req.ip)) with_host

  abbrev with_forwarded_host : Headers
  with_forwarded_host = insert "x-forwarded-host" (single req.hostname) with_forwarded_for

  abbrev with_forwarded_proto : Headers
  with_forwarded_proto = insert "x-forwarded-proto" (single req.protocol) with_forwarded_host

  abbrev with_request_id : Headers
  with_request_id = insert "x-request-id" (single req.id) with_forwarded_proto

  abbrev with_correlation_id : Headers
  with_correlation_id = insert "x-correlation-id" (single req.id) with_request_id

  abbrev with_proxy_id : Headers
  with_proxy_id = insert "x-proxy-id" (single proxy_id) with_correlation_id

  written_last :
      (name : String)
      → includes (excluded req.headers) (to_lower name) ≡ true
      → includes written name ≡ false
      → lookup name (upstream_headers req host proxy_id) ≡ none
  written_last name h other =
      let (a, r) = or-eq-false _ _ other in
      let (b, r) = or-eq-false _ _ r in
      let (c, r) = or-eq-false _ _ r in
      let (d, r) = or-eq-false _ _ r in
      let (e, r) = or-eq-false _ _ r in
      let (f, r) = or-eq-false _ _ r in
      let (g, _) = or-eq-false _ _ r in
      lookup-other "x-proxy-id" name (single proxy_id) with_correlation_id g
      ∙ lookup-other "x-correlation-id" name (single req.id) with_request_id f
      ∙ lookup-other "x-request-id" name (single req.id) with_forwarded_proto e
      ∙ lookup-other "x-forwarded-proto" name (single req.protocol) with_forwarded_host d
      ∙ lookup-other "x-forwarded-host" name (single req.hostname) with_forwarded_for c
      ∙ lookup-other "x-forwarded-for" name
          (single (forwarded_for (lookup "x-forwarded-for" req.headers) req.ip)) with_host b
      ∙ lookup-other "host" name (single host) copied a
      ∙ copy_headers-clean (excluded req.headers) req.headers [] name h refl

  address :
      lookup "x-forwarded-for" (upstream_headers req host proxy_id)
      ≡ some (single (forwarded_for (lookup "x-forwarded-for" req.headers) req.ip))
  address =
      lookup-other "x-proxy-id" "x-forwarded-for" (single proxy_id) with_correlation_id refl
      ∙ lookup-other "x-correlation-id" "x-forwarded-for" (single req.id) with_request_id refl
      ∙ lookup-other "x-request-id" "x-forwarded-for" (single req.id) with_forwarded_proto refl
      ∙ lookup-other "x-forwarded-proto" "x-forwarded-for" (single req.protocol) with_forwarded_host
          refl
      ∙ lookup-other "x-forwarded-host" "x-forwarded-for" (single req.hostname) with_forwarded_for
          refl
      ∙ lookup-written "x-forwarded-for"
          (single (forwarded_for (lookup "x-forwarded-for" req.headers) req.ip)) with_host

  upstream_headers-IsStripped : IsStripped req proxy_id (upstream_headers req host proxy_id)
  upstream_headers-IsStripped = record {
    is_clean =
        λ name h other. written_last name (excluded_never req.headers (to_lower name) h) other;
    unlisted = λ name names e h other.
        written_last name (excluded_listed req.headers names (to_lower name) e h) other;
    first_address = λ e. address ∙ ap (λ o. some (single (forwarded_for o req.ip))) e;
    next_address = λ previous e. address ∙ ap (λ o. some (single (forwarded_for o req.ip))) e;
    joined_addresses = λ previous e blank.
        address ∙ ap (λ o. some (single (forwarded_for o req.ip))) e ∙ rw blank refl;
    request_id =
        lookup-other "x-proxy-id" "x-request-id" (single proxy_id) with_correlation_id refl
        ∙ lookup-other "x-correlation-id" "x-request-id" (single req.id) with_request_id refl
        ∙ lookup-written "x-request-id" (single req.id) with_forwarded_proto;
    correlation_id =
        lookup-other "x-proxy-id" "x-correlation-id" (single proxy_id) with_correlation_id refl
        ∙ lookup-written "x-correlation-id" (single req.id) with_request_id;
    proxy = lookup-written "x-proxy-id" (single proxy_id) with_correlation_id;
  }

module _ (parse_from : Option String → String → Option Url)
    (set_pathname append_params : String → Url → Url) (text_of : Url → String) where
  -- The headers that are sent to a backend hold none that is about the connection (`connection`,
  -- `keep-alive`, the two of proxy authentication, `te`, `trailer`, `transfer-encoding`, `upgrade`),
  -- no `content-length`, and none whose name the text of the request's header `connection` lists
  -- between commas, trimmed and in any case, but for those that the gateway writes itself. Of these,
  -- `x-forwarded-for` is the client's address, after the addresses that came where there were some,
  -- and the others checked are the identifiers of the request and of the proxy.
  pub build_upstream_headers-IsStripped :
      (req : ForwardedRequest) (target_url proxy_id : String) (headers : Headers)
      → build_upstream_headers parse_from set_pathname append_params text_of req target_url proxy_id
        ≡ some headers
      → IsStripped req proxy_id headers
  unfolding build_upstream_headers
  build_upstream_headers-IsStripped req target_url proxy_id headers h =
      elim (Option-cases (parse_from none target_url)) [
        | inl bad ↦ absurd (ground arith)
        | inr (target, e) ↦
            let made = rw (e, build_upstream_headers) at h in
            let same : upstream_headers req target.host proxy_id ≡ headers =
              ap (λ o. elim o [ none ↦ headers | some x ↦ x ]) made in
            rw (sym same) (upstream_headers-IsStripped req target.host proxy_id)
      ]
