-- ===== src/Gateway/Forwarder.antt =====
-- packages/gateway-core/src/proxy/forwarder.ts. The parsing, the setters and the text of URLs, and the
-- request to the backend, are parameters. A body is a buffer, as the server parses it.
use Prim.Native.Char.{code}
use api_gateway_platform.Common.{
  ℕ, String, Bool, not, ◌&&◌, ◌||◌, Option, none, some, List, [], ◌∷◌, ◌++◌, map, filter, includes,
  eqb, if◌then◌else◌, ◌==◌,
}
use api_gateway_platform.Common.Ascii.{to_lower}
use api_gateway_platform.Common.Maps.{lookup, insert}
use api_gateway_platform.Common.Text.{
  without_first, without_last, append, concat, join, starts_with, slice_from, split_char, trim,
  is_blank, text_length,
}
use api_gateway_platform.Common.Url.{Url}
use api_gateway_platform.Shared.Types.{ProxyConfig, EndpointConfig}
use api_gateway_platform.Resolver.Registry.{present}
use api_gateway_platform.Policies.Types.{HeaderValue, single, several}

abbrev pub Headers : Type 0
Headers = List (String × HeaderValue)

abbrev pub Bytes : Type 0
Bytes = List ℕ

pub record ForwardedRequest : Type 0 where
  pub id : String
  pub method : String
  pub url : String
  pub ip : String
  pub hostname : String
  pub protocol : String
  pub headers : Headers
  pub body : Option Bytes

abbrev pub hop_by_hop_headers : List String
hop_by_hop_headers =
    "connection" ∷ "keep-alive" ∷ "proxy-authenticate" ∷ "proxy-authorization" ∷ "te" ∷ "trailer"
    ∷ "transfer-encoding" ∷ "upgrade" ∷ []

-- The text that stands for `$$`, `$&`, `` $` `` and `$'` in a replacement.
abbrev expand : String → String → String → String → String
expand before found after String.[] = ""
expand before found after (String.◌∷◌ c String.[]) = String.◌∷◌ c ""
expand before found after (String.◌∷◌ c (String.◌∷◌ d s)) =
    let rest = expand before found after s in
    let next = expand before found after (String.◌∷◌ d s) in
    if not (eqb (code c) b'$')
    then String.◌∷◌ c next
    else if eqb (code d) b'$'
    then append "$" rest
    else if eqb (code d) b'&'
    then append found rest
    else if eqb (code d) b'`'
    then append before rest
    else if eqb (code d) b'\''
    then append after rest
    else String.◌∷◌ c next

-- `s.replace(pattern, value)` for a text `pattern`: its first occurrence; `before` is what was passed.
abbrev replace_from : String → String → String → String → String
replace_from before pattern value String.[] = ""
replace_from before pattern value (String.◌∷◌ c s) =
    let rest = replace_from (append before (String.◌∷◌ c "")) pattern value s in
    let after = slice_from (text_length pattern) (String.◌∷◌ c s) in
    if starts_with (String.◌∷◌ c s) pattern
    then append (expand before pattern after value) after
    else String.◌∷◌ c rest

unfoldable pub replace_params : List (String × String) → String → String
replace_params [] path = path
replace_params ((key, value) ∷ params) path = replace_params params (
    replace_from "" (append ":" key) value
      (replace_from "" (concat ("{" ∷ key ∷ "}" ∷ [])) value path))

unfoldable pub has_body : String → Bool
has_body method = not (method == "GET") && not (method == "HEAD")

unfoldable pub get_upstream_body : String → Option Bytes → Option Bytes
unfolding has_body
get_upstream_body method body = if has_body method then body else none

abbrev pub listed_names : Option HeaderValue → List String
listed_names (some (single names)) = map (λ name. to_lower (trim name)) (split_char b',' names)
listed_names _ = []

unfoldable pub connection_specific_headers : Headers → List String
unfolding to_lower
connection_specific_headers headers =
    hop_by_hop_headers ++ listed_names (lookup "connection" headers)

-- The names that are not copied.
abbrev pub excluded : Headers → List String
excluded headers = connection_specific_headers headers ++ "host" ∷ "content-length" ∷ []

-- The loop over the entries of the request's headers.
abbrev pub copy_headers : List String → Headers → Headers → Headers
copy_headers names [] headers = headers
copy_headers names ((name, value) ∷ more) headers =
    copy_headers names more
      (if includes names (to_lower name) then headers else insert name value headers)

abbrev pub forwarded_for : Option HeaderValue → String → String
forwarded_for none ip = ip
forwarded_for (some (single text)) ip = if is_blank text then ip else concat (text ∷ ", " ∷ ip ∷ [])
forwarded_for (some (several texts)) ip =
    if is_blank (join ", " texts) then ip else concat (join ", " texts ∷ ", " ∷ ip ∷ [])

-- What is copied, and then what is written.
abbrev pub upstream_headers : ForwardedRequest → String → String → Headers
upstream_headers req host proxy_id = insert "x-proxy-id" (single proxy_id) (
    insert "x-correlation-id" (single req.id) (
      insert "x-request-id" (single req.id) (
        insert "x-forwarded-proto" (single req.protocol) (
          insert "x-forwarded-host" (single req.hostname) (
            insert "x-forwarded-for"
              (single (forwarded_for (lookup "x-forwarded-for" req.headers) req.ip))
              (insert "host" (single host)
                (copy_headers (excluded req.headers) req.headers [])))))))

-- The loop over the headers of the backend's answer.
unfoldable pub copy_upstream_headers : Headers → Headers → Headers
unfolding to_lower
copy_upstream_headers [] reply = reply
copy_upstream_headers ((name, value) ∷ more) reply = copy_upstream_headers more (
    if includes hop_by_hop_headers (to_lower name) || to_lower name == "content-length"
    then reply
    else insert name value reply)

pub record UpstreamResponse : Type 0 where
  pub status_code : ℕ
  pub headers : Headers
  pub body : Bytes

-- The reply: the backend's answer, or 502 with the identifier of the request.
pub data Reply : Type 0 where
  relayed : ℕ → Headers → Bytes → Reply
  bad_gateway : String → Reply

-- `parse_from` is `new URL(url, base)`; `append_params` appends the parameters of a query, `text_of` is
-- `toString`.
module _ (parse_from : Option String → String → Option Url)
    (set_pathname append_params : String → Url → Url) (text_of : Url → String) where
  unfoldable pub build_target_url :
      String → ProxyConfig → EndpointConfig → List (String × String) → Option String
  unfolding replace_params
  build_target_url request_url proxy endpoint params = elim (present endpoint.target_path) [
    | none ↦ none
    | some path ↦ elim (present proxy.upstream_base_url) [
      | none ↦ none
      | some base ↦ elim (parse_from none base) [
        | none ↦ none
        | some target ↦ elim (parse_from (some "http://gateway.local") request_url) [
          | none ↦ none
          | some incoming ↦
              let parts =
                without_last b'/' target.pathname
                ∷ without_first b'/' (replace_params params path)
                ∷ [] in
              let joined = set_pathname (join "/" (filter (λ s. not (is_blank s)) parts)) target in
              let rooted =
                if starts_with joined.pathname "/"
                then joined
                else set_pathname (append "/" joined.pathname) joined in
              some (text_of (append_params incoming.search rooted))
        ]
      ]
    ]
  ]

  unfoldable pub build_upstream_headers : ForwardedRequest → String → String → Option Headers
  unfolding connection_specific_headers
  build_upstream_headers req target_url proxy_id = elim (parse_from none target_url) [
    | none ↦ none
    | some target ↦ some (upstream_headers req target.host proxy_id)
  ]

  -- `none` of `request` is its exception; a reply that was sent in part cannot be answered again.
  module _ {W : Type 0}
      (request : String → String → Headers → Option Bytes → W → Option UpstreamResponse × W) where
    abbrev answer :
        ForwardedRequest → ProxyConfig → Headers → Option UpstreamResponse × W → Reply × W
    answer req proxy reply (none, w) = (bad_gateway req.id, w)
    answer req proxy reply (some response, w) = (
      relayed response.status_code
          (insert "x-gateway-proxy" (single proxy.id)
            (copy_upstream_headers response.headers reply))
          response.body,
      w,
    )

    -- `none` where the target cannot be built, which the caller's handler of errors answers.
    unfoldable pub forward_request :
        ForwardedRequest
        → Headers
        → ProxyConfig
        → EndpointConfig
        → List (String × String)
        → W
        → Option (Reply × W)
    unfolding build_target_url build_upstream_headers get_upstream_body copy_upstream_headers
    forward_request req reply proxy endpoint params w =
        elim (build_target_url req.url proxy endpoint params) [
          | none ↦ none
          | some target_url ↦ elim (build_upstream_headers req target_url proxy.id) [
            | none ↦ some (bad_gateway req.id, w)
            | some headers ↦ some (
                answer req proxy reply
                  (request target_url req.method headers (get_upstream_body req.method req.body) w))
          ]
        ]
