-- ===== src/Examples/Forwarding.antt =====
-- The theorem on the headers of a forwarded request, at a request that hides a header by `connection`.
use api_gateway_platform.Common.{String, ◌≡◌, refl, Option, none, some, [], ◌∷◌}
use api_gateway_platform.Common.Ascii.{to_lower}
use api_gateway_platform.Common.Maps.{lookup}
use api_gateway_platform.Common.Url.{Url}
use api_gateway_platform.Policies.Types.{single}
use api_gateway_platform.Gateway.Forwarder.{
  Headers, ForwardedRequest, upstream_headers, build_upstream_headers, connection_specific_headers,
  replace_params, build_target_url,
}
use api_gateway_platform.Gateway.Stripping.{IsStripped, build_upstream_headers-IsStripped}
use api_gateway_platform.Examples.Data.{users, get_user}

abbrev backend : Url
backend = record {
  protocol = "https:";
  username = "";
  password = "";
  host = "backend.test";
  hostname = "backend.test";
  port = "";
  pathname = "/v1/";
  search = "";
  hash = "";
  origin = "https://backend.test";
}

abbrev parse_from : Option String → String → Option Url
parse_from base text = some backend

abbrev set_pathname : String → Url → Url
set_pathname pathname target = record target { pathname = pathname }

abbrev keep_query : String → Url → Url
keep_query query target = target

abbrev text_of : Url → String
text_of target = target.pathname

abbrev forwarded : ForwardedRequest
forwarded = record {
  id = "r1";
  method = "GET";
  url = "/users/7";
  ip = "10.0.0.9";
  hostname = "api.test";
  protocol = "https";
  headers =
      ("connection", single "Close, X-Secret")
      ∷ ("x-secret", single "1")
      ∷ ("x-forwarded-for", single "10.0.0.1")
      ∷ [];
  body = none;
}

abbrev headers : Headers
headers = upstream_headers forwarded "backend.test" "users"

lookup-headers : lookup "x-forwarded-for" headers ≡ some (single "10.0.0.1, 10.0.0.9")
unfolding connection_specific_headers to_lower
lookup-headers = refl

build_target_url_run :
    build_target_url parse_from set_pathname keep_query text_of "/users/7" users get_user
      (("id", "7") ∷ [])
    ≡ some "/v1/users/7"
unfolding build_target_url replace_params
build_target_url_run = refl

-- A value is read as a replacement: `$$` stands for one sign.
replace_params_run : replace_params (("id", "a$$b") ∷ []) "/users/{id}" ≡ "/users/a$b"
unfolding replace_params
replace_params_run = refl

build_upstream_headers-IsStripped_example : IsStripped forwarded "users" headers
unfolding build_upstream_headers
build_upstream_headers-IsStripped_example =
    build_upstream_headers-IsStripped parse_from set_pathname keep_query text_of forwarded
      "https://backend.test/v1/users/7" "users" headers refl
