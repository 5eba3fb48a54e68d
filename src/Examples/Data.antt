-- ===== src/Examples/Data.antt =====
-- Sample proxies, credentials, requests and a store.
use api_gateway_platform.Common.{String, true, false, none, some, List, [], ◌∷◌}
use api_gateway_platform.Common.Url.{Url, UrlParser}
use api_gateway_platform.Shared.Deployments.{EnvironmentConfig, qual, ce}
use api_gateway_platform.Shared.Policies.{
  PolicyConfig, BasePolicyConfig, api_key_auth, cors, fail_closed,
}
use api_gateway_platform.Shared.Types.{EndpointConfig, ProxyConfig, forward, local}
use api_gateway_platform.Auth.Authorization.{Product, ProductGrant, CredentialRecord}
use api_gateway_platform.Policies.Types.{Request, PolicyContext, HeaderValue}
use api_gateway_platform.Resolver.Registry.{Registry}

abbrev pub environment : EnvironmentConfig
environment = record { id = "env"; stage = qual; region = ce; public_origin = "https://api.test" }

abbrev pub get_user : EndpointConfig
get_user = record {
  id = "get-user";
  operation_id = "getUser";
  method = "GET";
  mode = forward;
  path = "/:id";
  target_path = some "/users/{id}";
  policies = [];
}

abbrev pub token : EndpointConfig
token = record {
  id = "token";
  operation_id = "token";
  method = "POST";
  mode = local;
  path = "/token";
  target_path = none;
  policies = [];
}

abbrev pub users : ProxyConfig
users = record {
  id = "users";
  name = "Users";
  base_path = "/users";
  deployment_id = "d1";
  revision_id = "r1";
  revision_number = 1;
  environment = environment;
  workspace_id = none;
  runtime_authority = some "api.test";
  runtime_public_origin = none;
  system_managed = false;
  upstream_base_url = some "http://backend";
  endpoints = get_user ∷ [];
  organization_id = "org";
  active = true;
}

abbrev pub loaded : Registry
loaded = record {
  by_key = ("environment:env", ("/users", users) ∷ []) ∷ [];
  runtimes_by_authority = [];
  initialized = true;
}

-- A parser that knows one address.
abbrev pub api_url : Url
api_url = record {
  protocol = "https:";
  username = "";
  password = "";
  host = "api.test";
  hostname = "api.test";
  port = "";
  pathname = "/";
  search = "";
  hash = "";
  origin = "https://api.test";
}

abbrev pub parse_api : UrlParser
parse_api _ = some api_url

abbrev pub product : Product
product = record {
  id = "p1";
  organization_id = "org";
  active = true;
  scopes = "read" ∷ [];
  proxies = "users" ∷ [];
  environments = "env" ∷ [];
}

abbrev pub grant : ProductGrant
grant = record { status = "approved"; scopes = "read" ∷ []; product = product }

abbrev pub credential : CredentialRecord
credential = record {
  id = "c1";
  app_id = "a1";
  consumer_key = "key";
  consumer_secret_hash = "hash";
  status = "approved";
  issued_at = 0;
  expires_at = none;
  app = record { status = "approved"; organization_id = "org"; organization = none };
  product_grants = grant ∷ [];
}

abbrev pub request : List (String × HeaderValue) → String → Request
request headers body = record {
  id = "req";
  method = "GET";
  url = "/users/7";
  ip = "10.0.0.1";
  remote_address = some "10.0.0.2";
  headers = headers;
  body = body;
}

abbrev pub context : List (String × HeaderValue) → PolicyContext
context headers = record {
  req = request headers "";
  reply_headers = [];
  proxy = users;
  endpoint = get_user;
  params = [];
  client = none;
  state = [];
}

abbrev pub plain : BasePolicyConfig
plain = record { failure_mode = fail_closed; fields = "" }

abbrev pub cors_policy : PolicyConfig
cors_policy = record { type = cors; order = 1; enabled = true; config = plain }

abbrev pub off_policy : PolicyConfig
off_policy = record { type = api_key_auth; order = 2; enabled = false; config = plain }
