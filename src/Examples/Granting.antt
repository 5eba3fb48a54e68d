-- ===== src/Examples/Granting.antt =====
-- The theorem on developer assertions, and the service that writes them, at a sample request.
use api_gateway_platform.Common.{ℕ, ◌≡◌, refl, true, false, none, some, [], ◌∷◌, arith}
use api_gateway_platform.Common.Text.{words}
use api_gateway_platform.Common.Results.{ok, err}
use api_gateway_platform.Common.Chains.{◌>>=◌, ◌>>◌, guard, require}
use api_gateway_platform.Oauth.Assertions.{grant_refused, grant_of}
use api_gateway_platform.Management.Principals.{
  AdminPrincipal, organization_admin, can_manage_organization, is_platform_admin,
}
use api_gateway_platform.Management.Tokens.{
  DeveloperTokenRequest, DeveloperTokenSelection, DeveloperTokenDependencies, forbidden,
  check_selection, assertion_claims, issue_selected, issue_developer_token,
}
use api_gateway_platform.Management.Acceptance.{IsRequest, grant_of-assertion_claims}
use api_gateway_platform.Examples.Tokens.{dependencies}

abbrev asked : DeveloperTokenRequest
asked = record {
  environment_id = "env";
  product_ids = "p1" ∷ [];
  proxy_ids = "users" ∷ [];
  scopes = "read" ∷ "write" ∷ [];
  ttl_seconds = 600;
}

abbrev admin : AdminPrincipal
admin = record {
  issuer = "issuer";
  subject = "ann";
  memberships =
      record { id = "m"; role = organization_admin; organization_id = some "org"; active = true }
      ∷ [];
  context = none;
}

abbrev selection : DeveloperTokenSelection
selection = record {
  organization_kind = "standard";
  environment = some (record { id = "env"; stage = "qual"; public_origin = "https://api.test" });
  products =
      record {
        id = "p1";
        scopes = "read" ∷ "write" ∷ [];
        proxy_ids = "users" ∷ [];
        environment_ids = [];
      }
      ∷ [];
  active_proxies = record { id = "users"; system_managed = false } ∷ [];
}

-- The world counts the audit events.
abbrev services : DeveloperTokenDependencies ℕ
services = record {
  load_selection = λ _ _ n. (ok selection, n);
  issue = λ assertion endpoint n. (ok (assertion, 600), n);
  record_issue = λ _ _ _ _ n. (ok tt, 1);
  sign = λ secret claims. "token";
  developer_subject = λ _. "developer:1";
  token_endpoint = λ origin. some "https://api.test/oauth/token";
  now = λ n. 5000;
  random_uuid = λ n. "g";
}

issue_developer_token_run : issue_developer_token services "secret" "org" asked admin 0 ≡ (
  ok (record {
    access_token = "token";
    expires_in = 600;
    authorized_proxies = "users" ∷ [];
    scopes = "read" ∷ "write" ∷ [];
  }),
  1,
)
unfolding issue_developer_token issue_selected check_selection can_manage_organization
    is_platform_admin ◌>>=◌ ◌>>◌ guard require
issue_developer_token_run = refl

issue_developer_token_forbidden :
    issue_developer_token services "secret" "other" asked admin 0 ≡ (err forbidden, 0)
unfolding issue_developer_token can_manage_organization is_platform_admin
issue_developer_token_forbidden = refl

asked-IsRequest : IsRequest asked
asked-IsRequest = record {
  products = refl;
  named_products = refl;
  proxies = refl;
  named_proxies = refl;
  at_least = omega arith;
  at_most = omega arith;
}

grant_of-assertion_claims_example :
    (grant_refused dependencies "env"
        (assertion_claims "org" asked "developer:1" "https://api.test/oauth/token" 5 "g")
        4
      ≡ false)
    × (grant_of dependencies "env"
          (assertion_claims "org" asked "developer:1" "https://api.test/oauth/token" 5 "g")
        ≡ record {
          grant_id = "g";
          subject = "developer:1";
          organization_id = "org";
          environment_id = "env";
          product_ids = "p1" ∷ [];
          proxy_ids = "users" ∷ [];
          scopes = "read" ∷ "write" ∷ [];
          ttl_seconds = 600;
        })
unfolding words
grant_of-assertion_claims_example =
    grant_of-assertion_claims dependencies "org" asked "developer:1" "https://api.test/oauth/token"
      5 "g" 4 asked-IsRequest (omega arith)
