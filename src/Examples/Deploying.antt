-- ===== src/Examples/Deploying.antt =====
-- The theorems on deployments at a sample database.
use mathlib.Core.List.{Memᴰ}
use api_gateway_platform.Common.{
  ◌≤◌, String, ◌≡◌, refl, sym, ap, ◌∙◌, ◌⊎◌, inl, inr, Bool-cases, true, false, not, ◌&&◌, ◌==◌,
  find, filter, any, List, Option, none, some, [], ◌∷◌, arith,
}
use api_gateway_platform.Shared.Deployments.{qual, pprod, ce}
use api_gateway_platform.Shared.Types.{forward}
use api_gateway_platform.Database.Changes.{record_gateway_config_change}
use api_gateway_platform.Database.Rows.{
  Proxy, Revision, Environment, Deployment, Database, DeployProxyRevisionInput,
  RetireProxyDeploymentInput, active, retired,
}
use api_gateway_platform.Database.Deployments.{
  normalize_upstream, check_workspace, required_stage, previous_stage, check_promotion, is_active,
  replaces, write_deployment, deploy_to, deploy_proxy_revision, retire_proxy_deployment,
}
use api_gateway_platform.Database.Exclusive.{count, IsExclusive}
use api_gateway_platform.Database.Promotion.{
  deploy_proxy_revision-IsExclusive, retire_proxy_deployment-IsExclusive,
}

abbrev proxy : Proxy
proxy = record { id = "users"; organization_id = "org"; system_managed = false }

abbrev revision : Revision
revision = record {
  id = "r1";
  proxy_id = "users";
  revision_number = 1;
  base_path = "/users";
  operations = forward ∷ [];
}

abbrev test : Environment
test = record { id = "qual-ce"; stage = qual; region = ce }

abbrev staging : Environment
staging = record { id = "pprod-ce"; stage = pprod; region = ce }

abbrev first : Deployment
first = record {
  id = "d1";
  proxy = proxy;
  revision = revision;
  environment = test;
  lab_workspace_id = none;
  upstream_base_url = some "http://backend";
  status = active;
}

abbrev database : Database
database = record {
  proxies = proxy ∷ [];
  revisions = revision ∷ [];
  environments = test ∷ staging ∷ [];
  workspaces = [];
  deployments = first ∷ [];
  audit = [];
  log = record { changes = []; serial = 4 };
}

abbrev input : DeployProxyRevisionInput
input = record {
  proxy_id = "users";
  revision_number = 1;
  environment_id = "pprod-ce";
  upstream_base_url = some "http://backend";
  lab_workspace_id = none;
  actor = "admin";
  allow_system_managed = false;
}

abbrev retirement : RetireProxyDeploymentInput
retirement = record { deployment_id = "d1"; actor = "admin"; allow_system_managed = false }

abbrev protocol : String → Option String
protocol _ = some "http:"

abbrev strip : String → String
strip s = s

abbrev fresh : Database → String
fresh _ = "d2"

first-IsExclusive : IsExclusive (first ∷ [])
first-IsExclusive = record {
  single = λ proxy_id environment_id scope. at_most_one proxy_id environment_id scope;
  own_path = λ environment_id scope d e m k a b same. both m k;
}
  where
    at_most_one :
        (proxy_id environment_id : String) (scope : Option String)
        → count proxy_id environment_id scope (first ∷ []) ≤ 1
    at_most_one proxy_id environment_id scope =
        elim (Bool-cases (replaces proxy_id environment_id scope first)) [
          | inl k ↦ rw k (omega arith)
          | inr k ↦ rw k (omega arith)
        ]

    both : {d e : Deployment} → Memᴰ d (first ∷ []) → Memᴰ e (first ∷ []) → d.proxy.id ≡ e.proxy.id
    both (Memᴰ.head p) (Memᴰ.head q) = ap (λ x. x.proxy.id) p ∙ sym (ap (λ x. x.proxy.id) q)
    both (Memᴰ.tail m) k = elim m [ ]
    both m (Memᴰ.tail k) = elim k [ ]

abbrev after_deploy : Database
after_deploy =
    (write_deployment protocol strip fresh 0 input proxy revision staging (some "http://backend")
      database).1

deploy_proxy_revision-IsExclusive_example :
    IsExclusive after_deploy.deployments
    × (count "users" "pprod-ce" none after_deploy.deployments ≡ 1)
unfolding deploy_proxy_revision deploy_to normalize_upstream check_workspace check_promotion
    required_stage previous_stage record_gateway_config_change
deploy_proxy_revision-IsExclusive_example =
    deploy_proxy_revision-IsExclusive protocol strip fresh 0 input database after_deploy 5
      first-IsExclusive refl

abbrev after_retirement : List Deployment
after_retirement = record first { status = retired } ∷ []

retire_proxy_deployment-IsExclusive_example :
    ((d : Deployment) × (find (λ d. d.id == "d1") (first ∷ []) ≡ some d)
      × (d.status ≡ active)
      × ((d.proxy.system_managed ≡ false) ⊎ (false ≡ true)))
    × (any (λ d. d.id == "d1" && is_active d) after_retirement ≡ false)
    × (filter (λ d. not (d.id == "d1")) after_retirement
        ≡ filter (λ d. not (d.id == "d1")) (first ∷ []))
    × IsExclusive after_retirement
unfolding retire_proxy_deployment record_gateway_config_change
retire_proxy_deployment-IsExclusive_example =
    retire_proxy_deployment-IsExclusive protocol strip fresh 0 retirement database _ 5
      first-IsExclusive refl
