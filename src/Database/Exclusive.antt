-- ===== src/Database/Exclusive.antt =====
-- Deploying keeps one active deployment per proxy, environment and scope, and one proxy per active
-- base path.
use mathlib.Core.List.{Memᴰ}
use api_gateway_platform.Common.{
  ℕ, ◌+◌, ◌≤◌, String, ◌≡◌, refl, inl, inr, Bool, true, false, not, ◌&&◌, ◌||◌, Option, none, some,
  List, [], ◌∷◌, any, find, find-eq-some, filter, length, eqb, if◌then◌else◌, ◌==◌, arith, eq_refl,
  Bool-cases, Option-cases, mem-map_inv, is_some,
}
use api_gateway_platform.Common.Results.{ok, Result-cases}
use api_gateway_platform.Resolver.Registry.{present}
use api_gateway_platform.Shared.Deployments.{DeploymentStage}
use api_gateway_platform.Database.Rows.{
  Proxy, Revision, Environment, Deployment, Database, DeployProxyRevisionInput,
}
use api_gateway_platform.Database.Deployments.{
  deploy_to, is_forward, normalize_upstream, check_workspace, check_promotion, required_stage,
  promotes, is_active_in, conflicts, replaces, retire, retire_id, write_deployment,
  deploy_proxy_revision,
}

-- How many active deployments a proxy has in an environment and scope.
abbrev pub count : String → String → Option String → List Deployment → ℕ
count proxy_id environment_id scope ds = length (filter (replaces proxy_id environment_id scope) ds)

pub record IsExclusive (ds : List Deployment) : Type 0 where
  pub single :
      (proxy_id environment_id : String) (scope : Option String)
      → count proxy_id environment_id scope ds ≤ 1
  pub own_path :
      (environment_id : String) (scope : Option String) (d e : Deployment)
      → Memᴰ d ds
      → Memᴰ e ds
      → is_active_in environment_id scope d ≡ true
      → is_active_in environment_id scope e ≡ true
      → d.revision.base_path ≡ e.revision.base_path
      → d.proxy.id ≡ e.proxy.id

pub find-eq-none :
    {A : Type 0} (p : A → Bool) (xs : List A) → find p xs ≡ none → length (filter p xs) ≡ 0
find-eq-none p [] h = refl
find-eq-none p (x ∷ xs) h = elim (Bool-cases (p x)) [
  | inl k ↦ absurd (ground arith)
  | inr k ↦ rw k (find-eq-none p xs (rw k at h))
]

module _ (proxy_id environment_id : String) (scope : Option String) where
  pub count-retire_id :
      (id : String) (ds : List Deployment)
      → count proxy_id environment_id scope (retire_id id ds)
        ≤ count proxy_id environment_id scope ds
  count-retire_id id [] = omega arith
  count-retire_id id (d ∷ ds) =
      let ih = count-retire_id id ds in
      elim (Bool-cases (d.id == id)) [
        | inl k ↦ rw k (elim (Bool-cases (replaces proxy_id environment_id scope d)) [
          | inl l ↦ rw l (omega (arith, ih))
          | inr l ↦ rw l ih
        ])
        | inr k ↦ rw k (elim (Bool-cases (replaces proxy_id environment_id scope d)) [
          | inl l ↦ rw l (omega (arith, ih))
          | inr l ↦ rw l ih
        ])
      ]

  pub count-retire_found :
      (ds : List Deployment) (d : Deployment)
      → find (replaces proxy_id environment_id scope) ds ≡ some d
      → count proxy_id environment_id scope (retire_id d.id ds) + 1
        ≤ count proxy_id environment_id scope ds
  count-retire_found [] d h = cc
  count-retire_found (e ∷ ds) d h = elim (Bool-cases (replaces proxy_id environment_id scope e)) [
    | inl k ↦
        let same : e ≡ d = ground arith in
        let ih = count-retire_id d.id ds in
        let l : (e.id == d.id) ≡ true = rw same (eq_refl d.id) in rw l (rw k (omega (arith, ih)))
    | inr k ↦
        let ih = count-retire_found ds d (rw k at h) in
        elim (Bool-cases (e.id == d.id)) [ inl l ↦ rw l (rw k ih) | inr l ↦ rw l (rw k ih) ]
  ]

pub active-retire_id :
    (id environment_id : String) (scope : Option String) (ds : List Deployment) (d : Deployment)
    → Memᴰ d (retire_id id ds)
    → is_active_in environment_id scope d ≡ true
    → Memᴰ d ds
active-retire_id id environment_id scope ds d m h =
    let (a, k, e) = mem-map_inv (λ x. if x.id == id then retire x else x) ds m in
    elim (Bool-cases (a.id == id)) [
      | inl l ↦ absurd (let f : d ≡ retire a = rw l at e in let g = rw f at h in ground arith)
      | inr l ↦ let f : d ≡ a = rw l at e in rw f k
    ]

module _ (protocol : String → Option String) (strip : String → String) (fresh : Database → String)
    (now : ℕ) where
  -- The rows that a deployment was made from.
  pub record Deployed (input : DeployProxyRevisionInput) (db : Database) (result : ℕ × Database)
      : Type 0 where
    pub proxy : Proxy
    pub revision : Revision
    pub environment : Environment
    pub upstream : Option String
    pub is_proxy : (proxy.id == input.proxy_id) ≡ true
    pub is_environment : (environment.id == input.environment_id) ≡ true
    pub found_revision :
        find
          (λ r. r.proxy_id == input.proxy_id && eqb r.revision_number input.revision_number)
          db.revisions
        ≡ some revision
    pub found_environment :
        find (λ e. e.id == input.environment_id) db.environments ≡ some environment
    pub no_conflict : any (conflicts input revision) db.deployments ≡ false
    pub promoted :
        (stage : DeploymentStage)
        → required_stage protocol strip fresh now input environment ≡ some stage
        → any (promotes revision stage environment.region) db.deployments ≡ true
    pub written :
        result
        ≡ write_deployment protocol strip fresh now input proxy revision environment upstream db

  deploy_to-free :
      (input : DeployProxyRevisionInput) (upstream : Option String) (proxy : Proxy)
      (revision : Revision) (environment : Environment) (db : Database) (result : ℕ × Database)
      → deploy_to protocol strip fresh now input upstream proxy revision environment db ≡ ok result
      → (any (conflicts input revision) db.deployments ≡ false)
        × ((stage : DeploymentStage)
            → required_stage protocol strip fresh now input environment ≡ some stage
            → any (promotes revision stage environment.region) db.deployments ≡ true)
        × (result
            ≡ write_deployment protocol strip fresh now input proxy revision environment upstream
                db)
  unfolding deploy_to check_promotion
  deploy_to-free input upstream proxy revision environment db result h =
      elim (Result-cases (check_workspace protocol strip fresh now input proxy environment db)) [
        | inr (_, a) ↦ absurd (ground arith)
        | inl (_, a) ↦
            elim (Bool-cases
              (not (any is_forward revision.operations) || is_some (present upstream))) [
                | inr b ↦ absurd (ground arith)
                | inl b ↦
                    elim (Result-cases
                      (check_promotion protocol strip fresh now input revision environment db)) [
                        | inr (_, c) ↦ absurd (ground arith)
                        | inl (_, c) ↦
                            elim (Bool-cases (any (conflicts input revision) db.deployments)) [
                              | inl d ↦ absurd (ground arith)
                              | inr d ↦ (
                                d,
                                (λ stage s.
                                    elim (Bool-cases (
                                      any (promotes revision stage environment.region)
                                        db.deployments)) [
                                          | inl yes' ↦ yes'
                                          | inr no' ↦ absurd (ground arith)
                                        ]),
                                ground arith,
                              )
                            ]
                      ]
              ]
      ]

  pub deploy-Deployed :
      (input : DeployProxyRevisionInput) (db : Database) (result : ℕ × Database)
      → deploy_proxy_revision protocol strip fresh now input db ≡ ok result
      → Deployed input db result
  unfolding deploy_proxy_revision
  deploy-Deployed input db result h =
      elim (Result-cases (normalize_upstream protocol strip fresh now input.upstream_base_url)) [
        | inr (_, bad) ↦ absurd (ground arith)
        | inl (upstream, u) ↦ elim (Option-cases (find (λ p. p.id == input.proxy_id) db.proxies)) [
          | inl missing ↦ absurd (ground arith)
          | inr (proxy, p) ↦
              elim (Bool-cases (not proxy.system_managed || input.allow_system_managed)) [
                | inr system ↦ absurd (ground arith)
                | inl allowed ↦
                    elim (Option-cases (
                      find
                        (λ r.
                          r.proxy_id == input.proxy_id
                          && eqb r.revision_number input.revision_number)
                        db.revisions)) [
                          | inl missing ↦ absurd (ground arith)
                          | inr (revision, r) ↦
                              elim (Option-cases
                                (find (λ e. e.id == input.environment_id) db.environments)) [
                                  | inl missing ↦ absurd (ground arith)
                                  | inr (environment, e) ↦
                                      let k : deploy_to protocol strip fresh now input upstream
                                            proxy revision environment db
                                          ≡ ok result =
                                        ground arith in
                                      let (free, promoted, written) =
                                        deploy_to-free input upstream proxy revision environment db
                                          result k in
                                      record {
                                        proxy = proxy;
                                        revision = revision;
                                        environment = environment;
                                        upstream = upstream;
                                        is_proxy =
                                            find-eq-some (λ p. p.id == input.proxy_id) db.proxies p;
                                        is_environment =
                                            find-eq-some (λ e. e.id == input.environment_id)
                                              db.environments e;
                                        found_revision = r;
                                        found_environment = e;
                                        no_conflict = free;
                                        promoted = promoted;
                                        written = written;
                                      }
                                ]
                        ]
              ]
        ]
      ]
