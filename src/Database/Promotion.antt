-- ===== src/Database/Promotion.antt =====
-- What a deployment or a retirement that succeeds leaves in the database.
use mathlib.Core.List.{Memᴰ}
use api_gateway_platform.Common.{
  ℕ, ◌≤◌, String, ◌≡◌, refl, sym, ap, ◌∙◌, ◌⊎◌, inl, inr, true, false, not, ◌&&◌, ◌||◌, Option,
  none, some, List, [], ◌∷◌, ◌++◌, any, find, filter, ◌==◌, arith, eq_iff, eq_refl, Bool-cases,
  Option-cases, any_of_mem, filter-append, length-append,
}
use api_gateway_platform.Common.Results.{ok}
use api_gateway_platform.Database.Rows.{
  Revision, Deployment, Database, DeployProxyRevisionInput, RetireProxyDeploymentInput, active,
}
use api_gateway_platform.Database.Deployments.{
  is_active, is_active_in, same_scope, conflicts, replaces, retire_id, new_deployment,
  retire_previous, write_deployment, deploy_proxy_revision, retire_proxy_deployment,
}
use api_gateway_platform.Database.Exclusive.{
  count, IsExclusive, find-eq-none, count-retire_id, count-retire_found, active-retire_id,
  deploy-Deployed,
}
use api_gateway_platform.Database.Occupancy.{add-IsExclusive}
use api_gateway_platform.Database.Promoted.{
  retire_id-inactive, retire_id-others, is_active-status, not_or,
}

module _ (proxy_id environment_id : String) (scope : Option String) (ds : List Deployment) where
  previous-count :
      (previous : Option Deployment)
      → find (replaces proxy_id environment_id scope) ds ≡ previous
      → count proxy_id environment_id scope ds ≤ 1
      → count proxy_id environment_id scope (retire_previous previous ds) ≡ 0
  previous-count none e h = find-eq-none (replaces proxy_id environment_id scope) ds e
  previous-count (some d) e h =
      omega (arith, count-retire_found proxy_id environment_id scope ds d e, h)

same_scope_refl : (scope : Option String) → same_scope scope scope ≡ true
same_scope_refl none = refl
same_scope_refl (some a) = eq_refl a

retire_id-IsExclusive :
    (id : String) (ds : List Deployment) → IsExclusive ds → IsExclusive (retire_id id ds)
retire_id-IsExclusive id ds exclusive = record {
  single = λ proxy_id environment_id scope. omega (
    arith,
    count-retire_id proxy_id environment_id scope id ds,
    exclusive.single proxy_id environment_id scope,
  );
  own_path = λ environment_id scope d e m k a b same.
      exclusive.own_path environment_id scope d e
        (active-retire_id id environment_id scope ds d m a)
        (active-retire_id id environment_id scope ds e k b) a b same;
}

count-retire_previous :
    (proxy_id environment_id : String) (scope : Option String) (previous : Option Deployment)
    (ds : List Deployment)
    → count proxy_id environment_id scope (retire_previous previous ds)
      ≤ count proxy_id environment_id scope ds
count-retire_previous proxy_id environment_id scope none ds = omega arith
count-retire_previous proxy_id environment_id scope (some d) ds =
    count-retire_id proxy_id environment_id scope d.id ds

active-retire_previous :
    (environment_id : String) (scope : Option String) (previous : Option Deployment)
    (ds : List Deployment) (d : Deployment)
    → Memᴰ d (retire_previous previous ds)
    → is_active_in environment_id scope d ≡ true
    → Memᴰ d ds
active-retire_previous environment_id scope none ds d m h = m
active-retire_previous environment_id scope (some p) ds d m h =
    active-retire_id p.id environment_id scope ds d m h

module _ (protocol : String → Option String) (strip : String → String) (fresh : Database → String)
    (now : ℕ) where
  no-conflict :
      (input : DeployProxyRevisionInput) (revision : Revision) (ds : List Deployment)
      (d : Deployment)
      → any (conflicts input revision) ds ≡ false
      → Memᴰ d ds
      → is_active_in input.environment_id input.lab_workspace_id d ≡ true
      → d.revision.base_path ≡ revision.base_path
      → d.proxy.id ≡ input.proxy_id
  no-conflict input revision ds d h m a path = elim (Bool-cases (d.proxy.id == input.proxy_id)) [
    | inl same ↦ (eq_iff _ _).0 same
    | inr other' ↦
        let l : (d.revision.base_path == revision.base_path) ≡ true =
          rw path (eq_refl revision.base_path) in
        let c : conflicts input revision d ≡ true = rw a (rw other' l) in
        let found = any_of_mem (conflicts input revision) m c in absurd (ground arith)
  ]

  -- A deployment that succeeds keeps at most one active deployment for each proxy, environment and
  -- scope, and no two proxies with an active base path in common there; the proxy deployed has
  -- exactly one.
  pub deploy_proxy_revision-IsExclusive :
      (input : DeployProxyRevisionInput) (db after : Database) (version : ℕ)
      → IsExclusive db.deployments
      → deploy_proxy_revision protocol strip fresh now input db ≡ ok (version, after)
      → IsExclusive after.deployments
        × (count input.proxy_id input.environment_id input.lab_workspace_id after.deployments ≡ 1)
  unfolding write_deployment
  deploy_proxy_revision-IsExclusive input db after version exclusive h =
      let d = deploy-Deployed protocol strip fresh now input db (version, after) h in
      let previous =
        find (replaces input.proxy_id input.environment_id input.lab_workspace_id) db.deployments in
      let old = retire_previous previous db.deployments in
      let n = new_deployment input d.proxy d.revision d.environment d.upstream (fresh db) in
      let rows : after.deployments ≡ old ++ n ∷ [] = ap (λ r. r.1.deployments) d.written in
      let p : d.proxy.id ≡ input.proxy_id = (eq_iff _ _).0 d.is_proxy in
      let e : d.environment.id ≡ input.environment_id = (eq_iff _ _).0 d.is_environment in
      let none' =
        previous-count input.proxy_id input.environment_id input.lab_workspace_id db.deployments
          previous refl
          (exclusive.single input.proxy_id input.environment_id input.lab_workspace_id) in
      let mine = replaces input.proxy_id input.environment_id input.lab_workspace_id in
      let here : mine n ≡ true =
        rw d.is_environment (rw (same_scope_refl input.lab_workspace_id) d.is_proxy) in
      let room : count n.proxy.id n.environment.id n.lab_workspace_id old ≡ 0 = rw p (rw e none') in
      (
        rw rows (
            add-IsExclusive db.deployments exclusive old n
              (λ environment_id scope x m a.
                active-retire_previous environment_id scope previous db.deployments x m a)
              (λ proxy_id environment_id scope.
                count-retire_previous proxy_id environment_id scope previous db.deployments)
              room
              (λ x m a path.
                no-conflict input d.revision db.deployments x d.no_conflict m (rw e at a) path
                ∙ sym p)),
        rw rows (
            rw (filter-append mine old (n ∷ [])) (
              rw (length-append (filter mine old) (filter mine (n ∷ [])))
                (rw here (omega (arith, none'))))),
      )

  -- A retirement that succeeds was of an active deployment, whose proxy is not the system's unless
  -- that is allowed; afterwards no row of that deployment is active, every other row is as it was,
  -- and the table is exclusive if it was.
  pub retire_proxy_deployment-IsExclusive :
      (input : RetireProxyDeploymentInput) (db after : Database) (version : ℕ)
      → IsExclusive db.deployments
      → retire_proxy_deployment protocol strip fresh now input db ≡ ok (version, after)
      → ((d : Deployment) × (find (λ d. d.id == input.deployment_id) db.deployments ≡ some d)
          × (d.status ≡ active)
          × ((d.proxy.system_managed ≡ false) ⊎ (input.allow_system_managed ≡ true)))
        × (any (λ d. d.id == input.deployment_id && is_active d) after.deployments ≡ false)
        × (filter (λ d. not (d.id == input.deployment_id)) after.deployments
            ≡ filter (λ d. not (d.id == input.deployment_id)) db.deployments)
        × IsExclusive after.deployments
  unfolding retire_proxy_deployment
  retire_proxy_deployment-IsExclusive input db after version exclusive h =
      elim (Option-cases (find (λ d. d.id == input.deployment_id) db.deployments)) [
        | inl missing ↦ absurd (ground arith)
        | inr (current, found) ↦ elim (Bool-cases (is_active current)) [
          | inr gone ↦ absurd (ground arith)
          | inl there ↦
              elim (Bool-cases (not current.proxy.system_managed || input.allow_system_managed)) [
                | inr system ↦ absurd (ground arith)
                | inl allowed ↦
                    let rows : after.deployments ≡ retire_id input.deployment_id db.deployments =
                      ground arith in
                    (
                      (
                        current,
                        found,
                        is_active-status current there,
                        not_or current.proxy.system_managed input.allow_system_managed allowed,
                      ),
                      rw rows (retire_id-inactive input.deployment_id db.deployments),
                      rw rows (retire_id-others input.deployment_id db.deployments),
                      rw rows (retire_id-IsExclusive input.deployment_id db.deployments exclusive),
                    )
              ]
        ]
      ]
