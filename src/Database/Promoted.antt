-- ===== src/Database/Promoted.antt =====
-- What one retirement changes in the table, and what makes a deployment promote a revision.
use api_gateway_platform.Common.{
  String, ◌≡◌, refl, ap, ◌⊎◌, inl, inr, Bool, true, false, not, ◌&&◌, is_some, and-eq-true, ◌||◌,
  Option, none, some, List, [], ◌∷◌, any, filter, ◌==◌, eq_iff, Bool-cases,
}
use api_gateway_platform.Shared.Deployments.{
  DeploymentStage, DeploymentRegion, qual, pprod, prod, stage_eq, region_name,
}
use api_gateway_platform.Database.Rows.{
  Revision, Deployment, DeploymentStatus, active, retired, other_status,
}
use api_gateway_platform.Database.Deployments.{is_active, promotes, retire_id}

-- Retiring by an identifier leaves no active row with it, and the rows of the others.
pub retire_id-inactive :
    (id : String) (ds : List Deployment)
    → any (λ d. d.id == id && is_active d) (retire_id id ds) ≡ false
retire_id-inactive id [] = refl
retire_id-inactive id (d ∷ ds) =
    let rest = retire_id-inactive id ds in
    elim (Bool-cases (d.id == id)) [
      | inl mine ↦ rw mine (rw mine rest)
      | inr other' ↦ rw other' (rw other' rest)
    ]

pub retire_id-others :
    (id : String) (ds : List Deployment)
    → filter (λ d. not (d.id == id)) (retire_id id ds) ≡ filter (λ d. not (d.id == id)) ds
retire_id-others id [] = refl
retire_id-others id (d ∷ ds) =
    let rest = retire_id-others id ds in
    elim (Bool-cases (d.id == id)) [
      | inl mine ↦ rw mine (rw mine rest)
      | inr other' ↦ rw other' (rw other' (ap (λ l. d ∷ l) rest))
    ]

pub is_active-status : (d : Deployment) → is_active d ≡ true → d.status ≡ active
is_active-status d h = known d.status h
  where
    known :
        (s : DeploymentStatus)
        → elim s [ active ↦ true | retired ↦ false | other_status ↦ false ] ≡ true
        → s ≡ active
    known active h = refl
    known retired h = cc
    known other_status h = cc

pub not_or : (a b : Bool) → (not a || b) ≡ true → (a ≡ false) ⊎ (b ≡ true)
not_or false b h = inl refl
not_or true b h = inr h

-- The deployment is one of the revision to the stage in the region, not in a lab, and it is active
-- or was retired.
pub record WasPromoted (revision : Revision) (stage : DeploymentStage) (region : DeploymentRegion)
    (d : Deployment) : Type 0 where
  pub same_revision : d.revision.id ≡ revision.id
  pub standard : d.lab_workspace_id ≡ none
  pub to_stage : d.environment.stage ≡ stage
  pub in_region : region_name d.environment.region ≡ region_name region
  pub made : (d.status ≡ active) ⊎ (d.status ≡ retired)

stage_eq-eq : (a b : DeploymentStage) → stage_eq a b ≡ true → a ≡ b
stage_eq-eq qual qual h = refl
stage_eq-eq pprod pprod h = refl
stage_eq-eq prod prod h = refl
stage_eq-eq qual pprod h = cc
stage_eq-eq qual prod h = cc
stage_eq-eq pprod qual h = cc
stage_eq-eq pprod prod h = cc
stage_eq-eq prod qual h = cc
stage_eq-eq prod pprod h = cc

pub promotes-WasPromoted :
    (revision : Revision) (stage : DeploymentStage) (region : DeploymentRegion) (d : Deployment)
    → promotes revision stage region d ≡ true
    → WasPromoted revision stage region d
promotes-WasPromoted revision stage region d h =
    let (h, made) = and-eq-true _ _ h in
    let (h, there) = and-eq-true _ _ h in
    let (h, staged) = and-eq-true _ _ h in
    let (same, standard) = and-eq-true _ _ h in
    record {
      same_revision = (eq_iff _ _).0 same;
      standard = nothing d.lab_workspace_id standard;
      to_stage = stage_eq-eq _ _ staged;
      in_region = (eq_iff _ _).0 there;
      made = by_status d.status made;
    }
  where
    nothing : (o : Option String) → not (is_some o) ≡ true → o ≡ none
    nothing none h = refl
    nothing (some _) h = cc

    by_status :
        (s : DeploymentStatus)
        → elim s [ active ↦ true | retired ↦ true | other_status ↦ false ] ≡ true
        → (s ≡ active) ⊎ (s ≡ retired)
    by_status active h = inl refl
    by_status retired h = inr refl
    by_status other_status h = cc
