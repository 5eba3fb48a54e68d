-- ===== src/Shared/Deployments.antt =====
-- packages/shared/src/deployments/config.ts: stages, regions and the order of promotion.
use api_gateway_platform.Common.{String, Bool, true, false, Option, none, some, List, [], ◌∷◌, any}
use api_gateway_platform.Common.Text.{join}

pub data DeploymentStage : Type 0 where
  qual pprod prod : DeploymentStage

pub data DeploymentRegion : Type 0 where
  ce es de be fr us uk jp br kr : DeploymentRegion

pub record EnvironmentConfig : Type 0 where
  pub id : String
  pub stage : DeploymentStage
  pub region : DeploymentRegion
  pub public_origin : String

abbrev pub stage_eq : DeploymentStage → DeploymentStage → Bool
stage_eq qual qual = true
stage_eq pprod pprod = true
stage_eq prod prod = true
stage_eq _ _ = false

unfoldable pub get_required_previous_stage : DeploymentStage → Option DeploymentStage
get_required_previous_stage qual = none
get_required_previous_stage pprod = some qual
get_required_previous_stage prod = some pprod

unfoldable pub can_deploy_to_stage : DeploymentStage → List DeploymentStage → Bool
unfolding get_required_previous_stage
can_deploy_to_stage stage existing_stages = elim (get_required_previous_stage stage) [
  | none ↦ true
  | some required ↦ any (stage_eq required) existing_stages
]

abbrev pub stage_name : DeploymentStage → String
stage_name qual = "qual"
stage_name pprod = "pprod"
stage_name prod = "prod"

abbrev pub region_name : DeploymentRegion → String
region_name ce = "ce"
region_name es = "es"
region_name de = "de"
region_name be = "be"
region_name fr = "fr"
region_name us = "us"
region_name uk = "uk"
region_name jp = "jp"
region_name br = "br"
region_name kr = "kr"

unfoldable pub format_environment_name : DeploymentStage → DeploymentRegion → String
format_environment_name stage region = join "-" (stage_name stage ∷ region_name region ∷ [])
