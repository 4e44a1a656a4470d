-- ===== src/Terraform.antt =====
-- `generateTerraformFiles` of apps/web/app/lib/bundleGenerator.ts: main.tf, variables.tf and
-- outputs.tf of a canvas. The fields that the source declares as texts are taken to hold texts
-- where it calls a text method on them; custom blocks as in `Bundle/Manifests`.
pub mod Targets
pub mod Providers
pub mod Variables
pub mod Links
pub mod Machines
pub mod Instance
pub mod Groups
pub mod Stores
pub mod Networks
pub mod Resources
pub mod Outputs
pub mod References
pub mod Custom
pub mod Local
mod Examples
use whiparc.Prelude.{String, List, [], ◌∷◌}
use whiparc.Prelude.Text.{cat}
use whiparc.Canvas.{Node, Edge}
use Targets.{connected_targets}
use Providers.{provider_block, providers}
use Variables.{variables_tf}
use Links.{terraform_nodes}
use Resources.{Clouds, clouds, progress, store_outputs}
use References.{dynamic_outputs, dynamic_text}

-- `TerraformFiles`
pub record TerraformFiles : Type 0 where
  pub main_tf : String
  pub variables_tf : String
  pub outputs_tf : String

unfoldable pub generate_terraform_files : List Node → List Edge → TerraformFiles
unfolding cat connected_targets provider_block providers variables_tf terraform_nodes clouds
    progress store_outputs dynamic_outputs dynamic_text
generate_terraform_files nodes edges =
    let targets = connected_targets nodes in
    let on = clouds targets in
    let w = progress on nodes edges in
    record {
      main_tf = cat (
          "# Generated by Whiparc (https://whiparc.com)\n\n"
          ∷ provider_block targets
          ∷ "\n\n"
          ∷ providers targets
          ∷ "\n\n"
          ∷ w.subnet_block
          ∷ "\n\n"
          ∷ w.resources
          ∷ []);
      variables_tf = Variables.variables_tf nodes targets;
      outputs_tf = cat (
          w.outputs
          ∷ store_outputs on (terraform_nodes nodes)
          ∷ dynamic_text (dynamic_outputs nodes on.gcp)
          ∷ []);
    }
