-- ===== src/Terraform/Resources.antt =====
-- The loop over the Terraform nodes: which resources main.tf has, which subnet block, and the
-- outputs of the machines. `generateTerraformFiles` in apps/web/app/lib/bundleGenerator.ts.
pub mod Parts
pub mod Subnets
pub mod DefaultVpc
use Prim.Native.String
use Prim.Native.String.{◌++◌, count as chars}
use whiparc.Prelude.{
  ℕ, zero, suc, ◌-◌, String, Bool, true, false, ◌&&◌, ◌||◌, Option, none, some, List, [], ◌∷◌, ◌==◌,
  starts_with, if◌then◌else◌, ◌≡◌, refl,
}
use whiparc.Prelude.Text.{cat, text_if}
use whiparc.Canvas.{Node, Edge, parameters, param_or, data_field, has_tech}
use whiparc.Canvas.Json.{Fields, end, field, truthy?, or_else, shown}
use whiparc.Playbook.{text_or}
use whiparc.Playbook.Vars.{begins}
use whiparc.Terraform.Targets.{has_target}
use whiparc.Terraform.Links.{terraform_nodes}
use whiparc.Terraform.Machines.{aws_instance_output, gcp_instance_output, azure_instance_output}
use whiparc.Terraform.Instance.{place, subnet_block_after, aws_machine, gcp_machine, azure_machine}
use whiparc.Terraform.Groups.{security_group}
use whiparc.Terraform.Stores.{
  bucket, bucket_name, database, database_name, bucket_output, database_output,
}
use whiparc.Terraform.Networks.{vpc, subnet}

-- `hasAws`, `hasGcp`, `hasAzure`
pub record Clouds : Type 0 where
  pub aws : Bool
  pub gcp : Bool
  pub azure : Bool

unfoldable pub clouds : List Node → Clouds
unfolding has_target
clouds targets = record {
  aws = has_target "aws_target" targets;
  gcp = has_target "gcp_target" targets;
  azure = has_target "azure_target" targets;
}

-- `text.replace(new RegExp(pattern, 'g'), value)`, the pattern a plain text; `skip` characters
-- belong to the last match.
unfoldable pub replace_all : String → String → ℕ → String → String
unfolding begins
replace_all pattern value skip String.[] = ""
replace_all pattern value (suc skip) (String.◌∷◌ c s) = replace_all pattern value skip s
replace_all pattern value zero (String.◌∷◌ c s) = elim (begins (String.◌∷◌ c s) pattern) [
  | true ↦ value ++ replace_all pattern value (chars pattern - 1) s
  | false ↦ String.◌∷◌ c (replace_all pattern value zero s)
]

-- The loop over `Object.keys(params)`.
unfoldable pub fill_variables : Fields → String → String
unfolding replace_all cat shown
fill_variables end code = code
fill_variables (field key v fs) code =
    fill_variables fs
      (replace_all (cat ("var." ∷ key ∷ [])) (cat ("\"" ∷ shown v ∷ "\"" ∷ [])) zero code)

unfoldable pub custom_block : Node → String
unfolding cat fill_variables data_field text_or or_else
custom_block n = cat (
    "# Custom Node: "
    ∷ text_or (data_field n "label") n.id
    ∷ "\n"
    ∷ fill_variables (parameters n) (text_or (data_field n "rawCode") "")
    ∷ "\n\n"
    ∷ [])

-- The branches of the ladder over a node's id.
pub data ResourceKind : Type 0 where
  machine_kind group_kind bucket_kind database_kind vpc_kind subnet_kind custom_kind : ResourceKind
  no_kind : ResourceKind

unfoldable pub resource_kind : String → Bool → Bool → ResourceKind
resource_kind id has_aws is_custom =
    if starts_with id "aws_instance.web_server"
    then machine_kind
    else if starts_with id "aws_security_group" && has_aws
    then group_kind
    else if starts_with id "aws_s3_bucket" && has_aws
    then bucket_kind
    else if starts_with id "aws_db_instance" && has_aws
    then database_kind
    else if starts_with id "aws_vpc" && has_aws
    then vpc_kind
    else if starts_with id "aws_subnet" && has_aws
    then subnet_kind
    else if is_custom
    then custom_kind
    else no_kind

-- `data.isCustom && data.tech === 'Terraform'`
unfoldable pub is_custom_terraform : Node → Bool
unfolding data_field truthy? has_tech
is_custom_terraform n = truthy? (data_field n "isCustom") && has_tech "Terraform" n

unfoldable pub kind_of_node : Clouds → Node → ResourceKind
unfolding resource_kind is_custom_terraform
kind_of_node on n = resource_kind n.id on.aws (is_custom_terraform n)

-- `tfResourcesBlock`, `subnetBlock` and `outputsTfContent` during the loop.
pub record Progress : Type 0 where
  pub resources : String
  pub subnet_block : String
  pub outputs : String

module _ (on : Clouds) where
  -- What a machine adds to the outputs.
  unfoldable pub kind_outputs : ResourceKind → Node → String
  unfolding cat param_or aws_instance_output gcp_instance_output azure_instance_output
  kind_outputs machine_kind n = cat (
      text_if on.aws (aws_instance_output (param_or (parameters n) "instanceName" "web_server"))
      ∷ text_if on.gcp gcp_instance_output
      ∷ text_if on.azure azure_instance_output
      ∷ [])
  kind_outputs _ n = ""

  -- The second loop over the Terraform nodes: what a node adds to the outputs.
  unfoldable pub store_output : Node → String
  unfolding bucket_output database_output bucket_name database_name
  store_output n =
      if starts_with n.id "aws_s3_bucket" && on.aws
      then bucket_output (bucket_name (parameters n))
      else if starts_with n.id "aws_db_instance" && on.aws
      then database_output (database_name (parameters n))
      else ""

  unfoldable pub store_outputs : List Node → String
  unfolding store_output
  store_outputs [] = ""
  store_outputs (n ∷ ns) = store_output n ++ store_outputs ns

module _ (on : Clouds) (nodes : List Node) (edges : List Edge) where
  -- What a node adds to the resources.
  unfoldable pub kind_resources : ResourceKind → Node → String
  unfolding cat aws_machine gcp_machine azure_machine security_group bucket database vpc subnet
      custom_block
  kind_resources machine_kind n = cat (
      text_if on.aws (aws_machine nodes edges n)
      ∷ text_if on.gcp (gcp_machine (parameters n))
      ∷ text_if on.azure (azure_machine (parameters n))
      ∷ [])
  kind_resources group_kind n = security_group nodes edges n
  kind_resources bucket_kind n = bucket (parameters n)
  kind_resources database_kind n = database nodes edges n
  kind_resources vpc_kind n = vpc (parameters n)
  kind_resources subnet_kind n = subnet nodes edges n
  kind_resources custom_kind n = custom_block n
  kind_resources no_kind n = ""

  -- The subnet block after a node.
  unfoldable pub kind_block : ResourceKind → Node → String → String
  unfolding subnet_block_after place
  kind_block machine_kind n block =
      if on.aws then subnet_block_after block (place nodes edges n) else block
  kind_block _ n block = block

  -- The body of `tfNodes.forEach`.
  unfoldable pub add_resource : Node → Progress → Progress
  unfolding kind_of_node kind_resources kind_outputs kind_block
  add_resource n w = record {
    resources = w.resources ++ kind_resources (kind_of_node on n) n;
    subnet_block = kind_block (kind_of_node on n) n w.subnet_block;
    outputs = w.outputs ++ kind_outputs on (kind_of_node on n) n;
  }

  -- The loop.
  unfoldable pub add_resources : List Node → Progress → Progress
  unfolding add_resource
  add_resources [] w = w
  add_resources (n ∷ ns) w = add_resources ns (add_resource n w)

  -- The state after the loop.
  unfoldable pub progress : Progress
  unfolding add_resources terraform_nodes
  progress = add_resources (terraform_nodes nodes) (record {
    resources = "";
    subnet_block = "";
    outputs = "# Output values to retrieve after deployment\n\n";
  })
