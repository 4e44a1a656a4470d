-- ===== src/Terraform/Variables.antt =====
-- The file variables.tf in apps/web/app/lib/bundleGenerator.ts.
use mathlib.Core.List.{List, [], ◌∷◌}
use Prim.Native.String.{String}
use whiparc.Prelude.Text.{cat}
use whiparc.Prelude.{find_first, starts_with}
use whiparc.Prelude.Text.{text_if}
use whiparc.Canvas.{Node, params_of, param_or, data_or}
use whiparc.Terraform.Targets.{has_target, find_target}

-- `dummySshKey`
abbrev dummy_ssh_key : String
unfolding cat
dummy_ssh_key = cat (
    "ssh-rsa AAAAB3NzaC1yc2EAAAADAQABAAAAgQC2R1m2hJc6eC+7737t8t8O1/Y2N5hDkK1aP4+rD2mZ"
    ∷ "6bJ9mF7C8F9eD0rC2m8B9eD0rC2m8B9eD0rC2m8B9eD0rC2m8B9eD0rC2m8B9eD0rC2m8B9eD0rC2m8B"
    ∷ "9eD0rC2m8B9eD0rC2m8B9eD0rC2m8B9eD0rC2m8B9eD0rC2m8B9eD0rC2m8B9eD0rC2m8B9eD0rC2m8B"
    ∷ "9eD0rC2m8B9eD0rC2m8B9eD0rC2m8B9eD0rC2m8B9eD0rC2m8B9eD0rC2m8B9eD0rC2m8B9eD0rC2= d"
    ∷ "ummy-whiparc-key" ∷ [])

unfoldable pub aws_variables : (region type : String) → String
unfolding cat
aws_variables region type = cat (
    "variable \"aws_region\" {\n" ∷ "  type        = string\n" ∷ "  default     = \"" ∷ region
    ∷ "\"\n" ∷ "  description = \"Target AWS region for deployment\"\n" ∷ "}\n" ∷ "\n"
    ∷ "variable \"instance_type\" {\n" ∷ "  type        = string\n" ∷ "  default     = \"" ∷ type
    ∷ "\"\n" ∷ "  description = \"EC2 instance size\"\n" ∷ "}\n" ∷ "\n"
    ∷ "variable \"aws_ssh_pub_key\" {\n" ∷ "  type    = string\n" ∷ "  default = \"" ∷ dummy_ssh_key
    ∷ "\"\n" ∷ "}\n" ∷ "\n" ∷ [])

unfoldable pub gcp_variables : (project region zone : String) → String
unfolding cat
gcp_variables project region zone = cat (
    "variable \"gcp_project_id\" {\n" ∷ "  type    = string\n" ∷ "  default = \"" ∷ project ∷ "\"\n"
    ∷ "}\n" ∷ "\n" ∷ "variable \"gcp_region\" {\n" ∷ "  type    = string\n" ∷ "  default = \""
    ∷ region ∷ "\"\n" ∷ "}\n" ∷ "\n" ∷ "variable \"gcp_zone\" {\n" ∷ "  type    = string\n"
    ∷ "  default = \"" ∷ zone ∷ "\"\n" ∷ "}\n" ∷ "\n" ∷ "variable \"gcp_ssh_pub_key\" {\n"
    ∷ "  type    = string\n" ∷ "  default = \"" ∷ dummy_ssh_key ∷ "\"\n" ∷ "}\n" ∷ "\n" ∷ [])

unfoldable pub azure_variables : String
unfolding cat
azure_variables = cat (
    "variable \"azure_ssh_pub_key\" {\n" ∷ "  type    = string\n" ∷ "  default = \"" ∷ dummy_ssh_key
    ∷ "\"\n" ∷ "}\n" ∷ "\n" ∷ [])

-- `awsInstanceType`
unfoldable pub aws_instance_type : List Node → String
unfolding find_first param_or
aws_instance_type nodes =
    param_or
      (params_of (find_first (λ (n : Node). starts_with n.id "aws_instance.web_server") nodes))
      "instanceType" "t3.medium"

-- `variablesTf`
unfoldable pub variables_tf : List Node → List Node → String
unfolding cat has_target find_target data_or aws_instance_type aws_variables gcp_variables
    azure_variables
variables_tf nodes targets =
    let gcp = find_target "gcp_target" targets in
    cat (
      "# Input variables for Terraform deployment\n\n"
      ∷ text_if (has_target "aws_target" targets) (
          aws_variables (data_or (find_target "aws_target" targets) "region" "us-east-1")
            (aws_instance_type nodes))
      ∷ text_if (has_target "gcp_target" targets) (
          gcp_variables (data_or gcp "projectId" "whiparc-prod-12345")
            (data_or gcp "region" "us-central1") (data_or gcp "gcpZone" "us-central1-a"))
      ∷ text_if (has_target "azure_target" targets) azure_variables
      ∷ [])
