-- ===== src/Terraform/Providers.antt =====
-- The `terraform` block and the providers of main.tf in apps/web/app/lib/bundleGenerator.ts.
use mathlib.Core.List.{List, [], ◌∷◌}
use Prim.Native.String.{String}
use whiparc.Prelude.Text.{cat}
use whiparc.Prelude.{◌==◌, if◌then◌else◌, Bool, false}
use whiparc.Prelude.Text.{text_if}
use whiparc.Canvas.{Node, data_field, data_or, is_text}
use Prim.Native.String.{◌++◌}
use mathlib.Core.Option.{Option, none, some}
use whiparc.Terraform.Targets.{has_target, find_target}

unfoldable pub aws_requirement : String
unfolding cat
aws_requirement = cat (
    "    aws = {\n" ∷ "      source  = \"hashicorp/aws\"\n" ∷ "      version = \"~> 5.0\"\n"
    ∷ "    }\n" ∷ [])

unfoldable pub aws_local_provider : (region : String) → String
unfolding cat
aws_local_provider region = cat (
    "provider \"aws\" {\n" ∷ "  region                      = \"" ∷ region ∷ "\"\n"
    ∷ "  access_key                  = \"test\"\n" ∷ "  secret_key                  = \"test\"\n"
    ∷ "  skip_credentials_validation = true\n" ∷ "  skip_metadata_api_check     = true\n"
    ∷ "  skip_requesting_account_id  = true\n" ∷ "  s3_use_path_style           = true\n" ∷ "\n"
    ∷ "  endpoints {\n" ∷ "    ec2 = \"http://localhost:4566\"\n"
    ∷ "    s3  = \"http://localhost:4566\"\n" ∷ "  }\n" ∷ "}\n" ∷ "\n" ∷ [])

unfoldable pub aws_provider : (region : String) → String
unfolding cat
aws_provider region =
    cat ("provider \"aws\" {\n" ∷ "  region = \"" ∷ region ∷ "\"\n" ∷ "}\n" ∷ "\n" ∷ [])

unfoldable pub google_requirement : String
unfolding cat
google_requirement = cat (
    "    google = {\n" ∷ "      source  = \"hashicorp/google\"\n" ∷ "      version = \"~> 5.0\"\n"
    ∷ "    }\n" ∷ [])

unfoldable pub google_provider : String
unfolding cat
google_provider = cat (
    "provider \"google\" {\n" ∷ "  project = var.gcp_project_id\n" ∷ "  region  = var.gcp_region\n"
    ∷ "  zone    = var.gcp_zone\n" ∷ "}\n" ∷ "\n" ∷ [])

unfoldable pub azurerm_requirement : String
unfolding cat
azurerm_requirement = cat (
    "    azurerm = {\n" ∷ "      source  = \"hashicorp/azurerm\"\n" ∷ "      version = \"~> 3.0\"\n"
    ∷ "    }\n" ∷ [])

unfoldable pub azurerm_provider : String
unfolding cat
azurerm_provider = cat ("provider \"azurerm\" {\n" ∷ "  features {}\n" ∷ "}\n" ∷ "\n" ∷ [])

unfoldable pub terraform_block : (providers : String) → String
unfolding cat
terraform_block providers =
    cat ("terraform {\n" ∷ "  required_providers {\n" ∷ providers ∷ "  }\n" ∷ [])

unfoldable pub s3_backend : (region : String) → String
unfolding cat
s3_backend region = cat (
    "\n" ∷ "  backend \"s3\" {\n" ∷ "    bucket                      = \"whiparc-state-bucket\"\n"
    ∷ "    key                         = \"terraform.tfstate\"\n"
    ∷ "    region                      = \"" ∷ region ∷ "\"\n"
    ∷ "    endpoints                   = { s3 = \"http://localhost:4566\" }\n"
    ∷ "    use_path_style              = true\n" ∷ "    skip_credentials_validation = true\n"
    ∷ "    skip_metadata_api_check     = true\n" ∷ "    skip_requesting_account_id  = true\n"
    ∷ "  }\n" ∷ [])

unfoldable pub required_providers : List Node → String
unfolding cat has_target aws_requirement google_requirement azurerm_requirement
required_providers targets = cat (
    text_if (has_target "aws_target" targets) aws_requirement
    ∷ text_if (has_target "gcp_target" targets) google_requirement
    ∷ text_if (has_target "azure_target" targets) azurerm_requirement
    ∷ [])

-- The provider of the first AWS target; an environment that is not set is the local stack.
unfoldable pub aws_provider_of : Option Node → String
unfolding data_or aws_local_provider aws_provider
aws_provider_of target =
    if data_or target "environment" "localstack" == "localstack"
    then aws_local_provider (data_or target "region" "us-east-1")
    else aws_provider (data_or target "region" "us-east-1")

-- `providers`
unfoldable pub providers : List Node → String
unfolding cat has_target find_target aws_provider_of google_provider azurerm_provider
providers targets = cat (
    text_if (has_target "aws_target" targets) (aws_provider_of (find_target "aws_target" targets))
    ∷ text_if (has_target "gcp_target" targets) google_provider
    ∷ text_if (has_target "azure_target" targets) azurerm_provider
    ∷ [])

-- `awsTarget && awsTarget?.data?.environment === 'localstack'`
unfoldable pub is_local : Option Node → Bool
unfolding data_field is_text
is_local none = false
is_local (some t) = is_text (data_field t "environment") "localstack"

-- `providerBlock`
unfoldable pub provider_block : List Node → String
unfolding required_providers terraform_block s3_backend is_local find_target data_or
provider_block targets =
    let target = find_target "aws_target" targets in
    terraform_block (required_providers targets)
    ++ (text_if (is_local target) (s3_backend (data_or target "region" "us-east-1")) ++ "}")
