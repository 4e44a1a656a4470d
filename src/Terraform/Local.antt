-- ===== src/Terraform/Local.antt =====
-- When main.tf is for the local AWS stack.
use Prim.Native.String.{◌++◌}
use whiparc.Prelude.{◌≡◌, refl, false, none, some, List, [], keep}
use whiparc.Canvas.{Node, data_or-none, data_field, data_or, param_or, is_text}
use whiparc.Canvas.Json.{Fields, lookup}
use whiparc.Terraform.Targets.{is_target, connected_targets}
use whiparc.Terraform.Providers.{
  aws_requirement, aws_local_provider, terraform_block, s3_backend, required_providers,
  aws_provider_of, providers, is_local, provider_block,
}

-- A canvas without a target is deployed to the local AWS stack: its only provider is that of the
-- stack, its state is kept in the stack's bucket, and no other provider is required.
local_by_default :
    (nodes : List Node)
    → keep is_target nodes ≡ []
    → (providers (connected_targets nodes) ≡ aws_local_provider "us-east-1")
      × (provider_block (connected_targets nodes)
          ≡ terraform_block aws_requirement ++ (s3_backend "us-east-1" ++ "}"))
unfolding connected_targets providers provider_block required_providers lookup
    whiparc.Canvas.Json.truthy whiparc.Canvas.Json.shown
local_by_default nodes no_target = rw (no_target, connected_targets) (refl, refl)

-- An AWS target whose environment is not set gets the provider of the local stack, with its test
-- credentials, and not the backend of the local stack.
local_without_backend :
    (t : Node)
    → data_field t "environment" ≡ none
    → (aws_provider_of (some t) ≡ aws_local_provider (data_or (some t) "region" "us-east-1"))
      × (is_local (some t) ≡ false)
unfolding aws_provider_of is_local
local_without_backend t h = (rw (data_or-none t "environment" "localstack" h) refl, rw h refl)
