-- ===== src/Terraform/Targets.antt =====
-- The deployment targets on a canvas: the beginning of `generateTerraformFiles` in
-- apps/web/app/lib/bundleGenerator.ts.
use whiparc.Prelude.{
  String, Bool, ◌||◌, Option, some, List, [], ◌∷◌, starts_with, keep, any, find_first,
}
use whiparc.Canvas.{Node, has_tech}
use whiparc.Canvas.Json.{str, end, field}

unfoldable pub is_target : Node → Bool
is_target n =
    has_tech "Target" n
    || starts_with n.id "aws_target"
    || starts_with n.id "gcp_target"
    || starts_with n.id "azure_target"

-- A canvas without a target is for a local AWS stack.
abbrev pub default_target : Node
default_target = record {
  id = "aws_target_default";
  payload = some (
      field "tech" (str "Target")
        (field "environment" (str "localstack") (field "region" (str "us-east-1") end)));
}

unfoldable pub or_default_target : List Node → List Node
or_default_target [] = default_target ∷ []
or_default_target (t ∷ ts) = t ∷ ts

unfoldable pub connected_targets : List Node → List Node
unfolding is_target or_default_target keep
connected_targets nodes = or_default_target (keep is_target nodes)

unfoldable pub has_target : String → List Node → Bool
unfolding any
has_target prefix targets = any (λ (t : Node). starts_with t.id prefix) targets

unfoldable pub find_target : String → List Node → Option Node
unfolding find_first
find_target prefix targets = find_first (λ (t : Node). starts_with t.id prefix) targets
