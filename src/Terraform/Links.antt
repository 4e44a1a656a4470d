-- ===== src/Terraform/Links.antt =====
-- How a resource of main.tf finds the resource it is placed in: by a parameter, by an edge of the
-- canvas, or as the first of its kind. `generateTerraformFiles` in
-- apps/web/app/lib/bundleGenerator.ts writes these steps out for each pair of resources.
use whiparc.Prelude.{
  String, ◌&&◌, ◌||◌, Option, none, some, List, [], ◌∷◌, ◌==◌, starts_with, keep, find_first,
  if◌then◌else◌,
}
use whiparc.Prelude.Text.{cat, trim}
use whiparc.Canvas.{Node, Edge, has_tech, parameters, params_of, param_or}
use whiparc.Canvas.Json.{Fields, lookup, truthy?}
use whiparc.Playbook.{text_or}

-- `tfNodes`
unfoldable pub terraform_nodes : List Node → List Node
unfolding keep has_tech
terraform_nodes nodes = keep (has_tech "Terraform") nodes

-- `if (p[key]) { const val = p[key].trim(); … }`
unfoldable pub given : Fields → String → Option String
unfolding lookup truthy? text_or trim
given p key = if truthy? (lookup key p) then some (trim (text_or (lookup key p) "")) else none

-- A reference to a resource or a variable is written as it is, any other text in quotes.
unfoldable pub reference_or_quoted : String → String → String
unfolding cat
reference_or_quoted prefix val =
    if starts_with val prefix || starts_with val "var." then val else cat ("\"" ∷ val ∷ "\"" ∷ [])

-- The name of the resource at the first edge of a kind into a node.
unfoldable pub linked_name :
    List Node → List Edge → String → String → String → String → Option String
unfolding keep find_first param_or
linked_name nodes edges id prefix key fallback =
    elim (keep (λ (e : Edge). e.target == id && starts_with e.source prefix) edges) [
      | [] ↦ none
      | e ∷ _ ↦
          some
            (param_or (params_of (find_first (λ (n : Node). n.id == e.source) nodes)) key fallback)
    ]

-- The first Terraform node of a kind.
unfoldable pub first_of : List Node → String → Option Node
unfolding find_first terraform_nodes
first_of nodes prefix = find_first (λ (n : Node). starts_with n.id prefix) (terraform_nodes nodes)

-- Its name.
unfoldable pub first_name : List Node → String → String → String → Option String
unfolding first_of param_or
first_name nodes prefix key fallback = elim (first_of nodes prefix) [
  | none ↦ none
  | some n ↦ some (param_or (parameters n) key fallback)
]

-- The first of two that is there.
abbrev pub or_this : Option String → Option String → Option String
or_this none b = b
or_this (some a) b = some a
