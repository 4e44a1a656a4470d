-- ===== src/Terraform/References/Laws.antt =====
-- What the outputs for references say.
use mathlib.Core.List.{Memᴰ}
use whiparc.Prelude.{
  String, ◌≡◌, ◌&&◌, refl, Bool, true, false, none, some, List, ◌==◌, starts_with,
}
use whiparc.Canvas.{Node, param_or-none, parameters}
use whiparc.Canvas.Json.{lookup}
use whiparc.Terraform.Networks.{subnet_name}
use whiparc.Terraform.References.{dynamic_output, referenced}
use whiparc.Terraform.Outputs.{output_expr, aws_expr}

-- An output is backed by a reference of the data to a node of the canvas that has the attribute.
pub record IsBacked (nodes : List Node) (has_gcp : Bool) (rs : List (String × String)) (o : String)
    : Type 0 where
  pub name : String
  pub key : String
  pub node : Node
  pub listed : Memᴰ (name, key) rs
  pub points : referenced nodes name ≡ some node
  pub known : (output_expr node key has_gcp == "") ≡ false
  pub text : o ≡ dynamic_output name key (output_expr node key has_gcp)

and-false : (b : Bool) → (b && false) ≡ false
and-false true = refl
and-false false = refl

-- A reference to the id of a subnet without a name points at a subnet that no block declares: its
-- block and its output have different default names.
aws_expr-subnet_unnamed :
    (n : Node)
    → lookup "subnetName" (parameters n) ≡ none
    → starts_with n.id "aws_subnet" ≡ true
    → (output_expr n "subnet_id" false ≡ "aws_subnet.app_subnet.id")
      × (subnet_name (parameters n) ≡ "app_subnet_1a")
unfolding output_expr aws_expr subnet_name
aws_expr-subnet_unnamed n unnamed is_subnet = (
  simp (and-false, is_subnet, param_or-none (parameters n) "subnetName" "app_subnet" unnamed),
  param_or-none (parameters n) "subnetName" "app_subnet_1a" unnamed,
)
