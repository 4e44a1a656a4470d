-- ===== src/Terraform/Resources/DefaultVpc.antt =====
-- Subnets on a canvas without a VPC.
use Prim.Native.String.{◌++◌ as ◌+++◌}
use mathlib.Core.List.{Memᴰ}
use text.Mathlib.TextLemmas
use whiparc.Prelude.{String, ◌≡◌, refl, ap, ◌∙◌, true, none, some, List}
use whiparc.Canvas.{Node, Edge, has_tech, parameters, param_or, unless_false}
use whiparc.Terraform.Targets.{connected_targets}
use whiparc.Terraform.Links.{given, linked_name, first_of, first_name}
use whiparc.Terraform.Networks.{subnet, subnet_name, subnet_vpc, subnet_resource}
use whiparc.Terraform.Resources.{clouds, subnet_kind, kind_of_node, kind_resources, progress}
use whiparc.Terraform.Resources.Parts.{node_resources, main_tf_holds}
use whiparc.Terraform.Resources.Subnets.{subnet_block_empty}
use whiparc.Terraform.{generate_terraform_files}

-- The block of a subnet that no VPC is named for.
abbrev pub in_default_vpc : Node → String
in_default_vpc s =
    let p = parameters s in
    subnet_resource (subnet_name p) "data.aws_vpc.default.id" (param_or p "cidrBlock" "10.0.1.0/24")
      (param_or p "availabilityZone" "us-east-1a") (unless_false p "mapPublicIp")

subnet_alone :
    (nodes : List Node) (edges : List Edge) (s : Node)
    → given (parameters s) "vpcId" ≡ none
    → linked_name nodes edges s.id "aws_vpc" "vpcName" "app_vpc" ≡ none
    → first_of nodes "aws_vpc" ≡ none
    → subnet nodes edges s ≡ in_default_vpc s
unfolding subnet
subnet_alone nodes edges s not_given not_linked no_vpc =
    let no_name : first_name nodes "aws_vpc" "vpcName" "app_vpc" ≡ none =
      rw (no_vpc, first_name) refl in
    let found : subnet_vpc nodes edges s ≡ ("data.aws_vpc.default.id", "") =
      rw (not_given, subnet_vpc) (rw not_linked (rw no_name refl)) in
    rw found (TextLemmas.append-nil (in_default_vpc s))

-- On a canvas with a subnet and no VPC, main.tf puts the subnet in the default VPC and does not
-- declare the data source of that VPC: the subnet block, where it would stand, is empty.
default_vpc_undeclared :
    (nodes : List Node) (edges : List Edge) (s first : Node)
    → Memᴰ s nodes
    → has_tech "Terraform" s ≡ true
    → kind_of_node (clouds (connected_targets nodes)) s ≡ subnet_kind
    → first_of nodes "aws_subnet" ≡ some first
    → given (parameters s) "vpcId" ≡ none
    → linked_name nodes edges s.id "aws_vpc" "vpcName" "app_vpc" ≡ none
    → first_of nodes "aws_vpc" ≡ none
    → (a : String) × (b : String) × ((generate_terraform_files nodes edges).main_tf
        ≡ a +++ (in_default_vpc s +++ b))
      × ((progress (clouds (connected_targets nodes)) nodes edges).subnet_block ≡ "")
unfolding node_resources kind_resources
default_vpc_undeclared nodes edges s first m tech kind has_subnet not_given not_linked no_vpc =
    let on = clouds (connected_targets nodes) in
    let (a, b, whole) = main_tf_holds nodes edges s m tech in
    let block : node_resources on nodes edges s ≡ in_default_vpc s =
      rw kind (subnet_alone nodes edges s not_given not_linked no_vpc) in
    (
      a,
      b,
      whole ∙ ap (λ t. a +++ (t +++ b)) block,
      subnet_block_empty on nodes edges first has_subnet,
    )
