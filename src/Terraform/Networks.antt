-- ===== src/Terraform/Networks.antt =====
-- VPCs and subnets in main.tf: the branches `aws_vpc` and `aws_subnet` of
-- `generateTerraformFiles` in apps/web/app/lib/bundleGenerator.ts.
use mathlib.Core.List.{List, [], ◌∷◌}
use Prim.Native.String.{String}
use whiparc.Prelude.Text.{cat}
use whiparc.Prelude.{not, ◌==◌, none, some, starts_with}
use whiparc.Prelude.Text.{split, text_if}
use Prim.Native.String.{◌++◌}
use whiparc.Canvas.{Node, Edge, parameters, param_or, unless_false}
use whiparc.Canvas.Json.{Fields}
use whiparc.Terraform.Links.{given, reference_or_quoted, linked_name, first_name, or_this}

unfoldable pub vpc_resource : (name cidr dns : String) → String
unfolding cat
vpc_resource name cidr dns = cat (
    "resource \"aws_vpc\" \"" ∷ name ∷ "\" {\n" ∷ "  cidr_block           = \"" ∷ cidr ∷ "\"\n"
    ∷ "  enable_dns_hostnames = " ∷ dns ∷ "\n" ∷ "  tags = {\n" ∷ "    Name = \"" ∷ name ∷ "\"\n"
    ∷ "  }\n" ∷ "}\n" ∷ "\n" ∷ "resource \"aws_internet_gateway\" \"" ∷ name ∷ "_igw\" {\n"
    ∷ "  vpc_id = aws_vpc." ∷ name ∷ ".id\n" ∷ "  tags = {\n" ∷ "    Name = \"" ∷ name ∷ "_igw\"\n"
    ∷ "  }\n" ∷ "}\n" ∷ "\n" ∷ "resource \"aws_route_table\" \"" ∷ name ∷ "_rt\" {\n"
    ∷ "  vpc_id = aws_vpc." ∷ name ∷ ".id\n" ∷ "\n" ∷ "  route {\n"
    ∷ "    cidr_block = \"0.0.0.0/0\"\n" ∷ "    gateway_id = aws_internet_gateway." ∷ name
    ∷ "_igw.id\n" ∷ "  }\n" ∷ "\n" ∷ "  tags = {\n" ∷ "    Name = \"" ∷ name ∷ "_rt\"\n" ∷ "  }\n"
    ∷ "}\n" ∷ "\n" ∷ [])

unfoldable pub subnet_resource : (name vpc cidr az map_public : String) → String
unfolding cat
subnet_resource name vpc cidr az map_public = cat (
    "resource \"aws_subnet\" \"" ∷ name ∷ "\" {\n" ∷ "  vpc_id                  = " ∷ vpc ∷ "\n"
    ∷ "  cidr_block              = \"" ∷ cidr ∷ "\"\n" ∷ "  availability_zone       = \"" ∷ az
    ∷ "\"\n" ∷ "  map_public_ip_on_launch = " ∷ map_public ∷ "\n" ∷ "  tags = {\n" ∷ "    Name = \""
    ∷ name ∷ "\"\n" ∷ "  }\n" ∷ "}\n" ∷ "\n" ∷ [])

unfoldable pub route_association : (name vpc : String) → String
unfolding cat
route_association name vpc = cat (
    "resource \"aws_route_table_association\" \"" ∷ name ∷ "_assoc\" {\n"
    ∷ "  subnet_id      = aws_subnet." ∷ name ∷ ".id\n" ∷ "  route_table_id = aws_route_table."
    ∷ vpc ∷ "_rt.id\n" ∷ "}\n" ∷ "\n" ∷ [])

unfoldable pub vpc : Fields → String
unfolding param_or unless_false vpc_resource
vpc p =
    vpc_resource (param_or p "vpcName" "app_vpc") (param_or p "cidrBlock" "10.0.0.0/16")
      (unless_false p "enableDnsHostnames")

-- The second part of a reference such as `aws_vpc.name.id`, if there is one.
unfoldable pub second_part : List String → String
second_part [] = ""
second_part (a ∷ []) = ""
second_part (a ∷ b ∷ parts) = b

-- The VPC of a subnet: how it is referred to, and the name for the route table, if that is known.
unfoldable pub subnet_vpc : List Node → List Edge → Node → String × String
unfolding cat given reference_or_quoted split second_part linked_name first_name
subnet_vpc nodes edges n = elim (given (parameters n) "vpcId") [
  | some val ↦ (
    reference_or_quoted "aws_vpc." val,
    text_if (starts_with val "aws_vpc.") (second_part (split b'.' val)),
  )
  | none ↦
      elim (or_this (linked_name nodes edges n.id "aws_vpc" "vpcName" "app_vpc")
        (first_name nodes "aws_vpc" "vpcName" "app_vpc")) [
          | some name ↦ (cat ("aws_vpc." ∷ name ∷ ".id" ∷ []), name)
          | none ↦ ("data.aws_vpc.default.id", "")
        ]
]

unfoldable pub subnet_name : Fields → String
unfolding param_or
subnet_name p = param_or p "subnetName" "app_subnet_1a"

unfoldable pub subnet : List Node → List Edge → Node → String
unfolding param_or unless_false subnet_name subnet_vpc subnet_resource route_association
subnet nodes edges n =
    let p = parameters n in
    let (vpc_ref, vpc_name) = subnet_vpc nodes edges n in
    subnet_resource (subnet_name p) vpc_ref (param_or p "cidrBlock" "10.0.1.0/24")
      (param_or p "availabilityZone" "us-east-1a") (unless_false p "mapPublicIp")
    ++ text_if (not (vpc_name == "")) (route_association (subnet_name p) vpc_name)
