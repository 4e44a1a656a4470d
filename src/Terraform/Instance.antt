-- ===== src/Terraform/Instance.antt =====
-- The virtual machine of a canvas, on each cloud that has a target: the branch
-- `aws_instance.web_server` of `generateTerraformFiles` in apps/web/app/lib/bundleGenerator.ts.
use whiparc.Prelude.{String, none, some, List, [], ◌∷◌}
use whiparc.Prelude.Text.{cat, join}
use whiparc.Canvas.{Node, Edge, parameters, param_or}
use whiparc.Canvas.Json.{
  Value, str, arr, obj, Fields, field, end, Elements, element, last, lookup, or_else,
}
use whiparc.Playbook.{interpolated}
use whiparc.Terraform.Links.{given, reference_or_quoted, linked_name, first_name, or_this}
use whiparc.Terraform.Machines.{
  auto_subnet, default_vpc, aws_instance, gcp_instance, azure_instance,
}

-- The subnet that an instance is placed in.
pub data Place : Type 0 where
  -- the text of the parameter
  chosen : String → Place
  -- a subnet of the canvas, by name
  subnet : String → Place
  -- a subnet made inside a VPC of the canvas
  auto : String → Place
  default : Place

-- The order in which the code looks for it.
unfoldable pub place_without_subnet : List Node → Place
unfolding first_name
place_without_subnet nodes = elim (first_name nodes "aws_vpc" "vpcName" "app_vpc") [
  | some vpc ↦ auto vpc
  | none ↦ default
]

unfoldable pub place : List Node → List Edge → Node → Place
unfolding given linked_name first_name place_without_subnet
place nodes edges n = elim (given (parameters n) "subnetId") [
  | some val ↦ chosen val
  | none ↦
      elim (or_this (linked_name nodes edges n.id "aws_subnet" "subnetName" "app_subnet_1a")
        (first_name nodes "aws_subnet" "subnetName" "app_subnet_1a")) [
          | some name ↦ subnet name
          | none ↦ place_without_subnet nodes
        ]
]

-- `subnetLine`
unfoldable pub subnet_line : Place → String
unfolding cat reference_or_quoted
subnet_line (chosen val) = cat ("\n  subnet_id     = " ∷ reference_or_quoted "aws_subnet." val ∷ [])
subnet_line (subnet name) = cat ("\n  subnet_id     = aws_subnet." ∷ name ∷ ".id" ∷ [])
subnet_line (auto vpc) = "\n  subnet_id     = aws_subnet.whiparc_auto_subnet.id"
subnet_line default = "\n  subnet_id     = tolist(data.aws_subnets.default.ids)[0]"

-- The assignment to `subnetBlock`: what it is after the instance.
unfoldable pub subnet_block_after : String → Place → String
unfolding auto_subnet default_vpc
subnet_block_after block (chosen val) = block
subnet_block_after block (subnet name) = block
subnet_block_after block (auto vpc) = auto_subnet vpc
subnet_block_after block default = default_vpc

-- A list of security groups with one member, by parameter, by edge, or the first on the canvas.
unfoldable pub group_line : List Node → List Edge → Node → String
unfolding cat given reference_or_quoted linked_name first_name
group_line nodes edges n = elim (given (parameters n) "securityGroupId") [
  | some val ↦
      cat (
        "\n  vpc_security_group_ids = [" ∷ reference_or_quoted "aws_security_group." val ∷ "]" ∷ [])
  | none ↦
      elim (or_this (linked_name nodes edges n.id "aws_security_group" "sgName" "web_sg")
        (first_name nodes "aws_security_group" "sgName" "web_sg")) [
          | some name ↦
              cat ("\n  vpc_security_group_ids = [aws_security_group." ∷ name ∷ ".id]" ∷ [])
          | none ↦ ""
        ]
]

-- `${t.key} = "${t.value}"`. The tags are declared as objects.
unfoldable pub tag_line : Value → String
unfolding cat lookup interpolated
tag_line (obj t) =
    cat (interpolated (lookup "key" t) ∷ " = \"" ∷ interpolated (lookup "value" t) ∷ "\"" ∷ [])
tag_line _ = "undefined = \"undefined\""

unfoldable pub tag_lines : Elements → List String
unfolding tag_line
tag_lines last = []
tag_lines (element t ts) = tag_line t ∷ tag_lines ts

abbrev tag : String → String → Value
tag k v = obj (field "key" (str k) (field "value" (str v) end))

-- `p.tags || […]`. The tags are declared as an array.
unfoldable pub tags_list : Fields → Elements
unfolding lookup or_else
tags_list p = elim (or_else (lookup "tags" p) none) [
  | some (arr ts) ↦ ts
  | _ ↦ element (tag "Environment" "prod") (element (tag "Role" "web") last)
]

unfoldable pub aws_machine : List Node → List Edge → Node → String
unfolding param_or place subnet_line group_line tag_lines tags_list join aws_instance
aws_machine nodes edges n =
    aws_instance (param_or (parameters n) "instanceName" "web_server")
      (param_or (parameters n) "amiId" "ami-785db401")
      (param_or (parameters n) "instanceType" "t3.medium") (subnet_line (place nodes edges n))
      (group_line nodes edges n) (param_or (parameters n) "rootVolumeSize" "50")
      (join "\n    " (tag_lines (tags_list (parameters n))))

unfoldable pub gcp_machine : Fields → String
unfolding param_or gcp_instance
gcp_machine p =
    gcp_instance (param_or p "gcpInstanceName" (param_or p "instanceName" "web-server"))
      (param_or p "gcpMachineType" "e2-micro")
      (param_or p "gcpImage" "ubuntu-os-cloud/ubuntu-2204-lts")
      (param_or p "gcpDiskSize" (param_or p "rootVolumeSize" "50"))

unfoldable pub azure_machine : Fields → String
unfolding param_or azure_instance
azure_machine p =
    azure_instance (param_or p "azureVmName" (param_or p "instanceName" "web-vm"))
      (param_or p "azureVmSize" "Standard_B1s")
      (param_or p "azureDiskSize" (param_or p "rootVolumeSize" "50"))
      (param_or p "azurePublisher" "Canonical") (param_or p "azureOffer" "UbuntuServer")
      (param_or p "azureSku" "18.04-LTS")
