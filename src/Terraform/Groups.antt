-- ===== src/Terraform/Groups.antt =====
-- Security groups in main.tf: the branch `aws_security_group` of `generateTerraformFiles` in
-- apps/web/app/lib/bundleGenerator.ts.
pub mod Laws
use mathlib.Core.List.{List, [], ◌∷◌}
use Prim.Native.String.{String}
use whiparc.Prelude.Text.{cat}
use whiparc.Prelude.{
  Bool, true, false, not, ◌&&◌, ◌||◌, Option, none, some, ◌==◌, if◌then◌else◌, is_some, map, keep,
}
use whiparc.Prelude.Text.{includes, split, trim, text_if}
use whiparc.Prelude.Number.{is_number}
use Prim.Native.String.{◌++◌}
use whiparc.Canvas.{Node, Edge, parameters, param_or}
use whiparc.Canvas.Json.{Value, null, bool, Fields, lookup, shown}
use whiparc.Terraform.Links.{given, reference_or_quoted, linked_name, first_name, or_this}

unfoldable pub web_rules : (http https cidr : String) → String
unfolding cat
web_rules http https cidr = cat (
    "  ingress {\n" ∷ "    from_port   = " ∷ http ∷ "\n" ∷ "    to_port     = " ∷ http ∷ "\n"
    ∷ "    protocol    = \"tcp\"\n" ∷ "    cidr_blocks = [\"" ∷ cidr ∷ "\"]\n" ∷ "  }\n" ∷ "\n"
    ∷ "  ingress {\n" ∷ "    from_port   = " ∷ https ∷ "\n" ∷ "    to_port     = " ∷ https ∷ "\n"
    ∷ "    protocol    = \"tcp\"\n" ∷ "    cidr_blocks = [\"" ∷ cidr ∷ "\"]\n" ∷ "  }" ∷ [])

unfoldable pub ssh_rule_within : (cidr : String) → String
unfolding cat
ssh_rule_within cidr = cat (
    "\n" ∷ "\n" ∷ "  ingress {\n" ∷ "    from_port   = 22\n" ∷ "    to_port     = 22\n"
    ∷ "    protocol    = \"tcp\"\n" ∷ "    cidr_blocks = [\"" ∷ cidr ∷ "\"]\n" ∷ "  }" ∷ [])

unfoldable pub port_rule : (port cidr : String) → String
unfolding cat
port_rule port cidr = cat (
    "  ingress {\n" ∷ "    from_port   = " ∷ port ∷ "\n" ∷ "    to_port     = " ∷ port ∷ "\n"
    ∷ "    protocol    = \"tcp\"\n" ∷ "    cidr_blocks = [\"" ∷ cidr ∷ "\"]\n" ∷ "  }\n" ∷ "\n"
    ∷ [])

unfoldable pub open_ssh_rule : String
unfolding cat
open_ssh_rule = cat (
    "\n" ∷ "  ingress {\n" ∷ "    from_port   = 22\n" ∷ "    to_port     = 22\n"
    ∷ "    protocol    = \"tcp\"\n" ∷ "    cidr_blocks = [\"0.0.0.0/0\"]\n" ∷ "  }\n" ∷ [])

unfoldable pub group_resource : (name description vpc_line rules ssh_rule : String) → String
unfolding cat
group_resource name description vpc_line rules ssh_rule = cat (
    "resource \"aws_security_group\" \"" ∷ name ∷ "\" {\n" ∷ "  name        = \"" ∷ name ∷ "\"\n"
    ∷ "  description = \"" ∷ description ∷ "\"" ∷ vpc_line ∷ "\n" ∷ "\n" ∷ rules ∷ ssh_rule ∷ "\n"
    ∷ "  egress {\n" ∷ "    from_port   = 0\n" ∷ "    to_port     = 0\n"
    ∷ "    protocol    = \"-1\"\n" ∷ "    cidr_blocks = [\"0.0.0.0/0\"]\n" ∷ "  }\n" ∷ "}\n" ∷ "\n"
    ∷ [])

-- `v ?? fallback`
unfoldable pub nullish_or : Option Value → String → String
unfolding shown
nullish_or none fallback = fallback
nullish_or (some null) fallback = fallback
nullish_or (some v) fallback = shown v

-- `p.sshEnabled !== false`
unfoldable pub ssh_enabled : Option Value → Bool
ssh_enabled (some (bool false)) = false
ssh_enabled _ = true

-- `p.httpPort !== undefined || p.httpsPort !== undefined`
unfoldable pub is_web : Fields → Bool
unfolding lookup
is_web p = is_some (lookup "httpPort" p) || is_some (lookup "httpsPort" p)

-- `ports`: the entries that are numbers.
unfoldable pub listed_ports : String → List String
unfolding keep split trim is_number
listed_ports s = keep (λ (x : String). not (x == "") && is_number x) (map trim (split b',' s))

-- `allowedCidr`
unfoldable pub allowed_cidr : Fields → String
unfolding param_or
allowed_cidr p = param_or p "allowedCidr" "0.0.0.0/0"

-- `ingressRules`
unfoldable pub ingress_rules : Fields → String
unfolding cat is_web nullish_or ssh_enabled web_rules ssh_rule_within listed_ports port_rule
    allowed_cidr param_or
ingress_rules p =
    if is_web p
    then web_rules (nullish_or (lookup "httpPort" p) "80") (nullish_or (lookup "httpsPort" p) "443")
        (allowed_cidr p)
      ++ text_if (ssh_enabled (lookup "sshEnabled" p)) (ssh_rule_within (allowed_cidr p))
    else cat (
        map (λ port. port_rule port (allowed_cidr p))
          (listed_ports (param_or p "ingressPorts" "80, 443, 22")))

-- `hasSshRule`
unfoldable pub has_ssh_rule : String → Bool
unfolding includes
has_ssh_rule rules =
    includes rules "from_port   = 22"
    || includes rules "from_port = 22"
    || includes rules "from_port   = 22\n"
    || includes rules "from_port = 22\n"

-- `sshRuleStr`
unfoldable pub ssh_rule : String → String
unfolding has_ssh_rule open_ssh_rule
ssh_rule rules = text_if (not (has_ssh_rule rules)) open_ssh_rule

-- `vpcLine`
unfoldable pub vpc_line : List Node → List Edge → Node → String
unfolding cat given reference_or_quoted linked_name first_name
vpc_line nodes edges n = elim (given (parameters n) "vpcId") [
  | some val ↦ cat ("\n  vpc_id      = " ∷ reference_or_quoted "aws_vpc." val ∷ [])
  | none ↦
      elim (or_this (linked_name nodes edges n.id "aws_vpc" "vpcName" "app_vpc")
        (first_name nodes "aws_vpc" "vpcName" "app_vpc")) [
          | some name ↦ cat ("\n  vpc_id      = aws_vpc." ∷ name ∷ ".id" ∷ [])
          | none ↦ ""
        ]
]

unfoldable pub security_group : List Node → List Edge → Node → String
unfolding param_or vpc_line ingress_rules ssh_rule group_resource
security_group nodes edges n =
    let rules = ingress_rules (parameters n) in
    group_resource (param_or (parameters n) "sgName" "web_sg")
      (param_or (parameters n) "description" "Allows HTTP/HTTPS inbound & SSH access")
      (vpc_line nodes edges n) rules (ssh_rule rules)
