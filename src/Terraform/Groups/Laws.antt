-- ===== src/Terraform/Groups/Laws.antt =====
-- When a security group gets the rule that opens SSH to everyone, and when none is added.
use Prim.Native.String.{◌++◌}
use text.Mathlib.TextLemmas
use mathlib.Core.List.{Memᴰ}
use whiparc.Prelude.{String, ◌≡◌, refl, sym, ap, ◌∙◌, true, false, List, [], ◌∷◌}
use whiparc.Prelude.Text.{includes, cat}
use whiparc.Prelude.Includes.{includes-append_left, includes-append_right}
use whiparc.Prelude.Parts.{cat-mem}
use whiparc.Canvas.{Node, Edge, parameters}
use whiparc.Canvas.Json.{lookup}
use whiparc.Terraform.Groups.{
  has_ssh_rule, ssh_rule, open_ssh_rule, ingress_rules, port_rule, is_web, ssh_enabled,
  group_resource, security_group,
}

below : {x a b c d : String} {xs : List String} → Memᴰ x xs → Memᴰ x (a ∷ b ∷ c ∷ d ∷ xs)
below m = Memᴰ.tail (Memᴰ.tail (Memᴰ.tail (Memᴰ.tail m)))

-- What follows the rules in the block.
abbrev egress_lines : List String
egress_lines =
    "\n" ∷ "  egress {\n" ∷ "    from_port   = 0\n" ∷ "    to_port     = 0\n"
    ∷ "    protocol    = \"-1\"\n" ∷ "    cidr_blocks = [\"0.0.0.0/0\"]\n" ∷ "  }\n" ∷ "}\n" ∷ "\n"
    ∷ []

added : (rules : String) → has_ssh_rule rules ≡ false → ssh_rule rules ≡ open_ssh_rule
unfolding ssh_rule
added rules missing = rw missing refl

-- An SSH rule for everyone is added to a group of web ports whose parameters switch SSH off, as long
-- as `hasSshRule` finds no rule in the text; the range of addresses that the parameters allow does not apply to it.
ssh_reopened :
    (nodes : List Node) (edges : List Edge) (n : Node)
    → is_web (parameters n) ≡ true
    → ssh_enabled (lookup "sshEnabled" (parameters n)) ≡ false
    → has_ssh_rule (ingress_rules (parameters n)) ≡ false
    → (a : String) × (b : String) × (security_group nodes edges n ≡ a ++ (open_ssh_rule ++ b))
unfolding security_group group_resource ssh_rule
ssh_reopened nodes edges n web off missing =
    let (a, b, whole) =
      cat-mem {x = ssh_rule (ingress_rules (parameters n))} (λ (t : String). t) _
        (below (below (below (Memᴰ.tail (Memᴰ.head {xs = egress_lines} refl))))) in
    (a, b, whole ∙ ap (λ t. a ++ (t ++ b)) (added (ingress_rules (parameters n)) missing))

includes-port_rule :
    (r cidr : String) → includes (port_rule ("22" ++ r) cidr) "from_port   = 22" ≡ true
unfolding port_rule cat includes
includes-port_rule r cidr =
    let lines = cat (
      "\n"
      ∷ "    to_port     = "
      ∷ ("22" ++ r)
      ∷ "\n"
      ∷ "    protocol    = \"tcp\"\n"
      ∷ "    cidr_blocks = [\""
      ∷ cidr
      ∷ "\"]\n"
      ∷ "  }\n"
      ∷ "\n"
      ∷ []) in
    let regrouped : "    from_port   = " ++ (("22" ++ r) ++ lines)
        ≡ "    from_port   = 22" ++ (r ++ lines) =
      ap (λ t. "    from_port   = " ++ t) (TextLemmas.append_assoc "22" r lines)
      ∙ sym (TextLemmas.append_assoc "    from_port   = " "22" (r ++ lines)) in
    includes-append_right "  ingress {\n" ("    from_port   = " ++ (("22" ++ r) ++ lines))
      "from_port   = 22"
      (ap (λ t. includes t "from_port   = 22") regrouped
        ∙ includes-append_left "    from_port   = 22" (r ++ lines) "from_port   = 22" refl)

-- A port that begins with 22 stands for the SSH rule: no rule for port 22 is added to the others.
ssh_rule-port_rule : (r cidr others : String) → ssh_rule (port_rule ("22" ++ r) cidr ++ others) ≡ ""
unfolding ssh_rule has_ssh_rule
ssh_rule-port_rule r cidr others =
    rw
      (includes-append_left (port_rule ("22" ++ r) cidr) others "from_port   = 22"
        (includes-port_rule r cidr))
      refl
