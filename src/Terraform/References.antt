-- ===== src/Terraform/References.antt =====
-- Outputs for the references `{{ nodes.<id>.<key> }}` in the data of the canvas: the end of
-- `generateTerraformFiles` in apps/web/app/lib/bundleGenerator.ts.
pub mod Laws
use Prim.Native.Char.{Char, code}
use Prim.Native.String
use Prim.Native.String.{◌++◌, count as chars}
use whiparc.Prelude.{
  ℕ, zero, suc, ◌+◌, ◌-◌, String, Bool, true, false, not, ◌&&◌, ◌||◌, Option, none, some, List, [],
  ◌∷◌, ◌++◌ as ◌+++◌, map, ◌==◌, starts_with, if◌then◌else◌, eqb, find_first, contains, ◌≡◌, refl,
}
use whiparc.Prelude.Text.{cat, join, is_space}
use whiparc.Canvas.{Node}
use whiparc.Canvas.Json.{Value, null, obj, Fields, Elements, last, element, arr}
use whiparc.Canvas.Stringify.{stringify}
use whiparc.Playbook.Vars.{is_word, span, begins, drop}
use whiparc.Terraform.Outputs.{output_expr}

-- `[a-zA-Z0-9_-]`
unfoldable pub is_reference_char : ℕ → Bool
unfolding is_word
is_reference_char c = is_word c || eqb c b'-'

-- What `(name)\.(key)\s*}}` matches at the beginning of a text: the two groups and the size.
unfoldable pub match_path : String → Option (String × String × ℕ)
unfolding span is_reference_char is_space begins drop
match_path s =
    let (name, more) = span is_reference_char s in
    let (key, after) = span is_reference_char (drop 1 more) in
    let (space, close) = span is_space after in
    if not (name == "") && begins more "." && not (key == "") && begins close "}}"
    then some (name, key, chars name + 1 + chars key + chars space + 2)
    else none

-- The same with `size` characters before it.
abbrev shifted : ℕ → Option (String × String × ℕ) → Option (String × String × ℕ)
shifted size none = none
shifted size (some (name, key, k)) = some (name, key, size + k)

-- `(?:nodes\.)?` is tried first, then left out.
unfoldable pub match_path_after_nodes : String → Option (String × String × ℕ)
unfolding match_path begins drop
match_path_after_nodes s = elim (if begins s "nodes." then match_path (drop 6 s) else none) [
  | some (name, key, k) ↦ some (name, key, 6 + k)
  | none ↦ match_path s
]

-- The whole expression at the beginning of a text.
unfoldable pub match_reference : String → Option (String × String × ℕ)
unfolding match_path_after_nodes span is_space begins drop
match_reference s =
    let (space, rest) = span is_space (drop 2 s) in
    if begins s "{{" then shifted (2 + chars space) (match_path_after_nodes rest) else none

-- The matches of the `exec` loop; `skip` characters belong to the last match.
unfoldable pub references : ℕ → String → List (String × String)
unfolding match_reference
references skip String.[] = []
references (suc skip) (String.◌∷◌ c s) = references skip s
references zero (String.◌∷◌ c s) = elim (match_reference (String.◌∷◌ c s)) [
  | none ↦ references zero s
  | some (name, key, size) ↦ (name, key) ∷ references (size - 1) s
]

-- `id.replace(/\./g, '_')`
unfoldable pub underscored : String → String
underscored String.[] = ""
underscored (String.◌∷◌ c s) =
    if eqb (code c) b'.' then String.◌∷◌ "_" (underscored s) else String.◌∷◌ c (underscored s)

-- `JSON.stringify(nodes.map(n => n.data))`: in an array what is undefined becomes `null`.
abbrev payload_value : Option Fields → Value
payload_value none = null
payload_value (some fs) = obj fs

abbrev payloads : List Node → Elements
payloads [] = last
payloads (n ∷ ns) = element (payload_value n.payload) (payloads ns)

unfoldable pub serialized : List Node → String
unfolding stringify
serialized nodes = stringify (arr (payloads nodes))

unfoldable pub dynamic_output : (name key expr : String) → String
unfolding cat
dynamic_output name key expr = cat (
    "output \"" ∷ name ∷ "_" ∷ key ∷ "\" {\n" ∷ "  value       = " ∷ expr ∷ "\n"
    ∷ "  description = \"Dynamic parameter output for " ∷ name ∷ "\"\n" ∷ "}" ∷ [])

-- `scanned` and `dynamicOutputs`
pub record Scan : Type 0 where
  pub scanned : List String
  pub found : List String

-- `referencedNode`
unfoldable pub referenced : List Node → String → Option Node
unfolding find_first underscored
referenced nodes name = find_first (λ (n : Node). underscored n.id == name) nodes

-- `uniqueKey`
unfoldable pub unique_key : Node → String → String
unfolding cat
unique_key n key = cat (n.id ∷ "_" ∷ key ∷ [])

-- `if (expr) dynamicOutputs.push(…)`
unfoldable pub push_output : String → String → String → List String → List String
unfolding dynamic_output
push_output name key expr found =
    if expr == "" then found else found +++ dynamic_output name key expr ∷ []

-- The body of the loop.
unfoldable pub scan_reference : List Node → Bool → String × String → Scan → Scan
unfolding referenced unique_key output_expr push_output
scan_reference nodes has_gcp (name, key) w = elim (referenced nodes name) [
  | none ↦ w
  | some n ↦ if contains w.scanned (unique_key n key) then w else record {
    scanned = unique_key n key ∷ w.scanned;
    found = push_output name key (output_expr n key has_gcp) w.found;
  }
]

unfoldable pub scan_references : List Node → Bool → List (String × String) → Scan → Scan
unfolding scan_reference
scan_references nodes has_gcp [] w = w
scan_references nodes has_gcp (r ∷ rs) w =
    scan_references nodes has_gcp rs (scan_reference nodes has_gcp r w)

-- `dynamicOutputs` after the loop.
unfoldable pub dynamic_outputs : List Node → Bool → List String
unfolding scan_references references serialized
dynamic_outputs nodes has_gcp =
    (scan_references nodes has_gcp (references zero (serialized nodes))
      (record { scanned = []; found = [] })).found

-- What they add to outputs.tf.
unfoldable pub dynamic_text : List String → String
unfolding join
dynamic_text [] = ""
dynamic_text (o ∷ os) = "\n\n" ++ (join "\n\n" (o ∷ os) ++ "\n")

references_test :
    references zero "{{ nodes.aws_vpc-1.vpc_id }} {{a.b}}{{ nodes.ip }}{{ x }}"
    ≡ ("aws_vpc-1", "vpc_id") ∷ ("a", "b") ∷ ("nodes", "ip") ∷ []
unfolding references
references_test = refl
