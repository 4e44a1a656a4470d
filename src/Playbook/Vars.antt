-- ===== src/Playbook/Vars.antt =====
-- The placeholders of a playbook and its `vars:` block: the end of `generateAnsibleYAML` in
-- apps/web/app/lib/exportYaml.ts.
pub mod Replace
pub mod Laws
pub mod Placeholders
pub mod Found
use Prim.Native.Char.{code}
use Prim.Native.String
use Prim.Native.String.{count as chars, ◌++◌}
use whiparc.Prelude.{
  ℕ, zero, suc, ◌+◌, String, Bool, true, false, ◌&&◌, ◌||◌, not, Option, none, some, List, [], ◌∷◌,
  map, ◌≡◌, refl, ◌-◌, ◌==◌, contains, if◌then◌else◌, leb, eqb,
}
use whiparc.Prelude.Text.{is_space, cat}

-- `\w`
unfoldable pub is_word : ℕ → Bool
is_word c =
    (leb b'a' c && leb c b'z')
    || (leb b'A' c && leb c b'Z')
    || (leb b'0' c && leb c b'9')
    || eqb c b'_'

-- The longest run of characters that pass a test, and what follows it.
unfoldable pub span : (ℕ → Bool) → String → String × String
span p String.[] = ("", "")
span p (String.◌∷◌ c s) =
    let rest = span p s in
    if p (code c) then (String.◌∷◌ c rest.0, rest.1) else ("", String.◌∷◌ c s)

-- Does the text begin with another one?
unfoldable pub begins : String → String → Bool
begins s String.[] = true
begins String.[] (String.◌∷◌ d t) = false
begins (String.◌∷◌ c s) (String.◌∷◌ d t) = eqb (code c) (code d) && begins s t

unfoldable pub drop : ℕ → String → String
drop zero s = s
drop (suc n) String.[] = ""
drop (suc n) (String.◌∷◌ c s) = drop n s

-- What `\s*([\w_]+)\s*}}` matches after two braces: the name, and how many characters.
unfoldable pub match_name : String → Option (String × ℕ)
unfolding span is_space is_word begins
match_name s =
    let (before, rest) = span is_space s in
    let (name, more) = span is_word rest in
    let (after, close) = span is_space more in
    if not (name == "") && begins close "}}"
    then some (name, chars before + chars name + chars after + 2)
    else none

-- The whole expression at the beginning of a text.
unfoldable pub match_variable : String → Option (String × ℕ)
unfolding begins drop
match_variable s = if begins s "{{" then match_name (drop 2 s) else none

-- The `exec` loop: the names of the matches, left to right. `skip` characters belong to the last
-- match.
unfoldable pub matches : ℕ → String → List String
unfolding match_variable
matches skip String.[] = []
matches (suc skip) (String.◌∷◌ c s) = matches skip s
matches zero (String.◌∷◌ c s) = elim (match_variable (String.◌∷◌ c s)) [
  | none ↦ matches zero s
  | some (name, size) ↦ name ∷ matches (size + 1) s
]

abbrev append_one : List String → String → List String
append_one [] v = v ∷ []
append_one (x ∷ xs) v = x ∷ append_one xs v

-- `foundVariables`, a set in order of insertion
unfoldable pub add_new : List String → List String → List String
add_new found [] = found
add_new found (v ∷ vs) = add_new (if contains found v then found else append_one found v) vs

unfoldable pub found_variables : String → List String
unfolding matches add_new
found_variables yaml = add_new [] (matches zero yaml)

unfoldable pub vars_block : List String → String
unfolding cat
vars_block vs =
    cat ("  vars:\n" ∷ map (λ v. cat ("    " ∷ v ∷ ": \"REPLACE_ME_OR_USE_VAULT\"\n" ∷ [])) vs)

-- `text.replace(pattern, replacement)`: the first occurrence. No `$` stands in the replacement.
unfoldable pub replace_first : String → String → String → String
unfolding begins drop
replace_first pattern replacement String.[] = ""
replace_first pattern replacement (String.◌∷◌ c s) =
    let later = String.◌∷◌ c (replace_first pattern replacement s) in
    if begins (String.◌∷◌ c s) pattern
    then replacement ++ drop (chars pattern) (String.◌∷◌ c s)
    else later

unfoldable pub declare_variables : String → String
unfolding found_variables vars_block replace_first
declare_variables yaml = elim (found_variables yaml) [
  | [] ↦ yaml
  | v ∷ vs ↦ replace_first "  tasks:\n" (vars_block (v ∷ vs) ++ "\n  tasks:\n") yaml
]

declare_test :
    declare_variables "  tasks:\n x: {{ a }} {{b}} {{a}} {{ b c }}"
    ≡ "  vars:\n    a: \"REPLACE_ME_OR_USE_VAULT\"\n    b: \"REPLACE_ME_OR_USE_VAULT\"\n\n  tasks:\n x: {{ a }} {{b}} {{a}} {{ b c }}"
unfolding declare_variables match_name
declare_test = refl
