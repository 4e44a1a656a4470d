-- ===== src/Canvas/Json.antt =====
-- The JSON-shaped values of a node's `data`, with JavaScript's truthiness and conversion to text.
-- Numbers are natural numbers: ports, sizes and counts.
use whiparc.Prelude.{
  ℕ, String, Bool, true, false, not, Option, none, some, ◌==◌, if◌then◌else◌, List, [], ◌∷◌, eqb,
}
use whiparc.Prelude.Text.{decimal, join}

mutual
  -- The properties of an object, in order of insertion.
  pub data Fields : Type 0 where
    end : Fields
    field : String → Value → Fields → Fields

  pub data Value : Type 0 where
    str : String → Value
    bool : Bool → Value
    obj : Fields → Value
    num : ℕ → Value
    null : Value
    arr : Elements → Value

  -- The elements of an array.
  pub data Elements : Type 0 where
    last : Elements
    element : Value → Elements → Elements

-- `fields[key]`
unfoldable pub lookup : String → Fields → Option Value
lookup key end = none
lookup key (field k v fs) = let rest = lookup key fs in if k == key then some v else rest

-- `{ ...fields, [key]: v }`
unfoldable pub insert : String → Value → Fields → Fields
insert key v end = field key v end
insert key v (field k w fs) = if k == key then field k v fs else field k w (insert key v fs)

-- `{ ...fields, ...news }`
unfoldable pub merge : Fields → Fields → Fields
merge fs end = fs
merge fs (field k v news) = merge (insert k v fs) news

-- `Boolean(v)`
unfoldable pub truthy : Value → Bool
truthy null = false
truthy (bool b) = b
truthy (num n) = not (eqb n 0)
truthy (str s) = not (s == "")
truthy (arr xs) = true
truthy (obj fs) = true

-- `Boolean(v)` for a field that may be absent
unfoldable pub truthy? : Option Value → Bool
unfolding truthy
truthy? none = false
truthy? (some v) = truthy v

-- `a || b`
unfoldable pub or_else : Option Value → Option Value → Option Value
or_else a b = if truthy? a then a else b

unfoldable mutual
  -- `${v}`
  pub shown : Value → String
  shown null = "null"
  shown (bool true) = "true"
  shown (bool false) = "false"
  shown (num n) = decimal n
  shown (str s) = s
  shown (arr xs) = join "," (shown_elements xs)
  shown (obj fs) = "[object Object]"

  -- The texts that `join` makes of the elements: nothing for `null`.
  shown_elements : Elements → List String
  shown_elements last = []
  shown_elements (element null xs) = "" ∷ shown_elements xs
  shown_elements (element v xs) = shown v ∷ shown_elements xs
