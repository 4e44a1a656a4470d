-- ===== src/Prelude/Text.antt =====
-- The methods of JavaScript's `String` and `Number` that the program calls.
use Prim.Native.Char.{Char, code}
use Prim.Native.String.{String, ◌++◌}
use Prim.Native.Nat.{ℕ, zero, suc, ◌/◌, ◌%◌}
use mathlib.Core.Bool.{Bool, true, ◌||◌, ◌&&◌}
use mathlib.Core.List.{List, [], ◌∷◌}
use mathlib.Core.Path.{◌≡◌, refl}
use text.Mathlib.Text.{◌==◌, starts_with}
use whiparc.Prelude.Tests.{if◌then◌else◌, eqb, leb, ltb}

-- What `\s` matches and `trim` takes off.
unfoldable pub is_space : ℕ → Bool
is_space c =
    (leb 9 c && leb c 13)
    || eqb c 32
    || eqb c 0xA0
    || eqb c 0x1680
    || (leb 0x2000 c && leb c 0x200A)
    || eqb c 0x2028
    || eqb c 0x2029
    || eqb c 0x202F
    || eqb c 0x205F
    || eqb c 0x3000
    || eqb c 0xFEFF

unfoldable pub trim_start : String → String
unfolding is_space
trim_start String.[] = String.[]
trim_start (String.◌∷◌ c s) =
    let rest = trim_start s in if is_space (code c) then rest else String.◌∷◌ c s

unfoldable pub trim_end : String → String
unfolding is_space
trim_end String.[] = String.[]
trim_end (String.◌∷◌ c s) =
    let rest = trim_end s in
    if is_space (code c) && rest == "" then String.[] else String.◌∷◌ c rest

-- `s.trim()`
unfoldable pub trim : String → String
unfolding trim_start trim_end
trim s = trim_end (trim_start s)

-- `s.includes(t)`
unfoldable pub includes : String → String → Bool
includes String.[] t = starts_with String.[] t
includes (String.◌∷◌ c s) t = starts_with (String.◌∷◌ c s) t || includes s t

-- Puts a character before the first of some pieces.
abbrev pub extend : Char → List String → List String
extend c [] = String.◌∷◌ c String.[] ∷ []
extend c (p ∷ ps) = String.◌∷◌ c p ∷ ps

-- `s.split(sep)`, for a separator of one character
unfoldable pub split : ℕ → String → List String
split sep String.[] = String.[] ∷ []
split sep (String.◌∷◌ c s) =
    let rest = split sep s in if eqb (code c) sep then String.[] ∷ rest else extend c rest

-- `parts.join(sep)`
unfoldable pub join : String → List String → String
join sep [] = String.[]
join sep (p ∷ []) = p
join sep (p ∷ q ∷ ps) = p ++ (sep ++ join sep (q ∷ ps))

-- The pieces of a template literal, one after the other.
unfoldable pub cat : List String → String
cat [] = String.[]
cat (p ∷ ps) = p ++ cat ps

-- `if (b) text += s`, as what is added
abbrev pub text_if : Bool → String → String
text_if b s = if b then s else ""

digit : ℕ → String
digit n =
    if eqb n 0
    then "0"
    else if eqb n 1
    then "1"
    else if eqb n 2
    then "2"
    else if eqb n 3
    then "3"
    else if eqb n 4
    then "4"
    else if eqb n 5
    then "5"
    else if eqb n 6
    then "6"
    else if eqb n 7
    then "7"
    else if eqb n 8
    then "8"
    else "9"

-- The digits of a number before `rest`, most significant first. There are no more digits than
-- the number plus one, which is the fuel that `decimal` gives.
digits_onto : ℕ → ℕ → String → String
unfolding digit
digits_onto zero n rest = rest
digits_onto (suc fuel) n rest =
    let shown = digit (n % 10) ++ rest in
    let more = digits_onto fuel (n / 10) shown in if ltb n 10 then shown else more

-- `String(n)`
unfoldable pub decimal : ℕ → String
unfolding digits_onto
decimal n = digits_onto (suc n) n ""

decimal_tests : (decimal 0 ≡ "0") × (decimal 4096 ≡ "4096")
unfolding decimal
decimal_tests = (refl, refl)

text_tests :
    (trim " a b\n" ≡ "a b")
    × (includes "Install Nginx" "Ngi" ≡ true)
    × (join ";" (split b',' "x, y,") ≡ "x; y;")
unfolding trim includes split join
text_tests = (refl, refl, refl)
