-- ===== src/Prelude/Number.antt =====
-- JavaScript's `Number(s)` on texts, as far as the program asks: is the result a number?
use Prim.Native.Char.{code}
use whiparc.Prelude.Tests.{if◌then◌else◌, leb, eqb}
use Prim.Native.Nat.{ℕ}
use Prim.Native.String.{String}
use mathlib.Core.Bool.{Bool, true, false, not, ◌&&◌, ◌||◌}
use mathlib.Core.Path.{◌≡◌, refl}
use text.Mathlib.Text.{◌==◌}

unfoldable is_digit : ℕ → Bool
is_digit c = leb b'0' c && leb c b'9'

unfoldable is_hex : ℕ → Bool
unfolding is_digit
is_hex c = is_digit c || (leb b'a' c && leb c b'f') || (leb b'A' c && leb c b'F')

unfoldable is_octal : ℕ → Bool
is_octal c = leb b'0' c && leb c b'7'

unfoldable is_binary : ℕ → Bool
is_binary c = eqb c b'0' || eqb c b'1'

-- Every character passes a test, and there is one.
unfoldable every_char : (ℕ → Bool) → String → Bool
every_char p String.[] = true
every_char p (String.◌∷◌ c s) = p (code c) && every_char p s

unfoldable some_and_every : (ℕ → Bool) → String → Bool
unfolding every_char
some_and_every p s = not (s == "") && every_char p s

unfoldable after_sign : String → String
after_sign String.[] = ""
after_sign (String.◌∷◌ c s) = if eqb (code c) b'+' || eqb (code c) b'-' then s else String.◌∷◌ c s

-- What follows the leading digits.
unfoldable after_digits : String → String
unfolding is_digit
after_digits String.[] = ""
after_digits (String.◌∷◌ c s) =
    let rest = after_digits s in if is_digit (code c) then rest else String.◌∷◌ c s

unfoldable begins_with_digit : String → Bool
unfolding is_digit
begins_with_digit String.[] = false
begins_with_digit (String.◌∷◌ c s) = is_digit (code c)

-- An exponent, or nothing.
unfoldable is_exponent : String → Bool
unfolding some_and_every is_digit after_sign
is_exponent String.[] = true
is_exponent (String.◌∷◌ c s) =
    (eqb (code c) b'e' || eqb (code c) b'E') && some_and_every is_digit (after_sign s)

-- What may follow the integer digits; the flag says whether there were any.
unfoldable is_fraction : Bool → String → Bool
unfolding is_exponent after_digits begins_with_digit
is_fraction whole String.[] = whole
is_fraction whole (String.◌∷◌ c s) =
    if eqb (code c) b'.'
    then (whole || begins_with_digit s) && is_exponent (after_digits s)
    else whole && is_exponent (String.◌∷◌ c s)

unfoldable is_decimal : String → Bool
unfolding after_sign is_fraction after_digits begins_with_digit
is_decimal s =
    after_sign s == "Infinity"
    || is_fraction (begins_with_digit (after_sign s)) (after_digits (after_sign s))

-- A literal with a prefix, which has no sign.
unfoldable is_prefixed : String → Bool
unfolding some_and_every is_hex is_octal is_binary
is_prefixed (String.◌∷◌ z (String.◌∷◌ c s)) =
    eqb (code z) b'0'
    && (((eqb (code c) b'x' || eqb (code c) b'X') && some_and_every is_hex s)
        || ((eqb (code c) b'o' || eqb (code c) b'O') && some_and_every is_octal s)
        || ((eqb (code c) b'b' || eqb (code c) b'B') && some_and_every is_binary s))
is_prefixed _ = false

-- `!isNaN(Number(s))`, for a text without outer white space
unfoldable pub is_number : String → Bool
unfolding is_decimal is_prefixed
is_number s = s == "" || is_decimal s || is_prefixed s

number_tests :
    (is_number "8080" ≡ true)
    × (is_number "-1.5e3" ≡ true)
    × (is_number "0x1F" ≡ true)
    × (is_number ".5" ≡ true)
    × (is_number "." ≡ false)
    × (is_number "80a" ≡ false)
    × (is_number "1e" ≡ false)
    × (is_number "-0x1" ≡ false)
unfolding is_number
number_tests = (refl, refl, refl, refl, refl, refl, refl, refl)
