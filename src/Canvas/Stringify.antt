-- ===== src/Canvas/Stringify.antt =====
-- `JSON.stringify` on the values of a canvas. The keys of an object stand in order of insertion.
use Prim.Native.Char.{Char, code}
use Prim.Native.String.{◌++◌}
use whiparc.Prelude.{
  String, ℕ, ◌/◌, ◌%◌, true, false, List, [], ◌∷◌, ◌≡◌, refl, if◌then◌else◌, eqb, ltb,
}
use whiparc.Prelude.Text.{decimal, join, cat}
use whiparc.Canvas.Json.{
  Value, null, bool, num, str, arr, obj, Fields, end, field, Elements, element, last,
}

hex_digit : ℕ → String
hex_digit n =
    if ltb n 10
    then decimal n
    else if eqb n 10
    then "a"
    else if eqb n 11
    then "b"
    else if eqb n 12
    then "c"
    else if eqb n 13
    then "d"
    else if eqb n 14
    then "e"
    else "f"

-- A character of a text, escaped if need be.
unfoldable pub escaped : Char → String
unfolding hex_digit
escaped c =
    if eqb (code c) 34
    then "\\\""
    else if eqb (code c) 92
    then "\\\\"
    else if eqb (code c) 8
    then "\\b"
    else if eqb (code c) 9
    then "\\t"
    else if eqb (code c) 10
    then "\\n"
    else if eqb (code c) 12
    then "\\f"
    else if eqb (code c) 13
    then "\\r"
    else if ltb (code c) 32
    then "\\u00" ++ (hex_digit (code c / 16) ++ hex_digit (code c % 16))
    else String.◌∷◌ c String.[]

unfoldable pub escaped_text : String → String
unfolding escaped
escaped_text String.[] = ""
escaped_text (String.◌∷◌ c s) = escaped c ++ escaped_text s

unfoldable pub quoted : String → String
unfolding escaped_text
quoted s = "\"" ++ (escaped_text s ++ "\"")

unfoldable mutual
  unfolding quoted cat

  pub stringify : Value → String
  stringify null = "null"
  stringify (bool true) = "true"
  stringify (bool false) = "false"
  stringify (num n) = decimal n
  stringify (str s) = quoted s
  stringify (arr xs) = cat ("[" ∷ join "," (stringify_elements xs) ∷ "]" ∷ [])
  stringify (obj fs) = cat ("{" ∷ join "," (stringify_fields fs) ∷ "}" ∷ [])

  stringify_elements : Elements → List String
  stringify_elements last = []
  stringify_elements (element v xs) = stringify v ∷ stringify_elements xs

  stringify_fields : Fields → List String
  stringify_fields end = []
  stringify_fields (field k v fs) = cat (quoted k ∷ ":" ∷ stringify v ∷ []) ∷ stringify_fields fs

stringify_test :
    stringify
      (obj (field "a\n" (arr (element (num 80) (element null last))) (field "b" (str "\"") end)))
    ≡ "{\"a\\n\":[80,null],\"b\":\"\\\"\"}"
unfolding stringify decimal join
stringify_test = refl
