-- ===== src/Canvas/Design.antt =====
-- apps/web/app/lib/canvasDesign.ts: which colour and thickness of a connector are the user's.
use Prim.Native.Char.{code}
use whiparc.Prelude.{
  ℕ, ◌-◌, String, ◌≡◌, refl, Bool, true, false, ◌&&◌, ◌||◌, Option, none, some, List, [], ◌∷◌, ◌==◌,
  starts_with, any, leb, eqb, if◌then◌else◌,
}
use whiparc.Canvas.{Look}

-- `DEFAULT_EDGE_WIDTH`, 1.5 pixels
abbrev pub default_edge_width : ℕ
default_edge_width = 15

-- The letters a to f, which are all that the legacy colours have, in upper case.
upper : ℕ → ℕ
upper c = if leb b'a' c && leb c b'z' then c - 32 else c

upper_codes : String → List ℕ
unfolding upper
upper_codes String.[] = []
upper_codes (String.◌∷◌ c s) = upper (code c) ∷ upper_codes s

same_codes : List ℕ → List ℕ → Bool
same_codes [] [] = true
same_codes (x ∷ xs) (y ∷ ys) = eqb x y && same_codes xs ys
same_codes _ _ = false

abbrev legacy_auto_strokes : List String
legacy_auto_strokes = "#8B5CF6" ∷ "#F59E0B" ∷ "#14B8A6" ∷ "#0EA5E9" ∷ "#6366F1" ∷ "#FF6A3D" ∷ []

-- `stroke.startsWith('url(') || LEGACY_AUTO_STROKES.has(stroke.toUpperCase())`
unfoldable pub is_auto : String → Bool
unfolding upper_codes same_codes any
is_auto stroke =
    starts_with stroke "url("
    || any (λ l. same_codes (upper_codes l) (upper_codes stroke)) legacy_auto_strokes

-- `Boolean(flag)` for a flag that may be absent
abbrev pub is_set : Option Bool → Bool
is_set none = false
is_set (some b) = b

unfoldable pub custom_of : Bool → String → Option String
custom_of flag stroke =
    if stroke == ""
    then none
    else if flag
    then some stroke
    else if is_auto stroke
    then none
    else some stroke

unfoldable pub edge_custom_stroke : Look → Option String
unfolding custom_of
edge_custom_stroke e = elim e.stroke [ none ↦ none | some s ↦ custom_of (is_set e.custom_stroke) s ]

unfoldable pub edge_custom_width : Look → Option ℕ
edge_custom_width e = if is_set e.custom_width then e.stroke_width else none

unfoldable pub edge_stroke_width : Look → ℕ
unfolding edge_custom_width
edge_stroke_width e = elim (edge_custom_width e) [ none ↦ default_edge_width | some w ↦ w ]

legacy_test :
    edge_custom_stroke (record {
      label = none;
      animated = none;
      class_name = none;
      stroke = some "#f59e0b";
      stroke_width = none;
      custom_stroke = none;
      custom_width = none;
    })
    ≡ none
unfolding edge_custom_stroke is_auto
legacy_test = refl
