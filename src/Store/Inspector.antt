-- ===== src/Store/Inspector.antt =====
-- What the inspector writes to an edge is what the canvas then shows.
use whiparc.Prelude.{ℕ, String, ◌≡◌, Bool, none, some, arith, ◌==◌, eq_iff, if◌then◌else◌}
use text.Mathlib.TextPositions.{eq_refl}
use whiparc.Canvas.{Look}
use whiparc.Canvas.Design.{edge_custom_stroke, edge_stroke_width, custom_of}
use whiparc.Store.{restyle, or_empty}

restyle-stroke :
    (label : String) (animated : Bool) (stroke : String) (width : ℕ) (e : Look)
    → or_empty (edge_custom_stroke (restyle label animated stroke width e)) ≡ stroke
unfolding restyle edge_custom_stroke custom_of
restyle-stroke label animated stroke width e =
    ground (arith, eq_iff stroke "", eq_iff stroke (or_empty (edge_custom_stroke e)))

restyle-width :
    (label : String) (animated : Bool) (stroke : String) (width : ℕ) (e : Look)
    → edge_stroke_width (restyle label animated stroke width e) ≡ width
unfolding restyle edge_stroke_width
restyle-width label animated stroke width e = ground arith

-- After an edit the connector shows the colour and the thickness that the inspector sent, an
-- empty colour meaning the automatic one, whatever was stored before.
restyle_shows :
    (label : String) (animated : Bool) (stroke : String) (width : ℕ) (e : Look)
    → (or_empty (edge_custom_stroke (restyle label animated stroke width e)) ≡ stroke)
      × (edge_stroke_width (restyle label animated stroke width e) ≡ width)
unfolding restyle
restyle_shows label animated stroke width e =
    (restyle-stroke label animated stroke width e, restyle-width label animated stroke width e)

-- Sending back what is shown leaves the stored style and its marks as they are: an edit of the
-- label or of the dashes makes no override.
pub restyle_round_trip :
    (label : String) (animated : Bool) (e : Look)
    → restyle label animated (or_empty (edge_custom_stroke e)) (edge_stroke_width e) e ≡ record e {
      label = if label == "" then none else some label;
      animated = some animated;
      class_name = some (if animated then "animate-dash-flow" else "");
    }
unfolding restyle edge_custom_stroke custom_of
restyle_round_trip label animated e = ground (arith, eq_refl (or_empty (edge_custom_stroke e)))
