-- ===== src/Tour.antt =====
-- Where the card of a guided tour goes: apps/web/app/lib/tourPlacement.ts. Positions are signed
-- integers and sizes are twice an integer, in a unit that divides the pixel `unit` times, so that
-- every division by 2 is exact; any screen positions have such a unit.
pub mod Inside
pub mod Clear
mod Examples
use whiparc.Prelude.{
  ℕ, ◌*◌, ◌≤◌, Bool, true, false, not, Option, none, some, List, [], ◌∷◌, if◌then◌else◌,
}
use whiparc.Prelude.Int.{ℤ, pos, negsuc, ◌+ℤ◌, ◌-ℤ◌, leb_int, min_int, max_int}

pub data Placement : Type 0 where
  right bottom left top : Placement

-- `Placed['placement']`
pub data Spot : Type 0 where
  beside : Placement → Spot
  center sheet overlap : Spot

-- `Box`, with the halves of its sizes.
pub record Box : Type 0 where
  pub top_edge : ℤ
  pub left_edge : ℤ
  pub half_width : ℕ
  pub half_height : ℕ

-- `Size`, with the halves.
pub record Size : Type 0 where
  pub half_w : ℕ
  pub half_h : ℕ

pub record Placed : Type 0 where
  pub top_at : ℤ
  pub left_at : ℤ
  pub spot : Spot

-- Twice a half.
abbrev pub double : ℕ → ℤ
double n = pos (2 * n)

-- `ORDER`
unfoldable pub order : Placement → List Placement
order right = right ∷ bottom ∷ left ∷ top ∷ []
order bottom = bottom ∷ top ∷ right ∷ left ∷ []
order left = left ∷ bottom ∷ right ∷ top ∷ []
order top = top ∷ bottom ∷ right ∷ left ∷ []

unfoldable pub clamp : ℤ → ℤ → ℤ → ℤ
clamp value low high = min_int (max_int value low) (max_int low high)

module _ (unit : ℕ) where
  -- `TOUR_GAP`, `TOUR_MARGIN` and `TOUR_SHEET_BELOW`
  abbrev pub tour_gap : ℤ
  tour_gap = pos (14 * unit)

  abbrev pub tour_margin : ℤ
  tour_margin = pos (16 * unit)

  abbrev pub tour_sheet_below : ℤ
  tour_sheet_below = pos (640 * unit)

  module _ (pop vp : Size) where
    -- `maxLeft`
    abbrev pub max_left : ℤ
    max_left = double vp.half_w -ℤ double pop.half_w -ℤ tour_margin

    -- `maxTop`
    abbrev pub max_top : ℤ
    max_top = double vp.half_h -ℤ double pop.half_h -ℤ tour_margin

    -- `(vp.w - pop.w) / 2`, between the margins
    unfoldable pub centered_left : ℤ
    unfolding clamp
    centered_left = clamp (pos vp.half_w -ℤ pos pop.half_w) tour_margin max_left

    unfoldable pub centered_top : ℤ
    unfolding clamp
    centered_top = clamp (pos vp.half_h -ℤ pos pop.half_h) tour_margin max_top

    module _ (target : Box) where
      -- `centerX`
      abbrev pub center_x : ℤ
      center_x = target.left_edge +ℤ pos target.half_width

      -- `centerY`
      abbrev pub center_y : ℤ
      center_y = target.top_edge +ℤ pos target.half_height

      -- `clamp(centerX - pop.w / 2, m, maxLeft)`
      unfoldable pub aligned_left : ℤ
      unfolding clamp
      aligned_left = clamp (center_x -ℤ pos pop.half_w) tour_margin max_left

      unfoldable pub aligned_top : ℤ
      unfolding clamp
      aligned_top = clamp (center_y -ℤ pos pop.half_h) tour_margin max_top

      -- A case of the `switch`; none where it breaks.
      unfoldable pub try_side : Placement → Option Placed
      unfolding aligned_left aligned_top
      try_side right =
          let x = target.left_edge +ℤ double target.half_width +ℤ tour_gap in
          if leb_int x max_left
          then some (record { top_at = aligned_top; left_at = x; spot = beside right })
          else none
      try_side left =
          let x = target.left_edge -ℤ tour_gap -ℤ double pop.half_w in
          if leb_int tour_margin x
          then some (record { top_at = aligned_top; left_at = x; spot = beside left })
          else none
      try_side bottom =
          let y = target.top_edge +ℤ double target.half_height +ℤ tour_gap in
          if leb_int y max_top
          then some (record { top_at = y; left_at = aligned_left; spot = beside bottom })
          else none
      try_side top =
          let y = target.top_edge -ℤ tour_gap -ℤ double pop.half_h in
          if leb_int tour_margin y
          then some (record { top_at = y; left_at = aligned_left; spot = beside top })
          else none

      -- What is left when no side has room.
      unfoldable pub over_target : Placed
      unfolding aligned_left
      over_target = record {
        top_at = max_int tour_margin max_top;
        left_at = aligned_left;
        spot = overlap;
      }

      -- The loop over the sides.
      unfoldable pub try_sides : List Placement → Placed
      unfolding try_side over_target
      try_sides [] = over_target
      try_sides (s ∷ ss) = elim (try_side s) [ some p ↦ p | none ↦ try_sides ss ]

      -- The card on a narrow screen: away from the target.
      unfoldable pub docked : Placed
      unfolding centered_left
      docked = record {
        top_at =
            max_int tour_margin (if leb_int center_y (pos vp.half_h) then max_top else tour_margin);
        left_at = centered_left;
        spot = sheet;
      }

    unfoldable pub place_popover : Option Box → Placement → Placed
    unfolding centered_left centered_top docked try_sides order
    place_popover none preferred = record {
      top_at = centered_top;
      left_at = centered_left;
      spot = center;
    }
    place_popover (some target) preferred =
        if leb_int tour_sheet_below (double vp.half_w)
        then try_sides target (order preferred)
        else docked target
