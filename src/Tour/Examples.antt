-- ===== src/Tour/Examples.antt =====
-- A card on a laptop's screen, in pixels of two units.
use whiparc.Prelude.{refl, some, arith}
use whiparc.Prelude.Int.{pos, ◌+ℤ◌, ◌-ℤ◌}
use whiparc.Tour.{right, Box, Size, place_popover}
use whiparc.Tour.Inside.{IsInside, place_popover-IsInside}
use whiparc.Tour.Clear.{IsClear, place_popover-IsClear}

abbrev viewport : Size
viewport = record { half_w = 1280; half_h = 800 }

abbrev card : Size
card = record { half_w = 340; half_h = 220 }

abbrev sidebar : Box
sidebar = record { top_edge = pos 140; left_edge = pos 8; half_width = 208; half_height = 300 }

place_popover-IsInside_example :
    IsInside 2 card viewport (place_popover 2 card viewport (some sidebar) right)
unfolding ◌+ℤ◌ ◌-ℤ◌
place_popover-IsInside_example =
    place_popover-IsInside 2 card viewport (some sidebar) right (omega arith, omega arith)
      ((omega arith, omega arith, omega arith, omega arith), tt)

place_popover-IsClear_example :
    IsClear 2 card viewport sidebar right (place_popover 2 card viewport (some sidebar) right)
unfolding place_popover ◌+ℤ◌ ◌-ℤ◌
place_popover-IsClear_example = place_popover-IsClear 2 card viewport sidebar right right refl
