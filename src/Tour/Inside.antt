-- ===== src/Tour/Inside.antt =====
-- The card of a tour stays on the screen.
use mathlib.Core.Path.{subst}
use whiparc.Prelude.{
  ℕ, ◌*◌, ◌≡◌, refl, Bool, true, false, Option, none, some, List, [], ◌∷◌, All, inl, inr, arith,
  Option-cases, Bool-cases, if◌then◌else◌,
}
use whiparc.Prelude.Int.{ℤ, pos, ◌+ℤ◌, ◌-ℤ◌, ◌≤ℤ◌, leb_int, int_laws}
use whiparc.Tour.{
  Placement, right, bottom, left, top, Box, Size, Placed, double, order, clamp, tour_gap,
  tour_margin, tour_sheet_below, max_left, max_top, centered_left, centered_top, center_x, center_y,
  aligned_left, aligned_top, try_side, over_target, try_sides, docked, place_popover,
}

clamp_bounds :
    (v low high : ℤ) → low ≤ℤ high → (low ≤ℤ clamp v low high) × (clamp v low high ≤ℤ high)
unfolding clamp
clamp_bounds v low high h = ground arith

leb_int-le : (a b : ℤ) → leb_int a b ≡ true → a ≤ℤ b
leb_int-le a b h = ground arith

module _ (unit : ℕ) (pop vp : Size) where
  -- The card fits between the margins of the viewport.
  abbrev pub Fits : Type 0
  Fits = (tour_margin unit ≤ℤ max_left unit pop vp) × (tour_margin unit ≤ℤ max_top unit pop vp)

  -- Two pixels of the target, at least, are on the screen in each direction.
  abbrev pub IsOnScreen : Box → Type 0
  IsOnScreen b =
      (pos (2 * unit) ≤ℤ (b.left_edge +ℤ double b.half_width))
      × ((b.left_edge +ℤ pos (2 * unit)) ≤ℤ double vp.half_w)
      × (pos (2 * unit) ≤ℤ (b.top_edge +ℤ double b.half_height))
      × ((b.top_edge +ℤ pos (2 * unit)) ≤ℤ double vp.half_h)

  -- The whole card is between the margins.
  pub IsInside : Placed → Type 0
  IsInside p =
      (tour_margin unit ≤ℤ p.left_at)
      × (p.left_at ≤ℤ max_left unit pop vp)
      × (tour_margin unit ≤ℤ p.top_at)
      × (p.top_at ≤ℤ max_top unit pop vp)

  accepted :
      (b : Bool) (q p : Placed)
      → (b ≡ true → IsInside q)
      → (if b then some q else none) ≡ some p
      → IsInside p
  accepted true q p f h = subst IsInside (let same : q ≡ p = cc in same) (f refl)
  accepted false q p f h = absurd cc

  module _ (fits : Fits) (b : Box) where
    aligned_left-bounds :
        (tour_margin unit ≤ℤ aligned_left unit pop vp b)
        × (aligned_left unit pop vp b ≤ℤ max_left unit pop vp)
    unfolding aligned_left
    aligned_left-bounds =
        clamp_bounds (center_x unit pop vp b -ℤ pos pop.half_w) (tour_margin unit)
          (max_left unit pop vp) fits.0

    aligned_top-bounds :
        (tour_margin unit ≤ℤ aligned_top unit pop vp b)
        × (aligned_top unit pop vp b ≤ℤ max_top unit pop vp)
    unfolding aligned_top
    aligned_top-bounds =
        clamp_bounds (center_y unit pop vp b -ℤ pos pop.half_h) (tour_margin unit)
          (max_top unit pop vp) fits.1

    try_side-IsInside :
        (s : Placement) (p : Placed) → IsOnScreen b → try_side unit pop vp b s ≡ some p → IsInside p
    unfolding try_side IsInside
    try_side-IsInside right p on h =
        accepted
          (leb_int (b.left_edge +ℤ double b.half_width +ℤ tour_gap unit) (max_left unit pop vp)) _ p
          (λ room. (
            omega (int_laws, on.0),
            leb_int-le (b.left_edge +ℤ double b.half_width +ℤ tour_gap unit) (max_left unit pop vp)
                room,
            aligned_top-bounds.0,
            aligned_top-bounds.1,
          ))
          h
    try_side-IsInside left p on h =
        accepted (leb_int (tour_margin unit) (b.left_edge -ℤ tour_gap unit -ℤ double pop.half_w)) _
          p
          (λ room. (
            leb_int-le (tour_margin unit) (b.left_edge -ℤ tour_gap unit -ℤ double pop.half_w) room,
            omega (int_laws, on.1),
            aligned_top-bounds.0,
            aligned_top-bounds.1,
          ))
          h
    try_side-IsInside bottom p on h =
        accepted
          (leb_int (b.top_edge +ℤ double b.half_height +ℤ tour_gap unit) (max_top unit pop vp)) _ p
          (λ room. (
            aligned_left-bounds.0,
            aligned_left-bounds.1,
            omega (int_laws, on.2),
            leb_int-le (b.top_edge +ℤ double b.half_height +ℤ tour_gap unit) (max_top unit pop vp)
                room,
          ))
          h
    try_side-IsInside top p on h =
        accepted (leb_int (tour_margin unit) (b.top_edge -ℤ tour_gap unit -ℤ double pop.half_h)) _ p
          (λ room. (
            aligned_left-bounds.0,
            aligned_left-bounds.1,
            leb_int-le (tour_margin unit) (b.top_edge -ℤ tour_gap unit -ℤ double pop.half_h) room,
            omega (int_laws, on.3),
          ))
          h

    over_target-IsInside : IsInside (over_target unit pop vp b)
    unfolding over_target IsInside
    over_target-IsInside =
        let t = fits.1 in (aligned_left-bounds.0, aligned_left-bounds.1, ground arith, ground arith)

    try_sides-IsInside :
        (ss : List Placement) → IsOnScreen b → IsInside (try_sides unit pop vp b ss)
    unfolding try_sides
    try_sides-IsInside [] on = over_target-IsInside
    try_sides-IsInside (s ∷ ss) on = elim (Option-cases (try_side unit pop vp b s)) [
      | inl e ↦ rw (e, try_sides) (try_sides-IsInside ss on)
      | inr (p, e) ↦ rw (e, try_sides) (try_side-IsInside s p on e)
    ]

    docked-IsInside : IsInside (docked unit pop vp b)
    unfolding docked centered_left IsInside
    docked-IsInside =
        let t = fits.1 in
        let across =
          clamp_bounds (pos vp.half_w -ℤ pos pop.half_w) (tour_margin unit) (max_left unit pop vp)
            fits.0 in
        (across.0, across.1, ground arith, ground arith)

abbrev pub of_option {ℓ} : {A : Type ℓ} → Option A → List A
of_option none = []
of_option (some a) = a ∷ []

-- The card is inside the margins of the viewport, whatever side is preferred: if it fits between
-- them and if a target, where the step has one, is on the screen.
pub place_popover-IsInside :
    (unit : ℕ) (pop vp : Size) (target : Option Box) (preferred : Placement)
    → Fits unit pop vp
    → All (IsOnScreen unit pop vp) (of_option target)
    → IsInside unit pop vp (place_popover unit pop vp target preferred)
unfolding place_popover centered_left centered_top IsInside
place_popover-IsInside unit pop vp none preferred fits on =
    let across =
      clamp_bounds (pos vp.half_w -ℤ pos pop.half_w) (tour_margin unit) (max_left unit pop vp)
        fits.0 in
    let down =
      clamp_bounds (pos vp.half_h -ℤ pos pop.half_h) (tour_margin unit) (max_top unit pop vp)
        fits.1 in
    (across.0, across.1, down.0, down.1)
place_popover-IsInside unit pop vp (some b) preferred fits on =
    elim (Bool-cases (leb_int (tour_sheet_below unit) (double vp.half_w))) [
      | inl wide ↦ rw wide (try_sides-IsInside unit pop vp fits b (order preferred) on.0)
      | inr narrow ↦ rw narrow (docked-IsInside unit pop vp fits b)
    ]
