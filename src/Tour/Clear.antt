-- ===== src/Tour/Clear.antt =====
-- The card of a tour beside its target does not cover it.
use mathlib.Core.Path.{subst}
use whiparc.Prelude.{
  ℕ, ◌≡◌, refl, Bool, true, false, none, some, List, [], ◌∷◌, inl, inr, Option-cases, Bool-cases,
  if◌then◌else◌,
}
use whiparc.Prelude.Int.{◌+ℤ◌, ◌-ℤ◌, ◌≤ℤ◌, leb_int, int_laws}
use whiparc.Tour.{
  Placement, right, bottom, left, top, beside, Box, Size, Placed, double, order, tour_gap,
  tour_margin, tour_sheet_below, max_left, max_top, try_side, over_target, try_sides, docked,
  place_popover,
}

module _ (unit : ℕ) (pop vp : Size) (b : Box) where
  -- The gap is between the target and the card.
  pub IsClear : Placement → Placed → Type 0
  IsClear right p = (b.left_edge +ℤ double b.half_width +ℤ tour_gap unit) ≤ℤ p.left_at
  IsClear left p = (p.left_at +ℤ double pop.half_w +ℤ tour_gap unit) ≤ℤ b.left_edge
  IsClear bottom p = (b.top_edge +ℤ double b.half_height +ℤ tour_gap unit) ≤ℤ p.top_at
  IsClear top p = (p.top_at +ℤ double pop.half_h +ℤ tour_gap unit) ≤ℤ b.top_edge

  -- Beside the target on the side that it says.
  IsBeside : Placed → Type 0
  IsBeside p = (s : Placement) → p.spot ≡ beside s → IsClear s p

  accepted :
      (t : Bool) (q p : Placed) (s : Placement)
      → IsClear s q
      → q.spot ≡ beside s
      → (if t then some q else none) ≡ some p
      → IsBeside p
  unfolding IsBeside
  accepted true q p s clear at h s' at' =
      let same : q ≡ p = cc in
      let side : s ≡ s' = cc in subst (λ x. IsClear x p) side (subst (IsClear s) same clear)
  accepted false q p s clear at h s' at' = absurd cc

  try_side-IsBeside : (s : Placement) (p : Placed) → try_side unit pop vp b s ≡ some p → IsBeside p
  unfolding try_side IsClear
  try_side-IsBeside right p h =
      accepted
        (leb_int (b.left_edge +ℤ double b.half_width +ℤ tour_gap unit) (max_left unit pop vp)) _ p
        right (omega int_laws) refl h
  try_side-IsBeside left p h =
      accepted (leb_int (tour_margin unit) (b.left_edge -ℤ tour_gap unit -ℤ double pop.half_w)) _ p
        left (omega int_laws) refl h
  try_side-IsBeside bottom p h =
      accepted (leb_int (b.top_edge +ℤ double b.half_height +ℤ tour_gap unit) (max_top unit pop vp))
        _ p bottom (omega int_laws) refl h
  try_side-IsBeside top p h =
      accepted (leb_int (tour_margin unit) (b.top_edge -ℤ tour_gap unit -ℤ double pop.half_h)) _ p
        top (omega int_laws) refl h

  try_sides-IsBeside : (ss : List Placement) → IsBeside (try_sides unit pop vp b ss)
  unfolding try_sides over_target IsBeside
  try_sides-IsBeside [] = λ s at. absurd cc
  try_sides-IsBeside (x ∷ ss) = elim (Option-cases (try_side unit pop vp b x)) [
    | inl e ↦ rw (e, try_sides) (try_sides-IsBeside ss)
    | inr (p, e) ↦ rw (e, try_sides) (try_side-IsBeside x p e)
  ]

  docked-IsBeside : IsBeside (docked unit pop vp b)
  unfolding docked IsBeside
  docked-IsBeside s at = absurd cc

  popover-IsBeside :
      (preferred : Placement) → IsBeside (place_popover unit pop vp (some b) preferred)
  unfolding place_popover
  popover-IsBeside preferred =
      elim (Bool-cases (leb_int (tour_sheet_below unit) (double vp.half_w))) [
        | inl wide ↦ rw wide (try_sides-IsBeside (order preferred))
        | inr narrow ↦ rw narrow docked-IsBeside
      ]

-- A card that is placed on a side of its target leaves the gap between them on that side.
pub place_popover-IsClear :
    (unit : ℕ) (pop vp : Size) (b : Box) (preferred s : Placement)
    → (place_popover unit pop vp (some b) preferred).spot ≡ beside s
    → IsClear unit pop vp b s (place_popover unit pop vp (some b) preferred)
unfolding IsBeside
place_popover-IsClear unit pop vp b preferred s at = popover-IsBeside unit pop vp b preferred s at
