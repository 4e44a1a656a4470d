-- ===== src/Dashboard/Percent.antt =====
-- Percentages, rounded to the nearest: `Math.round((part / all) * 100)` of
-- apps/web/app/dashboard/DashboardV2.tsx and apps/web/app/runs/RunsPageV2.tsx.
use whiparc.Prelude.{ℕ, ◌+◌, ◌*◌, ◌/◌, ◌≤◌, ◌<◌, arith}
use native.Mathlib.Nat.{div-lt_iff_lt-mul}

-- The quotient is exact, and half a percent is rounded up.
unfoldable pub percent : (part all : ℕ) → ℕ
percent part all = (200 * part + all) / (2 * all)

-- A part of what is not nothing is at most 100 percent.
pub percent-bounded : (part all : ℕ) → part ≤ all → 1 ≤ all → percent part all < 101
unfolding percent
percent-bounded part all low positive =
    (div-lt_iff_lt-mul (omega (arith, positive))).1 (omega (arith, low, positive))
