-- ===== src/Dashboard/Sparkline.antt =====
-- The bars of the sparkline: every run of the week is in one, and every bar fits.
use whiparc.Prelude.{
  ℕ, zero, suc, ◌+◌, ◌≤◌, ◌<◌, String, ◌≡◌, refl, ap, ◌∙◌, List, [], ◌∷◌, map, arith, length, All,
  length-map,
}
use whiparc.Dashboard.Percent.{percent-bounded}
use whiparc.Dashboard.Runs.{
  RunRow, last_7d, larger, bucket, bump, fill, spark_buckets, max_bucket, spark_height, sparkline,
}

abbrev pub total : List ℕ → ℕ
total [] = 0
total (n ∷ ns) = n + total ns

total-bump : (i : ℕ) (ns : List ℕ) → i < length ns → total (bump i ns) ≡ suc (total ns)
unfolding bump
total-bump i [] h = absurd (omega arith)
total-bump zero (n ∷ ns) h = omega arith
total-bump (suc i) (n ∷ ns) h = omega (arith, total-bump i ns (omega arith))

length-bump : (i : ℕ) (ns : List ℕ) → length (bump i ns) ≡ length ns
unfolding bump
length-bump i [] = refl
length-bump zero (n ∷ ns) = refl
length-bump (suc i) (n ∷ ns) = ap suc (length-bump i ns)

bucket_bounded : (time : String → ℕ) (now : ℕ) (r : RunRow) → bucket time now r < 7
unfolding bucket
bucket_bounded time now r = omega arith

total-fill :
    (time : String → ℕ) (now : ℕ) (rs : List RunRow) (ns : List ℕ)
    → length ns ≡ 7
    → (total (fill time now rs ns) ≡ length rs + total ns) × (length (fill time now rs ns) ≡ 7)
unfolding fill
total-fill time now [] ns h = (omega arith, h)
total-fill time now (r ∷ rs) ns h =
    let i = bucket time now r in
    let rest = total-fill time now rs (bump i ns) (length-bump i ns ∙ h) in
    let bound = bucket_bounded time now r in
    let more = total-bump i ns (omega (arith, h)) in (omega (arith, rest.0, more), rest.1)

-- Every run of the last seven days is counted in one of the seven buckets.
spark_buckets-total :
    (time : String → ℕ) (now : ℕ) (runs : List RunRow)
    → (total (spark_buckets time now runs) ≡ length (last_7d time now runs))
      × (length (spark_buckets time now runs) ≡ 7)
unfolding spark_buckets
spark_buckets-total time now runs =
    let filled =
      total-fill time now (last_7d time now runs) (0 ∷ 0 ∷ 0 ∷ 0 ∷ 0 ∷ 0 ∷ 0 ∷ []) refl in
    (omega (arith, filled.0), filled.1)

max_bucket-positive : (ns : List ℕ) → 1 ≤ max_bucket ns
unfolding max_bucket
max_bucket-positive [] = omega arith
max_bucket-positive (n ∷ ns) = ground (arith, max_bucket-positive ns)

larger_max : (n m : ℕ) → (n ≤ larger n m) × (m ≤ larger n m)
larger_max n m = (grind arith, grind arith)

weaken_bounds : (m k : ℕ) (ns : List ℕ) → m ≤ k → All (λ n. n ≤ m) ns → All (λ n. n ≤ k) ns
weaken_bounds m k [] h all = tt
weaken_bounds m k (n ∷ ns) h (low, all) = (omega (arith, low, h), weaken_bounds m k ns h all)

-- Every bucket is at most the greatest.
max_bucket_bounds : (ns : List ℕ) → All (λ n. n ≤ max_bucket ns) ns
unfolding max_bucket
max_bucket_bounds [] = tt
max_bucket_bounds (n ∷ ns) =
    let most = larger_max n (max_bucket ns) in
    (
      most.0,
      weaken_bounds (max_bucket ns) (larger n (max_bucket ns)) ns most.1 (max_bucket_bounds ns),
    )

-- A bucket between nothing and the greatest has a height between 6 and 100.
spark_height_bounds :
    (n most : ℕ) → n ≤ most → 1 ≤ most → (6 ≤ spark_height most n) × (spark_height most n ≤ 100)
unfolding spark_height
spark_height_bounds n most low positive =
    let below = percent-bounded n most low positive in (grind (arith, below), grind (arith, below))

heights_bounded :
    (most : ℕ) (ns : List ℕ)
    → 1 ≤ most
    → All (λ n. n ≤ most) ns
    → All (λ h. (6 ≤ h) × (h ≤ 100)) (map (spark_height most) ns)
heights_bounded most [] positive all = tt
heights_bounded most (n ∷ ns) positive (low, all) =
    (spark_height_bounds n most low positive, heights_bounded most ns positive all)

-- The sparkline of any runs has seven bars, each between 6 and 100 percent high.
pub sparkline_bounds :
    (time : String → ℕ) (now : ℕ) (runs : List RunRow)
    → (length (sparkline time now runs) ≡ 7)
      × All (λ h. (6 ≤ h) × (h ≤ 100)) (sparkline time now runs)
unfolding sparkline
sparkline_bounds time now runs =
    let buckets = spark_buckets time now runs in
    (
      length-map (spark_height (max_bucket buckets)) buckets
          ∙ (spark_buckets-total time now runs).1,
      heights_bounded (max_bucket buckets) buckets (max_bucket-positive buckets)
          (max_bucket_bounds buckets),
    )
