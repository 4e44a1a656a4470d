-- ===== src/Dashboard/Page.antt =====
-- The page of the runs, apps/web/app/runs/RunsPageV2.tsx: its statistics and its filter. An average
-- is the exact quotient of a sum and a count; `toLowerCase` and the start of the day are parameters.
use whiparc.Prelude.{
  ℕ, ◌+◌, ◌-◌, ◌*◌, ◌/◌, ◌%◌, ◌≤◌, ◌<◌, String, ◌≡◌, sym, ap, ◌∙◌, Bool, true, ◌&&◌, ◌||◌, Option,
  none, some, List, [], ◌∷◌, map, arith, ◌==◌, length, keep, ltb, leb, eqb, if◌then◌else◌,
}
use native.Mathlib.Nat.{div-lt_iff_lt-mul, add-mul-div_right, mod-lt, mod-add-div}
use whiparc.Dashboard.Percent.{percent, percent-bounded}
use whiparc.Prelude.Text.{cat, decimal, includes, trim}
use whiparc.Dashboard.Runs.{RunRow, is_failed, created, last_7d}

unfoldable pub is_success : RunRow → Bool
is_success r = r.run.status == "SUCCESS"

unfoldable pub is_finished : RunRow → Bool
unfolding is_success is_failed
is_finished r = is_success r || is_failed r

-- `Math.round((successes / finished) * 100)`, none of nothing
unfoldable pub rate_of : List RunRow → Option ℕ
unfolding keep is_success percent
rate_of finished =
    let all = length finished in
    if eqb all 0 then none else some (percent (length (keep is_success finished)) all)

abbrev pub sum : List ℕ → ℕ
sum [] = 0
sum (n ∷ ns) = n + sum ns

unfoldable pub above_zero : ℕ → Bool
above_zero ms = ltb 0 ms

-- `Math.round(avgMs / 1000)`, of a sum and a count
unfoldable pub rounded : ℕ → ℕ → ℕ
rounded total n = (2 * total + 1000 * n) / (2000 * n)

-- `Math.floor(avgMs / 60000)`
unfoldable pub minutes_of : ℕ → ℕ → ℕ
minutes_of total n = total / (60000 * n)

-- `Math.round((avgMs % 60000) / 1000)`
unfoldable pub seconds_of : ℕ → ℕ → ℕ
unfolding rounded
seconds_of total n = rounded (total % (60000 * n)) n

unfoldable pub average_text : List ℕ → String
unfolding cat decimal rounded minutes_of seconds_of
average_text durations =
    let n = length durations in
    let total = sum durations in
    if eqb n 0
    then "—"
    else if ltb total (60000 * n)
    then cat (decimal (rounded total n) ∷ "s" ∷ [])
    else cat (decimal (minutes_of total n) ∷ "m " ∷ decimal (seconds_of total n) ∷ "s" ∷ [])

pub record PageStats : Type 0 where
  pub count_7d : ℕ
  pub success_rate : Option ℕ
  pub avg_duration : String
  pub failed_today : ℕ

module _ (time : String → ℕ) where
  -- What is no time at all or less is left out.
  unfoldable pub durations_of : List RunRow → List ℕ
  unfolding keep above_zero
  durations_of finished =
      keep above_zero (map (λ r. time r.run.updated_at - time r.run.created_at) finished)

  unfoldable pub since : ℕ → RunRow → Bool
  unfolding is_failed created
  since start r = is_failed r && leb start (created time r)

  unfoldable pub page_stats : (now : ℕ) (today_start : ℕ) → List RunRow → PageStats
  unfolding last_7d keep is_finished rate_of durations_of average_text since
  page_stats now today_start runs =
      let recent = last_7d time now runs in
      let finished = keep is_finished recent in
      record {
        count_7d = length recent;
        success_rate = rate_of finished;
        avg_duration = average_text (durations_of finished);
        failed_today = length (keep (since today_start) runs);
      }

-- `statusFilter`
pub data StatusFilter : Type 0 where
  all_runs : StatusFilter
  of_status : String → StatusFilter

unfoldable pub matches_status : StatusFilter → RunRow → Bool
matches_status all_runs r = true
matches_status (of_status s) r = r.run.status == s

unfoldable pub matches_query : (lower : String → String) → String → RunRow → Bool
unfolding includes
matches_query lower q r =
    q == "" || includes (lower r.run.id) q || includes (lower r.project_name) q

unfoldable pub visible_runs :
    (lower : String → String) → String → StatusFilter → List RunRow → List RunRow
unfolding keep matches_status matches_query trim
visible_runs lower query filter runs =
    let q = lower (trim query) in
    keep (λ r. matches_status filter r && matches_query lower q r) runs

length-keep : (p : RunRow → Bool) (rs : List RunRow) → length (keep p rs) ≤ length rs
unfolding keep
length-keep p [] = omega arith
length-keep p (r ∷ rs) = grind (arith, length-keep p rs)

-- The rate of success is a percentage.
rate_of_bounded : (rs : List RunRow) (p : ℕ) → rate_of rs ≡ some p → p ≤ 100
unfolding rate_of
rate_of_bounded [] p h = absurd (ground arith)
rate_of_bounded (r ∷ rs) p h =
    let bound =
      percent-bounded (length (keep is_success (r ∷ rs))) (length (r ∷ rs))
        (length-keep is_success (r ∷ rs)) (omega arith) in
    grind (arith, bound)

remainder_bound : (r n : ℕ) → r < 60000 * n → rounded r n < 61
unfolding rounded
remainder_bound r n low = (div-lt_iff_lt-mul (omega (arith, low))).1 (omega (arith, low))

add_swap : (a b : ℕ) → a + b ≡ b + a
add_swap a b = omega arith

rounded_sum : (q r n : ℕ) → 1 ≤ n → rounded (r + 60000 * n * q) n ≡ q * 60 + rounded r n
unfolding rounded
rounded_sum q r n positive =
    let top : 2 * (r + 60000 * n * q) + 1000 * n ≡ 2 * r + 1000 * n + q * 60 * (2000 * n) =
      grind arith in
    rw top (
      add-mul-div_right (2 * r + 1000 * n) (q * 60) (omega (arith, positive))
      ∙ add_swap ((2 * r + 1000 * n) / (2000 * n)) (q * 60))

-- The average of the durations that the page shows, of a sum and a count that is not 0, has at most 60
-- seconds after its minutes, and minutes and seconds together are the average rounded to seconds.
pub average_seconds :
    (total n : ℕ)
    → 1 ≤ n
    → (seconds_of total n ≤ 60) × (minutes_of total n * 60 + seconds_of total n ≡ rounded total n)
unfolding seconds_of minutes_of
average_seconds total n positive =
    let low : total % (60000 * n) < 60000 * n = mod-lt total (omega (arith, positive)) in
    let bound = remainder_bound (total % (60000 * n)) n low in
    (
      omega (arith, bound),
      sym (rounded_sum (total / (60000 * n)) (total % (60000 * n)) n positive)
          ∙ ap (λ t. rounded t n) (mod-add-div total (60000 * n)),
    )
