-- ===== src/Dashboard/Newest.antt =====
-- The order of the runs: the newest come first, so a project is judged by its newest run.
use whiparc.Prelude.{
  ℕ, ◌≤◌, String, ◌≡◌, sym, ap, ◌∙◌, inl, inr, Bool, true, false, Option, none, some, List, [], ◌∷◌,
  arith, All, find_first, leb, if◌then◌else◌, Bool-cases,
}
use whiparc.Dashboard.Runs.{
  Project, PipelineRun, Aggregated, listed, aggregate, flat, RunRow, created, insert_row, sort_rows,
  is_of, is_failed, failing_projects,
}
use whiparc.Dashboard.Failing.{failed_only, failing_projects-find}

split_if :
    (P : RunRow → Type 0) (r s : RunRow) (rs below : List RunRow) (b : Bool)
    → All P (if b then r ∷ s ∷ rs else s ∷ below)
    → (All P below → P r × All P rs)
    → P r × (P s × All P rs)
split_if P r s rs below true all next = all
split_if P r s rs below false (g, all) next = let (h, rest) = next all in (h, (g, rest))

module _ (time : String → ℕ) where
  All-insert_row :
      (P : RunRow → Type 0) (r : RunRow) (rs : List RunRow)
      → P r
      → All P rs
      → All P (insert_row time r rs)
  unfolding insert_row
  All-insert_row P r [] h all = (h, tt)
  All-insert_row P r (s ∷ rs) h (g, all) =
      elim (Bool-cases (leb (created time s) (created time r))) [
        | inl new ↦ rw new (h, (g, all))
        | inr old ↦ rw old (g, All-insert_row P r rs h all)
      ]

  insert_row-All :
      (P : RunRow → Type 0) (r : RunRow) (rs : List RunRow)
      → All P (insert_row time r rs)
      → P r × All P rs
  unfolding insert_row
  insert_row-All P r [] (h, all) = (h, tt)
  insert_row-All P r (s ∷ rs) all =
      split_if P r s rs (insert_row time r rs) (leb (created time s) (created time r)) all
        (insert_row-All P r rs)

  weaken_times :
      (r s : RunRow) (rs : List RunRow)
      → created time r ≤ created time s
      → All (λ t. created time t ≤ created time r) rs
      → All (λ t. created time t ≤ created time s) rs
  weaken_times r s [] h all = tt
  weaken_times r s (t ∷ rs) h (g, all) = (omega (arith, g, h), weaken_times r s rs h all)

  -- Every run is at least as new as those after it.
  unfoldable pub NewestFirst : List RunRow → Type 0
  NewestFirst [] = Unit
  NewestFirst (r ∷ rs) = All (λ s. created time s ≤ created time r) rs × NewestFirst rs

  insert_row-NewestFirst :
      (r : RunRow) (rs : List RunRow) → NewestFirst rs → NewestFirst (insert_row time r rs)
  unfolding NewestFirst insert_row
  insert_row-NewestFirst r [] h = (tt, tt)
  insert_row-NewestFirst r (s ∷ rs) (top, h) =
      elim (Bool-cases (leb (created time s) (created time r))) [
        | inl new ↦
            let below : created time s ≤ created time r = ground arith in
            rw new ((below, weaken_times s r rs below top), (top, h))
        | inr old ↦
            let below : created time r ≤ created time s = ground arith in
            rw old (
              All-insert_row (λ t. created time t ≤ created time s) r rs below top,
              insert_row-NewestFirst r rs h,
            )
      ]

  sort_rows-NewestFirst : (rs : List RunRow) → NewestFirst (sort_rows time rs)
  unfolding sort_rows NewestFirst
  sort_rows-NewestFirst [] = tt
  sort_rows-NewestFirst (r ∷ rs) =
      insert_row-NewestFirst r (sort_rows time rs) (sort_rows-NewestFirst rs)

  sort_rows-All : (P : RunRow → Type 0) (rs : List RunRow) → All P (sort_rows time rs) → All P rs
  unfolding sort_rows
  sort_rows-All P [] all = tt
  sort_rows-All P (r ∷ rs) all =
      let split = insert_row-All P r (sort_rows time rs) all in
      (split.0, sort_rows-All P rs split.1)

  weaken :
      (id : String) (r s : RunRow) (rs : List RunRow)
      → s ≡ r
      → All (λ t. created time t ≤ created time s) rs
      → All (λ t. is_of id t ≡ true → created time t ≤ created time r) rs
  weaken id r s [] same all = tt
  weaken id r s (t ∷ rs) same (low, all) = (λ _. rw (sym same) low, weaken id r s rs same all)

  first_newest :
      (id : String) (r : RunRow) (rs : List RunRow)
      → NewestFirst rs
      → find_first (is_of id) rs ≡ some r
      → All (λ s. is_of id s ≡ true → created time s ≤ created time r) rs
  unfolding NewestFirst find_first
  first_newest id r [] h g = tt
  first_newest id r (s ∷ rs) (top, h) g = elim (Bool-cases (is_of id s)) [
    | inl own ↦
        let same : s ≡ r = ground arith in (λ _. rw same (omega arith), weaken id r s rs same top)
    | inr other ↦
        (λ own. absurd (ground (arith, own, other)), first_newest id r rs h (ground arith))
  ]

failed_only-some :
    (o : Option RunRow) (r : RunRow) → failed_only o ≡ some r → (o ≡ some r) × (is_failed r ≡ true)
failed_only-some none r h = absurd (ground arith)
failed_only-some (some s) r h = elim (Bool-cases (is_failed s)) [
  | inl f ↦ let same : s ≡ r = ground arith in (ap some same, rw (sym same) f)
  | inr f ↦ absurd (ground arith)
]

-- If a run stands for a project among those that need a look, after the replies to the requests,
-- then it has failed, and no run of that project in the replies is newer.
pub failing_newest :
    (time : String → ℕ) (replies : List (Project × Option (List PipelineRun))) (a : Aggregated)
    (id : String) (r : RunRow)
    → find_first (is_of id) (failing_projects (aggregate time (listed replies) a).runs) ≡ some r
    → (is_failed r ≡ true)
      × All (λ s. is_of id s ≡ true → created time s ≤ created time r) (flat replies)
unfolding aggregate
failing_newest time replies a id r h =
    let rows = flat replies in
    let sorted = sort_rows time rows in
    let (found, failed) =
      failed_only-some (find_first (is_of id) sorted) r
        (sym (failing_projects-find id sorted) ∙ h) in
    (
      failed,
      sort_rows-All time (λ s. is_of id s ≡ true → created time s ≤ created time r) rows
          (first_newest time id r sorted (sort_rows-NewestFirst time rows) found),
    )
