-- ===== src/Dashboard/Runs.antt =====
-- `useAggregatedRuns`, of the replies to its requests, and `computeDashboardRunStats`. Times are
-- milliseconds, which `new Date(…).getTime()` reads off a text; this is a parameter, and a text that
-- is no date is left out. Percentages are rounded from exact quotients.
use whiparc.Prelude.{
  ℕ, zero, suc, ◌-◌, ◌*◌, ◌/◌, String, Bool, true, false, not, ◌&&◌, Option, none, some, List, [],
  ◌∷◌, ◌++◌, map, ◌==◌, length, keep, any, find_first, leb, if◌then◌else◌,
}
use whiparc.Dashboard.Percent.{percent}
use whiparc.Prelude.Text.{includes}

pub record Project : Type 0 where
  pub id : String
  pub team_id : String
  pub name : String
  pub description : String
  pub visibility : String
  pub created_by : String
  pub created_at : String
  pub updated_at : String
  pub archived_at : Option String
  pub user_role : String

-- Who has started a run
pub record Trigger : Type 0 where
  pub id : String
  pub name : String
  pub email : String

-- A run of the pipeline, as the API sends it
pub record PipelineRun : Type 0 where
  pub id : String
  pub status : String
  pub logs : String
  pub canvas : String
  pub run_type : Option String
  pub target : Option String
  pub triggered_by : Option Trigger
  pub created_at : String
  pub updated_at : String

-- A run with its project
pub record RunRow : Type 0 where
  pub run : PipelineRun
  pub project_id : String
  pub project_name : String

-- `{ ...r, projectId: p.id, projectName: p.name }`
unfoldable pub row : Project → PipelineRun → RunRow
row p r = record { run = r; project_id = p.id; project_name = p.name }

-- The rows of a project: none when its request fails or is refused.
unfoldable pub project_rows : Project × Option (List PipelineRun) → List RunRow
unfolding row
project_rows (p, none) = []
project_rows (p, some runs) = map (row p) runs

-- `perProject.flat()`
unfoldable pub flat : List (Project × Option (List PipelineRun)) → List RunRow
unfolding project_rows
flat [] = []
flat (reply ∷ rest) = project_rows reply ++ flat rest

-- What the hook shows
pub record Aggregated : Type 0 where
  pub runs : List RunRow
  pub is_loading : Bool
  pub error_text : Option String

-- The reply to the request for the projects, with the replies to those for their runs
pub data ProjectsReply : Type 0 where
  listed : List (Project × Option (List PipelineRun)) → ProjectsReply
  broken : (message : String) → ProjectsReply

-- `dayMs`
abbrev pub day_ms : ℕ
day_ms = 86400000

abbrev pub smaller : ℕ → ℕ → ℕ
smaller a b = if leb a b then a else b

abbrev pub larger : ℕ → ℕ → ℕ
larger a b = if leb a b then b else a

-- `sparkBuckets[i] += 1`
unfoldable pub bump : ℕ → List ℕ → List ℕ
bump i [] = []
bump zero (n ∷ ns) = suc n ∷ ns
bump (suc i) (n ∷ ns) = n ∷ bump i ns

-- `Math.max(1, ...sparkBuckets)`
unfoldable pub max_bucket : List ℕ → ℕ
max_bucket [] = 1
max_bucket (n ∷ ns) = larger n (max_bucket ns)

-- `Math.max(6, Math.round((count / maxBucket) * 100))`
unfoldable pub spark_height : ℕ → ℕ → ℕ
unfolding percent
spark_height most n = larger 6 (percent n most)

module _ (time : String → ℕ) where
  unfoldable pub created : RunRow → ℕ
  created r = time r.run.created_at

  -- `sort` by time, the latest first; what is as old keeps its order.
  unfoldable pub insert_row : RunRow → List RunRow → List RunRow
  unfolding created
  insert_row r [] = r ∷ []
  insert_row r (s ∷ rest) =
      let below = insert_row r rest in
      if leb (created s) (created r) then r ∷ s ∷ rest else s ∷ below

  unfoldable pub sort_rows : List RunRow → List RunRow
  unfolding insert_row
  sort_rows [] = []
  sort_rows (r ∷ rest) = insert_row r (sort_rows rest)

  -- The state after the replies
  unfoldable pub aggregate : ProjectsReply → Aggregated → Aggregated
  unfolding sort_rows flat includes
  aggregate (listed replies) a = record {
    runs = sort_rows (flat replies);
    is_loading = false;
    error_text = none;
  }
  aggregate (broken message) a = record {
    runs = a.runs;
    is_loading = false;
    error_text = some (
        if includes message "fetch"
        then "Cannot connect to the backend server. Please try again shortly."
        else message);
  }

  unfoldable pub last_7d : ℕ → List RunRow → List RunRow
  unfolding keep created
  last_7d now runs = keep (λ r. leb (now - 7 * day_ms) (created r)) runs

  -- A run of the future is of today.
  unfoldable pub bucket : ℕ → RunRow → ℕ
  unfolding created
  bucket now r = 6 - smaller 6 ((now - created r) / day_ms)

  unfoldable pub fill : ℕ → List RunRow → List ℕ → List ℕ
  unfolding bucket bump
  fill now [] buckets = buckets
  fill now (r ∷ rest) buckets = fill now rest (bump (bucket now r) buckets)

  unfoldable pub spark_buckets : ℕ → List RunRow → List ℕ
  unfolding fill last_7d
  spark_buckets now runs = fill now (last_7d now runs) (0 ∷ 0 ∷ 0 ∷ 0 ∷ 0 ∷ 0 ∷ 0 ∷ [])

  unfoldable pub sparkline : ℕ → List RunRow → List ℕ
  unfolding spark_buckets max_bucket spark_height
  sparkline now runs =
      let buckets = spark_buckets now runs in map (spark_height (max_bucket buckets)) buckets

-- `r.runType !== t`
unfoldable pub is_not : String → Option String → Bool
is_not t none = true
is_not t (some s) = not (s == t)

unfoldable pub is_deploy : RunRow → Bool
unfolding is_not
is_deploy r =
    r.run.status == "SUCCESS" && is_not "destroy" r.run.run_type && is_not "plan" r.run.run_type

unfoldable pub last_deploy : List RunRow → Option RunRow
unfolding find_first is_deploy
last_deploy runs = find_first is_deploy runs

-- `r.projectId === id`
unfoldable pub is_of : String → RunRow → Bool
is_of id r = r.project_id == id

-- `latestByProject`, in the order of insertion
unfoldable pub latest : List RunRow → List RunRow → List RunRow
unfolding any is_of
latest found [] = found
latest found (r ∷ rest) =
    latest (if any (is_of r.project_id) found then found else found ++ r ∷ []) rest

unfoldable pub is_failed : RunRow → Bool
is_failed r = r.run.status == "FAILED"

unfoldable pub failing_projects : List RunRow → List RunRow
unfolding keep latest is_failed
failing_projects runs = keep is_failed (latest [] runs)

abbrev pub take_rows : ℕ → List RunRow → List RunRow
take_rows zero rs = []
take_rows (suc n) [] = []
take_rows (suc n) (r ∷ rs) = r ∷ take_rows n rs

pub record RunStats : Type 0 where
  pub recent_runs : List RunRow
  pub failed_runs : List RunRow
  pub count_7d : ℕ
  pub spark : List ℕ
  pub latest_deploy : Option RunRow
  pub failing : List RunRow

unfoldable pub compute_dashboard_run_stats : (String → ℕ) → ℕ → List RunRow → RunStats
unfolding keep is_failed last_7d sparkline last_deploy failing_projects
compute_dashboard_run_stats time now runs = record {
  recent_runs = take_rows 5 runs;
  failed_runs = take_rows 5 (keep is_failed runs);
  count_7d = length (last_7d time now runs);
  spark = sparkline time now runs;
  latest_deploy = last_deploy runs;
  failing = failing_projects runs;
}
