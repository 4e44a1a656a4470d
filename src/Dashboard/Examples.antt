-- ===== src/Dashboard/Examples.antt =====
-- The runs and the dashboard on concrete replies: tests of the definitions, and the theorems
-- applied.
use whiparc.Prelude.{
  false, ℕ, ◌+◌, ◌*◌, ◌≤◌, String, ◌≡◌, refl, true, Option, none, some, List, [], ◌∷◌, map, arith,
  ◌==◌, length, All, find_first, if◌then◌else◌,
}
use whiparc.Dashboard.Runs.{
  Project, PipelineRun, RunRow, Aggregated, row, flat, listed, aggregate, created, day_ms,
  failing_projects, is_of, is_failed, sparkline,
}
use whiparc.Dashboard.Texts.{time_ago, format_duration, greeting}
use whiparc.Dashboard.Page.{average_text, average_seconds, seconds_of, minutes_of, rounded}
use whiparc.Team.Load.{refused, given}
use whiparc.Dashboard.Projects.{
  JoinRequest, DashboardState, FetchReplies, fetch_data, create_project, created_as,
}
use whiparc.Dashboard.Sparkline.{sparkline_bounds}
use whiparc.Dashboard.Newest.{failing_newest}
use whiparc.Dashboard.Runs.{
  flat, listed, created, aggregate, row, is_of, day_ms, RunRow, Project, is_failed,
  failing_projects, Aggregated, PipelineRun,
}

-- The time of a text in these examples: days and a thousand
abbrev day : String → ℕ
day s = if s == "mon" then day_ms else if s == "tue" then 2 * day_ms else 3 * day_ms

abbrev pipeline_run : String → String → String → PipelineRun
pipeline_run id status created_at = record {
  id = id;
  status = status;
  logs = "";
  canvas = "";
  run_type = none;
  target = none;
  triggered_by = none;
  created_at = created_at;
  updated_at = created_at;
}

abbrev project : String → String → Project
project id name = record {
  id = id;
  team_id = "t1";
  name = name;
  description = "";
  visibility = "PRIVATE";
  created_by = "u1";
  created_at = "mon";
  updated_at = "mon";
  archived_at = none;
  user_role = if id == "p1" then "ADMIN" else "VIEWER";
}

abbrev shop : Project
shop = project "p1" "Shop"

abbrev blog : Project
blog = project "p2" "Blog"

abbrev replies : List (Project × Option (List PipelineRun))
replies =
    (shop, some (pipeline_run "r1" "SUCCESS" "mon" ∷ pipeline_run "r2" "FAILED" "wed" ∷ []))
    ∷ (blog, some (pipeline_run "r3" "FAILED" "mon" ∷ pipeline_run "r4" "SUCCESS" "tue" ∷ []))
    ∷ []

abbrev nothing : Aggregated
nothing = record { runs = []; is_loading = true; error_text = none }

abbrev newest : RunRow
newest = row shop (pipeline_run "r2" "FAILED" "wed")

failing_test :
    map (λ r. r.run.id) (failing_projects (aggregate day (listed replies) nothing).runs) ≡ "r2" ∷ []
unfolding failing_projects aggregate
failing_test = refl

failing_newest_example :
    (is_failed newest ≡ true)
    × All (λ s. is_of "p1" s ≡ true → created day s ≤ created day newest) (flat replies)
unfolding find_first failing_projects aggregate
failing_newest_example = failing_newest day replies nothing "p1" newest refl

-- Two minutes less than half a second
average_test : (average_text (119600 ∷ []) ≡ "1m 60s") × (average_text (59600 ∷ []) ≡ "60s")
unfolding average_text
average_test = (refl, refl)

duration_test : format_duration (some 0) (some 119600) ≡ "2m 0s"
unfolding format_duration
duration_test = refl

ago_test : (time_ago 7200000 (some 3600000) ≡ "1h ago") × (greeting 12 ≡ "Afternoon")
unfolding time_ago greeting
ago_test = (refl, refl)

average_seconds_example :
    (seconds_of 119600 1 ≤ 60) × (minutes_of 119600 1 * 60 + seconds_of 119600 1 ≡ rounded 119600 1)
average_seconds_example = average_seconds 119600 1 (omega arith)

abbrev now_ms : ℕ
now_ms = 3 * day_ms

abbrev rows : List RunRow
rows = flat replies

sparkline_test : sparkline day now_ms rows ≡ 6 ∷ 6 ∷ 6 ∷ 6 ∷ 100 ∷ 50 ∷ 50 ∷ []
unfolding sparkline flat
sparkline_test = refl

sparkline_bounds_example :
    (length (sparkline day now_ms rows) ≡ 7)
    × All (λ h. (6 ≤ h) × (h ≤ 100)) (sparkline day now_ms rows)
sparkline_bounds_example = sparkline_bounds day now_ms rows

abbrev asked : String → JoinRequest
asked id = record {
  id = id;
  project_id = "p1";
  project_name = none;
  user_id = "u9";
  user_name = "Bea";
  user_email = "";
  status = "PENDING";
  note = "";
  requested_at = "tue";
}

abbrev empty_state : DashboardState
empty_state = record {
  teams = [];
  projects = [];
  join_requests = [];
  is_loading_data = false;
  is_create_modal_open = true;
  new_proj_name = " Shop ";
  new_proj_desc = "";
  new_proj_visibility = "PRIVATE";
  new_proj_team_id = "";
  create_error = none;
  is_creating = false;
}

abbrev fetched : FetchReplies
fetched = record {
  of_teams = refused 500;
  of_projects = given (shop ∷ blog ∷ []);
  of_requests = λ id. given (asked "j1" ∷ []);
  is_aborted = false;
}

-- Only the first project is the user's to administer.
fetch_test :
    map (λ r. r.project_name) (fetch_data true fetched empty_state).join_requests ≡ some "Shop" ∷ []
unfolding fetch_data
fetch_test = refl

create_test :
    ((create_project true (created_as "p3") empty_state).sent ≡ none)
    × ((create_project true
          (created_as "p3")
          (record empty_state { new_proj_team_id = "t1" })).opened
        ≡ some "/workspace?project=p3")
unfolding create_project
create_test = (refl, refl)
