-- ===== src/Workspace/Pipeline/Examples.antt =====
-- A deployment whose socket is lost, and a plan after a deployment.
use whiparc.Prelude.{◌≤◌, String, ◌≡◌, refl, ◌⊎◌, true, false, none, List, [], ◌∷◌, ◌++◌, length}
use whiparc.Store.{initial}
use whiparc.Workspace.Blocks.{is_pipeline_busy}
use whiparc.Workspace.Pipeline.{deploy_run, plan_run, destroy_run, Console, accepted, status_change}
use whiparc.Workspace.Pipeline.Runs.{Event, held, pressed, answered, heard, failed, closed, run}
use whiparc.Workspace.Pipeline.Exclusive.{run_exclusive}
use whiparc.Workspace.Pipeline.Stuck.{run_stuck, is_silent}

abbrev start : Console
start = record {
  canvas = record initial { nodes = (record { id = "nginx_1"; payload = none }) ∷ [] };
  deploy_status = "IDLE";
  plan_status = "IDLE";
  logs = "";
  is_terminal_open = false;
  active_run = none;
  auto_destroy = true;
  refusals = [];
  posts = [];
  stream = none;
  strays = [];
}

abbrev encode : String → String
encode s = s

abbrev deployed : List Event
deployed =
    pressed deploy_run
    ∷ answered 0 (accepted "r1" "PENDING")
    ∷ heard held (status_change "RUNNING")
    ∷ []

abbrev then_planned : List Event
then_planned =
    deployed
    ++ pressed plan_run
      ∷ heard held (status_change "SUCCESS")
      ∷ pressed plan_run
      ∷ answered 0 (accepted "r2" "PENDING")
      ∷ []

statuses_test :
    ((run encode deployed start).deploy_status ≡ "RUNNING")
    × ((run encode deployed start).plan_status ≡ "IDLE")
    × ((run encode then_planned start).deploy_status ≡ "IDLE")
    × ((run encode then_planned start).plan_status ≡ "PENDING")
unfolding run
statuses_test = (refl, refl, refl, refl)

run_exclusive_example :
    (((run encode then_planned start).deploy_status ≡ "IDLE")
      ⊎ ((run encode then_planned start).plan_status ≡ "IDLE"))
    × (length (run encode then_planned start).posts ≤ 1)
    × ((run encode then_planned start).strays ≡ [])
run_exclusive_example = run_exclusive encode start then_planned refl refl refl refl refl

abbrev lost : List Event
lost = failed ∷ closed "1006" ∷ pressed destroy_run ∷ pressed deploy_run ∷ []

run_stuck_example :
    ((run encode lost (run encode deployed start)).deploy_status
      ≡ (run encode deployed start).deploy_status)
    × ((run encode lost (run encode deployed start)).plan_status
        ≡ (run encode deployed start).plan_status)
    × ((run encode lost (run encode deployed start)).posts ≡ (run encode deployed start).posts)
    × ((run encode lost (run encode deployed start)).canvas.is_executing ≡ true)
unfolding run is_silent is_pipeline_busy
run_stuck_example =
    run_stuck encode lost (run encode deployed start) (refl, (refl, (refl, (refl, tt)))) refl refl
