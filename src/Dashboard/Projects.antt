-- ===== src/Dashboard/Projects.antt =====
-- The projects of apps/web/app/dashboard/DashboardV2.tsx: `fetchData` from the replies to its
-- requests, the form that creates a project, and the lists of projects. A form is submitted with the
-- reply to its request; `toLowerCase` is a parameter.
use whiparc.Prelude.{
  String, Bool, true, false, not, ◌&&◌, ◌||◌, Option, none, some, List, [], ◌∷◌, ◌++◌, map, ◌==◌,
  keep, if◌then◌else◌,
}
use whiparc.Prelude.Text.{cat, trim, includes}
use whiparc.Team.{Team}
use whiparc.Team.Load.{Reply, refused, broken, given, active_team}
use whiparc.Dashboard.Runs.{Project}

pub record JoinRequest : Type 0 where
  pub id : String
  pub project_id : String
  pub project_name : Option String
  pub user_id : String
  pub user_name : String
  pub user_email : String
  pub status : String
  pub note : String
  pub requested_at : String

-- The state that the requests and the form for a project set
pub record DashboardState : Type 0 where
  pub teams : List Team
  pub projects : List Project
  pub join_requests : List JoinRequest
  pub is_loading_data : Bool
  pub is_create_modal_open : Bool
  pub new_proj_name : String
  pub new_proj_desc : String
  pub new_proj_visibility : String
  pub new_proj_team_id : String
  pub create_error : Option String
  pub is_creating : Bool

-- The replies to the requests of `fetchData`, and whether it is aborted before its end
pub record FetchReplies : Type 0 where
  pub of_teams : Reply (List Team)
  pub of_projects : Reply (List Project)
  pub of_requests : String → Reply (List JoinRequest)
  pub is_aborted : Bool

-- `p.user_role === 'ADMIN'`
unfoldable pub is_admin : Project → Bool
is_admin p = p.user_role == "ADMIN"

-- `r.project_name = p.name`
unfoldable pub named : Project → JoinRequest → JoinRequest
named p r = record r { project_name = some p.name }

-- The requests for a project that its reply adds, before the others; none where it breaks off.
unfoldable pub add_requests :
    Project → Reply (List JoinRequest) → Option (List JoinRequest) → Option (List JoinRequest)
unfolding named
add_requests p (refused status) rest = rest
add_requests p (broken message) rest = none
add_requests p (given rs) none = none
add_requests p (given rs) (some others) = some (map (named p) rs ++ others)

-- `requestsAccumulator`, of all projects
unfoldable pub gather :
    (String → Reply (List JoinRequest)) → List Project → Option (List JoinRequest)
unfolding add_requests is_admin
gather of_requests [] = some []
gather of_requests (p ∷ ps) =
    let rest = gather of_requests ps in
    if is_admin p then add_requests p (of_requests p.id) rest else rest

-- `setNewProjTeamId` of the first team
unfoldable pub first_team_id : List Team → String → String
first_team_id [] id = id
first_team_id (t ∷ ts) id = t.id

-- `finally`
unfoldable pub end_fetch : (is_aborted : Bool) → DashboardState → DashboardState
end_fetch true s = s
end_fetch false s = record s { is_loading_data = false }

unfoldable pub take_requests : Option (List JoinRequest) → DashboardState → DashboardState
take_requests none s = s
take_requests (some rs) s = record s { join_requests = rs }

unfoldable pub take_projects : FetchReplies → Reply (List Project) → DashboardState → DashboardState
unfolding take_requests gather
take_projects replies (refused status) s = s
take_projects replies (broken message) s = s
take_projects replies (given ps) s =
    take_requests (gather replies.of_requests ps) (record s { projects = ps })

-- The replies after the one for the teams are not asked for where this breaks off.
unfoldable pub take_teams : FetchReplies → Reply (List Team) → DashboardState → DashboardState
unfolding take_projects first_team_id
take_teams replies (refused status) s = take_projects replies replies.of_projects s
take_teams replies (broken message) s = s
take_teams replies (given ts) s =
    take_projects replies replies.of_projects
      (record s { teams = ts; new_proj_team_id = first_team_id ts s.new_proj_team_id })

unfoldable pub fetch_data : (has_token : Bool) → FetchReplies → DashboardState → DashboardState
unfolding take_teams end_fetch
fetch_data false replies s = s
fetch_data true replies s =
    end_fetch replies.is_aborted
      (take_teams replies replies.of_teams (record s { is_loading_data = true }))

-- The body of the request that creates a project
pub record NewProject : Type 0 where
  pub name : String
  pub description : String
  pub visibility : String
  pub team_id : String

-- The reply to that request: refused with a text, broken off, or the id of the project
pub data CreateReply : Type 0 where
  not_created : (text : String) → CreateReply
  unsent : (message : String) → CreateReply
  created_as : (id : String) → CreateReply

-- What the submission of the form does: the state, what is sent, and the page that is opened
pub record Submitted : Type 0 where
  pub state : DashboardState
  pub sent : Option NewProject
  pub opened : Option String

unfoldable pub take_created : CreateReply → NewProject → DashboardState → Submitted
unfolding cat
take_created (not_created text) body s = record {
  state = record s {
    create_error = some (if text == "" then "Failed to create project" else text);
    is_creating = false;
  };
  sent = some body;
  opened = none;
}
take_created (unsent message) body s = record {
  state = record s { create_error = some message; is_creating = false };
  sent = some body;
  opened = none;
}
take_created (created_as id) body s = record {
  state = record s { is_create_modal_open = false; new_proj_name = ""; new_proj_desc = "" };
  sent = some body;
  opened = some (cat ("/workspace?project=" ∷ id ∷ []));
}

-- `handleCreateProjectSubmit`, up to the `fetchData` that follows a success
unfoldable pub create_project : (has_token : Bool) → CreateReply → DashboardState → Submitted
unfolding take_created trim
create_project has_token reply s =
    let cleared = record s { create_error = none } in
    if not has_token
    then record { state = cleared; sent = none; opened = none }
    else if trim s.new_proj_name == "" || s.new_proj_team_id == ""
    then record {
      state = record cleared {
        create_error = some "Project name and team selection are required.";
      };
      sent = none;
      opened = none;
    }
    else take_created reply
        (record {
          name = trim s.new_proj_name;
          description = trim s.new_proj_desc;
          visibility = s.new_proj_visibility;
          team_id = s.new_proj_team_id;
        })
        (record cleared { is_creating = true })

-- `myProjects`
unfoldable pub is_mine : Option Team → Project → Bool
is_mine none p = not (p.user_role == "")
is_mine (some t) p = not (p.user_role == "") && p.team_id == t.id

-- `discoverProjects`
unfoldable pub is_discovered : Project → Bool
is_discovered p = p.user_role == ""

-- `view === 'mine'`, the chosen team and the text that is searched for
unfoldable pub visible_projects :
    (lower : String → String)
    → (is_mine_view : Bool) → (chosen : Option String) (query : String) → DashboardState
    → List Project
unfolding active_team keep is_mine is_discovered includes
visible_projects lower is_mine_view chosen query s =
    let team = active_team chosen s.teams in
    let shown =
      if is_mine_view then keep (is_mine team) s.projects else keep is_discovered s.projects in
    keep
      (λ p. includes (lower p.name) (lower query) || includes (lower p.description) (lower query))
      shown
