-- ===== src/Team/Load.antt =====
-- `loadAll` of apps/web/app/team/TeamPageV2.tsx, from the replies to its requests, and the order of
-- the members. `localeCompare` is a parameter: whether a name comes no later than another.
use whiparc.Prelude.{
  ℕ, String, Bool, true, false, ◌&&◌, ◌||◌, Option, none, some, List, [], ◌∷◌, ◌==◌, first,
  find_first, ltb, eqb, if◌then◌else◌,
}
use whiparc.Prelude.Text.{cat, decimal, includes}
use whiparc.Team.{Team, Member, Invitation, Billing, TeamPage, role_rank}

-- The reply to a request: refused with a status, broken off with a message, or given
pub data Reply (A : Type 0) : Type 0 where
  refused : (status : ℕ) → Reply A
  broken : (message : String) → Reply A
  given : A → Reply A

-- The replies of the server, and what is stored of the chosen team
pub record Server : Type 0 where
  pub saved_team : Option String
  pub teams : Reply (List Team)
  pub members : String → Reply (List Member)
  pub invites : String → Reply (List Invitation)
  pub billing : String → Reply Billing

-- `setLoadError` of the message
unfoldable pub load_message : String → String
unfolding includes
load_message message =
    if includes message "fetch"
    then "Cannot connect to the backend server. Please try again shortly."
    else message

-- `Request failed with status …`
unfoldable pub status_message : ℕ → String
unfolding cat decimal
status_message status = cat ("Request failed with status " ∷ decimal status ∷ [])

-- `t.id === savedTeamId`
unfoldable pub is_saved : Option String → Team → Bool
is_saved none t = false
is_saved (some id) t = t.id == id

-- `activeTeam`
unfoldable pub active_team : Option String → List Team → Option Team
unfolding find_first is_saved
active_team saved teams = elim (find_first (is_saved saved) teams) [
  | none ↦ first teams
  | some t ↦ some t
]

-- What is given, or else nothing
unfoldable pub list_given : {A : Type 0} → Reply (List A) → List A
list_given (refused status) = []
list_given (broken message) = []
list_given (given xs) = xs

unfoldable pub option_given : {A : Type 0} → Reply A → Option A
option_given (refused status) = none
option_given (broken message) = none
option_given (given a) = some a

-- The end of a load that fails
unfoldable pub failed_load : String → TeamPage → TeamPage
unfolding load_message
failed_load message page = record page {
  load_error = some (load_message message);
  is_loading = false;
}

module _ (no_later : String → String → Bool) where
  unfoldable pub comes_first : Member → Member → Bool
  unfolding role_rank
  comes_first a b =
      let x = role_rank a.role in
      let y = role_rank b.role in ltb y x || eqb x y && no_later a.user_name b.user_name

  -- `members.sort(…)`, which keeps the order of what is equal
  unfoldable pub insert_member : Member → List Member → List Member
  unfolding comes_first
  insert_member m [] = m ∷ []
  insert_member m (n ∷ rest) =
      let below = insert_member m rest in if comes_first m n then m ∷ n ∷ rest else n ∷ below

  unfoldable pub sort_members : List Member → List Member
  unfolding insert_member
  sort_members [] = []
  sort_members (m ∷ rest) = insert_member m (sort_members rest)

  -- From the reply for the members on
  unfoldable pub load_members : Server → Team → Reply (List Member) → TeamPage → TeamPage
  unfolding sort_members list_given option_given failed_load status_message
  load_members server t (refused status) page =
      failed_load (status_message status) (record page { team = some t })
  load_members server t (broken message) page = failed_load message (record page { team = some t })
  load_members server t (given ms) page = record {
    team = some t;
    roster = sort_members ms;
    invites = list_given (server.invites t.id);
    billing = option_given (server.billing t.id);
    is_loading = false;
    load_error = none;
    action_error = page.action_error;
  }

  -- From the choice of the team on
  unfoldable pub load_team : Server → Option Team → TeamPage → TeamPage
  unfolding load_members
  load_team server none page = record {
    team = none;
    roster = [];
    invites = [];
    billing = none;
    is_loading = false;
    load_error = none;
    action_error = page.action_error;
  }
  load_team server (some t) page = load_members server t (server.members t.id) page

  -- From the reply for the teams on
  unfoldable pub load_teams : Server → Reply (List Team) → TeamPage → TeamPage
  unfolding load_team active_team failed_load status_message
  load_teams server (refused status) page = failed_load (status_message status) page
  load_teams server (broken message) page = failed_load message page
  load_teams server (given ts) page = load_team server (active_team server.saved_team ts) page

  unfoldable pub load_all : (has_token : Bool) → Server → TeamPage → TeamPage
  unfolding load_teams
  load_all false server page = page
  load_all true server page = load_teams server server.teams page
