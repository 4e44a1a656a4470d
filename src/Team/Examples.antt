-- ===== src/Team/Examples.antt =====
-- A team of three on concrete replies and clicks: tests of the definitions, and the theorems applied.
use whiparc.Prelude.{
  String, ◌≡◌, refl, Bool, true, none, some, List, [], ◌∷◌, map, ◌==◌, keep, any, if◌then◌else◌,
}
use whiparc.Team.{of_user, is_owner, Role, owner, admin, member, Member, Team, TeamPage}
use whiparc.Team.Load.{Server, refused, given, load_all}
use whiparc.Team.Loaded.{IsShown, load_all-IsShown}
use whiparc.Team.Actions.{
  to_admin, to_member, done, denied, Session, Event, click_change, click_remove, reply, run,
}
use whiparc.Team.Owners.{rows_of, run_owners}

abbrev person : String → Role → Member
person name role = record {
  user_id = name;
  user_name = name;
  email = "";
  role = role;
  joined_at = "";
}

abbrev members : List Member
members = person "u3" member ∷ person "u1" owner ∷ person "u2" admin ∷ []

abbrev crew : Team
crew = record { id = "t1"; name = "Crew"; slug = "crew"; owner_id = "u1"; created_at = "" }

abbrev server : Server
server = record {
  saved_team = some "t1";
  teams = given (crew ∷ []);
  members = λ id. if id == "t1" then given members else refused 403;
  invites = λ id. refused 403;
  billing = λ id. refused 404;
}

abbrev blank : TeamPage
blank = record {
  team = none;
  roster = [];
  invites = [];
  billing = none;
  is_loading = true;
  load_error = none;
  action_error = none;
}

abbrev always : String → String → Bool
always a b = true

load_test :
    map (λ m. m.user_id) (load_all always true server blank).roster ≡ "u1" ∷ "u2" ∷ "u3" ∷ []
unfolding load_all
load_test = refl

load_all-IsShown_example : IsShown server (load_all always true server blank)
load_all-IsShown_example = load_all-IsShown always server blank

abbrev loaded : Session
loaded = record { page = load_all always true server blank; pending = [] }

-- The admin makes the member an admin, tries the owner, and removes the member before the reply.
abbrev clicks : List Event
clicks =
    click_change "u3" to_admin
    ∷ click_change "u1" to_member
    ∷ click_remove "u1" true
    ∷ click_remove "u3" true
    ∷ reply 1 (denied 409 " Busy ")
    ∷ reply 0 done
    ∷ []

run_test :
    (map (λ m. m.user_id) (run true (some "u2") clicks loaded).page.roster ≡ "u1" ∷ "u2" ∷ [])
    × ((run true (some "u2") clicks loaded).page.action_error ≡ some "Busy")
    × ((run true (some "u2") clicks loaded).pending ≡ [])
unfolding run load_all
run_test = (refl, refl, refl)

run_owners_example :
    rows_of "u1" (run true (some "u2") clicks loaded).page.roster ≡ rows_of "u1" loaded.page.roster
unfolding load_all any keep of_user is_owner
run_owners_example = run_owners "u1" true (some "u2") clicks loaded refl refl
