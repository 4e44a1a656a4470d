-- ===== src/Team/Actions.antt =====
-- The handlers of the rows of apps/web/app/team/TeamPageV2.tsx (`handleRoleChange`, `handleRemove`,
-- `handleRevokeInvite`). A click sends a request, and the reply comes later, after other clicks and
-- replies, in any order. A row is named by its user, which is its key. A new load is no event here.
use whiparc.Prelude.{
  ℕ, zero, suc, String, Bool, false, not, ◌&&◌, ◌||◌, Option, none, some, List, [], ◌∷◌, map, ◌==◌,
  keep, find_first, if◌then◌else◌, is_some,
}
use whiparc.Prelude.Text.{trim, includes}
use whiparc.Team.{Role, admin, member, Member, TeamPage, is_owner, is_manager, of_user}
use whiparc.Team.Load.{status_message}

-- `'ADMIN' | 'MEMBER'`
pub data GivenRole : Type 0 where
  to_admin : GivenRole
  to_member : GivenRole

unfoldable pub role_of : GivenRole → Role
role_of to_admin = admin
role_of to_member = member

-- A request that waits for its reply
pub data Request : Type 0 where
  change : (user_id : String) → GivenRole → Request
  remove : (user_id : String) → Request
  revoke : (invite_id : String) → Request

pub data Outcome : Type 0 where
  done : Outcome
  denied : (status : ℕ) (text : String) → Outcome
  lost : (message : String) → Outcome

pub record Session : Type 0 where
  pub page : TeamPage
  pub pending : List Request

pub data Event : Type 0 where
  click_change : (user_id : String) → GivenRole → Event
  click_remove : (user_id : String) (confirmed : Bool) → Event
  click_revoke : (invite_id : String) → Event
  reply : (index : ℕ) → Outcome → Event

-- `{ ...m, role }`, in the row of the user
unfoldable pub with_role : String → GivenRole → Member → Member
unfolding of_user role_of
with_role id role m = if of_user id m then record m { role = role_of role } else m

-- The page after a request that has been granted
unfoldable pub granted : Request → TeamPage → TeamPage
unfolding keep with_role of_user
granted (change id role) page = record page { roster = map (with_role id role) page.roster }
granted (remove id) page = record page { roster = keep (λ m. not (of_user id m)) page.roster }
granted (revoke id) page = record page { invites = keep (λ i. not (i.id == id)) page.invites }

-- `text.trim() || …`; the reply to a revocation is not read.
unfoldable pub denial : Request → ℕ → String → String
unfolding trim status_message
denial (revoke id) status text = status_message status
denial (change id role) status text = if trim text == "" then status_message status else trim text
denial (remove id) status text = if trim text == "" then status_message status else trim text

unfoldable pub answered : Request → Outcome → TeamPage → TeamPage
unfolding granted denial
answered r done page = granted r page
answered r (denied status text) page = record page { action_error = some (denial r status text) }
answered r (lost message) page = record page { action_error = some message }

-- The request at a place
unfoldable pub request_at : ℕ → List Request → Option Request
request_at i [] = none
request_at zero (r ∷ rs) = some r
request_at (suc i) (r ∷ rs) = request_at i rs

-- The requests but the one at a place
unfoldable pub without : ℕ → List Request → List Request
without i [] = []
without zero (r ∷ rs) = rs
without (suc i) (r ∷ rs) = r ∷ without i rs

-- `canManage`, of the user's own row
unfoldable pub can_manage : Option String → List Member → Bool
unfolding find_first is_manager of_user
can_manage none roster = false
can_manage (some me) roster = elim (find_first (of_user me) roster) [
  | none ↦ false
  | some m ↦ is_manager m
]

unfoldable pub send : Request → Session → Session
send r s = record { page = record s.page { action_error = none }; pending = r ∷ s.pending }

-- `canManage && !isOwner`, where there is such a row
unfoldable pub has_controls : (manages : Bool) → Option Member → Bool
unfolding is_owner
has_controls manages none = false
has_controls manages (some m) = manages && not (is_owner m)

-- Whether the page offers the controls of a user's row
unfoldable pub is_offered : Option String → String → List Member → Bool
unfolding can_manage find_first of_user has_controls
is_offered me id roster = has_controls (can_manage me roster) (find_first (of_user id) roster)

-- The session after the reply to a request, which no longer waits then
unfoldable pub after_reply : Option Request → ℕ → Outcome → Session → Session
unfolding answered without
after_reply none index outcome s = s
after_reply (some r) index outcome s = record {
  page = answered r outcome s.page;
  pending = without index s.pending;
}

-- A click or a reply; without a token or a team a handler does nothing.
unfoldable pub step : (has_token : Bool) (me : Option String) → Event → Session → Session
unfolding send is_offered can_manage request_at after_reply
step has_token me (click_change id role) s =
    if has_token && is_some s.page.team && is_offered me id s.page.roster
    then send (change id role) s
    else s
step has_token me (click_remove id confirmed) s =
    if has_token && is_some s.page.team && is_offered me id s.page.roster && confirmed
    then send (remove id) s
    else s
step has_token me (click_revoke id) s =
    if has_token && is_some s.page.team && can_manage me s.page.roster
    then send (revoke id) s
    else s
step has_token me (reply index outcome) s = after_reply (request_at index s.pending) index outcome s

unfoldable pub run : (has_token : Bool) (me : Option String) → List Event → Session → Session
unfolding step
run has_token me [] s = s
run has_token me (e ∷ es) s = run has_token me es (step has_token me e s)

-- `visibleRoster`; `toLowerCase` is a parameter.
unfoldable pub visible_roster : (lower : String → String) → String → List Member → List Member
unfolding keep includes trim
visible_roster lower query roster =
    let q = lower (trim query) in
    if q == ""
    then roster
    else keep (λ m. includes (lower m.user_name) q || includes (lower m.email) q) roster
