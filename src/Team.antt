-- ===== src/Team.antt =====
-- The page of a team, apps/web/app/team/TeamPageV2.tsx: what it loads, in Team/Load.antt, and its
-- handlers, in Team/Actions.antt.
use whiparc.Prelude.{
  IsUnique-of_distinct, ℕ, zero, suc, ◌+◌, ◌-◌, ◌*◌, ◌/◌, ◌%◌, ◌≤◌, ◌<◌, String, ◌≡◌, refl, sym, ap,
  ◌∙◌, ◌≢◌, ◌↔◌, ◌⊎◌, inl, inr, Bool, true, false, not, ◌&&◌, ◌||◌, Option, none, some, List, [],
  ◌∷◌, ◌++◌, map, arith, ◌==◌, starts_with, eq_iff, length, length-append, first, All, length-map,
  keep, any, find_first, update, count, contains, IsUnique, ltb, leb, eqb, if◌then◌else◌, is_some,
  Bool-cases, Option-cases, List-cases,
}
pub mod Load
pub mod Actions
pub mod Owners
pub mod Loaded
mod Examples

pub data Role : Type 0 where
  owner : Role
  admin : Role
  member : Role

pub record Member : Type 0 where
  pub user_id : String
  pub user_name : String
  pub email : String
  pub role : Role
  pub joined_at : String

pub record Invitation : Type 0 where
  pub id : String
  pub email : String
  pub role : Role
  pub status : String
  pub invited_by_name : String
  pub expires_at : String
  pub created_at : String

pub record Team : Type 0 where
  pub id : String
  pub name : String
  pub slug : String
  pub owner_id : String
  pub created_at : String

pub data PlanName : Type 0 where
  free : PlanName
  pro : PlanName
  enterprise : PlanName

-- A limit of a plan
pub record Limit : Type 0 where
  pub used : ℕ
  pub most : ℕ

pub record Billing : Type 0 where
  pub team_id : String
  pub plan : PlanName
  pub billing_provider : Option String
  pub subscription_status : Option String
  pub seats : Option ℕ
  pub member_count : ℕ
  pub current_period_end : Option String
  pub has_subscription : Bool
  pub price_id_pro : Option String
  pub plan_enforcement : Option Bool
  pub limits : Option (Limit × Limit)

-- The state of the page, less what is typed and the checkout
pub record TeamPage : Type 0 where
  pub team : Option Team
  pub roster : List Member
  pub invites : List Invitation
  pub billing : Option Billing
  pub is_loading : Bool
  pub load_error : Option String
  pub action_error : Option String

unfoldable pub role_rank : Role → ℕ
role_rank owner = 3
role_rank admin = 2
role_rank member = 1

unfoldable pub is_owner : Member → Bool
unfolding role_rank
is_owner m = eqb (role_rank m.role) 3

unfoldable pub is_manager : Member → Bool
unfolding role_rank
is_manager m = leb 2 (role_rank m.role)

-- `m.user_id === id`
unfoldable pub of_user : String → Member → Bool
of_user id m = m.user_id == id

-- `adminCount`
unfoldable pub admin_count : List Member → ℕ
unfolding keep is_manager
admin_count roster = length (keep is_manager roster)
