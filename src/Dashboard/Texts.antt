-- ===== src/Dashboard/Texts.antt =====
-- The texts of the dashboard: apps/web/app/dashboard/DashboardV2.tsx (`greeting`, `timeAgo`,
-- `formatDuration`, `formatActivityEvent`) and `deriveDifficulty` of
-- apps/web/app/components/TemplateCard.tsx. Times are milliseconds, and none stands for a text
-- that is no date.
use whiparc.Prelude.{
  ℕ, ◌+◌, ◌-◌, ◌/◌, ◌%◌, String, ◌||◌, Option, none, some, List, [], ◌∷◌, ◌==◌, ltb, leb, eqb,
  if◌then◌else◌,
}
use Prim.Native.Char.{code}
use whiparc.Prelude.Text.{cat, decimal}

unfoldable pub greeting : ℕ → String
greeting hour = if ltb hour 12 then "Morning" else if ltb hour 18 then "Afternoon" else "Evening"

-- What is of the future is of now.
unfoldable pub time_ago : ℕ → Option ℕ → String
unfolding cat decimal
time_ago now none = ""
time_ago now (some earlier) =
    let mins = (now - earlier) / 60000 in
    let hours = mins / 60 in
    let days = hours / 24 in
    if ltb mins 1
    then "now"
    else if ltb mins 60
    then cat (decimal mins ∷ "m ago" ∷ [])
    else if ltb hours 24
    then cat (decimal hours ∷ "h ago" ∷ [])
    else if eqb days 1
    then "yesterday"
    else cat (decimal days ∷ "d ago" ∷ [])

-- `Math.round(ms / 1000)`
unfoldable pub round_seconds : ℕ → ℕ
round_seconds ms = (ms + 500) / 1000

unfoldable pub format_duration : Option ℕ → Option ℕ → String
unfolding cat decimal round_seconds
format_duration none end = "—"
format_duration (some start) none = "—"
format_duration (some start) (some end) =
    let secs = round_seconds (end - start) in
    if leb end start
    then "—"
    else if ltb secs 60
    then cat (decimal secs ∷ "s" ∷ [])
    else cat (decimal (secs / 60) ∷ "m " ∷ decimal (secs % 60) ∷ "s" ∷ [])

pub record ActivityEvent : Type 0 where
  pub id : String
  pub project_id : Option String
  pub project_name : Option String
  pub actor_id : Option String
  pub actor_name : Option String
  pub kind : String
  pub payload : List (String × String)
  pub created_at : String

-- `value || fallback`
unfoldable pub or_text : Option String → String → String
or_text none fallback = fallback
or_text (some s) fallback = if s == "" then fallback else s

-- `p.key`
unfoldable pub payload_at : String → List (String × String) → Option String
payload_at key [] = none
payload_at key ((k, v) ∷ rest) =
    let below = payload_at key rest in if k == key then some v else below

-- `value ? … : ''`, with the text around the value
unfoldable pub around : String → Option String → String → String
unfolding cat
around before none after = ""
around before (some s) after = if s == "" then "" else cat (before ∷ s ∷ after ∷ [])

-- `kind.replace(/[._]/g, ' ')`
unfoldable pub spaced : String → String
spaced String.[] = String.[]
spaced (String.◌∷◌ c s) =
    String.◌∷◌ (if eqb (code c) 46 || eqb (code c) 95 then " " else c) (spaced s)

unfoldable pub actor : ActivityEvent → String → String
unfolding or_text
actor event user =
    let shown = or_text event.actor_name "Someone" in
    elim event.actor_id [ none ↦ shown | some id ↦ if id == user then "You" else shown ]

unfoldable pub format_activity_event : ActivityEvent → String → String
unfolding or_text payload_at around actor cat spaced
format_activity_event event user =
    let who = actor event user in
    let project = or_text event.project_name "a project" in
    let provider = around "" (payload_at "provider" event.payload) " " in
    let target = payload_at "target" event.payload in
    let kind = event.kind in
    if kind == "project.created"
    then cat (who ∷ " created " ∷ project ∷ "." ∷ [])
    else if kind == "credential.created"
    then cat (who ∷ " added a " ∷ provider ∷ "credential to " ∷ project ∷ "." ∷ [])
    else if kind == "credential.revoked"
    then cat (who ∷ " revoked a " ∷ provider ∷ "credential from " ∷ project ∷ "." ∷ [])
    else if kind == "member.added"
    then cat (
        who
        ∷ " added "
        ∷ or_text (payload_at "member_name" event.payload) "someone"
        ∷ " to "
        ∷ project
        ∷ "."
        ∷ [])
    else if kind == "template.published"
    then cat (who ∷ " published " ∷ project ∷ " as a template." ∷ [])
    else if kind == "deploy.succeeded"
    then cat (who ∷ " deployed " ∷ project ∷ around " to " target "" ∷ "." ∷ [])
    else if kind == "deploy.failed"
    then cat ("Apply failed on " ∷ project ∷ "." ∷ [])
    else if kind == "destroy.succeeded"
    then cat (who ∷ " destroyed " ∷ project ∷ "." ∷ [])
    else if kind == "destroy.failed"
    then cat ("Destroy failed on " ∷ project ∷ "." ∷ [])
    else if kind == "plan.succeeded"
    then cat (who ∷ " ran a plan on " ∷ project ∷ around " (" target ")" ∷ "." ∷ [])
    else if kind == "plan.failed"
    then cat ("Plan failed on " ∷ project ∷ "." ∷ [])
    else cat (who ∷ ": " ∷ spaced kind ∷ " on " ∷ project ∷ "." ∷ [])

-- `deriveDifficulty`
unfoldable pub derive_difficulty : ℕ → String
derive_difficulty node_count =
    if leb node_count 5 then "beginner" else if leb node_count 9 then "intermediate" else "advanced"
