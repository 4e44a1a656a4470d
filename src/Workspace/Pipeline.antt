-- ===== src/Workspace/Pipeline.antt =====
-- The runs of a canvas: `handleDeployClick`, `handlePlanClick` and `handleDestroyClick` of
-- apps/web/app/workspace/page.tsx, cut at the reply to their request, with the sockets on which the
-- server streams a run, and the buttons of apps/web/app/workspace/WorkspaceHeaderV2.tsx. A socket
-- that the page has closed has no more messages; one that the server closes may have some in the
-- model. The statuses are texts, as the server sends them.
pub mod Runs
pub mod Phases
pub mod Exclusive
pub mod Stuck
mod Examples
use whiparc.Prelude.{
  IsUnique-of_distinct, ℕ, zero, suc, ◌+◌, ◌-◌, ◌*◌, ◌/◌, ◌%◌, ◌≤◌, ◌<◌, String, ◌≡◌, refl, sym, ap,
  ◌∙◌, ◌≢◌, ◌↔◌, ◌⊎◌, inl, inr, Bool, true, false, not, ◌&&◌, ◌||◌, Option, none, some, List, [],
  ◌∷◌, ◌++◌, map, arith, ◌==◌, starts_with, eq_iff, length, length-append, first, All, length-map,
  keep, any, find_first, update, count, contains, IsUnique, ltb, leb, eqb, if◌then◌else◌, is_some,
  Bool-cases, Option-cases, List-cases,
}
use whiparc.Prelude.Text.{cat, decimal}
use whiparc.Canvas.{Node, Edge}
use whiparc.Store.{
  CanvasState, NodeExecutionStatus, PipelineAction, deploy, destroy, set_node_execution_status,
}
use whiparc.Bundle.Files.{FileItem, generate_bundle_files}
use whiparc.Workspace.Blocks.{is_pipeline_busy}

pub data Kind : Type 0 where
  deploy_run plan_run destroy_run : Kind

-- What is sent; `auto_destroy` only for a deployment.
pub record Post : Type 0 where
  pub kind : Kind
  pub files : List (String × String)
  pub auto_destroys : Option Bool

-- `stream` is the socket in `wsRef`; `strays` are open sockets that it no longer holds.
pub record Console : Type 0 where
  pub canvas : CanvasState
  pub deploy_status : String
  pub plan_status : String
  pub logs : String
  pub is_terminal_open : Bool
  pub active_run : Option String
  pub auto_destroy : Bool
  pub refusals : List Kind
  pub posts : List Post
  pub stream : Option Kind
  pub strays : List Kind

-- The status of the machine that a run uses: destroy uses that of deploy.
unfoldable pub set_machine : Kind → String → Console → Console
set_machine deploy_run s c = record c { deploy_status = s }
set_machine destroy_run s c = record c { deploy_status = s }
set_machine plan_run s c = record c { plan_status = s }

unfoldable pub reset_other : Kind → Console → Console
reset_other deploy_run c = record c { plan_status = "IDLE" }
reset_other destroy_run c = record c { plan_status = "IDLE" }
reset_other plan_run c = record c { deploy_status = "IDLE" }

abbrev pub add_logs : List String → Console → Console
add_logs ts c = record c { logs = cat (c.logs ∷ ts) }

unfoldable pub first_log : Kind → String
first_log deploy_run = "[CLIENT] Compiling canvas files and preparing payload...\n"
first_log plan_run = "[CLIENT] Compiling canvas files and preparing payload for plan...\n"
first_log destroy_run = "[CLIENT] Triggering infrastructure tear-down (terraform destroy)...\n"

-- `resetExecutionStatuses` and `setPipelineAction`, which a plan leaves alone
unfoldable pub mark_canvas : Kind → CanvasState → CanvasState
mark_canvas deploy_run s = record s {
  execution_statuses = λ _. none;
  pipeline_action = some deploy;
}
mark_canvas destroy_run s = record s {
  execution_statuses = λ _. none;
  pipeline_action = some destroy;
}
mark_canvas plan_run s = s

-- The beginning of the handlers: the socket in `wsRef` is closed.
unfoldable pub begin : Kind → Console → Console
unfolding set_machine reset_other first_log mark_canvas
begin kind c = record (reset_other kind (set_machine kind "PENDING" c)) {
  logs = first_log kind;
  is_terminal_open = true;
  active_run = none;
  canvas = mark_canvas kind c.canvas;
  stream = none;
}

-- Nothing is deployed or planned of an empty canvas; what is there can be torn down.
unfoldable pub is_refused : Kind → List Node → Bool
is_refused destroy_run ns = false
is_refused k [] = true
is_refused k (n ∷ ns) = false

module _ (encode : String → String) where
  unfoldable pub post_of : Kind → Console → Post
  unfolding generate_bundle_files
  post_of kind c =
      let compiled =
        map (λ (f : FileItem). (f.path, f.content))
          (generate_bundle_files encode c.canvas.nodes c.canvas.edges) in
      elim kind [
        | deploy_run ↦ record {
          kind = deploy_run;
          files = compiled;
          auto_destroys = some c.auto_destroy;
        }
        | plan_run ↦ record { kind = plan_run; files = compiled; auto_destroys = none }
        | destroy_run ↦ record { kind = destroy_run; files = []; auto_destroys = none }
      ]

  -- The handlers up to their request
  unfoldable pub handle_click : Kind → Console → Console
  unfolding is_refused begin post_of
  handle_click kind c =
      if is_refused kind c.canvas.nodes
      then record c { refusals = c.refusals ++ kind ∷ [] }
      else record (begin kind c) { posts = c.posts ++ post_of kind c ∷ [] }

-- The reply to the request: registered, refused with a status and a text, or an error on the way
pub data PostReply : Type 0 where
  accepted : (run_id status : String) → PostReply
  rejected : (http_status : ℕ) (detail : String) → PostReply
  thrown : (message : String) → PostReply

unfoldable pub registered_log : Kind → String
registered_log deploy_run = "[CLIENT] Deployment registered with runID: "
registered_log plan_run = "[CLIENT] Plan registered with runID: "
registered_log destroy_run = "[CLIENT] Destroy run registered with runID: "

unfoldable pub failure_log : Kind → String
failure_log deploy_run = "\n[CLIENT_ERROR] Failed to execute deployment: "
failure_log plan_run = "\n[CLIENT_ERROR] Failed to execute plan: "
failure_log destroy_run = "\n[CLIENT_ERROR] Failed to execute destroy: "

-- The message of the error thrown on a refusal; the text of the server is shown but for a destroy.
unfoldable pub refusal_message : Kind → ℕ → String → String
unfolding cat decimal
refusal_message deploy_run status detail = cat (
    "Failed to deploy. HTTP status: "
    ∷ decimal status
    ∷ (if detail == "" then "" else cat (" - " ∷ detail ∷ []))
    ∷ [])
refusal_message plan_run status detail = cat (
    "Failed to plan. HTTP status: "
    ∷ decimal status
    ∷ (if detail == "" then "" else cat (" - " ∷ detail ∷ []))
    ∷ [])
refusal_message destroy_run status detail =
    cat ("Failed to trigger destroy. HTTP status: " ∷ decimal status ∷ [])

unfoldable pub fail : Kind → String → Console → Console
unfolding set_machine failure_log cat
fail kind message c =
    add_logs (failure_log kind ∷ message ∷ "\n" ∷ []) (set_machine kind "FAILED" c)

abbrev pub list_of : Option Kind → List Kind
list_of none = []
list_of (some k) = k ∷ []

-- The handlers after their reply. A socket that is still in `wsRef` is not closed.
unfoldable pub take_post_reply : Kind → PostReply → Console → Console
unfolding set_machine registered_log cat fail refusal_message
take_post_reply kind (accepted run_id status) c =
    record (add_logs
      (registered_log kind
        ∷ run_id
        ∷ "\n[CLIENT] Establishing log streaming WebSocket connection...\n"
        ∷ [])
      (set_machine kind status c)) {
        active_run = some run_id;
        stream = some kind;
        strays = c.strays ++ list_of c.stream;
      }
take_post_reply kind (rejected status detail) c = fail kind (refusal_message kind status detail) c
take_post_reply kind (thrown message) c = fail kind message c

pub data Message : Type 0 where
  status_change : String → Message
  log : String → Message
  node_status : String → NodeExecutionStatus → Message
  other : Message
  raw : (text failure : String) → Message

abbrev is_plan : Kind → Bool
is_plan plan_run = true
is_plan _ = false

-- `ws.onmessage`
unfoldable pub hear : Kind → Message → Console → Console
unfolding set_machine cat set_node_execution_status
hear kind (status_change s) c = set_machine kind s c
hear kind (log t) c = add_logs (t ∷ []) c
hear kind (node_status id st) c =
    if is_plan kind then c else record c { canvas = set_node_execution_status id st c.canvas }
hear kind other c = c
hear kind (raw text failure) c = add_logs (text ∷ "\n" ∷ failure ∷ []) c

unfoldable pub opened_log : Kind → String
opened_log destroy_run = "[CLIENT] WebSocket connection established. Streaming execution logs...\n"
opened_log k = "[CLIENT] WebSocket connection established. Streaming pipeline runner logs...\n"

-- `isBusy` and `isPlanBusy` of the header
unfoldable pub is_header_busy : Console → Bool
is_header_busy c =
    c.deploy_status == "RUNNING"
    || c.deploy_status == "PENDING"
    || c.deploy_status == "CLEANUP"
    || c.plan_status == "RUNNING"
    || c.plan_status == "PENDING"

-- Is the button of a run enabled?
unfoldable pub is_enabled : Kind → Console → Bool
unfolding is_header_busy
is_enabled destroy_run c = not (is_header_busy c) && not c.auto_destroy
is_enabled k c = not (is_header_busy c)

-- The effect that tells the store
unfoldable pub sync_executing : Console → Console
unfolding is_pipeline_busy
sync_executing c = record c {
  canvas = record c.canvas { is_executing = is_pipeline_busy c.deploy_status c.plan_status };
}
