-- ===== src/Workspace/Blocks.antt =====
-- Blocks of the library put on the canvas by a click: `handleAddNodeToCanvas` of
-- apps/web/app/workspace/page.tsx. The clock is an argument; positions are left out.
use whiparc.Prelude.{
  ℕ, ◌-◌, String, Bool, ◌||◌, Option, none, some, List, [], ◌∷◌, ◌++◌, ◌==◌, if◌then◌else◌,
}
use Prim.Native.String.{count as chars}
use whiparc.Prelude.Text.{cat, decimal}
use whiparc.Canvas.{Node}
use whiparc.Canvas.Json.{Value, str, obj, Fields, end, field, lookup}
use whiparc.Playbook.Vars.{drop}
use whiparc.Store.{CanvasState, add_node, set_selected_node_id, reset_canvas}
use whiparc.Workspace.Defaults.{get_default_parameters_for_node}

pub record LibraryNode : Type 0 where
  pub id : String
  pub tech : String
  pub icon : String
  pub title : String
  pub description : String
  pub category : String
  pub is_custom : Bool
  pub raw_code : String
  pub code_type : String
  pub block_parameters : Option Fields

-- `Date.now().toString().slice(-4)`
unfoldable pub last_four : ℕ → String
unfolding decimal drop
last_four now = let s = decimal now in drop (chars s - 4) s

-- `newId`
unfoldable pub new_id : String → ℕ → String
unfolding cat last_four
new_id id now = cat (id ∷ "_" ∷ last_four now ∷ [])

-- The label of a block's technology
unfoldable pub category_label : String → String
category_label tech =
    if tech == "Terraform"
    then "AWS Resource"
    else if tech == "Ansible"
    then "Ansible Task"
    else if tech == "Source"
    then "Source Code"
    else if tech == "Target"
    then "Cloud Target"
    else "K8s Resource"

-- A key whose value may be undefined
unfoldable pub key_if : String → Option Value → Fields → Fields
key_if k none rest = rest
key_if k (some v) rest = field k v rest

-- The keys that are copied out of the parameters
abbrev pub synced_keys : List String
synced_keys = "port" ∷ "dbUser" ∷ "dbPass" ∷ "repoUrl" ∷ "branch" ∷ "startCommand" ∷ "appPort" ∷ []

unfoldable pub copied : List String → Fields → Fields
unfolding key_if lookup
copied [] p = end
copied (k ∷ ks) p = key_if k (lookup k p) (copied ks p)

unfoldable pub synced : Fields → Fields
unfolding copied
synced p = copied synced_keys p

-- The first keys of a block's data
unfoldable pub block_data :
    (title tech icon label description status_text : String) → Fields → Fields
block_data title tech icon label description status_text rest = field "label" (str title) (
    field "tech" (str tech) (
      field "icon" (str icon) (
        field "categoryLabel" (str label) (
          field "description" (str description)
            (field "status" (str "Validated") (field "statusText" (str status_text) rest))))))

-- The node of `handleAddNodeToCanvas`
unfoldable pub clicked_node : LibraryNode → ℕ → Node
unfolding new_id block_data category_label get_default_parameters_for_node synced
clicked_node lib now =
    let params = get_default_parameters_for_node lib.id in
    record {
      id = new_id lib.id now;
      payload = some (
          block_data lib.title lib.tech lib.icon (category_label lib.tech) lib.description
            "Validated" (field "parameters" (obj params) (synced params)));
    }

-- The alerts that the canvas is locked, for an added, a dropped and a cleared block
pub data Alert : Type 0 where
  cannot_add cannot_drop cannot_clear : Alert

-- What a page shows besides the canvas: the alerts so far and the notice on Google Cloud
pub record Page : Type 0 where
  pub canvas : CanvasState
  pub alerts : List Alert
  pub shows_gcp_notice : Bool

-- `isPipelineBusy`, and `isPipelineRunning` on the canvas
unfoldable pub is_pipeline_busy : (deploy_status plan_status : String) → Bool
is_pipeline_busy deploy plan =
    deploy == "PENDING" || deploy == "RUNNING" || plan == "PENDING" || plan == "RUNNING"

-- The end of both handlers
unfoldable pub put_block : String → Node → Page → Page
unfolding add_node set_selected_node_id
put_block block_id n w = record w {
  canvas = set_selected_node_id (some n.id) (add_node n w.canvas);
  shows_gcp_notice = w.shows_gcp_notice || block_id == "gcp_target";
}

unfoldable pub handle_add_node_to_canvas : Bool → LibraryNode → ℕ → Page → Page
unfolding clicked_node put_block
handle_add_node_to_canvas busy lib now w =
    if busy
    then record w { alerts = w.alerts ++ cannot_add ∷ [] }
    else put_block lib.id (clicked_node lib now) w

-- `handleClearCanvas`; `confirmed` is the answer to the question.
unfoldable pub handle_clear_canvas : Bool → (confirmed : Bool) → Page → Page
unfolding reset_canvas
handle_clear_canvas busy confirmed w =
    if busy
    then record w { alerts = w.alerts ++ cannot_clear ∷ [] }
    else if confirmed
    then record w { canvas = reset_canvas w.canvas }
    else w
