-- ===== src/Store.antt =====
-- The canvas store, apps/web/app/store/useCanvasStore.ts: its state and its actions. What
-- @xyflow/react does (`applyNodeChanges`, `applyEdgeChanges`, `addEdge`) is a parameter.
pub mod Inspector
pub mod Actions
pub mod Selection
pub mod Deletion
mod Examples
use whiparc.Prelude.{
  IsUnique-of_distinct, ℕ, zero, suc, ◌+◌, ◌-◌, ◌*◌, ◌/◌, ◌%◌, ◌≤◌, ◌<◌, String, ◌≡◌, refl, sym, ap,
  ◌∙◌, ◌≢◌, ◌↔◌, ◌⊎◌, inl, inr, Bool, true, false, not, ◌&&◌, ◌||◌, Option, none, some, List, [],
  ◌∷◌, ◌++◌, map, arith, ◌==◌, starts_with, eq_iff, length, length-append, first, All, length-map,
  keep, any, find_first, update, count, contains, IsUnique, ltb, leb, eqb, if◌then◌else◌, is_some,
  Bool-cases, Option-cases, List-cases,
}
use whiparc.Prelude.Text.{cat}
use whiparc.Canvas.{Node, Edge, Look, plain}
use whiparc.Canvas.Json.{Fields, merge}
use whiparc.Canvas.Design.{is_set, edge_custom_stroke, edge_stroke_width}

pub data NodeExecutionStatus : Type 0 where
  idle pending running completed failed : NodeExecutionStatus

pub data PipelineAction : Type 0 where
  deploy destroy : PipelineAction

pub data SaveStatus : Type 0 where
  saved saving error readonly : SaveStatus

pub record CustomLibraryNode : Type 0 where
  pub id : String
  pub project_id : Option String
  pub title : String
  pub tech : String
  pub category : String
  pub description : String
  pub code_type : String
  pub raw_code : String
  pub parsed_meta_json : String

pub record CanvasState : Type 0 where
  pub nodes : List Node
  pub edges : List Edge
  pub selected_node_id : Option String
  pub selected_edge_id : Option String
  pub is_executing : Bool
  pub execution_statuses : String → Option NodeExecutionStatus
  pub pipeline_action : Option PipelineAction
  pub project_id : Option String
  pub save_status : SaveStatus
  pub version : ℕ
  pub custom_library_nodes : List CustomLibraryNode

abbrev pub initial : CanvasState
initial = record {
  nodes = [];
  edges = [];
  selected_node_id = none;
  selected_edge_id = none;
  is_executing = false;
  execution_statuses = λ _. none;
  pipeline_action = none;
  project_id = none;
  save_status = saved;
  version = 1;
  custom_library_nodes = [];
}

-- `id ? … : …`, for an id or null: the empty text counts as null.
abbrev pub given : Option String → Bool
given none = false
given (some s) = not (s == "")

-- `selected === id`
abbrev pub selects : Option String → String → Bool
selects none id = false
selects (some s) id = s == id

unfoldable pub set_node_execution_status : String → NodeExecutionStatus → CanvasState → CanvasState
set_node_execution_status id status s = record s {
  execution_statuses = update s.execution_statuses id (some status);
}

unfoldable pub set_selected_node_id : Option String → CanvasState → CanvasState
set_selected_node_id id s =
    if given id
    then record s { selected_node_id = id; selected_edge_id = none }
    else record s { selected_node_id = none }

unfoldable pub set_selected_edge_id : Option String → CanvasState → CanvasState
set_selected_edge_id id s =
    if given id
    then record s { selected_edge_id = id; selected_node_id = none }
    else record s { selected_edge_id = none }

-- `{ ...node, data: { ...node.data, ...newData } }`
pub merge_data : Fields → Node → Node
merge_data news n = elim n.payload [
  | none ↦ record n { payload = some news }
  | some fs ↦ record n { payload = some (merge fs news) }
]

unfoldable pub update_node_data : String → Fields → CanvasState → CanvasState
unfolding merge_data
update_node_data id news s = record s {
  nodes = map (λ n. if n.id == id then merge_data news n else n) s.nodes;
}

-- `edgeCustomStroke(edge) ?? ''`
abbrev pub or_empty : Option String → String
or_empty none = ""
or_empty (some s) = s

-- The edge that the inspector writes back.
unfoldable pub restyle : String → Bool → String → ℕ → Look → Look
restyle label animated stroke width e =
    let shown = edge_custom_stroke e in
    let cleared_color = stroke == "" && is_some shown in
    let color_changed = not cleared_color && not (stroke == or_empty shown) in
    let width_changed = not (eqb width (edge_stroke_width e)) in
    record {
      label = if label == "" then none else some label;
      animated = some animated;
      class_name = some (if animated then "animate-dash-flow" else "");
      stroke = if cleared_color then none else if color_changed then some stroke else e.stroke;
      stroke_width = if width_changed then some width else e.stroke_width;
      custom_stroke =
          if color_changed
          then some true
          else if cleared_color
          then some false
          else e.custom_stroke;
      custom_width = if width_changed then some true else e.custom_width;
    }

unfoldable pub update_edge_data : String → String → Bool → String → ℕ → CanvasState → CanvasState
update_edge_data id label animated stroke width s = record s {
  edges =
      map
        (λ (e : Edge).
          if e.id == id then record e { look = restyle label animated stroke width e.look } else e)
        s.edges;
}

unfoldable pub delete_edge : String → CanvasState → CanvasState
unfolding keep
delete_edge id s = if s.is_executing then s else record s {
  edges = keep (λ e. not (e.id == id)) s.edges;
  selected_edge_id = if selects s.selected_edge_id id then none else s.selected_edge_id;
}

unfoldable pub add_node : Node → CanvasState → CanvasState
add_node n s = if s.is_executing then s else record s { nodes = s.nodes ++ n ∷ [] }

unfoldable pub delete_node : String → CanvasState → CanvasState
unfolding keep
delete_node id s = if s.is_executing then s else record s {
  nodes = keep (λ n. not (n.id == id)) s.nodes;
  edges = keep (λ e. not (e.source == id) && not (e.target == id)) s.edges;
  selected_node_id = if selects s.selected_node_id id then none else s.selected_node_id;
}

unfoldable pub reset_canvas : CanvasState → CanvasState
reset_canvas s = record s { nodes = []; edges = []; selected_node_id = none }

unfoldable pub delete_custom_library_node : String → CanvasState → CanvasState
unfolding keep
delete_custom_library_node id s = record s {
  custom_library_nodes = keep (λ n. not (n.id == id)) s.custom_library_nodes;
}

-- What the store takes from @xyflow/react.
pub record Flow : Type 1 where
  pub NodeChange : Type 0
  pub EdgeChange : Type 0
  pub is_remove : EdgeChange → Bool
  pub apply_node_changes : List NodeChange → List Node → List Node
  pub apply_edge_changes : List EdgeChange → List Edge → List Edge
  pub add_edge : Edge → List Edge → List Edge

module _ (flow : Flow) where
  open flow use {
    NodeChange, EdgeChange, is_remove, apply_node_changes, apply_edge_changes, add_edge,
  }

  unfoldable pub on_nodes_change : List NodeChange → CanvasState → CanvasState
  on_nodes_change changes s = record s { nodes = apply_node_changes changes s.nodes }

  unfoldable pub on_edges_change : List EdgeChange → CanvasState → CanvasState
  unfolding any
  on_edges_change changes s =
      let next = apply_edge_changes changes s.edges in
      let lost =
        any is_remove changes
        && given s.selected_edge_id
        && not (any (λ e. selects s.selected_edge_id e.id) next) in
      record s { edges = next; selected_edge_id = if lost then none else s.selected_edge_id }

  -- The id is made of the connection's ends.
  unfoldable pub on_connect : String → String → CanvasState → CanvasState
  on_connect source target s =
      let edge : Edge = record {
        id = cat ("reactflow__edge-" ∷ source ∷ "-" ∷ target ∷ []);
        source = source;
        target = target;
        look = plain;
      } in
      record s { edges = add_edge edge s.edges }
