-- ===== src/Store/Actions.antt =====
-- The actions of the store as data, and sequences of them: what user input, @xyflow/react and
-- the pages that use the store can do to it.
use whiparc.Prelude.{ℕ, String, Bool, Option, none, List, [], ◌∷◌}
use whiparc.Canvas.{Node, Edge}
use whiparc.Canvas.Json.{Fields}
use whiparc.Store.{
  NodeExecutionStatus, PipelineAction, SaveStatus, CustomLibraryNode, CanvasState, Flow,
  set_node_execution_status, set_selected_node_id, set_selected_edge_id, update_node_data,
  update_edge_data, delete_edge, add_node, delete_node, reset_canvas, delete_custom_library_node,
  on_nodes_change, on_edges_change, on_connect,
}

module _ (flow : Flow) where
  open flow use {NodeChange, EdgeChange}

  pub data Action : Type 0 where
    set_is_executing : Bool → Action
    set_status : String → NodeExecutionStatus → Action
    reset_statuses : Action
    set_pipeline_action : Option PipelineAction → Action
    set_project_id : Option String → Action
    set_save_status : SaveStatus → Action
    set_version : ℕ → Action
    select_node select_edge : Option String → Action
    edit_node : String → Fields → Action
    edit_edge : String → String → Bool → String → ℕ → Action
    remove_edge remove_node : String → Action
    place_node : Node → Action
    node_changes : List NodeChange → Action
    edge_changes : List EdgeChange → Action
    connect : String → String → Action
    set_nodes : List Node → Action
    set_edges : List Edge → Action
    reset : Action
    set_library : List CustomLibraryNode → Action
    add_to_library : CustomLibraryNode → Action
    remove_from_library : String → Action

  unfoldable pub step : Action → CanvasState → CanvasState
  step (set_is_executing b) s = record s { is_executing = b }
  step (set_status id st) s = set_node_execution_status id st s
  step reset_statuses s = record s { execution_statuses = λ _. none }
  step (set_pipeline_action a) s = record s { pipeline_action = a }
  step (set_project_id p) s = record s { project_id = p }
  step (set_save_status st) s = record s { save_status = st }
  step (set_version v) s = record s { version = v }
  step (select_node id) s = set_selected_node_id id s
  step (select_edge id) s = set_selected_edge_id id s
  step (edit_node id news) s = update_node_data id news s
  step (edit_edge id label animated stroke width) s =
      update_edge_data id label animated stroke width s
  step (remove_edge id) s = delete_edge id s
  step (remove_node id) s = delete_node id s
  step (place_node n) s = add_node n s
  step (node_changes cs) s = on_nodes_change flow cs s
  step (edge_changes cs) s = on_edges_change flow cs s
  step (connect u v) s = on_connect flow u v s
  step (set_nodes ns) s = record s { nodes = ns }
  step (set_edges es) s = record s { edges = es }
  step reset s = reset_canvas s
  step (set_library ns) s = record s { custom_library_nodes = ns }
  step (add_to_library n) s = record s { custom_library_nodes = n ∷ s.custom_library_nodes }
  step (remove_from_library id) s = delete_custom_library_node id s

  unfoldable pub run : List Action → CanvasState → CanvasState
  unfolding step
  run [] s = s
  run (a ∷ rest) s = run rest (step a s)
