-- ===== src/Store/Selection.antt =====
-- A node and an edge are never selected together, and what a deletion leaves selected.
use whiparc.Prelude.{◌≡◌, ◌⊎◌, none, List, [], ◌∷◌, arith}
use whiparc.Store.{
  CanvasState, Flow, set_node_execution_status, set_selected_node_id, set_selected_edge_id,
  update_node_data, update_edge_data, delete_edge, add_node, delete_node, reset_canvas,
  delete_custom_library_node, on_nodes_change, on_edges_change, on_connect,
}
use whiparc.Store.Actions.{Action, step, run}

-- At most one of the two selections is set.
abbrev pub IsExclusive : CanvasState → Type 0
IsExclusive s = (s.selected_node_id ≡ none) ⊎ (s.selected_edge_id ≡ none)

module _ (flow : Flow) where
  step-IsExclusive :
      (a : Action flow) (s : CanvasState) → IsExclusive s → IsExclusive (step flow a s)
  unfolding step set_selected_node_id set_selected_edge_id delete_edge delete_node add_node
      on_edges_change on_nodes_change on_connect reset_canvas update_node_data update_edge_data
      set_node_execution_status delete_custom_library_node
  step-IsExclusive (Action.set_is_executing b) s h = h
  step-IsExclusive _ s h = ground arith

  -- From the initial state no sequence of actions selects a node and an edge together, whatever
  -- @xyflow/react answers.
  pub run-IsExclusive :
      (actions : List (Action flow)) (s : CanvasState)
      → IsExclusive s
      → IsExclusive (run flow actions s)
  unfolding run
  run-IsExclusive [] s h = h
  run-IsExclusive (a ∷ rest) s h = run-IsExclusive rest (step flow a s) (step-IsExclusive a s h)
