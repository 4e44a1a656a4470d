-- ===== src/Store/Examples.antt =====
-- A small canvas in the store, and the theorems about the store at it.
use whiparc.Prelude.{
  String, ◌≡◌, refl, inl, true, false, not, some, List, [], ◌∷◌, ◌++◌, keep, contains,
}
use whiparc.Canvas.{Node, Edge, plain}
use whiparc.Canvas.Json.{end}
use whiparc.Canvas.Design.{edge_custom_stroke, edge_stroke_width}
use whiparc.Prelude.Text.{cat}
use whiparc.Store.{
  set_selected_node_id, set_selected_edge_id, on_connect, CanvasState, Flow, initial, or_empty,
  restyle, add_node, delete_node,
}
use whiparc.Store.Actions.{Action, run}
use whiparc.Store.Selection.{IsExclusive, run-IsExclusive}
use whiparc.Store.Inspector.{restyle_round_trip}
use whiparc.Store.Deletion.{has_node, IsWired, delete_node-IsWired}

-- Changes name the edge that they remove.
abbrev flow : Flow
unfolding keep
flow = record {
  NodeChange = Unit;
  EdgeChange = String;
  is_remove = λ _. true;
  apply_node_changes = λ _ ns. ns;
  apply_edge_changes = λ cs es. keep (λ e. not (contains cs e.id)) es;
  add_edge = λ e es. es ++ e ∷ [];
}

abbrev a_node : String → Node
a_node name = record { id = name; payload = some end }

abbrev wire : Edge
wire = record { id = "e1"; source = "a"; target = "b"; look = plain }

abbrev canvas : CanvasState
canvas = record initial {
  nodes = a_node "a" ∷ a_node "b" ∷ [];
  edges = wire ∷ [];
  selected_edge_id = some "e1";
}

abbrev script : List (Action flow)
script =
    Action.place_node (a_node "a")
    ∷ Action.select_node (some "a")
    ∷ Action.connect "a" "b"
    ∷ Action.select_edge (some "reactflow__edge-a-b")
    ∷ []

run_selects : (run flow script initial).selected_edge_id ≡ some "reactflow__edge-a-b"
unfolding run set_selected_node_id set_selected_edge_id add_node on_connect cat
run_selects = refl

run-IsExclusive_example : IsExclusive (run flow script initial)
run-IsExclusive_example = run-IsExclusive flow script initial (inl refl)

restyle_round_trip_example :
    restyle "x" false (or_empty (edge_custom_stroke plain)) (edge_stroke_width plain) plain
    ≡ record plain { label = some "x"; animated = some false; class_name = some "" }
restyle_round_trip_example = restyle_round_trip "x" false plain

delete_node-IsWired_example :
    (has_node (delete_node "a" canvas).nodes "a" ≡ false)
    × IsWired (delete_node "a" canvas).nodes (delete_node "a" canvas).edges
delete_node-IsWired_example = delete_node-IsWired "a" canvas refl ((refl, refl), tt)
