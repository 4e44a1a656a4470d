-- ===== src/Store/Deletion.antt =====
-- Deleting nodes and edges: the guards of a running pipeline, and what the canvas keeps.
use whiparc.Prelude.{
  String, ◌≡◌, refl, Bool, true, false, not, ◌&&◌, ◌||◌, some, List, [], ◌∷◌, arith, ◌==◌, eq_iff,
  All, keep,
}
use whiparc.Canvas.{Node, Edge}
use whiparc.Store.{CanvasState, selects, delete_edge, add_node, delete_node}

abbrev pub has_node : List Node → String → Bool
has_node [] id = false
has_node (n ∷ ns) id = n.id == id || has_node ns id

-- Both ends of every edge are nodes of the canvas.
abbrev pub IsWired : List Node → List Edge → Type 0
IsWired ns es = All (λ e. (has_node ns e.source ≡ true) × (has_node ns e.target ≡ true)) es

abbrev pub touches : String → Edge → Bool
touches id e = e.source == id || e.target == id

has_node-keep :
    (id v : String) (ns : List Node)
    → (v == id) ≡ false
    → has_node ns v ≡ true
    → has_node (keep (λ n. not (n.id == id)) ns) v ≡ true
unfolding keep
has_node-keep id v [] other h = h
has_node-keep id v (n ∷ ns) other h =
    ground (arith, has_node-keep id v ns, eq_iff n.id id, eq_iff n.id v, eq_iff v id)

has_node-deleted :
    (id : String) (ns : List Node) → has_node (keep (λ n. not (n.id == id)) ns) id ≡ false
unfolding keep
has_node-deleted id [] = refl
has_node-deleted id (n ∷ ns) = ground (arith, has_node-deleted id ns)

IsWired-keep :
    (id : String) (ns : List Node) (es : List Edge)
    → IsWired ns es
    → IsWired
        (keep (λ n. not (n.id == id)) ns)
        (keep (λ e. not (e.source == id) && not (e.target == id)) es)
unfolding keep
IsWired-keep id ns [] h = tt
IsWired-keep id ns (e ∷ es) h =
    ground
      (arith, IsWired-keep id ns es h.1, has_node-keep id e.source ns, has_node-keep id e.target ns)

-- Outside a run, deleting a node removes it, and leaves a wired canvas wired: the edges that
-- touched it go with it.
pub delete_node-IsWired :
    (id : String) (s : CanvasState)
    → s.is_executing ≡ false
    → IsWired s.nodes s.edges
    → (has_node (delete_node id s).nodes id ≡ false)
      × IsWired (delete_node id s).nodes (delete_node id s).edges
unfolding delete_node
delete_node-IsWired id s quiet wired =
    rw quiet (has_node-deleted id s.nodes, IsWired-keep id s.nodes s.edges wired)

-- While a pipeline runs, adding a node and deleting a node or an edge change nothing.
executing_locks :
    (s : CanvasState)
    → s.is_executing ≡ true
    → ((n : Node) → add_node n s ≡ s)
      × ((id : String) → delete_node id s ≡ s)
      × ((id : String) → delete_edge id s ≡ s)
unfolding add_node delete_node delete_edge
executing_locks s running = (λ n. ground arith, λ id. ground arith, λ id. ground arith)

abbrev pub has_edge : List Edge → String → Bool
has_edge [] id = false
has_edge (e ∷ es) id = e.id == id || has_edge es id

has_edge-deleted :
    (id : String) (es : List Edge) → has_edge (keep (λ e. not (e.id == id)) es) id ≡ false
unfolding keep
has_edge-deleted id [] = refl
has_edge-deleted id (e ∷ es) = ground (arith, has_edge-deleted id es)

-- Outside a run, deleting an edge removes every edge of that id and clears its selection.
delete_edge-deselects :
    (id : String) (s : CanvasState)
    → s.is_executing ≡ false
    → (has_edge (delete_edge id s).edges id ≡ false)
      × (selects (delete_edge id s).selected_edge_id id ≡ false)
unfolding delete_edge
delete_edge-deselects id s quiet = rw quiet (has_edge-deleted id s.edges, ground arith)

has_edge-untouched :
    (id : String) (chosen : String) (es : List Edge)
    → All (λ e. (e.id == chosen) ≡ true → touches id e ≡ true) es
    → has_edge (keep (λ e. not (e.source == id) && not (e.target == id)) es) chosen ≡ false
unfolding keep
has_edge-untouched id chosen [] h = refl
has_edge-untouched id chosen (e ∷ es) h = ground (arith, has_edge-untouched id chosen es h.1, h.0)

-- Deleting a node leaves its edges selected: if the selected edge touches the node, the edge is
-- gone afterwards and its id is still the selected one.
delete_node_dangles :
    (id chosen : String) (s : CanvasState)
    → s.is_executing ≡ false
    → s.selected_edge_id ≡ some chosen
    → All (λ e. (e.id == chosen) ≡ true → touches id e ≡ true) s.edges
    → ((delete_node id s).selected_edge_id ≡ some chosen)
      × (has_edge (delete_node id s).edges chosen ≡ false)
unfolding delete_node
delete_node_dangles id chosen s quiet selected h =
    (ground arith, rw quiet (has_edge-untouched id chosen s.edges h))
