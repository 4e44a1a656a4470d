-- ===== src/Sort/Examples.antt =====
-- Small canvases and what `getSortedNodes` does on them: the cases of
-- apps/web/app/lib/__tests__/exportYaml.test.ts, and the theorems at such inputs.
use mathlib.Core.List.{Memᴰ, Perm, filter_map}
use whiparc.Prelude.{
  IsUnique-of_distinct, ℕ, String, ◌≡◌, refl, true, false, some, List, [], ◌∷◌, arith, ◌==◌, keep,
  contains, IsUnique, if◌then◌else◌,
}
use whiparc.Canvas.{Node, Edge, plain}
use whiparc.Canvas.Json.{end}
use whiparc.Sort.{graph, walk, drain, ids, on_canvas, get_sorted_nodes}
use whiparc.Sort.Arcs.{arcs}
use whiparc.Sort.Ending.{walk_ends}
use whiparc.Sort.Permutation.{get_sorted_nodes-perm}
use whiparc.Sort.Precedence.{Precedes}
use whiparc.Sort.Topological.{get_sorted_nodes-Precedes, walk_reaches}
use whiparc.Sort.Stable.{get_sorted_nodes_stable}

abbrev a_node : String → Node
a_node name = record { id = name; payload = some end }

abbrev an_edge : String → String → Edge
an_edge u v = record { id = "e"; source = u; target = v; look = plain }

abbrev pair : List Node
pair = a_node "update-packages-1" ∷ a_node "nginx-1" ∷ []

abbrev backwards : List Edge
backwards = an_edge "nginx-1" "update-packages-1" ∷ an_edge "ghost" "nginx-1" ∷ []

abbrev cycle : List Edge
cycle = an_edge "nginx-1" "update-packages-1" ∷ an_edge "update-packages-1" "nginx-1" ∷ []

program : Unit {0}
unfolding get_sorted_nodes filter_map
program = tt

orders : ids (get_sorted_nodes pair backwards) ≡ "nginx-1" ∷ "update-packages-1" ∷ []
unfolding program
orders = refl

keeps_cycles : ids (get_sorted_nodes pair cycle) ≡ "update-packages-1" ∷ "nginx-1" ∷ []
unfolding program
keeps_cycles = refl

-- A repeated id drives a degree below 0, and is sorted as often as it stands.
repeated :
    ids (get_sorted_nodes (a_node "a" ∷ a_node "a" ∷ a_node "b" ∷ []) (an_edge "a" "b" ∷ []))
    ≡ "a" ∷ "a" ∷ "b" ∷ []
unfolding program
repeated = refl

pair-IsUnique : IsUnique (ids pair)
pair-IsUnique = IsUnique-of_distinct (ids pair) refl

rank : String → ℕ
rank v = if v == "update-packages-1" then 1 else 0

walk_ends_example :
    ((walk pair cycle).queue ≡ [])
    × (drain (graph pair cycle).adj 5 (walk pair cycle) ≡ walk pair cycle)
walk_ends_example = walk_ends pair cycle 5

get_sorted_nodes-perm_example : Perm (get_sorted_nodes pair cycle) pair
get_sorted_nodes-perm_example = get_sorted_nodes-perm pair cycle pair-IsUnique

get_sorted_nodes-Precedes_example :
    Precedes "nginx-1" "update-packages-1" (ids (get_sorted_nodes pair backwards))
unfolding rank arcs keep on_canvas
get_sorted_nodes-Precedes_example =
    get_sorted_nodes-Precedes pair backwards pair-IsUnique rank (omega arith)
      (an_edge "nginx-1" "update-packages-1") (Memᴰ.head refl) refl

walk_reaches_example :
    ((e : Edge)
      → Memᴰ e (arcs pair cycle)
      → contains (walk pair cycle).sorted e.target ≡ true
      → Precedes e.source e.target (ids (get_sorted_nodes pair cycle)))
    × ((v : String)
        → contains (ids pair) v ≡ true
        → contains (walk pair cycle).sorted v ≡ false
        → (e : Edge) × Memᴰ e (arcs pair cycle)
          × (e.target ≡ v)
          × (contains (walk pair cycle).sorted e.source ≡ false))
walk_reaches_example = walk_reaches pair cycle pair-IsUnique

get_sorted_nodes_stable_example : get_sorted_nodes pair (an_edge "ghost" "nginx-1" ∷ []) ≡ pair
unfolding arcs keep on_canvas
get_sorted_nodes_stable_example =
    get_sorted_nodes_stable pair (an_edge "ghost" "nginx-1" ∷ []) pair-IsUnique refl
