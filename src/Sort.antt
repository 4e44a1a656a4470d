-- ===== src/Sort.antt =====
-- `getSortedNodes` of apps/web/app/lib/exportYaml.ts: Kahn's algorithm over the canvas, with the
-- nodes that it cannot place appended in canvas order.
pub mod Arcs
pub mod Rounds
pub mod Ending
pub mod Order
pub mod Permutation
pub mod Precedence
pub mod Topological
pub mod Stable
mod Examples
use mathlib.Core.List.{foldl, filter_map}
use whiparc.Prelude.{
  ℕ, zero, suc, String, Bool, Option, none, some, List, [], ◌∷◌, ◌++◌, map, ◌&&◌, not,
  if◌then◌else◌, is_some, ltb, length, keep, update, contains,
}
use whiparc.Prelude.Int.{ℤ, pos, ◌+ℤ◌, ◌-ℤ◌, is_zero}
use whiparc.Canvas.{Node, Edge}

-- `nodeMap`: of two nodes with one id the later one is found.
pub put_node : (String → Option Node) → Node → String → Option Node
put_node m n = update m n.id (some n)

pub node_map : List Node → String → Option Node
unfolding put_node
node_map nodes = foldl put_node (λ _. none) nodes

-- `adj` and `inDegree`. Before the edges are read each list is empty and each degree 0.
pub record Graph : Type 0 where
  pub adj : String → List String
  pub in_degree : String → ℤ

abbrev pub blank : Graph
blank = record { adj = λ _. []; in_degree = λ _. pos 0 }

-- `nodeMap.has(edge.source) && nodeMap.has(edge.target)`
pub on_canvas : List Node → Edge → Bool
unfolding node_map
on_canvas nodes e = is_some (node_map nodes e.source) && is_some (node_map nodes e.target)

pub add_edge : List Node → Graph → Edge → Graph
unfolding on_canvas ◌+ℤ◌
add_edge nodes g e =
    if on_canvas nodes e
    then record {
      adj = update g.adj e.source (g.adj e.source ++ e.target ∷ []);
      in_degree = update g.in_degree e.target (g.in_degree e.target +ℤ pos 1);
    }
    else g

pub graph : List Node → List Edge → Graph
unfolding add_edge
graph nodes edges = foldl (add_edge nodes) blank edges

-- The variables of the `while` loop.
pub record Walk : Type 0 where
  pub degrees : String → ℤ
  pub queue : List String
  pub sorted : List String

-- The body of `neighbors.forEach`.
pub relax : Walk → String → Walk
unfolding ◌-ℤ◌
relax w v =
    let d = w.degrees v -ℤ pos 1 in
    record w {
      degrees = update w.degrees v d;
      queue = if is_zero d then w.queue ++ v ∷ [] else w.queue;
    }

module _ (adj : String → List String) where
  -- One round, after `u` left the head of the queue.
  pub visit : Walk → String → List String → Walk
  unfolding relax
  visit w u rest = foldl relax (record w { queue = rest; sorted = w.sorted ++ u ∷ [] }) (adj u)

  pub drain : ℕ → Walk → Walk
  unfolding visit
  drain zero w = w
  drain (suc fuel) w = elim w.queue [ [] ↦ w | u ∷ rest ↦ drain fuel (visit w u rest) ]

abbrev pub ids : List Node → List String
ids nodes = map (λ n. n.id) nodes

-- The queue before the loop: the nodes that no edge enters, in canvas order.
pub start : List Node → Graph → Walk
start nodes g = record {
  degrees = g.in_degree;
  queue = keep (λ v. is_zero (g.in_degree v)) (ids nodes);
  sorted = [];
}

-- The loop, with a round for each node.
pub walk : List Node → List Edge → Walk
unfolding graph start drain keep
walk nodes edges = let g = graph nodes edges in drain g.adj (length nodes) (start nodes g)

-- Appends the ids that were not reached.
pub complete : List String → List String → List String
unfolding keep
complete sorted all =
    if ltb (length sorted) (length all)
    then sorted ++ keep (λ v. not (contains sorted v)) all
    else sorted

pub sorted_ids : List Node → List Edge → List String
unfolding walk complete
sorted_ids nodes edges = complete (walk nodes edges).sorted (ids nodes)

unfoldable pub get_sorted_nodes : List Node → List Edge → List Node
unfolding sorted_ids node_map
get_sorted_nodes nodes edges = filter_map (node_map nodes) (sorted_ids nodes edges)
