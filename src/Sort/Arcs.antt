-- ===== src/Sort/Arcs.antt =====
-- What the first loops of `getSortedNodes` build: the table of nodes, and the arcs between them.
use mathlib.Core.List.{foldl, append_assoc, append-nil}
use whiparc.Prelude.{
  some, Option-cases, inl, inr, ℕ, ◌+◌, String, true, Option, none, List, [], ◌∷◌, ◌++◌, ◌&&◌, ◌||◌,
  if◌then◌else◌, is_some, keep, contains, All, ◌==◌, eq_iff, arith, ◌≡◌, refl, ap, ◌∙◌, sym,
}
use whiparc.Prelude.Int.{pos, pos-+ℤ-one}
use whiparc.Canvas.{Node, Edge}
use whiparc.Sort.{Graph, blank, node_map, put_node, on_canvas, add_edge, graph, ids}

-- The targets of the arcs that leave `u`, and the number of arcs that enter `v`.
abbrev pub targets : List Edge → String → List String
targets [] u = []
targets (e ∷ es) u = if u == e.source then e.target ∷ targets es u else targets es u

abbrev pub entering : List Edge → String → ℕ
entering [] v = 0
entering (e ∷ es) v = (if v == e.target then 1 else 0) + entering es v

-- The edges whose two ends are on the canvas.
unfoldable pub arcs : List Node → List Edge → List Edge
arcs nodes edges = keep (on_canvas nodes) edges

module _ (nodes : List Node) where
  adj-fold :
      (edges : List Edge) (g : Graph) (u : String)
      → (foldl (add_edge nodes) g edges).adj u ≡ g.adj u ++ targets (arcs nodes edges) u
  unfolding add_edge arcs keep
  adj-fold [] g u = sym (append-nil _)
  adj-fold (e ∷ es) g u = ground (
    arith,
    adj-fold es (add_edge nodes g e) u,
    append_assoc (g.adj u) (e.target ∷ []) (targets (arcs nodes es) u),
    eq_iff u e.source,
  )

  pub adj-graph :
      (edges : List Edge) (u : String) → (graph nodes edges).adj u ≡ targets (arcs nodes edges) u
  unfolding graph
  adj-graph edges u = adj-fold edges blank u

  in_degree-add_edge :
      (e : Edge) (g : Graph) (v : String) (k : ℕ)
      → g.in_degree v ≡ pos k
      → (add_edge nodes g e).in_degree v
        ≡ pos (k + (if on_canvas nodes e && v == e.target then 1 else 0))
  unfolding add_edge
  in_degree-add_edge e g v k h = ground (arith, eq_iff v e.target, pos-+ℤ-one k)

  in_degree-fold :
      (edges : List Edge) (g : Graph) (v : String) (k : ℕ)
      → g.in_degree v ≡ pos k
      → (foldl (add_edge nodes) g edges).in_degree v ≡ pos (k + entering (arcs nodes edges) v)
  unfolding arcs keep
  in_degree-fold [] g v k h = ground arith
  in_degree-fold (e ∷ es) g v k h =
      let more = if on_canvas nodes e && v == e.target then 1 else 0 in
      in_degree-fold es (add_edge nodes g e) v (k + more) (in_degree-add_edge e g v k h)
      ∙ ground arith

  pub in_degree-graph :
      (edges : List Edge) (v : String)
      → (graph nodes edges).in_degree v ≡ pos (entering (arcs nodes edges) v)
  unfolding graph
  in_degree-graph edges v = in_degree-fold edges blank v 0 refl ∙ ap pos (omega arith)

-- `node_map` finds a node exactly at the ids of the canvas.
contains-map :
    (nodes : List Node) (m : String → Option Node) (v : String)
    → is_some (foldl put_node m nodes v) ≡ contains (ids nodes) v || is_some (m v)
unfolding put_node
contains-map [] m v = refl
contains-map (n ∷ ns) m v = ground (arith, contains-map ns (put_node m n) v)

pub is_some-node_map :
    (nodes : List Node) (v : String) → is_some (node_map nodes v) ≡ contains (ids nodes) v
unfolding node_map
is_some-node_map nodes v = ground (arith, contains-map nodes (λ _. none) v)

-- Arcs lead from ids of the canvas to ids of the canvas.
abbrev pub IsArc : List Node → Edge → Type 0
IsArc nodes e = (contains (ids nodes) e.source ≡ true) × (contains (ids nodes) e.target ≡ true)

pub arcs-IsArc : (nodes : List Node) (edges : List Edge) → All (IsArc nodes) (arcs nodes edges)
unfolding arcs keep on_canvas
arcs-IsArc nodes [] = tt
arcs-IsArc nodes (e ∷ es) =
    ground
      (arith, arcs-IsArc nodes es, is_some-node_map nodes e.source, is_some-node_map nodes e.target)

-- The nodes at the ends of an edge of the canvas.
pub on_canvas-nodes :
    (nodes : List Node) (e : Edge)
    → on_canvas nodes e ≡ true
    → (x : Node) × (y : Node) × (node_map nodes e.source ≡ some x)
      × (node_map nodes e.target ≡ some y)
unfolding on_canvas
on_canvas-nodes nodes e h = elim (Option-cases (node_map nodes e.source)) [
  | inl a ↦ absurd (ground (arith, a))
  | inr (x, a) ↦ elim (Option-cases (node_map nodes e.target)) [
    | inl b ↦ absurd (ground (arith, b))
    | inr (y, b) ↦ (x, y, a, b)
  ]
]
