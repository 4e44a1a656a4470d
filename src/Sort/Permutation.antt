-- ===== src/Sort/Permutation.antt =====
-- `getSortedNodes` only reorders the canvas: the loop's invariant at its start and end, and what
-- is left of the nodes after `map` and `filter(Boolean)`.
use mathlib.Core.List.{foldl, filter_map, Perm}
use mathlib.Core.List.Perm
use whiparc.Prelude.{
  String, ◌≡◌, refl, ap, ◌∙◌, ◌⊎◌, inl, inr, false, not, Option, none, some, List, [], ◌∷◌, arith,
  eq_iff, length, keep, count, contains, IsUnique, ltb, if◌then◌else◌, Bool-cases,
}
use whiparc.Prelude.Keys.{
  count-keep, count_of_length, perm_of_count, contains-eq-true, contains-eq-false, count-append,
}
use whiparc.Prelude.Int.{pos, is_zero}
use mathlib.Core.Path.{subst}
use whiparc.Canvas.{Node, Edge}
use whiparc.Sort.{
  graph, walk, start, ids, complete, sorted_ids, put_node, node_map, get_sorted_nodes,
}
use whiparc.Sort.Arcs.{arcs, arcs-IsArc, adj-graph, in_degree-graph}
use whiparc.Sort.Rounds.{Inv, waits-nil, drain-Inv}
use whiparc.Sort.Ending.{targets-known, walk_ends}

-- Appending the missing ids gives each id as often as the canvas has it.
count-complete :
    (sorted all : List String)
    → ((v : String) → (count v sorted ≡ count v all) ⊎ (count v sorted ≡ 0))
    → (v : String) → count v (complete sorted all) ≡ count v all
unfolding complete
count-complete sorted all h v = elim (Bool-cases (ltb (length sorted) (length all))) [
  | inl short ↦ rw short (
      ground (
        arith,
        h v,
        count-append v sorted (keep (λ x. not (contains sorted x)) all),
        count-keep (λ x. not (contains sorted x)) v all,
        contains-eq-true v sorted,
        contains-eq-false v sorted,
      ))
  | inr full ↦ rw full (count_of_length sorted all (λ x. ground (arith, h x)) (ground arith) v)
]

module _ (nodes : List Node) (edges : List Edge) (unique : IsUnique (ids nodes)) where
  pub start-Inv : Inv (ids nodes) (arcs nodes edges) [] (start nodes (graph nodes edges))
  unfolding start
  start-Inv = record {
    degree =
        λ v. in_degree-graph nodes edges v ∙ ap pos (omega (arith, waits-nil (arcs nodes edges) v));
    listed = λ v.
        omega (arith, count-keep (λ x. is_zero ((graph nodes edges).in_degree x)) v (ids nodes));
  }

  pub walk-Inv : Inv (ids nodes) (arcs nodes edges) [] (walk nodes edges)
  unfolding walk
  walk-Inv =
      drain-Inv (ids nodes) (arcs nodes edges) unique (graph nodes edges).adj
        (adj-graph nodes edges)
        (λ u. targets-known nodes (arcs nodes edges) u (arcs-IsArc nodes edges)) (length nodes)
        (start nodes (graph nodes edges)) start-Inv

  -- The loop sorts the ids whose degree falls to 0, and no others.
  pub count-walk :
      (v : String)
      → count v (walk nodes edges).sorted
        ≡ (if is_zero ((walk nodes edges).degrees v) then count v (ids nodes) else 0)
  count-walk v = omega (arith, walk-Inv.listed v, ap (count v) (walk_ends nodes edges 0).0)

  pub count-sorted_ids : (v : String) → count v (sorted_ids nodes edges) ≡ count v (ids nodes)
  unfolding sorted_ids
  count-sorted_ids v =
      count-complete (walk nodes edges).sorted (ids nodes) (λ x. ground (arith, count-walk x)) v

-- An id that stands on no later node keeps its entry.
node_map-other :
    (m : String → Option Node) (ns : List Node) (v : String)
    → contains (ids ns) v ≡ false
    → foldl put_node m ns v ≡ m v
unfolding put_node
node_map-other m [] v h = refl
node_map-other m (n ∷ ns) v h = ground (arith, node_map-other (put_node m n) ns v)

put_node_self : (m : String → Option Node) (n : Node) → put_node m n n.id ≡ some n
unfolding put_node
put_node_self m n = ground (arith, eq_iff n.id n.id)

pub node_map_self :
    (m : String → Option Node) (ns : List Node)
    → IsUnique (ids ns)
    → filter_map (foldl put_node m ns) (ids ns) ≡ ns
unfolding filter_map
node_map_self m [] unique = refl
node_map_self m (n ∷ ns) unique =
    let absent : contains (ids ns) n.id ≡ false =
      ground (arith, unique n.id, contains-eq-true n.id (ids ns), eq_iff n.id n.id) in
    rw (node_map-other (put_node m n) ns n.id absent ∙ put_node_self m n)
      (ap (λ l. n ∷ l) (node_map_self (put_node m n) ns (λ k. omega (arith, unique k))))

-- On a canvas without repeated ids the sorted nodes are the canvas's nodes, each exactly once,
-- whatever the edges: also when they form cycles or name missing nodes.
pub get_sorted_nodes-perm :
    (nodes : List Node) (edges : List Edge)
    → IsUnique (ids nodes)
    → Perm (get_sorted_nodes nodes edges) nodes
unfolding get_sorted_nodes node_map
get_sorted_nodes-perm nodes edges unique =
    subst (Perm (get_sorted_nodes nodes edges)) (node_map_self (λ _. none) nodes unique) (
      Perm.filter_map (node_map nodes)
        (perm_of_count (sorted_ids nodes edges) (ids nodes) (count-sorted_ids nodes edges unique)))
