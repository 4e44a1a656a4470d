-- ===== src/Sort/Stable.antt =====
-- `getSortedNodes` keeps the canvas order if ids are distinct and no edge joins nodes of the canvas.
use mathlib.Core.List.{append_assoc, append-nil}
use whiparc.Prelude.{
  ℕ, zero, suc, ◌≤◌, String, ◌≡◌, refl, sym, ap, ◌∙◌, inl, inr, Bool, true, none, List, [], ◌∷◌,
  ◌++◌, arith, length, length-map, keep, IsUnique, List-cases,
}
use whiparc.Prelude.Int.{is_zero}
use whiparc.Canvas.{Node, Edge}
use whiparc.Sort.{
  Walk, visit, graph, walk, start, drain, ids, complete, sorted_ids, node_map, get_sorted_nodes,
}
use whiparc.Sort.Arcs.{arcs, adj-graph, in_degree-graph}
use whiparc.Sort.Permutation.{node_map_self}

keep_all : (p : String → Bool) (l : List String) → ((v : String) → p v ≡ true) → keep p l ≡ l
unfolding keep
keep_all p [] h = refl
keep_all p (x ∷ l) h = rw (h x) (ap (λ r. x ∷ r) (keep_all p l h))

visit-free :
    (adj : String → List String) (w : Walk) (u : String) (rest : List String)
    → adj u ≡ []
    → visit adj w u rest ≡ record w { queue = rest; sorted = w.sorted ++ u ∷ [] }
unfolding visit
visit-free adj w u rest e = rw e

-- With no arcs each round moves the head of the queue to the end of the sorted ids.
drain-sorted :
    (adj : String → List String)
    → ((u : String) → adj u ≡ [])
    → (fuel : ℕ) (w : Walk) → length w.queue ≤ fuel
    → (drain adj fuel w).sorted ≡ w.sorted ++ w.queue
unfolding drain
drain-sorted adj none_left zero w h = elim (List-cases w.queue) [
  | inl e ↦ rw e (sym (append-nil w.sorted))
  | inr (u, rest, e) ↦ absurd (omega (arith, ap length e))
]
drain-sorted adj none_left (suc fuel) w h = elim (List-cases w.queue) [
  | inl e ↦ simp (e, drain) (sym (append-nil w.sorted))
  | inr (u, rest, e) ↦
      rw (e, drain)
        (drain-sorted adj none_left fuel (visit adj w u rest) (
            omega (
              arith,
              ap length e,
              ap (λ v. length v.queue) (visit-free adj w u rest (none_left u)),
            ))
          ∙ (rw (visit-free adj w u rest (none_left u)) (append_assoc w.sorted (u ∷ []) rest)))
]

module _ (nodes : List Node) (edges : List Edge) (free : arcs nodes edges ≡ []) where
  walk-sorted : (walk nodes edges).sorted ≡ ids nodes
  unfolding walk start
  walk-sorted =
      let g = graph nodes edges in
      let queued : (start nodes g).queue ≡ ids nodes =
        keep_all (λ v. is_zero (g.in_degree v)) (ids nodes)
          (λ v. rw (in_degree-graph nodes edges v) (rw free)) in
      drain-sorted g.adj (λ u. rw (adj-graph nodes edges u) (rw free)) (length nodes)
        (start nodes g) (omega (arith, ap length queued, length-map (λ (n : Node). n.id) nodes))
      ∙ queued

sorted_ids-walk :
    (nodes : List Node) (edges : List Edge)
    → sorted_ids nodes edges ≡ complete (walk nodes edges).sorted (ids nodes)
unfolding sorted_ids
sorted_ids-walk nodes edges = refl

complete_self : (all : List String) → complete all all ≡ all
unfolding complete
complete_self all = ground arith

-- If no edge joins two nodes of the canvas and ids are distinct, the sorted nodes are the canvas's
-- nodes in canvas order.
pub get_sorted_nodes_stable :
    (nodes : List Node) (edges : List Edge)
    → IsUnique (ids nodes)
    → arcs nodes edges ≡ []
    → get_sorted_nodes nodes edges ≡ nodes
unfolding get_sorted_nodes node_map
get_sorted_nodes_stable nodes edges unique free =
    let ordered : sorted_ids nodes edges ≡ ids nodes =
      sorted_ids-walk nodes edges
      ∙ ap (λ l. complete l (ids nodes)) (walk-sorted nodes edges free)
      ∙ complete_self (ids nodes) in
    rw ordered (node_map_self (λ _. none) nodes unique)
