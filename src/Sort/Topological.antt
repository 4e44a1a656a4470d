-- ===== src/Sort/Topological.antt =====
-- Topological order on acyclic canvases, what cycles leave, and stability.
use mathlib.Core.List.{filter_map, Memᴰ}
use whiparc.Prelude.{
  ℕ, zero, suc, ◌≤◌, ◌<◌, String, ◌≡◌, refl, ap, inl, inr, true, false, not, ◌&&◌, Option, some,
  List, [], ◌∷◌, arith, ◌==◌, eq_iff, length, All, count, contains, IsUnique, Bool-cases,
  Option-cases,
}
use whiparc.Prelude.Keys.{contains-eq-true, contains-eq-false}
use whiparc.Canvas.{Node, Edge}
use whiparc.Sort.{graph, walk, start, ids, sorted_ids, node_map, on_canvas, get_sorted_nodes}
use whiparc.Sort.Arcs.{arcs, arcs-IsArc, adj-graph, IsArc, is_some-node_map}
use whiparc.Sort.Rounds.{waits}
use whiparc.Sort.Ending.{targets-known}
use whiparc.Sort.Permutation.{start-Inv, walk-Inv, count-walk, count-sorted_ids}
use whiparc.Sort.Order.{Ready, IsOrdered, drain-IsOrdered, waits_of_Ready}
use whiparc.Sort.Precedence.{
  Precedes, Precedes-append, split_of_IsOrdered, complete-eq-append, node_map-id, All-mem, mem-keep,
}

All-of_count :
    (P : String → Type 0) (l : List String) → ((v : String) → 0 < count v l → P v) → All P l
All-of_count P [] h = tt
All-of_count P (x ∷ l) h =
    (h x (ground (arith, eq_iff x x)), All-of_count P l (λ v c. h v (omega arith)))

ids-filter_map :
    (m : String → Option Node) (l : List String)
    → All (λ v. (n : Node) × (m v ≡ some n) × (n.id ≡ v)) l
    → ids (filter_map m l) ≡ l
unfolding filter_map
ids-filter_map m [] h = refl
ids-filter_map m (x ∷ l) ((n, e, same), h) = rw e (rw same (ap (λ r. x ∷ r) (ids-filter_map m l h)))

module _ (nodes : List Node) (edges : List Edge) (unique : IsUnique (ids nodes)) where
  -- Looking the sorted ids up loses none of them.
  pub ids-get_sorted_nodes : ids (get_sorted_nodes nodes edges) ≡ sorted_ids nodes edges
  unfolding get_sorted_nodes
  ids-get_sorted_nodes =
      ids-filter_map (node_map nodes) (sorted_ids nodes edges)
        (All-of_count _ (sorted_ids nodes edges) found)
    where
      found :
          (v : String)
          → 0 < count v (sorted_ids nodes edges)
          → (n : Node) × (node_map nodes v ≡ some n) × (n.id ≡ v)
      found v c = elim (Option-cases (node_map nodes v)) [
        | inl e ↦ absurd (
            ground (
              arith,
              is_some-node_map nodes v,
              contains-eq-false v (ids nodes),
              count-sorted_ids nodes edges unique v,
            ))
        | inr (n, e) ↦ (n, e, node_map-id nodes v n e)
      ]

  walk-IsOrdered : IsOrdered (arcs nodes edges) [] (walk nodes edges).sorted
  unfolding walk start
  walk-IsOrdered =
      drain-IsOrdered (ids nodes) (arcs nodes edges) unique (graph nodes edges).adj
        (adj-graph nodes edges)
        (λ u. targets-known nodes (arcs nodes edges) u (arcs-IsArc nodes edges)) (length nodes)
        (start nodes (graph nodes edges)) (start-Inv nodes edges unique) tt

  pub mem-arcs : {e : Edge} → Memᴰ e edges → on_canvas nodes e ≡ true → Memᴰ e (arcs nodes edges)
  unfolding arcs
  mem-arcs m h = mem-keep (on_canvas nodes) edges m h

  -- An edge whose target the loop reaches has its source before its target.
  pub reached-Precedes :
      (e : Edge)
      → Memᴰ e (arcs nodes edges)
      → contains (walk nodes edges).sorted e.target ≡ true
      → Precedes e.source e.target (ids (get_sorted_nodes nodes edges))
  unfolding sorted_ids
  reached-Precedes e m reached =
      let (before, after, whole, found) =
        split_of_IsOrdered (arcs nodes edges) [] (walk nodes edges).sorted e m walk-IsOrdered
          reached in
      let (rest, joined) = complete-eq-append (walk nodes edges).sorted (ids nodes) in
      rw ids-get_sorted_nodes
        (rw joined (Precedes-append (walk nodes edges).sorted rest (before, after, whole, found)))

  -- An id of the canvas for which no arc waits is reached.
  reached_of_Ready :
      (v : String)
      → contains (ids nodes) v ≡ true
      → Ready (arcs nodes edges) (walk nodes edges).sorted v
      → contains (walk nodes edges).sorted v ≡ true
  reached_of_Ready v known ready =
      let inv = walk-Inv nodes edges unique in
      ground (
        arith,
        inv.degree v,
        waits_of_Ready (arcs nodes edges) (walk nodes edges).sorted v ready,
        count-walk nodes edges unique v,
        contains-eq-true v (ids nodes),
        contains-eq-false v (walk nodes edges).sorted,
      )

  -- With the arcs ranked, every id is reached: by induction on the rank.
  module _ (rank : String → ℕ)
      (ranked : All (λ e. rank e.source < rank e.target) (arcs nodes edges)) where
    unhindered_below :
        (n : ℕ)
        → ((v : String)
            → rank v < n
            → contains (ids nodes) v ≡ true
            → contains (walk nodes edges).sorted v ≡ true)
        → (es : List Edge) → All (λ e. rank e.source < rank e.target) es
        → All (IsArc nodes) es
        → (v : String) → rank v ≤ n
        → Ready es (walk nodes edges).sorted v
    unhindered_below n ih [] r k v h = tt
    unhindered_below n ih (e ∷ es) (r, rs) (k, ks) v h =
        (λ same. ih e.source (omega (arith, ap rank same)) k.0, unhindered_below n ih es rs ks v h)

    pub all_reached :
        (n : ℕ) (v : String)
        → rank v < n
        → contains (ids nodes) v ≡ true
        → contains (walk nodes edges).sorted v ≡ true
    all_reached zero v h known = absurd (omega arith)
    all_reached (suc n) v h known = reached_of_Ready v known (
        unhindered_below n (all_reached n) (arcs nodes edges) ranked (arcs-IsArc nodes edges) v
          (omega arith))

-- On a canvas whose ids are distinct and whose edges can be ranked (no cycle), each edge between
-- nodes of the canvas has its source strictly before its target among the sorted nodes.
pub get_sorted_nodes-Precedes :
    (nodes : List Node) (edges : List Edge)
    → IsUnique (ids nodes)
    → (rank : String → ℕ) → All (λ e. rank e.source < rank e.target) (arcs nodes edges)
    → (e : Edge) → Memᴰ e edges
    → on_canvas nodes e ≡ true
    → Precedes e.source e.target (ids (get_sorted_nodes nodes edges))
get_sorted_nodes-Precedes nodes edges unique rank ranked e m h =
    let arc = mem-arcs nodes edges unique m h in
    let known = All-mem (IsArc nodes) (arcs nodes edges) (arcs-IsArc nodes edges) arc in
    reached-Precedes nodes edges unique e arc (
      all_reached nodes edges unique rank ranked (suc (rank e.target)) e.target (omega arith)
        known.1)

-- A source that the loop has not reached, among the arcs into `v`.
unreached :
    (es : List Edge) (done : List String) (v : String)
    → 0 < waits es done v
    → (e : Edge) × Memᴰ e es × (e.target ≡ v) × (contains done e.source ≡ false)
unreached [] done v h = absurd (omega arith)
unreached (e ∷ es) done v h = elim (Bool-cases (v == e.target && not (contains done e.source))) [
  | inl here ↦ (e, Memᴰ.head refl, ground (arith, eq_iff v e.target), ground arith)
  | inr there ↦
      let (f, m, into, waiting) = unreached es done v (ground arith) in
      (f, Memᴰ.tail m, into, waiting)
]

-- On a canvas with distinct ids, with or without cycles, an edge between its nodes whose target the
-- loop reaches has its source before its target; and an id of the canvas that the loop does not
-- reach has an edge from an id that the loop does not reach.
pub walk_reaches :
    (nodes : List Node) (edges : List Edge)
    → IsUnique (ids nodes)
    → ((e : Edge)
        → Memᴰ e (arcs nodes edges)
        → contains (walk nodes edges).sorted e.target ≡ true
        → Precedes e.source e.target (ids (get_sorted_nodes nodes edges)))
      × ((v : String)
          → contains (ids nodes) v ≡ true
          → contains (walk nodes edges).sorted v ≡ false
          → (e : Edge) × Memᴰ e (arcs nodes edges)
            × (e.target ≡ v)
            × (contains (walk nodes edges).sorted e.source ≡ false))
walk_reaches nodes edges unique = (
  reached-Precedes nodes edges unique,
  λ v known missed. unreached (arcs nodes edges) (walk nodes edges).sorted v (
      ground (
        arith,
        (walk-Inv nodes edges unique).degree v,
        count-walk nodes edges unique v,
        contains-eq-true v (ids nodes),
        contains-eq-false v (walk nodes edges).sorted,
      )),
)
