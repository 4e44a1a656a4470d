-- ===== src/Sort/Ending.antt =====
-- The `while` loop of `getSortedNodes` ends within a round for each node, on every canvas.
use mathlib.Core.List.{foldl}
use whiparc.Prelude.{
  ℕ, zero, suc, ◌+◌, ◌≤◌, ◌<◌, String, ◌≡◌, refl, ap, inl, inr, Bool, true, false, ◌&&◌, List, [],
  ◌∷◌, ◌++◌, arith, eq_iff, length, length-append, All, length-map, keep, update, contains, ltb,
  if◌then◌else◌, List-cases,
}
use whiparc.Prelude.Int.{ℤ, pos, negsuc, ◌-ℤ◌, is_zero}
use whiparc.Sort.Arcs.{IsArc, arcs-IsArc, arcs, targets, adj-graph}
use whiparc.Canvas.{Node, Edge}
use whiparc.Sort.{graph, walk, start, ids, Walk, relax, visit, drain}

abbrev is_pos : ℤ → Bool
is_pos (pos n) = ltb 0 n
is_pos (negsuc n) = false

-- How many of the listed ids wait for a neighbour.
abbrev positives : (String → ℤ) → List String → ℕ
positives d [] = 0
positives d (x ∷ xs) = (if is_pos (d x) then 1 else 0) + positives d xs

positives-update :
    (d : String → ℤ) (v : String) (xs : List String)
    → positives (update d v (d v -ℤ pos 1)) xs
        + (if is_zero (d v -ℤ pos 1) && contains xs v then 1 else 0)
      ≤ positives d xs
unfolding ◌-ℤ◌
positives-update d v [] = ground arith
positives-update d v (x ∷ xs) = ground (arith, positives-update d v xs, eq_iff x v, eq_iff v x)

module _ (all : List String) where
  -- What is left to do: a round pops one id, and queues only ids whose degree falls to 0.
  abbrev pub work : Walk → ℕ
  work w = length w.queue + positives w.degrees all

  relax-work : (w : Walk) (v : String) → contains all v ≡ true → work (relax w v) ≤ work w
  unfolding relax
  relax-work w v known =
      ground (arith, positives-update w.degrees v all, length-append w.queue (v ∷ []))

  relaxed-work :
      (vs : List String) (w : Walk)
      → All (λ v. contains all v ≡ true) vs
      → work (foldl relax w vs) ≤ work w
  relaxed-work [] w known = omega arith
  relaxed-work (v ∷ vs) w (here, known) =
      omega (arith, relax-work w v here, relaxed-work vs (relax w v) known)

  module _ (adj : String → List String)
      (known : (u : String) → All (λ v. contains all v ≡ true) (adj u)) where
    visit-work :
        (w : Walk) (u : String) (rest : List String)
        → w.queue ≡ u ∷ rest
        → work (visit adj w u rest) < work w
    unfolding visit
    visit-work w u rest e = omega (
      arith,
      ap length e,
      relaxed-work (adj u) (record w { queue = rest; sorted = w.sorted ++ u ∷ [] }) (known u),
    )

    -- Enough fuel empties the queue.
    pub drain-queue : (fuel : ℕ) (w : Walk) → work w ≤ fuel → (drain adj fuel w).queue ≡ []
    unfolding drain
    drain-queue zero w h = elim (List-cases w.queue) [
      | inl e ↦ e
      | inr (u, rest, e) ↦ absurd (omega (arith, ap length e))
    ]
    drain-queue (suc fuel) w h = elim (List-cases w.queue) [
      | inl e ↦ rw (e, drain) e
      | inr (u, rest, e) ↦
          rw (e, drain)
            (drain-queue fuel (visit adj w u rest) (omega (arith, visit-work w u rest e)))
    ]

keep-positives :
    (d : String → ℤ) (xs : List String)
    → length (keep (λ v. is_zero (d v)) xs) + positives d xs ≤ length xs
unfolding keep
keep-positives d [] = omega arith
keep-positives d (x ∷ xs) = ground (arith, keep-positives d xs)

-- The targets of arcs are ids of the canvas.
pub targets-known :
    (nodes : List Node) (es : List Edge) (u : String)
    → All (IsArc nodes) es
    → All (λ v. contains (ids nodes) v ≡ true) (targets es u)
targets-known nodes [] u h = tt
targets-known nodes (e ∷ es) u h = ground (arith, targets-known nodes es u h.1)

pub adj-known :
    (nodes : List Node) (edges : List Edge) (u : String)
    → All (λ v. contains (ids nodes) v ≡ true) ((graph nodes edges).adj u)
adj-known nodes edges u =
    rw (adj-graph nodes edges u) (targets-known nodes (arcs nodes edges) u (arcs-IsArc nodes edges))

drain_idle :
    (adj : String → List String) (fuel : ℕ) (w : Walk) → w.queue ≡ [] → drain adj fuel w ≡ w
unfolding drain
drain_idle adj zero w e = refl
drain_idle adj (suc fuel) w e = simp (e, drain)

-- The rounds given to the loop are enough: the queue is empty at its end, whatever the canvas,
-- repeated ids, cycles and dangling edges included, and more rounds would change nothing.
pub walk_ends :
    (nodes : List Node) (edges : List Edge) (more : ℕ)
    → ((walk nodes edges).queue ≡ [])
      × (drain (graph nodes edges).adj more (walk nodes edges) ≡ walk nodes edges)
unfolding walk start
walk_ends nodes edges more =
    let g = graph nodes edges in
    let empty =
      drain-queue (ids nodes) g.adj (adj-known nodes edges) (length nodes) (start nodes g) (
        omega
          (arith, keep-positives g.in_degree (ids nodes), length-map (λ (n : Node). n.id) nodes)) in
    (empty, drain_idle g.adj more (walk nodes edges) empty)
