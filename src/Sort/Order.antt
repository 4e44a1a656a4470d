-- ===== src/Sort/Order.antt =====
-- The order that `getSortedNodes` gives: sources before targets.
use mathlib.Core.List.{foldl, append_assoc, append-nil}
use whiparc.Prelude.{
  ℕ, zero, suc, String, ◌≡◌, refl, ap, inl, inr, true, List, [], ◌∷◌, ◌++◌, arith, eq_iff, All,
  count, contains, IsUnique, List-cases,
}
use whiparc.Canvas.{Edge}
use whiparc.Sort.{Walk, relax, visit, drain}
use whiparc.Sort.Arcs.{targets}
use whiparc.Sort.Rounds.{Inv, visit-Inv, waits}

-- Every arc into `v` comes from an id of `seen`.
abbrev pub Ready : List Edge → List String → String → Type 0
Ready es seen v = All (λ e. v ≡ e.target → contains seen e.source ≡ true) es

-- Every id of the list stands behind the sources of its arcs, or these are in `seen`.
abbrev pub IsOrdered : List Edge → List String → List String → Type 0
IsOrdered es seen [] = Unit
IsOrdered es seen (v ∷ vs) = Ready es seen v × IsOrdered es (seen ++ v ∷ []) vs

pub Ready-of_waits :
    (es : List Edge) (done : List String) (v : String) → waits es done v ≡ 0 → Ready es done v
Ready-of_waits [] done v h = tt
Ready-of_waits (e ∷ es) done v h =
    (λ same. ground (arith, eq_iff v e.target), Ready-of_waits es done v (omega arith))

pub waits_of_Ready :
    (es : List Edge) (done : List String) (v : String) → Ready es done v → waits es done v ≡ 0
waits_of_Ready [] done v h = refl
waits_of_Ready (e ∷ es) done v (here, later) =
    ground (arith, waits_of_Ready es done v later, eq_iff v e.target, here)

IsOrdered-snoc :
    (es : List Edge) (seen vs : List String) (v : String)
    → IsOrdered es seen vs
    → Ready es (seen ++ vs) v
    → IsOrdered es seen (vs ++ v ∷ [])
IsOrdered-snoc es seen [] v h r = (rw append-nil at r, tt)
IsOrdered-snoc es seen (x ∷ vs) v (here, h) r =
    (here, IsOrdered-snoc es (seen ++ x ∷ []) vs v h (rw append_assoc r))

sorted-relaxed : (vs : List String) (w : Walk) → (foldl relax w vs).sorted ≡ w.sorted
unfolding relax
sorted-relaxed [] w = refl
sorted-relaxed (v ∷ vs) w = sorted-relaxed vs (relax w v)

sorted-visit :
    (adj : String → List String) (w : Walk) (u : String) (rest : List String)
    → (visit adj w u rest).sorted ≡ w.sorted ++ u ∷ []
unfolding visit
sorted-visit adj w u rest = sorted-relaxed (adj u) _

module _ (all : List String) (es : List Edge) (unique : IsUnique all) where
  -- The head of the queue waits for no arc.
  head-Ready :
      (w : Walk) (u : String) (rest : List String)
      → w.queue ≡ u ∷ rest
      → Inv all es [] w
      → Ready es w.sorted u
  head-Ready w u rest e inv =
      Ready-of_waits es w.sorted u
        (ground (arith, inv.listed u, inv.degree u, ap (count u) e, eq_iff u u))

  module _ (adj : String → List String) (same : (u : String) → adj u ≡ targets es u)
      (known : (u : String) → All (λ v. contains all v ≡ true) (targets es u)) where
    pub drain-IsOrdered :
        (fuel : ℕ) (w : Walk)
        → Inv all es [] w
        → IsOrdered es [] w.sorted
        → IsOrdered es [] (drain adj fuel w).sorted
    unfolding drain
    drain-IsOrdered zero w inv h = h
    drain-IsOrdered (suc fuel) w inv h = elim (List-cases w.queue) [
      | inl e ↦ rw (e, drain) h
      | inr (u, rest, e) ↦
          rw (e, drain)
            (drain-IsOrdered fuel (visit adj w u rest)
              (visit-Inv all es unique adj same known w u rest e inv)
              (rw (sorted-visit adj w u rest)
                (IsOrdered-snoc es [] w.sorted u h (head-Ready w u rest e inv))))
    ]
