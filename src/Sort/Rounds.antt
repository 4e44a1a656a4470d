-- ===== src/Sort/Rounds.antt =====
-- The invariant of the `while` loop of `getSortedNodes`.
use whiparc.Prelude.{
  ℕ, zero, suc, ◌+◌, String, ◌≡◌, refl, ap, ◌∙◌, inl, inr, true, false, not, ◌&&◌, ◌||◌, List, [],
  ◌∷◌, ◌++◌, arith, ◌==◌, eq_iff, All, count, contains, IsUnique, if◌then◌else◌, List-cases,
}
use whiparc.Prelude.Keys.{contains-eq-true, count-append}
use whiparc.Prelude.Int.{pos, is_zero, suc--ℤ-one}
use whiparc.Canvas.{Edge}
use whiparc.Sort.{drain, foldl, visit, Walk, relax}
use whiparc.Sort.Arcs.{targets, entering}

-- The arcs into `v` whose source is not done.
abbrev pub waits : List Edge → List String → String → ℕ
waits [] done v = 0
waits (e ∷ es) done v =
    (if v == e.target && not (contains done e.source) then 1 else 0) + waits es done v

pub waits-nil : (es : List Edge) (v : String) → waits es [] v ≡ entering es v
waits-nil [] v = refl
waits-nil (e ∷ es) v = ground (arith, waits-nil es v)

pub contains-snoc :
    (xs : List String) (u v : String) → contains (xs ++ u ∷ []) v ≡ contains xs v || v == u
contains-snoc [] u v = ground arith
contains-snoc (x ∷ xs) u v = ground (arith, contains-snoc xs u v)

pub waits-snoc :
    (es : List Edge) (done : List String) (u v : String)
    → contains done u ≡ false
    → waits es done v ≡ waits es (done ++ u ∷ []) v + count v (targets es u)
waits-snoc [] done u v h = omega arith
waits-snoc (e ∷ es) done u v h = ground (
  arith,
  waits-snoc es done u v,
  contains-snoc done u e.source,
  eq_iff u e.source,
  eq_iff e.source u,
)

-- `vs` are the neighbours of the last sorted id that are still to be relaxed.
pub record Inv (all : List String) (es : List Edge) (vs : List String) (w : Walk) : Type 0 where
  pub degree : (v : String) → w.degrees v ≡ pos (waits es w.sorted v + count v vs)
  pub listed :
      (v : String)
      → count v w.sorted + count v w.queue ≡ (if is_zero (w.degrees v) then count v all else 0)

module _ (all : List String) (es : List Edge) (unique : IsUnique all) where
  relax-Inv :
      (v : String) (vs : List String) (w : Walk)
      → contains all v ≡ true
      → Inv all es (v ∷ vs) w
      → Inv all es vs (relax w v)
  unfolding relax
  relax-Inv v vs w known inv = record {
    degree = λ x. ground (
      arith,
      inv.degree x,
      inv.degree v,
      eq_iff x v,
      suc--ℤ-one (waits es w.sorted v + count v vs),
    );
    listed = λ x. ground (
      arith,
      inv.degree x,
      inv.degree v,
      inv.listed x,
      inv.listed v,
      eq_iff x v,
      suc--ℤ-one (waits es w.sorted v + count v vs),
      contains-eq-true v all,
      unique v,
      count-append x w.queue (v ∷ []),
    );
  }

  relaxed-Inv :
      (vs : List String) (w : Walk)
      → All (λ v. contains all v ≡ true) vs
      → Inv all es vs w
      → Inv all es [] (foldl relax w vs)
  relaxed-Inv [] w known inv = inv
  relaxed-Inv (v ∷ vs) w (here, known) inv =
      relaxed-Inv vs (relax w v) known (relax-Inv v vs w here inv)

  -- The head of the queue has not been sorted before.
  pub head-fresh :
      (w : Walk) (u : String) (rest : List String)
      → w.queue ≡ u ∷ rest
      → Inv all es [] w
      → contains w.sorted u ≡ false
  head-fresh w u rest e inv =
      ground
        (arith, inv.listed u, unique u, ap (count u) e, eq_iff u u, contains-eq-true u w.sorted)

  module _ (adj : String → List String) (same : (u : String) → adj u ≡ targets es u)
      (known : (u : String) → All (λ v. contains all v ≡ true) (targets es u)) where
    pub visit-Inv :
        (w : Walk) (u : String) (rest : List String)
        → w.queue ≡ u ∷ rest
        → Inv all es [] w
        → Inv all es [] (visit adj w u rest)
    unfolding visit
    visit-Inv w u rest e inv = rw (same u) (
        relaxed-Inv (targets es u) (record w { queue = rest; sorted = w.sorted ++ u ∷ [] })
          (known u)
          (record {
            degree = λ v.
                inv.degree v
                ∙ ap pos (omega (arith, waits-snoc es w.sorted u v (head-fresh w u rest e inv)));
            listed =
                λ v. omega (arith, inv.listed v, ap (count v) e, count-append v w.sorted (u ∷ []));
          }))

    pub drain-Inv : (fuel : ℕ) (w : Walk) → Inv all es [] w → Inv all es [] (drain adj fuel w)
    unfolding drain
    drain-Inv zero w inv = inv
    drain-Inv (suc fuel) w inv = elim (List-cases w.queue) [
      | inl e ↦ rw (e, drain) inv
      | inr (u, rest, e) ↦
          rw (e, drain) (drain-Inv fuel (visit adj w u rest) (visit-Inv w u rest e inv))
    ]
