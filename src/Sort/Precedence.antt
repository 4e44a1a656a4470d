-- ===== src/Sort/Precedence.antt =====
-- Where the ends of an edge stand among the sorted nodes.
use mathlib.Core.List.{foldl, append_assoc, append-nil, Memᴰ}
use mathlib.Core.List.Memᴰ
use mathlib.Core.Path.{subst}
use whiparc.Prelude.{
  String, ◌≡◌, refl, sym, ap, inl, inr, Bool, true, not, Option, none, some, List, [], ◌∷◌, ◌++◌,
  arith, ◌==◌, eq_iff, length, All, keep, contains, ltb, Bool-cases,
}
use whiparc.Canvas.{Node, Edge}
use whiparc.Sort.{complete, node_map, put_node}
use whiparc.Sort.Order.{IsOrdered}

-- `v` stands in the list, and `u` stands before it.
abbrev pub Precedes : String → String → List String → Type 0
Precedes u v l =
    (before : List String) × (after : List String) × (l ≡ before ++ v ∷ after)
    × (contains before u ≡ true)

pub All-mem {ℓ κ} : {A : Type ℓ} (P : A → Type κ) {x : A} (xs : List A) → All P xs → Memᴰ x xs → P x
All-mem P [] h m = absurd (Memᴰ.not-nil m)
All-mem P (y ∷ ys) (here, h) m = elim (Memᴰ.cases_cons m) [
  | inl e ↦ subst P (sym e) here
  | inr later ↦ All-mem P ys h later
]

pub mem-keep {ℓ} :
    {A : Type ℓ} (p : A → Bool) {x : A} (xs : List A) → Memᴰ x xs → p x ≡ true → Memᴰ x (keep p xs)
unfolding keep
mem-keep p [] m h = absurd (Memᴰ.not-nil m)
mem-keep p (y ∷ ys) m h = elim (Memᴰ.cases_cons m) [
  | inl e ↦ rw (← e) (rw h (Memᴰ.head refl))
  | inr later ↦ elim (Bool-cases (p y)) [
    | inl t ↦ rw t (Memᴰ.tail (mem-keep p ys later h))
    | inr f ↦ rw f (mem-keep p ys later h)
  ]
]

pub split_of_IsOrdered :
    (es : List Edge) (seen l : List String) (e : Edge)
    → Memᴰ e es
    → IsOrdered es seen l
    → contains l e.target ≡ true
    → (before : List String) × (after : List String) × (l ≡ before ++ e.target ∷ after)
      × (contains (seen ++ before) e.source ≡ true)
split_of_IsOrdered es seen [] e m h listed = cc
split_of_IsOrdered es seen (x ∷ l) e m (ready, h) listed = elim (Bool-cases (e.target == x)) [
  | inl same ↦
      let here = (eq_iff e.target x).0 same in
      (
        [],
        l,
        ap (λ y. y ∷ l) (sym here),
        rw append-nil
            (All-mem (λ a. x ≡ a.target → contains seen a.source ≡ true) es ready m (sym here)),
      )
  | inr other ↦
      let (before, after, whole, found) =
        split_of_IsOrdered es (seen ++ x ∷ []) l e m h (ground arith) in
      (x ∷ before, after, ap (λ y. x ∷ y) whole, rw append_assoc at found)
]

pub Precedes-append : {u v : String} (l r : List String) → Precedes u v l → Precedes u v (l ++ r)
Precedes-append l r (before, after, whole, found) =
    (before, after ++ r, rw whole (append_assoc before _ r), found)

pub complete-eq-append :
    (sorted all : List String) → (rest : List String) × (complete sorted all ≡ sorted ++ rest)
unfolding complete
complete-eq-append sorted all = elim (Bool-cases (ltb (length sorted) (length all))) [
  | inl short ↦ (keep (λ v. not (contains sorted v)) all, rw short)
  | inr full ↦ ([], rw full (sym (append-nil sorted)))
]

-- The entry found at an id is a node with that id.
put_node-fold_id :
    (m : String → Option Node) (ns : List Node)
    → ((v : String) (n : Node) → m v ≡ some n → n.id ≡ v)
    → (v : String) (n : Node) → foldl put_node m ns v ≡ some n
    → n.id ≡ v
unfolding put_node
put_node-fold_id m [] h v n e = h v n e
put_node-fold_id m (k ∷ ns) h v n e =
    put_node-fold_id (put_node m k) ns (λ w j f. ground (arith, h w j, eq_iff w k.id)) v n e

pub node_map-id : (nodes : List Node) (v : String) (n : Node) → node_map nodes v ≡ some n → n.id ≡ v
unfolding node_map
node_map-id nodes v n e = put_node-fold_id (λ _. none) nodes (λ w k f. cc) v n e
