-- ===== src/Bundle/Start.antt =====
-- What the start node of the inventory is.
use whiparc.Prelude.{
  String, ◌≡◌, refl, sym, ap, ◌∙◌, ◌≢◌, inl, inr, Bool, true, not, ◌&&◌, some, List, [], ◌∷◌, map,
  arith, eq_iff, first, keep, contains, Bool-cases,
}
use mathlib.Core.List.{Memᴰ}
use mathlib.Core.List.Memᴰ
use whiparc.Sort.Precedence.{mem-keep}
use whiparc.Canvas.{Node, Edge}
use whiparc.Bundle.Hosts.{is_ansible, ansible_ids, non_start_ids, start_node}

mem-contains {ℓ} :
    {A : Type ℓ} {x : A} (f : A → String) (xs : List A)
    → Memᴰ x xs
    → contains (map f xs) (f x) ≡ true
mem-contains f [] m = absurd (Memᴰ.not-nil m)
mem-contains {x = x} f (y ∷ ys) m = elim (Memᴰ.cases_cons m) [
  | inl e ↦ rw ((eq_iff (f x) (f y)).1 (ap f e)) refl
  | inr later ↦ ground (arith, mem-contains f ys later)
]

keep-mem {ℓ} :
    {A : Type ℓ} {x : A} (p : A → Bool) (xs : List A)
    → Memᴰ x (keep p xs)
    → Memᴰ x xs × (p x ≡ true)
unfolding keep
keep-mem p [] m = absurd (Memᴰ.not-nil m)
keep-mem {x = x} p (y ∷ ys) m = elim (Bool-cases (p y)) [
  | inl yes_y ↦ elim (Memᴰ.cases_cons (rw yes_y at m)) [
    | inl e ↦ (Memᴰ.head e, ap p e ∙ yes_y)
    | inr later ↦ let (there, holds) = keep-mem p ys later in (Memᴰ.tail there, holds)
  ]
  | inr no_y ↦ let (there, holds) = keep-mem p ys (rw no_y at m) in (Memᴰ.tail there, holds)
]

first-mem {ℓ} : {A : Type ℓ} {x : A} (xs : List A) → first xs ≡ some x → Memᴰ x xs
first-mem [] h = absurd cc
first-mem (y ∷ ys) h = Memᴰ.head cc

non_start_ids-entered :
    (ids : List String) (edges : List Edge) (e : Edge)
    → Memᴰ e edges
    → contains ids e.source ≡ true
    → contains ids e.target ≡ true
    → contains (non_start_ids ids edges) e.target ≡ true
unfolding non_start_ids
non_start_ids-entered ids edges e m from into =
    mem-contains (λ (e : Edge). e.target) _
      (mem-keep (λ (e : Edge). contains ids e.target && contains ids e.source) edges m
        (rw (into, from) refl))

-- The start node is an Ansible node of the canvas, and an edge from an Ansible node of the canvas
-- does not enter it.
start_node_root :
    (nodes : List Node) (edges : List Edge) (n : Node) (e : Edge)
    → start_node nodes edges ≡ some n
    → Memᴰ e edges
    → contains (ansible_ids (keep is_ansible nodes)) e.source ≡ true
    → Memᴰ n nodes × (is_ansible n ≡ true) × (e.target ≢ n.id)
unfolding start_node
start_node_root nodes edges n e h m from =
    let ansible = keep is_ansible nodes in
    let entered_ids = non_start_ids (ansible_ids ansible) edges in
    let (in_ansible, not_entered) =
      keep-mem (λ n. not (contains entered_ids n.id)) ansible (first-mem _ h) in
    let (listed, is_one) = keep-mem is_ansible nodes in_ansible in
    (
      listed,
      is_one,
      λ same.
          let member : contains (ansible_ids ansible) n.id ≡ true =
            mem-contains (λ n. n.id) ansible in_ansible in
          let entered : contains entered_ids n.id ≡ true =
            ap (contains entered_ids) (sym same)
            ∙ non_start_ids-entered (ansible_ids ansible) edges e m from
                (ap (contains (ansible_ids ansible)) same ∙ member) in
          ground (arith, entered, not_entered),
    )
