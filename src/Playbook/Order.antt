-- ===== src/Playbook/Order.antt =====
-- Where the tasks and the variables stand in the generated playbook.
use Prim.Native.String.{count as chars, ◌++◌ as ◌+++◌}
use mathlib.Core.List.{filter_map, filter_map-append, filter_map-cons-some, map-append, Memᴰ}
use mathlib.Core.Path.{subst}
use text.Mathlib.TextLemmas.{nil-append}
use text.Mathlib.TextLemmas
use whiparc.Prelude.{
  ℕ, ◌+◌, ◌<◌, String, ◌≡◌, refl, sym, ap, ◌∙◌, inl, inr, true, some, List, [], ◌∷◌, ◌++◌, map,
  arith, ◌==◌, eq_iff, All, contains, IsUnique, Bool-cases,
}
use whiparc.Prelude.Text.{cat}
use whiparc.Canvas.{Node, Edge}
use whiparc.Sort.{ids, on_canvas, node_map, sorted_ids, get_sorted_nodes}
use whiparc.Sort.Arcs.{on_canvas-nodes, arcs}
use whiparc.Sort.Precedence.{Precedes}
use whiparc.Sort.Topological.{get_sorted_nodes-Precedes, ids-get_sorted_nodes}
use whiparc.Playbook.{node_tasks, tasks_string, generate_ansible_yaml}
use whiparc.Playbook.Header.{header}
use whiparc.Playbook.Vars.{
  replace_first, begins, drop, found_variables, vars_block, declare_variables,
}
use whiparc.Playbook.Vars.Replace.{replace_first-append, is_clear}

-- The lines of the play above `tasks:`, and the fixed tasks below it.
abbrev pub marker : String
marker = "  tasks:\n"

abbrev pub preamble : String
preamble =
    "---\n# Ansible playbook generated by Whiparc\n- name: Automated Infrastructure Provisioning\n  hosts: all\n  become: yes\n"

abbrev pub fixed_tasks : String
fixed_tasks = drop (chars preamble + chars marker) header

header_split : header ≡ preamble +++ (marker +++ fixed_tasks)
unfolding header drop
header_split = refl

-- No line above `tasks:` holds the marker.
preamble-clear : is_clear marker preamble ≡ true
unfolding is_clear begins
preamble-clear = refl

declared :
    (yaml v : String) (vs : List String)
    → found_variables yaml ≡ v ∷ vs
    → declare_variables yaml ≡ replace_first marker (vars_block (v ∷ vs) +++ "\n  tasks:\n") yaml
unfolding declare_variables
declared yaml v vs found = rw (found, declare_variables)

-- If the playbook leaves variables open, their block is put right above the `tasks:` line of the
-- play, and nothing else of the header and the tasks changes.
pub playbook_declares :
    (n : Node) (ns : List Node) (edges : List Edge) (v : String) (vs : List String)
    → found_variables (header +++ tasks_string (n ∷ ns) edges) ≡ v ∷ vs
    → generate_ansible_yaml (n ∷ ns) edges
      ≡ preamble
        +++ ((vars_block (v ∷ vs) +++ "\n  tasks:\n")
            +++ (fixed_tasks +++ tasks_string (n ∷ ns) edges))
unfolding generate_ansible_yaml
playbook_declares n ns edges v vs found =
    let tasks = tasks_string (n ∷ ns) edges in
    let shape : header +++ tasks ≡ preamble +++ (marker +++ (fixed_tasks +++ tasks)) =
      ap (λ h. h +++ tasks) header_split
      ∙ TextLemmas.append_assoc preamble (marker +++ fixed_tasks) tasks
      ∙ ap (λ r. preamble +++ r) (TextLemmas.append_assoc marker fixed_tasks tasks) in
    declared (header +++ tasks) v vs found
    ∙ ap (replace_first marker (vars_block (v ∷ vs) +++ "\n  tasks:\n")) shape
    ∙ replace_first-append marker (vars_block (v ∷ vs) +++ "\n  tasks:\n") preamble
        (fixed_tasks +++ tasks) preamble-clear (omega arith)

cat-append : (xs ys : List String) → cat (xs ++ ys) ≡ cat xs +++ cat ys
unfolding cat
cat-append [] ys = sym (nil-append (cat ys))
cat-append (x ∷ xs) ys = rw (cat-append xs ys) (sym (TextLemmas.append_assoc x (cat xs) (cat ys)))

split_of_contains :
    (l : List String) (u : String)
    → contains l u ≡ true
    → (b : List String) × (a : List String) × (l ≡ b ++ u ∷ a)
split_of_contains [] u h = cc
split_of_contains (x ∷ l) u h = elim (Bool-cases (u == x)) [
  | inl same ↦ ([], l, ap (λ y. y ∷ l) (sym ((eq_iff u x).0 same)))
  | inr other ↦
      let (b, a, e) = split_of_contains l u (ground arith) in (x ∷ b, a, ap (λ y. x ∷ y) e)
]

-- The tasks of the nodes that some ids name.
abbrev tasks_of : List Node → List String → String
tasks_of nodes l = cat (map node_tasks (filter_map (node_map nodes) l))

tasks_of-append :
    (nodes : List Node) (xs ys : List String)
    → tasks_of nodes (xs ++ ys) ≡ tasks_of nodes xs +++ tasks_of nodes ys
tasks_of-append nodes xs ys =
    rw (filter_map-append (node_map nodes) xs ys) (rw (map-append node_tasks) (cat-append _ _))

tasks_of-cons :
    (nodes : List Node) (v : String) (l : List String) (n : Node)
    → node_map nodes v ≡ some n
    → tasks_of nodes (v ∷ l) ≡ node_tasks n +++ tasks_of nodes l
unfolding cat
tasks_of-cons nodes v l n e = rw (filter_map-cons-some (node_map nodes) v l e)

tasks_string-sorted :
    (nodes : List Node) (edges : List Edge)
    → tasks_string nodes edges ≡ tasks_of nodes (sorted_ids nodes edges)
unfolding tasks_string get_sorted_nodes
tasks_string-sorted nodes edges = refl

-- On an acyclic canvas with distinct ids, the tasks of an edge's source stand before the tasks of
-- its target in the playbook.
pub tasks_string_order :
    (nodes : List Node) (edges : List Edge)
    → IsUnique (ids nodes)
    → (rank : String → ℕ) → All (λ e. rank e.source < rank e.target) (arcs nodes edges)
    → (e : Edge) → Memᴰ e edges
    → on_canvas nodes e ≡ true
    → (x : Node) × (y : Node) × (a : String) × (b : String) × (c : String) × (node_map nodes
          e.source
        ≡ some x)
      × (node_map nodes e.target ≡ some y)
      × (tasks_string nodes edges ≡ a +++ (node_tasks x +++ (b +++ (node_tasks y +++ c))))
tasks_string_order nodes edges unique rank ranked e m h =
    let (x, y, at_x, at_y) = on_canvas-nodes nodes e h in
    let (before, after, whole, found) =
      subst (Precedes e.source e.target) (ids-get_sorted_nodes nodes edges unique)
        (get_sorted_nodes-Precedes nodes edges unique rank ranked e m h) in
    let (front, back, parts) = split_of_contains before e.source found in
    (
      x,
      y,
      tasks_of nodes front,
      tasks_of nodes back,
      tasks_of nodes after,
      at_x,
      at_y,
      tasks_string-sorted nodes edges
          ∙ ap (tasks_of nodes) (whole ∙ ap (λ l. l ++ e.target ∷ after) parts)
          ∙ tasks_of-append nodes (front ++ e.source ∷ back) (e.target ∷ after)
          ∙ ap (λ t. t +++ tasks_of nodes (e.target ∷ after))
              (tasks_of-append nodes front (e.source ∷ back)
                ∙ ap (λ t. tasks_of nodes front +++ t) (tasks_of-cons nodes e.source back x at_x))
          ∙ ap (λ t. (tasks_of nodes front +++ (node_tasks x +++ tasks_of nodes back)) +++ t)
              (tasks_of-cons nodes e.target after y at_y)
          ∙ TextLemmas.append_assoc (tasks_of nodes front) _ _
          ∙ ap (λ t. tasks_of nodes front +++ t)
              (TextLemmas.append_assoc (node_tasks x) (tasks_of nodes back) _),
    )
