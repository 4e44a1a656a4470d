-- ===== src/Workspace/Clicks.antt =====
-- What a click on a block of the library and a drop of it do: the node and its selection.
use whiparc.Prelude.{
  ℕ, String, ◌≡◌, refl, ap, inl, inr, Bool, true, false, ◌||◌, Option, none, some, List, [], ◌∷◌,
  ◌++◌, arith, ◌==◌, eq_iff, any, find_first, Bool-cases,
}
use text.Mathlib.TextLemmas.{append-eq-nil_iff}
use whiparc.Prelude.Text.{cat}
use whiparc.Canvas.{Node, data_field}
use whiparc.Canvas.Json.{Value, str, bool, obj, Fields, field, lookup}
use whiparc.Store.{CanvasState, selects, add_node, set_selected_node_id, given}
use whiparc.Workspace.Blocks.{
  LibraryNode, Page, new_id, key_if, copied, synced_keys, synced, block_data, clicked_node,
  put_block, handle_add_node_to_canvas,
}
use whiparc.Workspace.Drops.{
  Json, dropped_node, on_drag_start, dropped_parameters, parsed_parameters, custom_keys,
}
use whiparc.Workspace.Defaults.{get_default_parameters_for_node}

-- Blocks that a drop gives parameters of their own.
unfoldable pub has_own_parameters : LibraryNode → Bool
has_own_parameters lib = lib.id == "aws_instance.web_server" || lib.id == "aws_security_group"

either_false : (a b : Bool) → (a || b) ≡ false → (a ≡ false) × (b ≡ false)
either_false true b h = absurd (ground arith)
either_false false b h = (refl, h)

-- Data with other labels for the category agree on every other key.
block_data-label :
    (title tech icon label other description status key : String) (rest : Fields)
    → ("categoryLabel" == key) ≡ false
    → lookup key (block_data title tech icon label description status rest)
      ≡ lookup key (block_data title tech icon other description status rest)
unfolding block_data lookup
block_data-label title tech icon label other description status key rest h = rw h refl

-- A click on a block and a drop of it make the same node, but for the label of its category, unless
-- the block is custom or a machine or a security group.
clicked_node-dropped_node :
    (json : Json) (lib : LibraryNode) (now : ℕ) (key : String)
    → lib.is_custom ≡ false
    → has_own_parameters lib ≡ false
    → ("categoryLabel" == key) ≡ false
    → ((clicked_node lib now).id ≡ (dropped_node json (on_drag_start json lib) now).id)
      × (data_field (clicked_node lib now) key
          ≡ data_field (dropped_node json (on_drag_start json lib) now) key)
unfolding has_own_parameters data_field clicked_node dropped_node on_drag_start dropped_parameters
    parsed_parameters custom_keys
clicked_node-dropped_node json lib now key plain own other =
    let split =
      either_false (lib.id == "aws_instance.web_server") (lib.id == "aws_security_group") own in
    let params = get_default_parameters_for_node lib.id in
    (
      refl,
      rw plain (
          rw split.0 (
            rw split.1 (
              block_data-label _ _ _ _ _ _ _ key (field "parameters" (obj params) (synced params))
                other))),
    )

key_if-absent :
    (k key : String) (v : Option Value) (rest : Fields)
    → (k == key) ≡ false
    → lookup key rest ≡ none
    → lookup key (key_if k v rest) ≡ none
unfolding key_if lookup
key_if-absent k key none rest other h = h
key_if-absent k key (some v) rest other h = rw other h

copied-absent :
    (ks : List String) (p : Fields) (key : String)
    → any (λ k. k == key) ks ≡ false
    → lookup key (copied ks p) ≡ none
unfolding copied any
copied-absent [] p key h = refl
copied-absent (k ∷ ks) p key h =
    let split = either_false (k == key) (any (λ k. k == key) ks) h in
    key_if-absent k key (lookup k p) (copied ks p) split.0 (copied-absent ks p key split.1)

-- A click on a custom block makes a node that is not marked as custom and has no code, while a drop
-- of it keeps the mark and the code.
clicked_node_loses_code :
    (json : Json) (lib : LibraryNode) (now : ℕ)
    → lib.is_custom ≡ true
    → (data_field (clicked_node lib now) "isCustom" ≡ none)
      × (data_field (clicked_node lib now) "rawCode" ≡ none)
      × (data_field (dropped_node json (on_drag_start json lib) now) "isCustom" ≡ some (bool true))
      × (data_field (dropped_node json (on_drag_start json lib) now) "rawCode"
          ≡ some (str lib.raw_code))
unfolding data_field clicked_node dropped_node on_drag_start custom_keys block_data lookup synced
    any
clicked_node_loses_code json lib now custom =
    let defaults = get_default_parameters_for_node lib.id in
    (
      copied-absent synced_keys defaults "isCustom" refl,
      copied-absent synced_keys defaults "rawCode" refl,
      rw custom refl,
      rw custom refl,
    )

-- `selectedNode`
unfoldable pub selected_node : CanvasState → Option Node
unfolding find_first
selected_node s = find_first (λ (n : Node). selects s.selected_node_id n.id) s.nodes

-- The first block with an id, or else the new one.
abbrev pub or_new : Option Node → Node → Option Node
or_new none n = some n
or_new (some m) n = some m

find_first-append :
    (p : Node → Bool) (ns : List Node) (n : Node)
    → p n ≡ true
    → find_first p (ns ++ n ∷ []) ≡ or_new (find_first p ns) n
unfolding find_first
find_first-append p [] n h = rw h refl
find_first-append p (m ∷ ns) n h = elim (Bool-cases (p m)) [
  | inl here ↦ rw here refl
  | inr other ↦ rw other (find_first-append p ns n h)
]

new_id-given : (id : String) (now : ℕ) → given (some (new_id id now)) ≡ true
unfolding new_id cat
new_id-given id now = elim (Bool-cases (new_id id now == "")) [
  | inl empty ↦
      let tail =
        append-eq-nil_iff.0 (append-eq-nil_iff.0 ((eq_iff (new_id id now) "").0 empty)).1 in
      let clash : false ≡ true = ap (λ s. s == "") tail.0 in absurd (ground arith)
  | inr full ↦ rw full refl
]

-- Outside a run a click on a block puts it at the end of the canvas and deselects the edge; the
-- inspector then shows the first block with its id, which is the new one only if no other had
-- that id.
pub click_selects :
    (lib : LibraryNode) (now : ℕ) (w : Page)
    → w.canvas.is_executing ≡ false
    → ((handle_add_node_to_canvas false lib now w).canvas.nodes
        ≡ w.canvas.nodes ++ clicked_node lib now ∷ [])
      × ((handle_add_node_to_canvas false lib now w).canvas.selected_edge_id ≡ none)
      × (selected_node (handle_add_node_to_canvas false lib now w).canvas
          ≡ or_new
              (find_first (λ (n : Node). new_id lib.id now == n.id) w.canvas.nodes)
              (clicked_node lib now))
unfolding handle_add_node_to_canvas put_block add_node set_selected_node_id selected_node
    clicked_node
click_selects lib now w idle =
    let same : (new_id lib.id now == new_id lib.id now) ≡ true = (eq_iff _ _).1 refl in
    rw idle (
      rw (new_id-given lib.id now)
        (refl, refl, find_first-append _ w.canvas.nodes (clicked_node lib now) same))
