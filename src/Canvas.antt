-- ===== src/Canvas.antt =====
-- The canvas: `Node` and `Edge` of @xyflow/react as the program reads them, and the typed views
-- of a node's `data` that apps/web/app/lib/bundleGenerator.ts (`CanvasNodeData`, `NodeParams`)
-- and apps/web/app/lib/exportYaml.ts (`AnsibleNodeData`, `AnsibleNodeParams`) declare.
pub mod Json
pub mod Stringify
pub mod Design
use whiparc.Prelude.{
  ℕ, ◌≡◌, refl, inl, inr, Option-cases, String, Bool, true, false, Option, none, some, List, map,
  ◌==◌, ◌&&◌, starts_with, if◌then◌else◌,
}
use Json.{Value, null, bool, num, str, arr, obj, Fields, end, field, lookup, truthy, shown}

-- `payload` is the source's `data`. `position` and `type` are carried along and read by none of the modelled code.
pub record Node : Type 0 where
  pub id : String
  pub payload : Option Fields

-- What an edge looks like: `label`, `animated` and `className`, and the keys of `style` and of
-- `data` that the program reads. Widths are in tenths of a pixel.
pub record Look : Type 0 where
  pub label : Option String
  pub animated : Option Bool
  pub class_name : Option String
  pub stroke : Option String
  pub stroke_width : Option ℕ
  pub custom_stroke : Option Bool
  pub custom_width : Option Bool

abbrev pub plain : Look
plain = record {
  label = none;
  animated = none;
  class_name = none;
  stroke = none;
  stroke_width = none;
  custom_stroke = none;
  custom_width = none;
}

pub record Edge : Type 0 where
  pub id : String
  pub source : String
  pub target : String
  pub look : Look

-- `node.data?.key`
unfoldable pub data_field : Node → String → Option Value
data_field n key = elim n.payload [ none ↦ none | some fs ↦ lookup key fs ]

-- `node.data?.parameters || {}`
unfoldable pub parameters : Node → Fields
unfolding data_field
parameters n = elim (data_field n "parameters") [ some (obj fs) ↦ fs | _ ↦ end ]

-- `node?.data?.parameters || {}`
abbrev pub params_of : Option Node → Fields
params_of none = end
params_of (some n) = parameters n

-- `v === "text"` for a field that may be absent
unfoldable pub is_text : Option Value → String → Bool
is_text (some (str s)) t = s == t
is_text _ t = false

-- `node.data?.tech === t`
unfoldable pub has_tech : String → Node → Bool
unfolding data_field is_text
has_tech t n = is_text (data_field n "tech") t

-- `p[key] || fallback`, interpolated
unfoldable pub param_or : Fields → String → String → String
param_or p key fallback = elim (lookup key p) [
  | none ↦ fallback
  | some v ↦ if truthy v then shown v else fallback
]

-- `node?.data?.key || fallback`, interpolated
unfoldable pub data_or : Option Node → String → String → String
unfolding param_or
data_or none key fallback = fallback
data_or (some n) key fallback = elim n.payload [
  | none ↦ fallback
  | some fs ↦ param_or fs key fallback
]

-- `p[key] !== false`, interpolated
unfoldable pub unless_false : Fields → String → String
unfolding lookup
unless_false p key = elim (lookup key p) [ some (bool false) ↦ "false" | _ ↦ "true" ]

pub param_or-none :
    (p : Fields) (key fallback : String) → lookup key p ≡ none → param_or p key fallback ≡ fallback
unfolding param_or
param_or-none p key fallback h = rw (h, param_or) refl

pub data_or-none :
    (n : Node) (key fallback : String)
    → data_field n key ≡ none
    → data_or (some n) key fallback ≡ fallback
unfolding data_or data_field
data_or-none n key fallback h = elim (Option-cases n.payload) [
  | inl e ↦ rw (e, data_or) refl
  | inr (fs, e) ↦ rw (e, data_or) (param_or-none fs key fallback (rw (e, data_field) at h))
]
