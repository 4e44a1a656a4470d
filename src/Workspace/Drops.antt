-- ===== src/Workspace/Drops.antt =====
-- Blocks of the library dragged onto the canvas: `onDragStart` of
-- apps/web/app/workspace/LibraryPanelV2.tsx and `onDrop` of apps/web/app/workspace/page.tsx.
-- JSON.stringify and JSON.parse of parameters are one parameter.
use whiparc.Prelude.{
  ℕ, String, Bool, true, not, ◌&&◌, Option, none, some, [], ◌∷◌, ◌++◌, ◌==◌, if◌then◌else◌,
}
use whiparc.Canvas.{Node}
use whiparc.Canvas.Json.{str, bool, obj, Fields, end, field}
use whiparc.Workspace.Defaults.{
  get_default_parameters_for_node, default_instance_params, default_sg_params,
}
use whiparc.Workspace.Blocks.{
  LibraryNode, new_id, category_label, synced, block_data, Page, put_block, cannot_drop,
}

-- What is dragged: the texts of the DataTransfer. A text that was not set is empty.
pub record Dragged : Type 0 where
  pub drag_id : String
  pub drag_tech : String
  pub drag_icon : String
  pub drag_title : String
  pub drag_description : String
  pub drag_category : String
  pub drag_is_custom : String
  pub drag_raw_code : String
  pub drag_code_type : String
  pub drag_parameters : String

-- JSON.stringify and JSON.parse on the parameters of a block; `none` is a text that does not parse.
pub record Json : Type 0 where
  pub stringify : Fields → String
  pub parse : String → Option Fields

module _ (json : Json) where
  open json use {stringify, parse}

  -- `onDragStart`
  unfoldable pub on_drag_start : LibraryNode → Dragged
  on_drag_start lib = record {
    drag_id = lib.id;
    drag_tech = lib.tech;
    drag_icon = lib.icon;
    drag_title = lib.title;
    drag_description = lib.description;
    drag_category = lib.category;
    drag_is_custom = if lib.is_custom then "true" else "";
    drag_raw_code = if lib.is_custom then lib.raw_code else "";
    drag_code_type = if lib.is_custom then lib.code_type else "";
    drag_parameters =
        if lib.is_custom
        then stringify (elim lib.block_parameters [ none ↦ end | some p ↦ p ])
        else "";
  }

  -- `parsedParameters`
  unfoldable pub parsed_parameters : Dragged → Fields
  unfolding get_default_parameters_for_node
  parsed_parameters d =
      let defaults = get_default_parameters_for_node d.drag_id in
      if d.drag_is_custom == "true" && not (d.drag_parameters == "")
      then elim (parse d.drag_parameters) [ none ↦ defaults | some p ↦ p ]
      else defaults

  -- The parameters after the corrections for machines and security groups
  unfoldable pub dropped_parameters : Dragged → Fields
  unfolding parsed_parameters default_instance_params default_sg_params
  dropped_parameters d =
      if d.drag_is_custom == "true"
      then parsed_parameters d
      else if d.drag_id == "aws_instance.web_server"
      then default_instance_params
      else if d.drag_id == "aws_security_group"
      then default_sg_params
      else parsed_parameters d

  -- The keys that only custom blocks have
  unfoldable pub custom_keys : Dragged → Fields → Fields
  custom_keys d rest =
      if d.drag_is_custom == "true"
      then field "isCustom" (bool true)
          (field "rawCode" (str d.drag_raw_code) (field "codeType" (str d.drag_code_type) rest))
      else rest

  -- The node of `onDrop`
  unfoldable pub dropped_node : Dragged → ℕ → Node
  unfolding new_id block_data category_label dropped_parameters parsed_parameters synced custom_keys
  dropped_node d now = record {
    id = new_id d.drag_id now;
    payload = some (
        block_data d.drag_title d.drag_tech d.drag_icon
          (if d.drag_category == "" then category_label d.drag_tech else d.drag_category)
          d.drag_description (if d.drag_is_custom == "true" then "Custom Block" else "Validated")
          (field "parameters" (obj (dropped_parameters d))
            (custom_keys d (synced (parsed_parameters d)))));
  }

  unfoldable pub on_drop : Bool → Dragged → ℕ → Page → Page
  unfolding dropped_node put_block
  on_drop running d now w =
      if running
      then record w { alerts = w.alerts ++ cannot_drop ∷ [] }
      else if d.drag_id == ""
      then w
      else put_block d.drag_id (dropped_node d now) w
