-- ===== src/Compatibility/Tests.antt =====
-- Runs of the check, and its theorem at a concrete manifest.

use duka_backend.Prelude.{
  List, String, [], err, none, ok, refl, some, true, unprocessable, ◌∷◌, ◌≡◌,
}
use duka_backend.Database.{lists, lists-IsDatabase}
use duka_backend.Compatibility.Exactly.{Verdict, compatible_exactly}
use duka_backend.Compatibility.Assets.{
  assert_compatible, asset_problems, counts_of, distinct, evaluate, is_uuid, owned_problems,
  references, references_in, skip_hex, static_problems, warnings_of,
}
use duka_backend.Compatibility.Evaluate.{
  Media, action_warnings, actions_of, capability_problems, capability_warnings, keyed_capabilities,
  listed_capabilities, nodes_in, read_capabilities, sight_problems, version_problems,
  walk_all_screens, walk_screens,
}
use duka_backend.Compatibility.Walk.{
  action_type, action_types_in, is_non_node_key, node_type, walk_all, walk_nodes,
}
use duka_backend.Compatibility.Contract.{
  is_supported_action, is_supported_capability, is_supported_component,
}
use duka_backend.Compatibility.{
  Fields, array, cons, end, entries, field, items, nil, null, object, prop, string, values,
}

abbrev asset : String
asset = "0f8fad5b-d9cb-469f-a165-70867728950e"

-- A home screen with a button that opens a link and a picture.
abbrev home : Fields
home =
    field "children"
      (array (
        cons
          (object (
            field "type" (string "button") (
              field "tapAction"
                (object (field "type" (string "open_url") (field "payload" (object end) end)))
                end)))
          (cons
            (object (
              field "type" (string "image") (
                field "props"
                  (object (field "source" (object (field "assetId" (string asset) end)) end)) end)))
            nil)))
      end

abbrev shop : Fields
shop = field "manifestVersion" (string "1.0.0") (
    field "screens" (object (field "home" (object home) end)) (
      field "capabilities"
        (array (
          cons (object (field "id" (string "catalog") (field "type" (string "required") end))) nil))
        end))

abbrev media : List Media
media = record { id = asset; tenant_id = 4; template_id = none } ∷ []

checking : Unit {0}
unfolding evaluate assert_compatible owned_problems static_problems version_problems sight_problems
    nodes_in walk_screens walk_all_screens actions_of action_warnings listed_capabilities
    keyed_capabilities read_capabilities capability_problems capability_warnings references_in
    references distinct skip_hex is_uuid asset_problems warnings_of counts_of is_non_node_key
    node_type action_type action_types_in walk_nodes walk_all prop items values entries
    is_supported_component is_supported_action is_supported_capability
checking = tt

accepted_run :
    (evaluate lists (object shop) (some 4) media).0
    ≡ ok (record {
      compatible = true;
      errors = [];
      warnings = [];
      counts = record { screens = 1; components = 2; actions = 1; asset_references = 1 };
    })
unfolding checking
accepted_run = refl

foreign_run :
    (assert_compatible lists (object shop) (some 5) media).0
    ≡ err (unprocessable "INCOMPATIBLE_RUNTIME")
unfolding checking
foreign_run = refl

null_run :
    (assert_compatible lists null (some 5) media).0 ≡ err (unprocessable "INCOMPATIBLE_RUNTIME")
unfolding checking
null_run = refl

compatible_exactly_example :
    Verdict shop (some 4) media (assert_compatible lists (object shop) (some 4) media)
compatible_exactly_example = compatible_exactly lists lists-IsDatabase shop (some 4) media
