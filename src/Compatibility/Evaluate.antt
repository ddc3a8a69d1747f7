-- ===== src/Compatibility/Evaluate.antt =====
-- `evaluate` and `assertCompatible` of compatibility.service.ts.

use duka_backend.Prelude.{
  Bool, List, Option, String, [], false, if◌then◌else◌, ltb, none, not, some, suc, true, ℕ, ◌&&◌,
  ◌++◌, ◌∷◌,
}
use duka_backend.Compatibility.{
  Fields, Json, array, boolean, coalesce, cons, entries, fields_of, includes, items, nil, null,
  object, prop, string, text_of, values, ◌≐◌,
}
use duka_backend.Compatibility.Contract.{
  is_supported_action, is_supported_capability, is_supported_component, max_nesting_depth,
  supported_manifest_versions,
}
use duka_backend.Compatibility.Walk.{
  Sight, action_types_in, at_depth, at_node, holds_actions, walk_all, walk_nodes,
}

pub record Media : Type 0 where
  pub id : String
  pub tenant_id : ℕ
  pub template_id : Option ℕ

-- The errors, whose texts the report lists.
pub data Problem : Type 0 where
  not_an_object : Problem
  unsupported_version : Json → Problem
  too_many_screens too_deep too_many_components too_many_assets : ℕ → Problem
  unsupported_component unsupported_capability missing_asset foreign_asset : String → Problem

-- The warnings.
pub data Warning : Type 0 where
  unknown_action optional_capability : String → Warning

pub record Counts : Type 0 where
  pub screens : ℕ
  pub components : ℕ
  pub actions : ℕ
  pub asset_references : ℕ

-- The sets of texts are lists here, which may repeat one.
pub record Report : Type 0 where
  pub compatible : Bool
  pub errors : List Problem
  pub warnings : List Warning
  pub counts : Counts

abbrev pub complain {ℓ} : {A : Type ℓ} → Bool → A → List A
complain b a = if b then a ∷ [] else []

abbrev pub is_empty {ℓ} : {A : Type ℓ} → List A → Bool
is_empty [] = true
is_empty (x ∷ xs) = false

-- `SUPPORTED_MANIFEST_VERSIONS.includes(String(rawVersion))`. The text of an array of one value is the
-- text of that value, and no text for null; an array of more values has a comma in its text, one of
-- none the empty text, and a natural number, a truth value and an object have none of the versions.
abbrev pub is_supported_version : Json → Bool
is_supported_version (string v) = includes supported_manifest_versions v
is_supported_version (array (cons v nil)) = is_supported_version v
is_supported_version _ = false

unfoldable pub version_problems : Option Json → List Problem
version_problems (some null) = []
version_problems (some v) = complain (not (is_supported_version v)) (unsupported_version v)
version_problems none = []

abbrev pub raw_version : Fields → Option Json
raw_version manifest =
    coalesce (prop "manifestVersion" manifest)
      (prop "schemaVersion" (fields_of (prop "metadata" manifest)))

abbrev pub screen_list : Option Json → List Json
screen_list (some (array xs)) = items xs
screen_list (some (object fs)) = values fs
screen_list _ = []

unfoldable pub sight_problems : List Sight → List Problem
sight_problems [] = []
sight_problems (at_depth d ∷ s) =
    complain (ltb max_nesting_depth d) (too_deep d) ++ sight_problems s
sight_problems (at_node t ∷ s) =
    complain (not (is_supported_component t)) (unsupported_component t) ++ sight_problems s

unfoldable pub nodes_in : List Sight → ℕ
nodes_in [] = 0
nodes_in (at_depth d ∷ s) = nodes_in s
nodes_in (at_node t ∷ s) = suc (nodes_in s)

unfoldable pub walk_screens : List Json → List Sight
walk_screens [] = []
walk_screens (s ∷ ss) = walk_nodes 0 s ++ walk_screens ss

unfoldable pub walk_all_screens : List Json → List (Option String × Fields)
walk_all_screens [] = []
walk_all_screens (s ∷ ss) = walk_all 0 none false s ++ walk_all_screens ss

-- The actions of a visited object, unless its key says that its parent counts them.
unfoldable pub actions_of : List (Option String × Fields) → List String
actions_of [] = []
actions_of ((key, fs) ∷ vs) =
    let rest = actions_of vs in if holds_actions key then rest else action_types_in fs ++ rest

unfoldable pub action_warnings : List String → List Warning
action_warnings [] = []
action_warnings (a ∷ rest) =
    complain (not (is_supported_action a)) (unknown_action a) ++ action_warnings rest

pub record Capability : Type 0 where
  pub id : String
  pub is_required : Bool
  pub enabled : Option Json

abbrev pub is_text : String → Option Json → Bool
is_text s v = elim (text_of v) [ none ↦ false | some t ↦ t ≐ s ]

abbrev pub capability_of : String → Fields → Capability
capability_of id fs = record {
  id = id;
  is_required = is_text "required" (prop "type" fs);
  enabled = prop "enabled" fs;
}

-- An entry of an array that is an object with an id.
abbrev pub listed_capability : Json → List Capability
listed_capability (object fs) =
    elim (text_of (coalesce (coalesce (prop "capabilityId" fs) (prop "id" fs)) (prop "name" fs))) [
      | none ↦ []
      | some id ↦ capability_of id fs ∷ []
    ]
listed_capability _ = []

unfoldable pub listed_capabilities : List Json → List Capability
listed_capabilities [] = []
listed_capabilities (v ∷ vs) = listed_capability v ++ listed_capabilities vs

unfoldable pub keyed_capabilities : List (String × Json) → List Capability
keyed_capabilities [] = []
keyed_capabilities ((id, v) ∷ es) = capability_of id (fields_of (some v)) ∷ keyed_capabilities es

unfoldable pub read_capabilities : Option Json → List Capability
read_capabilities (some (array xs)) = listed_capabilities (items xs)
read_capabilities (some (object fs)) = keyed_capabilities (entries fs)
read_capabilities _ = []

-- `enabled === false`
abbrev pub is_disabled : Option Json → Bool
is_disabled (some (boolean b)) = not b
is_disabled _ = false

abbrev pub is_unknown : Capability → Bool
is_unknown c = not (is_disabled c.enabled) && not (is_supported_capability c.id)

unfoldable pub capability_problems : List Capability → List Problem
capability_problems [] = []
capability_problems (c ∷ cs) =
    complain (is_unknown c && c.is_required) (unsupported_capability c.id) ++ capability_problems cs

unfoldable pub capability_warnings : List Capability → List Warning
capability_warnings [] = []
capability_warnings (c ∷ cs) =
    complain (is_unknown c && not c.is_required) (optional_capability c.id)
    ++ capability_warnings cs
