-- ===== src/Compatibility/Walk.antt =====
-- The two traversals of compatibility.service.ts, each as the list of what its handlers are given.

use duka_backend.Prelude.{
  Bool, List, Option, String, [], false, if◌then◌else◌, ltb, none, not, some, suc, ℕ, ◌&&◌, ◌++◌,
  ◌||◌, ◌∷◌,
}
use duka_backend.Compatibility.{
  Fields, Items, Json, array, cons, end, field, fields_of, includes, is_present, items, nil, object,
  prop, text_of, values, ◌≐◌,
}

abbrev pub non_node_keys : List String
non_node_keys =
    "actions" ∷ "tapAction" ∷ "props" ∷ "style" ∷ "fills" ∷ "strokes" ∷ "effects" ∷ "state"
    ∷ "config" ∷ "payload" ∷ "theme" ∷ "metadata" ∷ "identity" ∷ "meta" ∷ "branding" ∷ "runtime"
    ∷ "localization" ∷ "permissions" ∷ "assets" ∷ "capabilities" ∷ []

unfoldable pub is_non_node_key : String → Bool
is_non_node_key k = includes non_node_keys k

abbrev pub has_node_structure : Fields → Bool
has_node_structure fs =
    is_present (prop "props" fs)
    || is_present (prop "children" fs)
    || is_present (prop "layout" fs)
    || is_present (prop "key" fs)
    || is_present (prop "config" fs)
    || is_present (prop "blocks" fs)

-- `isNodeShape`, with the node's type.
unfoldable pub node_type : Fields → Option String
node_type fs =
    if is_present (prop "payload" fs) && not (has_node_structure fs)
    then none
    else text_of (prop "type" fs)

-- `isActionShape`, with the action's type.
unfoldable pub action_type : Fields → Option String
action_type fs =
    if is_present (prop "payload" fs)
      && not (is_present (prop "props" fs))
      && not (is_present (prop "children" fs))
      && not (is_present (prop "layout" fs))
      && not (is_present (prop "key" fs))
    then text_of (prop "type" fs)
    else none

abbrev pub listed {ℓ} : {A : Type ℓ} → Option A → List A
listed none = []
listed (some a) = a ∷ []

abbrev pub types_of : List Json → List String
types_of [] = []
types_of (v ∷ vs) = listed (text_of (prop "type" (fields_of (some v)))) ++ types_of vs

abbrev pub declared_actions : Option Json → List String
declared_actions (some (array xs)) = types_of (items xs)
declared_actions (some (object fs)) = types_of (values fs)
declared_actions _ = []

unfoldable pub action_types_in : Fields → List String
action_types_in fs =
    listed (action_type fs)
    ++ listed (text_of (prop "type" (fields_of (prop "tapAction" fs))))
    ++ declared_actions (prop "actions" fs)

-- `onDepth` and `onNode`, the latter with the node's type.
pub data Sight : Type 0 where
  at_depth : ℕ → Sight
  at_node : String → Sight

abbrev pub seen_node : Option String → List Sight
seen_node none = []
seen_node (some t) = at_node t ∷ []

unfoldable mutual
  pub walk_nodes : ℕ → Json → List Sight
  walk_nodes d (array xs) = at_depth d ∷ walk_items (suc d) xs
  walk_nodes d (object fs) = at_depth d ∷ seen_node (node_type fs) ++ walk_fields (suc d) fs
  walk_nodes d _ = []

  pub walk_items : ℕ → Items → List Sight
  walk_items d nil = []
  walk_items d (cons x xs) = walk_nodes d x ++ walk_items d xs

  pub walk_fields : ℕ → Fields → List Sight
  walk_fields d end = []
  walk_fields d (field k v fs) =
      let inner = walk_nodes d v in
      let rest = walk_fields d fs in if is_non_node_key k then rest else inner ++ rest

abbrev pub holds_actions : Option String → Bool
holds_actions none = false
holds_actions (some k) = k ≐ "tapAction" || k ≐ "actions"

-- Every object that is visited, with its key; nothing below depth 40.
unfoldable mutual
  pub walk_all :
      (depth : ℕ) → Option String → (inside_actions : Bool) → Json → List (Option String × Fields)
  walk_all d key inside (array xs) =
      let rest = walk_all_items (suc d) key inside xs in if ltb 40 d then [] else rest
  walk_all d key inside (object fs) =
      let rest = walk_all_fields (suc d) (inside || holds_actions key) fs in
      if ltb 40 d then [] else if inside then rest else (key, fs) ∷ rest
  walk_all d key inside _ = []

  pub walk_all_items :
      (depth : ℕ) → Option String → (inside_actions : Bool) → Items → List (Option String × Fields)
  walk_all_items d key inside nil = []
  walk_all_items d key inside (cons x xs) =
      walk_all d key inside x ++ walk_all_items d key inside xs

  pub walk_all_fields : (depth : ℕ) → (nested : Bool) → Fields → List (Option String × Fields)
  walk_all_fields d nested end = []
  walk_all_fields d nested (field k v fs) =
      walk_all d (some k) nested v ++ walk_all_fields d nested fs
