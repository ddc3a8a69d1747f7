-- ===== src/Compatibility/Assets.antt =====
-- Asset references, and the whole check of a manifest.

use Prim.Native.Char.{code}
use duka_backend.Prelude.{
  Action, Bool, List, Option, String, [], false, first, gets, if◌then◌else◌, is_some, leb, length,
  ltb, none, not, pure, select, some, suc, throw_if, unprocessable, zero, ℕ, ◌&&◌, ◌++◌, ◌==◌,
  ◌>>=◌, ◌>>◌, ◌||◌, ◌∷◌,
}
use duka_backend.Database.{Database}
use duka_backend.Compatibility.{Fields, Json, fields_of, includes, object, prop, text_of, ◌≐◌}
use duka_backend.Compatibility.Contract.{max_asset_references, max_components, max_screens}
use duka_backend.Compatibility.Walk.{listed}
use duka_backend.Compatibility.Evaluate.{
  Counts, Media, Problem, Report, Warning, action_warnings, actions_of, capability_problems,
  capability_warnings, complain, foreign_asset, is_empty, missing_asset, nodes_in, not_an_object,
  raw_version, read_capabilities, screen_list, sight_problems, too_many_assets, too_many_components,
  too_many_screens, version_problems, walk_all_screens, walk_screens,
}

unfoldable pub references_in : Fields → List String
references_in fs =
    listed (text_of (prop "assetId" fs))
    ++ listed (text_of (prop "imageUrl" fs))
    ++ listed (text_of (prop "assetId" (fields_of (prop "source" (fields_of (prop "props" fs))))))

unfoldable pub references : List (Option String × Fields) → List String
references [] = []
references ((key, fs) ∷ vs) = references_in fs ++ references vs

-- The members of a set of texts, in the order of their first appearance.
unfoldable pub distinct : List String → List String
distinct [] = []
distinct (x ∷ xs) = x ∷ select (λ y. not (y ≐ x)) (distinct xs)

abbrev pub codes : String → List ℕ
codes String.[] = []
codes (String.◌∷◌ c s) = code c ∷ codes s

abbrev pub is_hex : ℕ → Bool
is_hex c = (leb b'0' c && leb c b'9') || (leb b'a' c && leb c b'f') || (leb b'A' c && leb c b'F')

-- What is left after so many hexadecimal digits.
unfoldable pub skip_hex : ℕ → List ℕ → Option (List ℕ)
skip_hex zero cs = some cs
skip_hex (suc n) [] = none
skip_hex (suc n) (c ∷ cs) = let rest = skip_hex n cs in if is_hex c then rest else none

abbrev pub skip_dash : Option (List ℕ) → Option (List ℕ)
skip_dash none = none
skip_dash (some []) = none
skip_dash (some (c ∷ cs)) = if c == b'-' then some cs else none

abbrev pub then_hex : ℕ → Option (List ℕ) → Option (List ℕ)
then_hex n none = none
then_hex n (some cs) = skip_hex n cs

abbrev pub group : ℕ → Option (List ℕ) → Option (List ℕ)
group n o = then_hex n (skip_dash o)

-- /^[0-9a-f]{8}-[0-9a-f]{4}-[0-9a-f]{4}-[0-9a-f]{4}-[0-9a-f]{12}$/i
unfoldable pub is_uuid : String → Bool
is_uuid s = elim (group 12 (group 4 (group 4 (group 4 (skip_hex 8 (codes s)))))) [
  | none ↦ false
  | some rest ↦ is_empty rest
]

abbrev pub asset_problem : ℕ → String → Option Media → List Problem
asset_problem tenant r none = missing_asset r ∷ []
asset_problem tenant r (some m) =
    complain (not (m.tenant_id == tenant) && not (is_some m.template_id)) (foreign_asset r)

unfoldable pub asset_problems : ℕ → List Media → List String → List Problem
asset_problems tenant rows [] = []
asset_problems tenant rows (r ∷ rs) =
    asset_problem tenant r (first (λ m. m.id ≐ r) rows) ++ asset_problems tenant rows rs

abbrev pub report : List Problem → List Warning → Counts → Report
report errors warnings counts = record {
  compatible = is_empty errors;
  errors = errors;
  warnings = warnings;
  counts = counts;
}

-- What is checked without the database.
unfoldable pub static_problems : Fields → List Problem
static_problems manifest =
    let screens = screen_list (prop "screens" manifest) in
    let sights = walk_screens screens in
    let refs = distinct (references (walk_all_screens screens)) in
    version_problems (raw_version manifest)
    ++ (complain (ltb max_screens (length screens)) (too_many_screens (length screens))
        ++ (sight_problems sights
            ++ (complain (ltb max_components (nodes_in sights))
                  (too_many_components (nodes_in sights))
                ++ (capability_problems (read_capabilities (prop "capabilities" manifest))
                    ++ complain (ltb max_asset_references (length refs))
                        (too_many_assets (length refs))))))

unfoldable pub warnings_of : Fields → List Warning
warnings_of manifest =
    action_warnings (actions_of (walk_all_screens (screen_list (prop "screens" manifest))))
    ++ capability_warnings (read_capabilities (prop "capabilities" manifest))

unfoldable pub counts_of : Fields → Counts
counts_of manifest =
    let screens = screen_list (prop "screens" manifest) in
    record {
      screens = length screens;
      components = nodes_in (walk_screens screens);
      actions = length (actions_of (walk_all_screens screens));
      asset_references = length (distinct (references (walk_all_screens screens)));
    }

abbrev pub uuid_references : Fields → List String
uuid_references manifest =
    select is_uuid
      (distinct (references (walk_all_screens (screen_list (prop "screens" manifest)))))

module _ (db : Database) where
  -- The rows are read where there is a reference to look up and a tenant to look it up for.
  unfoldable pub owned_problems : Option ℕ → List String → Action (List Media) (List Problem)
  owned_problems none refs = pure []
  owned_problems (some tenant) [] = pure []
  owned_problems (some tenant) (r ∷ rs) = do
    rows ← gets (λ s. db.find_many Media (λ m. includes (r ∷ rs) m.id) s)
    pure (asset_problems tenant rows (r ∷ rs))

  unfoldable pub evaluate : Json → Option ℕ → Action (List Media) Report
  evaluate (object manifest) tenant = do
    owned ← owned_problems tenant (uuid_references manifest)
    pure (report (static_problems manifest ++ owned) (warnings_of manifest) (counts_of manifest))
  evaluate _ tenant = pure (
      report (not_an_object ∷ []) []
        (record { screens = 0; components = 0; actions = 0; asset_references = 0 }))

  unfoldable pub assert_compatible : Json → Option ℕ → Action (List Media) Report
  assert_compatible manifest tenant = do
    r ← evaluate manifest tenant
    throw_if (not r.compatible) (unprocessable "INCOMPATIBLE_RUNTIME")
    pure r
