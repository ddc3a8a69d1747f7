-- ===== src/Compatibility.antt =====
-- shared/compatibility: whether the shell of the published apps can render a manifest. JSON values and
-- how their fields are read.
pub mod Contract
pub mod Walk
pub mod Evaluate
pub mod Assets
pub mod Rendered
pub mod Parts
pub mod Exactly
mod Tests
use text.Mathlib.Text.{◌==◌ as ◌≟◌}
use duka_backend.Prelude.{
  Bool, List, Option, String, [], any, false, if◌then◌else◌, none, some, true, ℕ, ◌∷◌,
}

-- Numbers are natural.
mutual
  pub data Json : Type 0 where
    null : Json
    boolean : Bool → Json
    number : ℕ → Json
    string : String → Json
    array : Items → Json
    object : Fields → Json

  pub data Items : Type 0 where
    nil : Items
    cons : Json → Items → Items

  pub data Fields : Type 0 where
    end : Fields
    field : String → Json → Fields → Fields

infix 50 ◌≐◌
abbrev pub ◌≐◌ : String → String → Bool
a ≐ b = a ≟ b

abbrev pub includes : List String → String → Bool
includes l x = any (λ y. y ≐ x) l

-- `o[key]`, with `none` for undefined.
unfoldable pub prop : String → Fields → Option Json
prop k end = none
prop k (field j v fs) = if j ≐ k then some v else prop k fs

abbrev pub fields_of : Option Json → Fields
fields_of (some (object fs)) = fs
fields_of _ = end

-- `v != null`
abbrev pub is_present : Option Json → Bool
is_present none = false
is_present (some null) = false
is_present (some _) = true

-- `typeof v === 'string'`, with the text.
abbrev pub text_of : Option Json → Option String
text_of (some (string s)) = some s
text_of _ = none

-- `a ?? b`
abbrev pub coalesce : Option Json → Option Json → Option Json
coalesce none b = b
coalesce (some null) b = b
coalesce (some v) b = some v

unfoldable pub items : Items → List Json
items nil = []
items (cons x xs) = x ∷ items xs

-- `Object.values` and `Object.entries`
unfoldable pub values : Fields → List Json
values end = []
values (field k v fs) = v ∷ values fs

unfoldable pub entries : Fields → List (String × Json)
entries end = []
entries (field k v fs) = (k, v) ∷ entries fs
