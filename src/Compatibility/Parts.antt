-- ===== src/Compatibility/Parts.antt =====
-- What a manifest must have besides its screens, and that each part of the check tests it.

use duka_backend.Database.{lists}
use text.Mathlib.TextPositions.{eq_refl}
use text.Mathlib.TextEquality.{eq_iff}
use duka_backend.Prelude.{
  All, Bool, Bool-cases, List, Option, Option-cases, String, [], arith, false, first, inl, inr,
  is_some, ltb, none, not, ok, refl, select, some, subst, sym, true, ℕ, ◌&&◌, ◌++◌, ◌==◌, ◌↔◌, ◌∷◌,
  ◌≡◌, ◌≤◌, ◌⊎◌,
}
use duka_backend.Compatibility.{Json, array, boolean, includes, null, number, object, string, ◌≐◌}
use duka_backend.Compatibility.Contract.{is_supported_capability}
use duka_backend.Compatibility.Evaluate.{
  Capability, Media, Problem, capability_problems, complain, foreign_asset, is_disabled,
  is_supported_version, is_unknown, unsupported_capability, unsupported_version, version_problems,
}
use duka_backend.Compatibility.Assets.{asset_problem, asset_problems, owned_problems}
use duka_backend.Compatibility.Rendered.{append-empty, complain-empty}

abbrev pub IsVersion : Option Json → Type 0
IsVersion none = Unit
IsVersion (some null) = Unit
IsVersion (some v) = is_supported_version v ≡ true

-- A capability that is required and not switched off is a supported one.
abbrev pub IsGranted : Capability → Type 0
IsGranted c =
    c.is_required ≡ true → is_disabled c.enabled ≡ false → is_supported_capability c.id ≡ true

-- The asset exists and is the tenant's or a template's.
abbrev pub IsOwned : ℕ → List Media → String → Type 0
IsOwned tenant rows r =
    (m : Media) × (first (λ x. x.id ≐ r) rows ≡ some m)
    × ((m.tenant_id ≡ tenant) ⊎ (is_some m.template_id ≡ true))

abbrev pub AreOwned : Option ℕ → List Media → List String → Type 0
AreOwned none rows refs = Unit
AreOwned (some tenant) rows refs = All (IsOwned tenant rows) refs

test-empty : (b : Bool) (p : Problem) → (complain (not b) p ≡ []) ↔ (b ≡ true)
test-empty true p = (λ h. refl, λ h. refl)
test-empty false p = (λ h. cc, λ h. cc)

pub both_empty :
    {A B : Type 0} (xs ys : List Problem)
    → ((xs ≡ []) ↔ A)
    → ((ys ≡ []) ↔ B)
    → ((xs ++ ys ≡ []) ↔ (A × B))
both_empty xs ys a b =
    let parts = append-empty xs ys in
    ((λ h. let (x, y) = parts.0 h in (a.0 x, b.0 y)), (λ h. parts.1 (a.1 h.0, b.1 h.1)))

pub IsVersion-empty : (v : Option Json) → (version_problems v ≡ []) ↔ IsVersion v
unfolding version_problems
IsVersion-empty none = (λ h. tt, λ h. refl)
IsVersion-empty (some null) = (λ h. tt, λ h. refl)
IsVersion-empty (some (boolean b)) = (λ h. ground arith, λ h. ground arith)
IsVersion-empty (some (number n)) = (λ h. ground arith, λ h. ground arith)
IsVersion-empty (some (string s)) =
    test-empty (is_supported_version (string s)) (unsupported_version (string s))
IsVersion-empty (some (array xs)) =
    test-empty (is_supported_version (array xs)) (unsupported_version (array xs))
IsVersion-empty (some (object fs)) = (λ h. ground arith, λ h. ground arith)

one-IsGranted :
    (c : Capability)
    → (complain (is_unknown c && c.is_required) (unsupported_capability c.id) ≡ []) ↔ IsGranted c
one-IsGranted c = (
  (λ h.
      let quiet =
        (complain-empty (is_unknown c && c.is_required) (unsupported_capability c.id)).0 h in
      λ r e. ground (arith, quiet, r, e)),
  (λ h.
      (complain-empty (is_unknown c && c.is_required) (unsupported_capability c.id)).1
        (ground (arith, h))),
)

pub IsGranted-empty : (cs : List Capability) → (capability_problems cs ≡ []) ↔ All IsGranted cs
unfolding capability_problems
IsGranted-empty [] = (λ h. tt, λ h. refl)
IsGranted-empty (c ∷ cs) =
    both_empty _ (capability_problems cs) (one-IsGranted c) (IsGranted-empty cs)

pub limit-empty : {n m : ℕ} (p : Problem) → (complain (ltb m n) p ≡ []) ↔ (n ≤ m)
limit-empty p = (λ h. ground arith, λ h. ground arith)

-- The rows that are read have every asset that is looked up.
first-select :
    (refs : List String) (r : String) (rows : List Media)
    → includes refs r ≡ true
    → first (λ m. m.id ≐ r) (select (λ m. includes refs m.id) rows) ≡ first (λ m. m.id ≐ r) rows
first-select refs r [] h = refl
first-select refs r (m ∷ rows) h = elim (Bool-cases (m.id ≐ r)) [
  | inl b ↦
      let same_id : m.id ≡ r = (eq_iff m.id r).0 b in
      let read : includes refs m.id ≡ true = subst (λ i. includes refs i ≡ true) (sym same_id) h in
      rw (read, b) refl
  | inr b ↦ elim (Bool-cases (includes refs m.id)) [
    | inl c ↦ rw (c, b) (first-select refs r rows h)
    | inr c ↦ rw (c, b) (first-select refs r rows h)
  ]
]

IsOwned-empty :
    (tenant : ℕ) (r : String) (rows : List Media)
    → (asset_problem tenant r (first (λ m. m.id ≐ r) rows) ≡ []) ↔ IsOwned tenant rows r
IsOwned-empty tenant r rows = elim (Option-cases (first (λ m. m.id ≐ r) rows)) [
  | inl e ↦ rw e ((λ h. absurd (ground arith)), (λ o. absurd (ground (arith, o.1))))
  | inr (m, e) ↦
      let quiet =
        complain-empty (not (m.tenant_id == tenant) && not (is_some m.template_id))
          (foreign_asset r) in
      rw e ((λ h. (m, refl, owner m (quiet.0 h))), (λ o. quiet.1 (allowed m o)))
]
  where
    owner :
        (m : Media)
        → (not (m.tenant_id == tenant) && not (is_some m.template_id)) ≡ false
        → (m.tenant_id ≡ tenant) ⊎ (is_some m.template_id ≡ true)
    owner m h = elim (Bool-cases (m.tenant_id == tenant)) [
      | inl b ↦ inl (ground arith)
      | inr b ↦ inr (ground arith)
    ]

    allowed :
        (m : Media)
        → (m' : Media) × (some m ≡ some m')
          × ((m'.tenant_id ≡ tenant) ⊎ (is_some m'.template_id ≡ true))
        → (not (m.tenant_id == tenant) && not (is_some m.template_id)) ≡ false
    allowed m (m', f, inl g) = ground arith
    allowed m (m', f, inr g) = ground arith

All-IsOwned-empty :
    (tenant : ℕ) (refs qs : List String) (rows : List Media)
    → ((q : String) → includes qs q ≡ true → includes refs q ≡ true)
    → (asset_problems tenant (select (λ m. includes refs m.id) rows) qs ≡ [])
      ↔ All (IsOwned tenant rows) qs
unfolding asset_problems
All-IsOwned-empty tenant refs [] rows h = (λ e. tt, λ e. refl)
All-IsOwned-empty tenant refs (q ∷ qs) rows h =
    both_empty _ (asset_problems tenant (select (λ m. includes refs m.id) rows) qs)
      (subst (λ z. (asset_problem tenant q z ≡ []) ↔ IsOwned tenant rows q)
        (sym (first-select refs q rows (h q (rw (eq_refl q) refl)))) (IsOwned-empty tenant q rows))
      (All-IsOwned-empty tenant refs qs rows (λ p e. h p (ground (arith, e))))

pub looked_up :
    (tenant : Option ℕ) (refs : List String) (rows : List Media)
    → (problems : List Problem) × (owned_problems lists tenant refs rows ≡ (ok problems, rows))
      × ((problems ≡ []) ↔ AreOwned tenant rows refs)
unfolding owned_problems asset_problems
looked_up none refs rows = ([], refl, ((λ h. tt), (λ h. refl)))
looked_up (some tenant) [] rows = ([], refl, ((λ h. tt), (λ h. refl)))
looked_up (some tenant) (r ∷ rs) rows = (
  asset_problems tenant (select (λ m. includes (r ∷ rs) m.id) rows) (r ∷ rs),
  refl,
  All-IsOwned-empty tenant (r ∷ rs) (r ∷ rs) rows (λ q h. h),
)
