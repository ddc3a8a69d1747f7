-- ===== src/Compatibility/Rendered.antt =====
-- What the shell can render, said of the tree, and that the traversal finds exactly the rest.

use duka_backend.Prelude.{
  All, Bool, Bool-cases, List, Option, String, [], ap, arith, false, if◌then◌else◌, inl, inr, ltb,
  none, not, refl, some, suc, sym, true, ℕ, ◌++◌, ◌+◌, ◌↔◌, ◌∙◌, ◌∷◌, ◌≡◌, ◌≤◌,
}
use duka_backend.Compatibility.{
  Fields, Items, Json, array, boolean, cons, end, field, nil, null, number, object, string,
}
use duka_backend.Compatibility.Contract.{is_supported_component, max_nesting_depth}
use mathlib.Core.List.{append_assoc}
use duka_backend.Compatibility.Walk.{
  Sight, at_depth, at_node, is_non_node_key, node_type, seen_node, walk_fields, walk_items,
  walk_nodes,
}
use duka_backend.Compatibility.Evaluate.{
  complain, nodes_in, sight_problems, too_deep, unsupported_component, walk_screens,
}

abbrev pub IsKnown : Option String → Type 0
IsKnown none = Unit
IsKnown (some t) = is_supported_component t ≡ true

-- No array or object deeper than the limit, and every node of a supported type, except below the keys
-- that hold no nodes.
unfoldable mutual
  pub IsRendered : ℕ → Json → Type 0
  IsRendered d (array xs) = (d ≤ 25) × AreRendered (suc d) xs
  IsRendered d (object fs) = (d ≤ 25) × (IsKnown (node_type fs) × FieldsRendered (suc d) fs)
  IsRendered d _ = Unit

  pub AreRendered : ℕ → Items → Type 0
  AreRendered d nil = Unit
  AreRendered d (cons x xs) = IsRendered d x × AreRendered d xs

  pub FieldsRendered : ℕ → Fields → Type 0
  FieldsRendered d end = Unit
  FieldsRendered d (field k v fs) =
      ((is_non_node_key k ≡ false) → IsRendered d v) × FieldsRendered d fs

abbrev pub one_if : Option String → ℕ
one_if none = 0
one_if (some t) = 1

-- The number of nodes.
unfoldable mutual
  pub count_nodes : Json → ℕ
  count_nodes (array xs) = count_items xs
  count_nodes (object fs) = one_if (node_type fs) + count_fields fs
  count_nodes _ = 0

  pub count_items : Items → ℕ
  count_items nil = 0
  count_items (cons x xs) = count_nodes x + count_items xs

  pub count_fields : Fields → ℕ
  count_fields end = 0
  count_fields (field k v fs) =
      let inner = count_nodes v in
      let rest = count_fields fs in if is_non_node_key k then rest else inner + rest

pub append-empty {ℓ} : {A : Type ℓ} (xs ys : List A) → (xs ++ ys ≡ []) ↔ ((xs ≡ []) × (ys ≡ []))
append-empty [] ys = (λ h. (refl, h), λ h. h.1)
append-empty (x ∷ xs) ys = (λ h. cc, λ h. cc (h.0))

pub complain-empty {ℓ} : {A : Type ℓ} (b : Bool) (a : A) → (complain b a ≡ []) ↔ (b ≡ false)
complain-empty true a = (λ h. cc, λ h. cc)
complain-empty false a = (λ h. refl, λ h. refl)

sights-append : (s t : List Sight) → sight_problems (s ++ t) ≡ sight_problems s ++ sight_problems t
unfolding sight_problems
sights-append [] t = refl
sights-append (at_depth d ∷ s) t =
    ap (λ l. complain (ltb max_nesting_depth d) (too_deep d) ++ l) (sights-append s t)
    ∙ sym (append_assoc _ (sight_problems s) (sight_problems t))
sights-append (at_node n ∷ s) t =
    ap (λ l. complain (not (is_supported_component n)) (unsupported_component n) ++ l)
      (sights-append s t)
    ∙ sym (append_assoc _ (sight_problems s) (sight_problems t))

nodes-append : (s t : List Sight) → nodes_in (s ++ t) ≡ nodes_in s + nodes_in t
unfolding nodes_in
nodes-append [] t = omega arith
nodes-append (at_depth d ∷ s) t = nodes-append s t
nodes-append (at_node n ∷ s) t = omega (arith, nodes-append s t)

nodes-seen :
    (o : Option String) (s : List Sight) → nodes_in (seen_node o ++ s) ≡ one_if o + nodes_in s
unfolding nodes_in
nodes-seen none s = omega arith
nodes-seen (some t) s = omega arith

mutual
  unfolding walk_nodes count_nodes nodes_in

  nodes-walk : (d : ℕ) (j : Json) → nodes_in (walk_nodes d j) ≡ count_nodes j
  nodes-walk d null = refl
  nodes-walk d (boolean b) = refl
  nodes-walk d (number n) = refl
  nodes-walk d (string s) = refl
  nodes-walk d (array xs) = nodes-walk_items (suc d) xs
  nodes-walk d (object fs) =
      nodes-seen (node_type fs) (walk_fields (suc d) fs)
      ∙ ap (λ n. one_if (node_type fs) + n) (nodes-walk_fields (suc d) fs)

  nodes-walk_items : (d : ℕ) (xs : Items) → nodes_in (walk_items d xs) ≡ count_items xs
  nodes-walk_items d nil = refl
  nodes-walk_items d (cons x xs) = omega (
    arith,
    nodes-append (walk_nodes d x) (walk_items d xs),
    nodes-walk d x,
    nodes-walk_items d xs,
  )

  nodes-walk_fields : (d : ℕ) (fs : Fields) → nodes_in (walk_fields d fs) ≡ count_fields fs
  nodes-walk_fields d end = refl
  nodes-walk_fields d (field k v fs) = elim (Bool-cases (is_non_node_key k)) [
    | inl b ↦ rw b (nodes-walk_fields d fs)
    | inr b ↦ rw b (
        omega (
          arith,
          nodes-append (walk_nodes d v) (walk_fields d fs),
          nodes-walk d v,
          nodes-walk_fields d fs,
        ))
  ]

-- Two parts are without problems where each is.
sights_both :
    {A B : Type 0} (s t : List Sight)
    → ((sight_problems s ≡ []) ↔ A)
    → ((sight_problems t ≡ []) ↔ B)
    → ((sight_problems (s ++ t) ≡ []) ↔ (A × B))
sights_both s t a b =
    let parts = append-empty (sight_problems s) (sight_problems t) in
    (
      (λ h. let (x, y) = parts.0 (sym (sights-append s t) ∙ h) in (a.0 x, b.0 y)),
      (λ h. sights-append s t ∙ parts.1 (a.1 h.0, b.1 h.1)),
    )

nothing-empty : (sight_problems [] ≡ []) ↔ Unit {0}
unfolding sight_problems
nothing-empty = (λ h. tt, λ h. refl)

IsKnown-empty : (o : Option String) → (sight_problems (seen_node o) ≡ []) ↔ IsKnown o
unfolding sight_problems
IsKnown-empty none = (λ h. tt, λ h. refl)
IsKnown-empty (some t) = (λ h. ground arith, λ h. rw h refl)

depth-empty : (d : ℕ) → (sight_problems (at_depth d ∷ []) ≡ []) ↔ (d ≤ 25)
unfolding sight_problems
depth-empty d = (λ h. ground arith, λ h. ground arith)

-- Nothing is complained of exactly where everything can be rendered.
mutual
  unfolding walk_nodes IsRendered

  walk-empty : (d : ℕ) (j : Json) → (sight_problems (walk_nodes d j) ≡ []) ↔ IsRendered d j
  walk-empty d null = nothing-empty
  walk-empty d (boolean b) = nothing-empty
  walk-empty d (number n) = nothing-empty
  walk-empty d (string s) = nothing-empty
  walk-empty d (array xs) =
      sights_both (at_depth d ∷ []) (walk_items (suc d) xs) (depth-empty d)
        (walk_items-empty (suc d) xs)
  walk-empty d (object fs) =
      sights_both (at_depth d ∷ []) (seen_node (node_type fs) ++ walk_fields (suc d) fs)
        (depth-empty d)
        (sights_both (seen_node (node_type fs)) (walk_fields (suc d) fs)
          (IsKnown-empty (node_type fs)) (walk_fields-empty (suc d) fs))

  walk_items-empty :
      (d : ℕ) (xs : Items) → (sight_problems (walk_items d xs) ≡ []) ↔ AreRendered d xs
  walk_items-empty d nil = nothing-empty
  walk_items-empty d (cons x xs) =
      sights_both (walk_nodes d x) (walk_items d xs) (walk-empty d x) (walk_items-empty d xs)

  walk_fields-empty :
      (d : ℕ) (fs : Fields) → (sight_problems (walk_fields d fs) ≡ []) ↔ FieldsRendered d fs
  walk_fields-empty d end = nothing-empty
  walk_fields-empty d (field k v fs) = elim (Bool-cases (is_non_node_key k)) [
    | inl b ↦
        let rest = walk_fields-empty d fs in rw b (λ h. ((λ e. cc), rest.0 h), λ h. rest.1 h.1)
    | inr b ↦
        let both =
          sights_both (walk_nodes d v) (walk_fields d fs) (walk-empty d v)
            (walk_fields-empty d fs) in
        rw b (λ h. let (x, y) = both.0 h in ((λ e. x), y), λ h. both.1 (h.0 refl, h.1))
  ]

pub screens-empty :
    (ss : List Json) → (sight_problems (walk_screens ss) ≡ []) ↔ All (IsRendered 0) ss
unfolding walk_screens
screens-empty [] = nothing-empty
screens-empty (s ∷ ss) =
    sights_both (walk_nodes 0 s) (walk_screens ss) (walk-empty 0 s) (screens-empty ss)

-- The nodes of all screens.
abbrev pub count_all : List Json → ℕ
count_all [] = 0
count_all (s ∷ ss) = count_nodes s + count_all ss

pub nodes-screens : (ss : List Json) → nodes_in (walk_screens ss) ≡ count_all ss
unfolding walk_screens nodes_in
nodes-screens [] = refl
nodes-screens (s ∷ ss) =
    omega (arith, nodes-append (walk_nodes 0 s) (walk_screens ss), nodes-walk 0 s, nodes-screens ss)
