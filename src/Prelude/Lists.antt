-- ===== src/Prelude/Lists.antt =====
-- Lists of rows: search by a key or a test, selection, update in place, counting.
use Prim.Native.Nat.{ℕ, suc}
use mathlib.Core.Path.{◌≡◌, refl}
use mathlib.Core.Bool.{Bool, true, false, ◌&&◌, ◌||◌}
use mathlib.Core.Option.{Option, none, some}
use mathlib.Core.List.{List, [], ◌∷◌, ◌++◌}
use native.Mathlib.Omega.{arith}
use mathlib.Core.Path.{subst}
use mathlib.Core.Logic.{inl, inr}
use duka_backend.Prelude.Tests.{Bool-cases, Option-cases, if◌then◌else◌, ltb, map_option, ◌==◌}

module _ {ℓ} {A : Type ℓ} where
  abbrev pub length : List A → ℕ
  length [] = 0
  length (x ∷ xs) = suc (length xs)

  abbrev pub any : (A → Bool) → List A → Bool
  any p [] = false
  any p (x ∷ xs) = p x || any p xs

  abbrev pub all : (A → Bool) → List A → Bool
  all p [] = true
  all p (x ∷ xs) = p x && all p xs

  -- The rows that pass a test, in order.
  abbrev pub select : (A → Bool) → List A → List A
  select p [] = []
  select p (x ∷ xs) = let rest = select p xs in if p x then x ∷ rest else rest

  abbrev pub first : (A → Bool) → List A → Option A
  first p [] = none
  first p (x ∷ xs) = if p x then some x else first p xs

  abbrev pub count : (A → Bool) → List A → ℕ
  count p [] = 0
  count p (x ∷ xs) = let rest = count p xs in if p x then suc rest else rest

  -- Every row that passes the test is changed.
  abbrev pub change : (A → Bool) → (A → A) → List A → List A
  change p f [] = []
  change p f (x ∷ xs) = (if p x then f x else x) ∷ change p f xs

  -- The first row with the key is changed.
  abbrev pub change_key : (A → ℕ) → ℕ → (A → A) → List A → List A
  change_key key k f [] = []
  change_key key k f (x ∷ xs) = if key x == k then f x ∷ xs else x ∷ change_key key k f xs

  abbrev pub lookup : (A → ℕ) → ℕ → List A → Option A
  lookup key k [] = none
  lookup key k (x ∷ xs) = if key x == k then some x else lookup key k xs

  -- The passing row whose measure is greatest, the first of several.
  abbrev pub greater : (A → ℕ) → A → Option A → A
  greater m x none = x
  greater m x (some y) = if ltb (m x) (m y) then y else x

  abbrev pub greatest : (A → Bool) → (A → ℕ) → List A → Option A
  greatest p m [] = none
  greatest p m (x ∷ xs) =
      let rest = greatest p m xs in if p x then some (greater m x rest) else rest

  abbrev pub lesser : (A → ℕ) → A → Option A → A
  lesser m x none = x
  lesser m x (some y) = if ltb (m y) (m x) then y else x

  abbrev pub least : (A → Bool) → (A → ℕ) → List A → Option A
  least p m [] = none
  least p m (x ∷ xs) = let rest = least p m xs in if p x then some (lesser m x rest) else rest

  pub key-lookup : (key : A → ℕ) (k : ℕ) (l : List A) (x : A) → lookup key k l ≡ some x → key x ≡ k
  key-lookup key k [] x h = cc
  key-lookup key k (y ∷ l) x h = ground (arith, key-lookup key k l x)

  pub lookup-change_key :
      (key : A → ℕ) (k j : ℕ) (f : A → A) (l : List A)
      → ((x : A) → key (f x) ≡ key x)
      → lookup key j (change_key key k f l)
        ≡ (if k == j then map_option f (lookup key k l) else lookup key j l)
  lookup-change_key key k j f [] h = ground arith
  lookup-change_key key k j f (x ∷ l) h = ground (arith, h x, lookup-change_key key k j f l h)

module _ {ℓ κ} {A : Type ℓ} (P : A → Type κ) where
  abbrev pub All : List A → Type κ
  All [] = Unit
  All (x ∷ xs) = P x × All xs

  pub All-append : (xs ys : List A) → All xs → All ys → All (xs ++ ys)
  All-append [] ys h k = k
  All-append (x ∷ xs) ys h k = (h.0, All-append xs ys h.1 k)

  pub All-first : (p : A → Bool) (l : List A) (x : A) → All l → first p l ≡ some x → P x
  All-first p [] x h e = cc
  All-first p (y ∷ l) x h e = elim (Bool-cases (p y)) [
    | inl t ↦ let q : y ≡ x = ground arith in subst P q h.0
    | inr f ↦ All-first p l x h.1 (rw f at e)
  ]

  pub All-greatest :
      (p : A → Bool) (m : A → ℕ) (l : List A) (x : A) → All l → greatest p m l ≡ some x → P x
  All-greatest p m [] x h e = cc
  All-greatest p m (y ∷ l) x h e = elim (Option-cases (greatest p m l)) [
    | inl none_later ↦ elim (Bool-cases (p y)) [
      | inl t ↦ let q : y ≡ x = ground arith in subst P q h.0
      | inr f ↦ All-greatest p m l x h.1 (rw f at e)
    ]
    | inr (z, later) ↦ elim (Bool-cases (p y)) [
      | inl t ↦ elim (Bool-cases (ltb (m y) (m z))) [
        | inl less ↦ All-greatest p m l x h.1 (ground arith)
        | inr more ↦ let q : y ≡ x = ground arith in subst P q h.0
      ]
      | inr f ↦ All-greatest p m l x h.1 (rw f at e)
    ]
  ]

  pub All-change_key :
      (key : A → ℕ) (k : ℕ) (f : A → A) (l : List A) (r : A)
      → lookup key k l ≡ some r
      → P (f r)
      → All l
      → All (change_key key k f l)
  All-change_key key k f [] r e p h = h
  All-change_key key k f (x ∷ l) r e p h = elim (Bool-cases (key x == k)) [
    | inl t ↦ let q : r ≡ x = ground arith in rw t (subst (λ z. P (f z)) q p, h.1)
    | inr t ↦ rw t (h.0, All-change_key key k f l r (rw t at e) p h.1)
  ]

  pub All-lookup :
      (key : A → ℕ) (k : ℕ) (l : List A) (r : A) → All l → lookup key k l ≡ some r → P r
  All-lookup key k [] r h e = cc
  All-lookup key k (x ∷ l) r h e = elim (Bool-cases (key x == k)) [
    | inl t ↦ let q : x ≡ r = ground arith in subst P q h.0
    | inr t ↦ All-lookup key k l r h.1 (rw t at e)
  ]

module _ {ℓ κ} {A : Type ℓ} (P : A → Type κ) (p : A → Bool) (m : A → ℕ) where
  All-lesser : (x : A) (o : Option A) → P x → ((z : A) → o ≡ some z → P z) → P (lesser m x o)
  All-lesser x none h k = h
  All-lesser x (some y) h k = elim (Bool-cases (ltb (m y) (m x))) [
    | inl t ↦ rw t (k y refl)
    | inr t ↦ rw t h
  ]

  pub All-least : (l : List A) (x : A) → All P l → least p m l ≡ some x → P x
  All-least [] x h e = cc
  All-least (y ∷ l) x h e = elim (Bool-cases (p y)) [
    | inl t ↦
        let q : lesser m y (least p m l) ≡ x = ground arith in
        subst P q (All-lesser y (least p m l) h.0 (λ z k. All-least l z h.1 k))
    | inr f ↦ All-least l x h.1 (rw f at e)
  ]

module _ {ℓ} {A : Type ℓ} where
  pub first_passes : (p : A → Bool) (l : List A) (x : A) → first p l ≡ some x → p x ≡ true
  first_passes p [] x e = cc
  first_passes p (y ∷ l) x e = ground (arith, first_passes p l x)

  pub greatest_passes :
      (p : A → Bool) (m : A → ℕ) (l : List A) (x : A) → greatest p m l ≡ some x → p x ≡ true
  greatest_passes p m [] x e = cc
  greatest_passes p m (y ∷ l) x e = elim (Option-cases (greatest p m l)) [
    | inl e' ↦ ground arith
    | inr (z, e') ↦ ground (arith, greatest_passes p m l z)
  ]

  -- Every row is the one that its key finds.
  abbrev pub IsKeyed : (A → ℕ) → List A → Type ℓ
  IsKeyed key l = All (λ x. lookup key (key x) l ≡ some x) l

  pub all-change_key :
      (q : A → Bool) (key : A → ℕ) (k : ℕ) (f : A → A) (l : List A)
      → ((x : A) → key x ≡ k → q (f x) ≡ true)
      → all q l ≡ true
      → all q (change_key key k f l) ≡ true
  all-change_key q key k f [] h e = refl
  all-change_key q key k f (x ∷ l) h e = ground (arith, h x, all-change_key q key k f l h)

  pub least_passes :
      (p : A → Bool) (m : A → ℕ) (l : List A) (x : A) → least p m l ≡ some x → p x ≡ true
  least_passes p m [] x e = cc
  least_passes p m (y ∷ l) x e = elim (Option-cases (least p m l)) [
    | inl e' ↦ ground arith
    | inr (z, e') ↦ ground (arith, least_passes p m l z)
  ]

  pub least-none : (p : A → Bool) (m : A → ℕ) (l : List A) → least p m l ≡ none → count p l ≡ 0
  least-none p m [] e = refl
  least-none p m (y ∷ l) e = ground (arith, least-none p m l)

  -- A passing row that is changed to one that fails is one passing row less.
  pub count-change_key :
      (p : A → Bool) (key : A → ℕ) (k : ℕ) (f : A → A) (l : List A) (r : A)
      → lookup key k l ≡ some r
      → p r ≡ true
      → p (f r) ≡ false
      → suc (count p (change_key key k f l)) ≡ count p l
  count-change_key p key k f [] r e h h' = cc
  count-change_key p key k f (x ∷ l) r e h h' = elim (Bool-cases (key x == k)) [
    | inl t ↦ let q : x ≡ r = ground arith in ground (arith, q)
    | inr t ↦ ground (arith, count-change_key p key k f l r)
  ]
