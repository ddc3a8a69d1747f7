-- ===== src/Commerce/Orders/Defaults.antt =====
-- A tenant's default tax rule.

use duka_backend.Database.{Database, IsDatabase, lists, transfer}
use duka_backend.Prelude.{
  Bool, List, Option, Option-cases, [], arith, change, change_key, count, false, if◌then◌else◌, inl,
  inr, lookup, none, not, or_else, refl, select, some, subst, sym, true, ℕ, ◌&&◌, ◌++◌, ◌+◌, ◌==◌,
  ◌∷◌, ◌≡◌, ◌≢◌, ◌≤◌, ◌⊎◌,
}
use native.Mathlib.Decide.{ℕ_discrete}
use duka_backend.Commerce.Orders.{
  TaxBody, TaxRule, clear_default, create_tax_rule, delete_tax_rule, update_tax_rule,
}

abbrev pub is_default_of : ℕ → TaxRule → Bool
is_default_of t r = r.tenant_id == t && r.is_default

-- No tenant has two default rules.
pub record HasOneDefault (l : List TaxRule) : Type 0 where
  pub one : (t : ℕ) → count (is_default_of t) l ≤ 1

count-append {ℓ} :
    {A : Type ℓ} (p : A → Bool) (l : List A) (x : A)
    → count p (l ++ x ∷ []) ≡ count p l + (if p x then 1 else 0)
count-append p [] x = ground arith
count-append p (y ∷ l) x = ground (arith, count-append p l x)

abbrev other_default : ℕ → ℕ → TaxRule → Bool
other_default u k r = r.tenant_id == u && r.is_default && not (r.id == k)

module _ (t : ℕ) where
  count-clear :
      (u : ℕ) (l : List TaxRule)
      → count (is_default_of t) (change (is_default_of u) clear_default l)
        ≡ (if t == u then 0 else count (is_default_of t) l)
  count-clear u [] = ground arith
  count-clear u (x ∷ l) = ground (arith, count-clear u l)

  -- The other defaults cleared, what is left are rows with the id.
  count_others :
      (k : ℕ) (l : List TaxRule)
      → count (is_default_of t) (change (other_default t k) clear_default l)
        ≤ count (λ r. r.id == k) l
  count_others k [] = omega arith
  count_others k (x ∷ l) = ground (arith, count_others k l)

  count-other_clear :
      (u k : ℕ) (l : List TaxRule)
      → u ≢ t
      → count (is_default_of t) (change (other_default u k) clear_default l)
        ≡ count (is_default_of t) l
  count-other_clear u k [] ne = refl
  count-other_clear u k (x ∷ l) ne = ground (arith, count-other_clear u k l)

  -- With the tenant's other defaults cleared and one row made the default, the defaults are among
  -- the rows with its id.
  count-set_own :
      (k : ℕ) (l : List TaxRule)
      → count (is_default_of t) (
          change_key
            (λ r. r.id)
            k
            (λ r. record r { is_default = true })
            (change (other_default t k) clear_default l))
        ≤ count (λ r. r.id == k) l
  count-set_own k [] = omega arith
  count-set_own k (x ∷ l) = ground (arith, count-set_own k l, count_others k l)

  count-set_other :
      (u k : ℕ) (l : List TaxRule) (r : TaxRule)
      → lookup (λ r. r.id) k l ≡ some r
      → r.tenant_id ≡ u
      → u ≢ t
      → count (is_default_of t) (
          change_key
            (λ r. r.id)
            k
            (λ r. record r { is_default = true })
            (change (other_default u k) clear_default l))
        ≡ count (is_default_of t) l
  count-set_other u k [] r e m ne = refl
  count-set_other u k (x ∷ l) r e m ne =
      ground (arith, count-set_other u k l r, count-other_clear u k l)

  count-keep :
      (k : ℕ) (b : Option Bool) (l : List TaxRule)
      → or_else b false ≡ false
      → count
          (is_default_of t)
          (change_key (λ r. r.id) k (λ r. record r { is_default = or_else b r.is_default }) l)
        ≤ count (is_default_of t) l
  count-keep k b [] h = omega arith
  count-keep k b (x ∷ l) h = ground (arith, count-keep k b l h)

  count-select :
      (p : TaxRule → Bool) (l : List TaxRule)
      → count (is_default_of t) (select p l) ≤ count (is_default_of t) l
  count-select p [] = omega arith
  count-select p (x ∷ l) = ground (arith, count-select p l)

-- A body that names no tenant.
abbrev pub plain : Option Bool → TaxBody
plain b = record { tenant_id = none; is_default = b }

created-HasOneDefault :
    (fresh u : ℕ) (b : Option Bool) (l : List TaxRule)
    → HasOneDefault l
    → HasOneDefault (create_tax_rule lists fresh u (plain b) l).1
unfolding create_tax_rule
created-HasOneDefault fresh u (some true) l h = record {
  one = λ t. ground (
    arith,
    count-append (is_default_of t) (change (is_default_of u) clear_default l)
        (record { id = fresh; tenant_id = u; is_default = true }),
    count-clear t u l,
    h.one t,
  );
}
created-HasOneDefault fresh u (some false) l h = record {
  one = λ t. ground (
    arith,
    count-append (is_default_of t) l (record { id = fresh; tenant_id = u; is_default = false }),
    h.one t,
  );
}
created-HasOneDefault fresh u none l h = record {
  one = λ t. ground (
    arith,
    count-append (is_default_of t) l (record { id = fresh; tenant_id = u; is_default = false }),
    h.one t,
  );
}

module _ (k : ℕ) (l : List TaxRule) (r : TaxRule) (e : lookup (λ x. x.id) k l ≡ some r) where
  lookup-clear :
      (u : ℕ) → lookup (λ x. x.id) k (change (other_default u k) clear_default l) ≡ some r
  lookup-clear u = go l e
    where
      go :
          (m : List TaxRule)
          → lookup (λ x. x.id) k m ≡ some r
          → lookup (λ x. x.id) k (change (other_default u k) clear_default m) ≡ some r
      go [] e = e
      go (x ∷ m) e = ground (arith, go m)

  found-HasOneDefault :
      (b : Option Bool)
      → ((j : ℕ) → count (λ x. x.id == j) l ≤ 1)
      → HasOneDefault l
      → HasOneDefault (update_tax_rule lists k (plain b) l).1
  unfolding update_tax_rule
  found-HasOneDefault (some true) keyed h = record {
    one = λ t. elim (ℕ_discrete r.tenant_id t) [
      | yes same_t ↦ ground (arith, lookup-clear r.tenant_id, count-set_own t k l, keyed k)
      | no other_t ↦ ground (
        arith,
        lookup-clear r.tenant_id,
        count-set_other t r.tenant_id k l r e refl other_t,
        h.one t,
      )
    ];
  }
  found-HasOneDefault (some false) keyed h = record {
    one = λ t. ground (arith, count-keep t k (some false) l refl, h.one t);
  }
  found-HasOneDefault none keyed h = record {
    one = λ t. ground (arith, count-keep t k none l refl, h.one t);
  }

-- The three operations that write the rules.
pub data TaxRequest : Type 0 where
  create : (fresh tenant_id : ℕ) → TaxBody → TaxRequest
  update : ℕ → TaxBody → TaxRequest
  delete : ℕ → TaxRequest

abbrev pub serve : Database → TaxRequest → List TaxRule → List TaxRule
serve db (create fresh u b) l = (create_tax_rule db fresh u b l).1
serve db (update k b) l = (update_tax_rule db k b l).1
serve db (delete k) l = (delete_tax_rule db k l).1

-- The tenant that a request's body names.
abbrev pub named_tenant : TaxRequest → Option ℕ
named_tenant (create fresh u b) = b.tenant_id
named_tenant (update k b) = b.tenant_id
named_tenant (delete k) = none

module _ (k : ℕ) (l : List TaxRule) where
  update-state : (b : TaxBody) → lookup (λ x. x.id) k l ≡ none → (update_tax_rule lists k b l).1 ≡ l
  unfolding update_tax_rule
  update-state b e = ground arith

  delete-state :
      (delete_tax_rule lists k l).1 ≡ l
      ⊎ ((r : TaxRule) × ((delete_tax_rule lists k l).1 ≡ select (λ x. not (x.id == r.id)) l))
  unfolding delete_tax_rule
  delete-state = elim (Option-cases (lookup (λ x. x.id) k l)) [
    | inl e ↦ inl (ground arith)
    | inr (r, e) ↦ inr (r, ground arith)
  ]

served-HasOneDefault :
    (q : TaxRequest) (l : List TaxRule)
    → named_tenant q ≡ none
    → ((j : ℕ) → count (λ (x : TaxRule). x.id == j) l ≤ 1)
    → HasOneDefault l
    → HasOneDefault (serve lists q l)
served-HasOneDefault (create fresh u b) l n keyed h =
    subst (λ o. HasOneDefault (create_tax_rule lists fresh u (record b { tenant_id = o }) l).1)
      (sym n) (created-HasOneDefault fresh u b.is_default l h)
served-HasOneDefault (update k b) l n keyed h = elim (Option-cases (lookup (λ x. x.id) k l)) [
  | inl e ↦ subst HasOneDefault (sym (update-state k l b e)) h
  | inr (r, e) ↦
      subst (λ o. HasOneDefault (update_tax_rule lists k (record b { tenant_id = o }) l).1) (sym n)
        (found-HasOneDefault k l r e b.is_default keyed h)
]
served-HasOneDefault (delete k) l n keyed h = elim (delete-state k l) [
  | inl e ↦ subst HasOneDefault (sym e) h
  | inr (r, e) ↦
      subst HasOneDefault (sym e)
        (record { one = λ t. ground (arith, count-select t (λ x. not (x.id == r.id)) l, h.one t) })
]

-- Where the rules' ids are unique and no tenant has two default rules, no tenant has two after a
-- call of `createTaxRule`, `updateTaxRule` or `deleteTaxRule` whose body names no tenant, whether it
-- succeeds or throws.
pub tax_rules_keep_one_default :
    (db : Database) (d : IsDatabase db) (q : TaxRequest) (l : List TaxRule)
    → named_tenant q ≡ none
    → ((j : ℕ) → count (λ (x : TaxRule). x.id == j) l ≤ 1)
    → HasOneDefault l
    → HasOneDefault (serve db q l)
tax_rules_keep_one_default db d q l n keyed h =
    transfer (λ c. HasOneDefault (serve c q l)) d (served-HasOneDefault q l n keyed h)
