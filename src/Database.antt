-- ===== src/Database.antt =====
-- The database client (prisma.service.ts extends the third-party PrismaClient): a parameter.
use duka_backend.Prelude.{
  Bool, List, Option, [], any, change, change_key, count, first, greatest, if◌then◌else◌, is_some,
  least, lookup, none, not, refl, select, some, subst, sym, ℕ, ◌++◌, ◌∷◌, ◌≡◌,
}

-- The calls of a model's delegate that the services make. A table is the list of its rows, in the
-- order in which the database returns them; `where` is a test of a row, or a unique key, `data` a
-- change of a row, and `orderBy` a measure.
pub record Database : Type 1 where
  pub find_unique : (A : Type 0) → (A → ℕ) → ℕ → List A → Option A
  pub find_first : (A : Type 0) → (A → Bool) → List A → Option A
  pub find_last : (A : Type 0) → (A → Bool) → (A → ℕ) → List A → Option A
  pub find_next : (A : Type 0) → (A → Bool) → (A → ℕ) → List A → Option A
  pub find_many : (A : Type 0) → (A → Bool) → List A → List A
  pub count_rows : (A : Type 0) → (A → Bool) → List A → ℕ
  pub create : (A : Type 0) → A → List A → List A
  pub create_unique : (A : Type 0) → (A → Bool) → A → List A → Option (List A)
  pub update : (A : Type 0) → (A → ℕ) → ℕ → (A → A) → List A → Option (List A)
  pub update_many : (A : Type 0) → (A → Bool) → (A → A) → List A → List A
  pub delete_many : (A : Type 0) → (A → Bool) → List A → List A

-- The first of the rows with a key is changed; `none` where no row has it.
abbrev pub update_key : (A : Type 0) → (A → ℕ) → ℕ → (A → A) → List A → Option (List A)
update_key A key k f l = if is_some (lookup key k l) then some (change_key key k f l) else none

pub update_key-found :
    (A : Type 0) (key : A → ℕ) (k : ℕ) (f : A → A) (l : List A) (r : A)
    → lookup key k l ≡ some r
    → update_key A key k f l ≡ some (change_key key k f l)
update_key-found A key k f l r e = rw e refl

-- `none` (P2002) where a row clashes with the new one under a unique constraint.
abbrev pub insert_unique : (A : Type 0) → (A → Bool) → A → List A → Option (List A)
insert_unique A clash x l = if any clash l then none else some (l ++ x ∷ [])

-- The client's documented behaviour.
pub record IsDatabase (db : Database) : Type 1 where
  pub find_unique_lem :
      (A : Type 0) (key : A → ℕ) (k : ℕ) (l : List A) → db.find_unique A key k l ≡ lookup key k l
  pub find_first_lem : (A : Type 0) (p : A → Bool) (l : List A) → db.find_first A p l ≡ first p l
  pub find_last_lem :
      (A : Type 0) (p : A → Bool) (m : A → ℕ) (l : List A) → db.find_last A p m l ≡ greatest p m l
  pub find_next_lem :
      (A : Type 0) (p : A → Bool) (m : A → ℕ) (l : List A) → db.find_next A p m l ≡ least p m l
  pub find_many_lem : (A : Type 0) (p : A → Bool) (l : List A) → db.find_many A p l ≡ select p l
  pub count_rows_lem : (A : Type 0) (p : A → Bool) (l : List A) → db.count_rows A p l ≡ count p l
  pub create_lem : (A : Type 0) (x : A) (l : List A) → db.create A x l ≡ l ++ x ∷ []
  pub create_unique_lem :
      (A : Type 0) (clash : A → Bool) (x : A) (l : List A)
      → db.create_unique A clash x l ≡ insert_unique A clash x l
  pub update_lem :
      (A : Type 0) (key : A → ℕ) (k : ℕ) (f : A → A) (l : List A)
      → db.update A key k f l ≡ update_key A key k f l
  pub update_many_lem :
      (A : Type 0) (p : A → Bool) (f : A → A) (l : List A) → db.update_many A p f l ≡ change p f l
  pub delete_many_lem :
      (A : Type 0) (p : A → Bool) (l : List A) → db.delete_many A p l ≡ select (λ x. not (p x)) l

-- A client that behaves so.
abbrev pub lists : Database
lists = record {
  find_unique = λ A key k l. lookup key k l;
  find_first = λ A p l. first p l;
  find_last = λ A p m l. greatest p m l;
  find_next = λ A p m l. least p m l;
  find_many = λ A p l. select p l;
  count_rows = λ A p l. count p l;
  create = λ A x l. l ++ x ∷ [];
  create_unique = insert_unique;
  update = update_key;
  update_many = λ A p f l. change p f l;
  delete_many = λ A p l. select (λ x. not (p x)) l;
}

pub lists-IsDatabase : IsDatabase lists
lists-IsDatabase = record {
  find_unique_lem = λ A key k l. refl;
  find_first_lem = λ A p l. refl;
  find_last_lem = λ A p m l. refl;
  find_next_lem = λ A p m l. refl;
  find_many_lem = λ A p l. refl;
  count_rows_lem = λ A p l. refl;
  create_lem = λ A x l. refl;
  create_unique_lem = λ A clash x l. refl;
  update_lem = λ A key k f l. refl;
  update_many_lem = λ A p f l. refl;
  delete_many_lem = λ A p l. refl;
}

-- Every client that behaves as documented is this one, so a theorem is proved there.
lists_unique : (db : Database) → IsDatabase db → lists ≡ db
lists_unique db d = λ i. record {
  find_unique = λ A key k l. sym (d.find_unique_lem A key k l) i;
  find_first = λ A p l. sym (d.find_first_lem A p l) i;
  find_last = λ A p m l. sym (d.find_last_lem A p m l) i;
  find_next = λ A p m l. sym (d.find_next_lem A p m l) i;
  find_many = λ A p l. sym (d.find_many_lem A p l) i;
  count_rows = λ A p l. sym (d.count_rows_lem A p l) i;
  create = λ A x l. sym (d.create_lem A x l) i;
  create_unique = λ A clash x l. sym (d.create_unique_lem A clash x l) i;
  update = λ A key k f l. sym (d.update_lem A key k f l) i;
  update_many = λ A p f l. sym (d.update_many_lem A p f l) i;
  delete_many = λ A p l. sym (d.delete_many_lem A p l) i;
}

pub transfer {ℓ} : (P : Database → Type ℓ) {db : Database} → IsDatabase db → P lists → P db
transfer P {db} d h = subst P (lists_unique db d) h
