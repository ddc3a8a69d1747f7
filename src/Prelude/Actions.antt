-- ===== src/Prelude/Actions.antt =====
-- A request: it reads and writes a state and returns a value or throws. What was written before a
-- throw stays written.
use mathlib.Core.Path.{◌≡◌, refl, sym, subst}
use mathlib.Core.Bool.{Bool}
use mathlib.Core.Logic.{◌⊎◌, inl, inr}
use mathlib.Core.Option.{Option, none, some}
use Prim.Native.String.{String}
use duka_backend.Prelude.Tests.{if◌then◌else◌}

-- The error codes of the database client.
pub data DbError : Type 0 where
  p2025 p2002 p2022 : DbError

-- The exceptions of @nestjs/common that the services throw, with their text or code, and the
-- database client's.
pub data Error : Type 0 where
  not_found bad_request forbidden conflict unprocessable too_many_requests : String → Error
  unauthorized unavailable : String → Error
  database : DbError → Error

pub data Result {ℓ} (A : Type ℓ) : Type ℓ where
  ok : A → Result A
  err : Error → Result A

abbrev pub Action : Type 0 → Type 0 → Type 0
Action S A = S → Result A × S

module _ {S A : Type 0} where
  abbrev pub pure : A → Action S A
  pure a s = (ok a, s)

  abbrev pub throw : Error → Action S A
  throw e s = (err e, s)

  abbrev pub gets : (S → A) → Action S A
  gets f s = (ok (f s), s)

  abbrev pub or_throw : Option A → Error → Action S A
  or_throw none e = throw e
  or_throw (some a) e = pure a

abbrev pub modify : {S : Type 0} → (S → S) → Action S (Unit {0})
modify f s = (ok tt, f s)

abbrev pub throw_if : {S : Type 0} → Bool → Error → Action S (Unit {0})
throw_if b e s = (if b then err e else ok tt, s)

infixl 5 ◌>>=◌ ◌>>◌
abbrev pub ◌>>=◌ : {S A B : Type 0} → Action S A → (A → Action S B) → Action S B
◌>>=◌ m f s = let (r, s') = m s in elim r [ ok a ↦ f a s' | err e ↦ (err e, s') ]

abbrev pub ◌>>◌ : {S B : Type 0} → Action S (Unit {0}) → Action S B → Action S B
m >> k = m >>= λ _. k

-- `when b m` is `if (b) m`.
abbrev pub when : {S : Type 0} → Bool → Action S (Unit {0}) → Action S (Unit {0})
when b m s = if b then m s else (ok tt, s)

pub Result-cases {ℓ} :
    {A : Type ℓ} (r : Result A) → ((a : A) × (r ≡ ok a)) ⊎ ((x : Error) × (r ≡ err x))
Result-cases (ok a) = inl (a, refl)
Result-cases (err x) = inr (x, refl)

-- What holds where the first part throws, and after each way to go on, holds after both.
pub >>=-holds {ℓ} :
    {S A B : Type 0} (P : S → Type ℓ) (m : Action S A) (f : A → Action S B) (s : S)
    → ((x : Error) → (m s).0 ≡ err x → P (m s).1)
    → ((a : A) → (m s).0 ≡ ok a → P (f a (m s).1).1)
    → P ((m >>= f) s).1
>>=-holds {S} {A} {B} P m f s h k = go (m s) h k
  where
    go :
        (r : Result A × S)
        → ((x : Error) → r.0 ≡ err x → P r.1)
        → ((a : A) → r.0 ≡ ok a → P (f a r.1).1)
        → P
            (let (x, s') = r in
              elim x as (λ _. Result B × S) [ ok a ↦ f a s' | err e ↦ (err e, s') ]).1
    go (ok a, s') h k = k a refl
    go (err e, s') h k = h e refl

-- The first part only reads.
pub >>=-reads {ℓ} :
    {S A B : Type 0} (P : S → Type ℓ) (m : Action S A) (f : A → Action S B) (s : S)
    → (m s).1 ≡ s
    → P s
    → ((a : A) → (m s).0 ≡ ok a → P (f a s).1)
    → P ((m >>= f) s).1
>>=-reads P m f s e h k =
    >>=-holds P m f s (λ _ _. subst P (sym e) h) (λ a r. subst (λ x. P (f a x).1) (sym e) (k a r))

pub or_throw-state :
    {S A : Type 0} (o : Option A) (e : Error) (s : S) → (or_throw {S = S} o e s).1 ≡ s
or_throw-state none e s = refl
or_throw-state (some a) e s = refl

pub or_throw-eq-ok :
    {S A : Type 0} (o : Option A) (e : Error) (s : S) (a : A)
    → (or_throw {S = S} o e s).0 ≡ ok a
    → o ≡ some a
or_throw-eq-ok none e s a h = cc
or_throw-eq-ok (some b) e s a h = cc

pub >>=-ok :
    {S A B : Type 0} (m : Action S A) (f : A → Action S B) (s : S) (a : A) (s' : S)
    → m s ≡ (ok a, s')
    → (m >>= f) s ≡ f a s'
>>=-ok {S} {A} {B} m f s a s' e =
    subst
      (λ p.
        (let (r, t) = p in elim r as (λ _. Result B × S) [ ok b ↦ f b t | err x ↦ (err x, t) ])
        ≡ f a s')
      (sym e) refl

-- What holds after every success of the second part holds after a success of both.
pub >>=-ends {ℓ} :
    {S A B : Type 0} (P : S → Type ℓ) (m : Action S A) (f : A → Action S B) (s : S) (b : B)
    → ((m >>= f) s).0 ≡ ok b
    → ((a : A) (t : S) → (f a t).0 ≡ ok b → P (f a t).1)
    → P ((m >>= f) s).1
>>=-ends {S} {A} {B} P m f s b e h = go (m s) e
  where
    go :
        (r : Result A × S)
        → (let (x, s') = r in
            elim x as (λ _. Result B × S) [ ok a ↦ f a s' | err e ↦ (err e, s') ]).0
          ≡ ok b
        → P
            (let (x, s') = r in
              elim x as (λ _. Result B × S) [ ok a ↦ f a s' | err e ↦ (err e, s') ]).1
    go (ok a, s') e = h a s' e
    go (err x, s') e = cc

-- `m.catch(() => undefined)`
abbrev pub attempt : {S : Type 0} → Action S (Unit {0}) → Action S (Unit {0})
attempt m s = (ok tt, (m s).1)

-- A transaction: nothing of it stays where it throws.
abbrev pub transaction : {S A : Type 0} → Action S A → Action S A
transaction m s = let (r, s') = m s in elim r [ ok a ↦ (ok a, s') | err e ↦ (err e, s) ]

abbrev pub lift : {S A : Type 0} → Result A → Action S A
lift r s = (r, s)

-- A request on a part of the state.
abbrev pub within : {S T A : Type 0} → (S → T) → (T → S → S) → Action T A → Action S A
within read write m s = let (r, t) = m (read s) in (r, write t s)
