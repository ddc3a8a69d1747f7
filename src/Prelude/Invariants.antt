-- ===== src/Prelude/Invariants.antt =====
-- Invariants of requests: one rule for each way to put a request together.
use mathlib.Core.Bool.{Bool, true, false}
use mathlib.Core.Option.{Option, none, some}
use duka_backend.Prelude.Actions.{
  >>=-holds, Action, Error, Result, attempt, err, gets, lift, modify, ok, or_throw, pure, throw,
  throw_if, transaction, when, ◌>>=◌,
}
use duka_backend.Prelude.Tests.{if◌then◌else◌}

-- A request that starts where `P` holds ends where `P` holds, whether it returns or throws.
pub record Preserves {S A : Type 0} (P : S → Type 0) (m : Action S A) : Type 0 where
  pub at : (s : S) → P s → P (m s).1

module _ {S : Type 0} {P : S → Type 0} where
  pub Preserves-throw_if : (b : Bool) (e : Error) → Preserves P (throw_if b e)
  Preserves-throw_if b e = record { at = λ s h. h }

  pub Preserves-modify : (f : S → S) → ((s : S) → P s → P (f s)) → Preserves P (modify f)
  Preserves-modify f h = record { at = h }

  pub Preserves-attempt : (m : Action S (Unit {0})) → Preserves P m → Preserves P (attempt m)
  Preserves-attempt m h = record { at = h.at }

  pub Preserves-when : (b : Bool) (m : Action S (Unit {0})) → Preserves P m → Preserves P (when b m)
  Preserves-when true m h = h
  Preserves-when false m h = record { at = λ s k. k }

module _ {S A : Type 0} {P : S → Type 0} where
  pub Preserves-pure : (a : A) → Preserves P (pure a)
  Preserves-pure a = record { at = λ s h. h }

  pub Preserves-throw : (e : Error) → Preserves P (throw {A = A} e)
  Preserves-throw e = record { at = λ s h. h }

  pub Preserves-read : (f : S → A) → Preserves P (gets f)
  Preserves-read f = record { at = λ s h. h }

  pub Preserves-lift : (r : Result A) → Preserves P (lift r)
  Preserves-lift r = record { at = λ s h. h }

  pub Preserves-or_throw : (o : Option A) (e : Error) → Preserves P (or_throw o e)
  Preserves-or_throw none e = record { at = λ s h. h }
  Preserves-or_throw (some a) e = record { at = λ s h. h }

  pub Preserves-if :
      (b : Bool) (m n : Action S A)
      → Preserves P m
      → Preserves P n
      → Preserves P (if b then m else n)
  Preserves-if true m n h k = h
  Preserves-if false m n h k = k

  pub Preserves-transaction : (m : Action S A) → Preserves P m → Preserves P (transaction m)
  Preserves-transaction m h = record { at = λ s k. go s (m s) k (h.at s k) }
    where
      go :
          (s : S) (r : Result A × S)
          → P s
          → P r.1
          → P (elim r.0 as (λ _. Result A × S) [ ok a ↦ (ok a, r.1) | err e ↦ (err e, s) ]).1
      go s (ok a, s') k l = l
      go s (err e, s') k l = k

module _ {S A B : Type 0} {P : S → Type 0} where
  pub Preserves-gets :
      (f : S → A) (k : A → Action S B)
      → ((s : S) → Preserves P (k (f s)))
      → Preserves P (gets f >>= k)
  Preserves-gets f k h = record { at = λ s p. (h s).at s p }

  pub Preserves-bind :
      (m : Action S A) (f : A → Action S B)
      → Preserves P m
      → ((a : A) → Preserves P (f a))
      → Preserves P (m >>= f)
  Preserves-bind m f h k = record {
    at = λ s p. >>=-holds P m f s (λ _ _. h.at s p) (λ a _. (k a).at (m s).1 (h.at s p));
  }

pub ruleset preserves_rules = (
  Preserves-throw_if, Preserves-when, Preserves-pure, Preserves-throw, Preserves-lift,
  Preserves-or_throw, Preserves-read, Preserves-attempt, Preserves-if, Preserves-transaction,
  Preserves-gets, Preserves-bind,
)
