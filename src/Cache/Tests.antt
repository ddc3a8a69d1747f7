-- ===== src/Cache/Tests.antt =====
-- A run of the store, and its theorem at it.

use duka_backend.Prelude.{List, [], arith, nat_eq, none, refl, some, ℕ, ◌∷◌, ◌≡◌}
use duka_backend.Cache.{del, find, get, increment, read, remove, set}
use duka_backend.Cache.Spec.{
  Command, ask, bump, done, drop, execute, executed, mock_store_refines, number, put, specify,
  value_of,
}

-- A value that lives for a second, read in time and too late; a counter.
abbrev commands : List (ℕ × Command ℕ ℕ)
commands =
    (0, put 7 42 (some 1))
    ∷ (1000, ask 7)
    ∷ (1001, ask 7)
    ∷ (1002, bump 8 none)
    ∷ (1003, bump 8 (some 5))
    ∷ (1004, drop 8)
    ∷ (1005, ask 8)
    ∷ []

store_run :
    execute ⦃q = nat_eq⦄ (λ v. v) (λ n. n) commands []
    ≡ done ∷ value_of (some 42) ∷ value_of none ∷ number 1 ∷ number 2 ∷ done ∷ value_of none ∷ []
unfolding execute executed get read set del increment find remove
store_run = refl

mock_store_refines_example :
    execute ⦃q = nat_eq⦄ (λ v. v) (λ n. n) commands []
    ≡ specify ⦃q = nat_eq⦄ (λ v. v) (λ n. n) commands (λ k. none)
mock_store_refines_example =
    mock_store_refines ⦃q = nat_eq⦄ (λ v. v) (λ n. n) 0 commands (omega arith)
