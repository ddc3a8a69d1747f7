-- ===== src/Commerce/Inventory/Balance.antt =====
-- Reserved stock against the active reservations, for the operations of Commerce.Inventory.
pub mod Steps
use duka_backend.Prelude.{
  Bool, List, Option, [], change_key, false, if◌then◌else◌, lookup, map_option, none, some, ℕ, ◌&&◌,
  ◌++◌, ◌==◌, ◌∷◌, ◌≡◌,
}
use duka_backend.Prelude.Int.{int_laws, pos, ℤ, ◌+ℤ◌}
use duka_backend.Commerce.Inventory.{InventoryReservation, Shop, is_active}

-- The row whose stock a reservation holds.
pub data Target : Type 0 where
  of_product of_variant : ℕ → Target

abbrev pub target : InventoryReservation → Target
target r = elim r.variant_id [ some v ↦ of_variant v | none ↦ of_product r.product_id ]

abbrev pub is_target : Target → Target → Bool
is_target (of_product j) (of_product k) = j == k
is_target (of_variant j) (of_variant k) = j == k
is_target _ _ = false

-- What one reservation holds of a target.
unfoldable pub share : Target → InventoryReservation → ℤ
share t r = if is_active r.status && is_target (target r) t then r.quantity else pos 0

-- What all active reservations together hold of a target.
unfoldable pub held : Target → List InventoryReservation → ℤ
held t [] = pos 0
held t (r ∷ rs) = share t r +ℤ held t rs

abbrev pub reserved_of : Target → Shop → Option ℤ
reserved_of (of_product k) s = map_option (λ p. p.reserved_stock) (lookup (λ p. p.id) k s.products)
reserved_of (of_variant k) s = map_option (λ v. v.reserved_stock) (lookup (λ v. v.id) k s.variants)

-- Every row's reserved stock is what its active reservations hold.
pub record IsBalanced (s : Shop) : Type 0 where
  pub balance : (t : Target) (n : ℤ) → reserved_of t s ≡ some n → n ≡ held t s.reservations

pub held-append :
    (t : Target) (rs : List InventoryReservation) (r : InventoryReservation)
    → held t (rs ++ r ∷ []) ≡ held t rs +ℤ share t r
unfolding held
held-append t [] r = omega int_laws
held-append t (x ∷ rs) r = rw (held-append t rs r) (omega int_laws)

pub held-change_key :
    (t : Target) (k : ℕ) (f : InventoryReservation → InventoryReservation)
    (rs : List InventoryReservation) (r : InventoryReservation)
    → lookup (λ x. x.id) k rs ≡ some r
    → held t (change_key (λ x. x.id) k f rs) +ℤ share t r ≡ held t rs +ℤ share t (f r)
unfolding held
held-change_key t k f [] r h = cc
held-change_key t k f (x ∷ rs) r h = grind (int_laws, held-change_key t k f rs r)
