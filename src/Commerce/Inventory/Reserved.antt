-- ===== src/Commerce/Inventory/Reserved.antt =====
-- The reservations of Commerce.Inventory under any client that behaves as documented.
use duka_backend.Prelude.{Option, false, lookup, some, ℕ, ◌≡◌, ◌≢◌}
use duka_backend.Prelude.Int.{pos, ℤ}
use duka_backend.Database.{Database, IsDatabase, transfer}
use duka_backend.Commerce.Inventory.{
  InventoryReservation, Shop, active, confirm_reservation, is_active, release_reservation,
  reserve_inventory,
}
use duka_backend.Commerce.Inventory.Balance.{IsBalanced, reserved_of, target}
use duka_backend.Commerce.Inventory.Balance.Steps

module _ (db : Database) (d : IsDatabase db) where
  -- If every row's reserved stock is what its active reservations hold, then so it is after a call
  -- of `reserveInventory`, with any arguments, whether it succeeds or throws.
  pub reserve_keeps_balance :
      (fresh now p : ℕ) (q : ℤ) (v session user : Option ℕ) (ttl : ℕ) (s : Shop)
      → IsBalanced s
      → IsBalanced (reserve_inventory db fresh now p q v session user ttl s).1
  reserve_keeps_balance fresh now p q v session user ttl s h =
      transfer (λ c. IsBalanced (reserve_inventory c fresh now p q v session user ttl s).1) d
        (Steps.reserve_inventory-IsBalanced fresh now p q v session user ttl s h)

  -- If every row's reserved stock is what its active reservations hold, then so it is after a call
  -- of `releaseReservation`, for an active, a closed and a missing reservation.
  pub release_keeps_balance :
      (k : ℕ) (s : Shop) → IsBalanced s → IsBalanced (release_reservation db k s).1
  release_keeps_balance k s h =
      transfer (λ c. IsBalanced (release_reservation c k s).1) d
        (Steps.release_reservation-IsBalanced k s h)

  -- If every row's reserved stock is what its active reservations hold, then so it is after a call
  -- of `confirmReservation` for a reservation that is found and active.
  pub confirm_keeps_balance :
      (k : ℕ) (s : Shop) (r : InventoryReservation)
      → lookup (λ x. x.id) k s.reservations ≡ some r
      → r.status ≡ active
      → IsBalanced s
      → IsBalanced (confirm_reservation db k s).1
  confirm_keeps_balance k s r e open_ h =
      transfer (λ c. IsBalanced (confirm_reservation c k s).1) d
        (Steps.confirm_reservation-IsBalanced k s r e open_ h)

  -- `confirmReservation` does not ask whether the reservation is active: where every row's reserved
  -- stock is what its active reservations hold, a call for a released or confirmed reservation of a
  -- quantity other than 0, whose stock row exists, leaves some row where it is not.
  pub confirm_again_breaks_balance :
      (k : ℕ) (s : Shop) (r : InventoryReservation) (m : ℤ)
      → lookup (λ x. x.id) k s.reservations ≡ some r
      → is_active r.status ≡ false
      → reserved_of (target r) s ≡ some m
      → r.quantity ≢ pos 0
      → IsBalanced s
      → ¬ IsBalanced (confirm_reservation db k s).1
  confirm_again_breaks_balance k s r m e closed found some_quantity h =
      transfer (λ c. ¬ IsBalanced (confirm_reservation c k s).1) d
        (Steps.confirm_reservation_again k s r m e closed found some_quantity h)
