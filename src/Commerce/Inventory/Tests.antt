-- ===== src/Commerce/Inventory/Tests.antt =====
-- Runs of Commerce.Inventory, and its theorems at concrete inputs.
use duka_backend.Prelude.{[], arith, bad_request, err, none, ok, refl, some, ◌∷◌, ◌≡◌, ◌⊎◌}
use duka_backend.Prelude.Int.{negsuc, pos, ℤ, ◌+ℤ◌, ◌-ℤ◌, ◌≤ℤ◌}
use duka_backend.Database.{lists, lists-IsDatabase}
use duka_backend.Commerce.Inventory.{
  InventoryReservation, Shop, active, adjust_stock, confirm_reservation, get_available_stock,
  give_back, hold, release_found, release_reservation, released, reserve_inventory, set_status,
  stock_info, update_stock,
}
use duka_backend.Commerce.Inventory.Balance.{
  IsBalanced, Target, held, of_product, of_variant, reserved_of, share,
}
use duka_backend.Commerce.Inventory.Reserved.{
  confirm_again_breaks_balance, confirm_keeps_balance, release_keeps_balance, reserve_keeps_balance,
}
use duka_backend.Commerce.Inventory.Available.{adjust_moves_stock, reserve_takes_available}

-- A reservation of two of variant 7 is active, one of product 1 is released.
abbrev of_variant_7 : InventoryReservation
of_variant_7 = record {
  id = 20;
  tenant_id = 1;
  product_id = 1;
  variant_id = some 7;
  quantity = pos 2;
  session_id = none;
  user_id = none;
  expires_at = 900;
  status = active;
}

abbrev of_product_1 : InventoryReservation
of_product_1 = record of_variant_7 {
  id = 21;
  variant_id = none;
  quantity = pos 3;
  status = released;
}

abbrev shop : Shop
shop = record {
  products = record { id = 1; tenant_id = 1; stock = pos 5; reserved_stock = pos 0 } ∷ [];
  variants = record { id = 7; product_id = 1; stock = pos 4; reserved_stock = pos 2 } ∷ [];
  reservations = of_variant_7 ∷ of_product_1 ∷ [];
}

shop-IsBalanced : IsBalanced shop
unfolding held share ◌+ℤ◌
shop-IsBalanced = record { balance = go }
  where
    go : (t : Target) (n : ℤ) → reserved_of t shop ≡ some n → n ≡ held t shop.reservations
    go (of_product k) n e = ground arith
    go (of_variant k) n e = ground arith

inventory : Unit {0}
unfolding reserve_inventory get_available_stock hold update_stock set_status give_back release_found
    release_reservation confirm_reservation adjust_stock ◌+ℤ◌ ◌-ℤ◌
inventory = tt

reserve_run :
    (reserve_inventory lists 22 1000 1 (pos 6) none none none 15 shop).0
    ≡ err (bad_request "Insufficient stock")
unfolding inventory
reserve_run = refl

release_run :
    (reserved_of (of_variant 7) (release_reservation lists 20 shop).1 ≡ some (pos 0))
    × ((release_reservation lists 21 shop).1 ≡ shop)
unfolding inventory
release_run = (refl, refl)

reserve_keeps_balance_example :
    IsBalanced (reserve_inventory lists 22 1000 1 (pos 2) (some 7) none none 15 shop).1
reserve_keeps_balance_example =
    reserve_keeps_balance lists lists-IsDatabase 22 1000 1 (pos 2) (some 7) none none 15 shop
      shop-IsBalanced

release_keeps_balance_example : IsBalanced (release_reservation lists 20 shop).1
release_keeps_balance_example = release_keeps_balance lists lists-IsDatabase 20 shop shop-IsBalanced

confirm_keeps_balance_example : IsBalanced (confirm_reservation lists 20 shop).1
confirm_keeps_balance_example =
    confirm_keeps_balance lists lists-IsDatabase 20 shop of_variant_7 refl refl shop-IsBalanced

confirm_again_breaks_balance_example : ¬ IsBalanced (confirm_reservation lists 21 shop).1
confirm_again_breaks_balance_example =
    confirm_again_breaks_balance lists lists-IsDatabase 21 shop of_product_1 (pos 0) refl refl refl
      (cc) shop-IsBalanced

variant_stock : (get_available_stock lists 1 (some 7) shop).0 ≡ ok (stock_info (pos 4) (pos 2))
unfolding inventory
variant_stock = refl

abbrev taken_from_7 : InventoryReservation
taken_from_7 = record of_variant_7 { id = 22; expires_at = 901000; quantity = pos 1 }

reserved_once :
    (reserve_inventory lists 22 1000 1 (pos 1) (some 7) none none 15 shop).0 ≡ ok taken_from_7
unfolding inventory
reserved_once = refl

reserve_takes_available_example :
    (get_available_stock lists 1
      (some 7)
      (reserve_inventory lists 22 1000 1 (pos 1) (some 7) none none 15 shop).1).0
    ≡ ok (record { total = pos 4; reserved = pos 3; available = pos 1 })
unfolding ◌+ℤ◌ ◌-ℤ◌
reserve_takes_available_example =
    reserve_takes_available lists lists-IsDatabase 22 1000 1 (pos 1) none none 15 shop
      (stock_info (pos 4) (pos 2)) taken_from_7 (some 7) (omega arith) variant_stock reserved_once

adjust_moves_stock_example :
    let (result, s') = adjust_stock lists 1 (negsuc 8) (some 7) shop in
    ((result ≡ ok tt)
      × (pos 0 ≤ℤ pos 4 +ℤ negsuc 8)
      × ((get_available_stock lists 1 (some 7) s').0 ≡ ok (stock_info (pos 4 +ℤ negsuc 8) (pos 2))))
    ⊎ ((result ≡ err (bad_request "Insufficient stock"))
        × (¬ (pos 0 ≤ℤ pos 4 +ℤ negsuc 8))
        × (s' ≡ shop))
adjust_moves_stock_example =
    adjust_moves_stock lists lists-IsDatabase 1 (negsuc 8) (some 7) shop
      (stock_info (pos 4) (pos 2)) variant_stock
