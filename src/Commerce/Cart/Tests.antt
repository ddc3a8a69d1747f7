-- ===== src/Commerce/Cart/Tests.antt =====
-- Runs of a cart, and the theorems at concrete inputs.
use duka_backend.Prelude.{
  [], arith, bad_request, err, length, lookup, map, none, ok, refl, select, some, true, ◌++◌, ◌+◌,
  ◌∷◌, ◌≡◌, ◌≤◌, ◌⊎◌,
}
use duka_backend.Prelude.Int.{negsuc, pos, ◌+ℤ◌, ◌-ℤ◌}
use duka_backend.Database.{lists, lists-IsDatabase}
use duka_backend.Commerce.Inventory.{get_available_stock, hold, reserve_inventory, update_stock}
use duka_backend.Commerce.Cart.{
  CartItem, CartRow, Market, add_to_cart, apply_coupon, checkout, count_use, discount_of, in_shop,
  of_cart, percentage, price_cart, put_item, recalculate_cart, remove_coupon, remove_from_cart,
  save_cart, set_quantity, unit_price_of, update_cart_item,
}
use duka_backend.Commerce.Cart.Ordered.{
  checkout_again_orders_again, checkout_places_order, order_of,
}

abbrev cart_row : CartRow
cart_row = record {
  id = 3;
  tenant_id = 1;
  user_id = none;
  session_id = some 8;
  coupon_code = some 55;
  subtotal = pos 0;
  total = pos 0;
  expires_at = none;
}

abbrev line : CartItem
line = record {
  id = 30;
  cart_id = 3;
  product_id = 1;
  variant_id = none;
  quantity = pos 1;
  unit_price = 1000;
  total_price = pos 1000;
}

abbrev market : Market
market = record {
  shop = record {
    products = record { id = 1; tenant_id = 1; stock = pos 5; reserved_stock = pos 0 } ∷ [];
    variants = [];
    reservations = [];
  };
  product_price = λ _. 1000;
  variant_price = λ _. 0;
  carts = cart_row ∷ [];
  items = line ∷ [];
  coupons =
      record {
        id = 4;
        tenant_id = 1;
        code = 55;
        type_ = percentage;
        value = 10;
        min_spend = none;
        max_uses = none;
        used_count = 0;
        expires_at = none;
        is_enabled = true;
      }
      ∷ [];
  orders = [];
  created = [];
}

-- Two more of the product, with ten per cent off; a line of 0 is removed; a coupon's use is counted.
cart_runs : Unit {0}
unfolding add_to_cart in_shop get_available_stock unit_price_of put_item reserve_inventory hold
    update_stock recalculate_cart price_cart save_cart discount_of update_cart_item set_quantity
    remove_from_cart apply_coupon remove_coupon checkout count_use ◌+ℤ◌ ◌-ℤ◌
cart_runs =
    let added : map (λ c. c.total) (add_to_cart lists 31 20 0 3 1 (pos 2) none market).1.carts
        ≡ pos 2700 ∷ [] =
      refl in
    let negative : map (λ c. c.total) (add_to_cart lists 31 20 0 3 1 (negsuc 2) none market).1.carts
        ≡ pos 0 ∷ [] =
      refl in
    let dropped : (update_cart_item lists 30 (pos 0) market).1.items ≡ [] = refl in
    let doubled : map (λ c. c.subtotal) (update_cart_item lists 30 (pos 2) market).1.carts
        ≡ pos 2000 ∷ [] =
      refl in
    let removed : (remove_from_cart lists 30 market).1.items ≡ [] = refl in
    let used : map (λ c. c.used_count) (checkout lists 9 0 3 market).1.coupons ≡ 1 ∷ [] = refl in tt

checkout_places_order_example :
    let (r, s') = checkout lists 9 0 3 market in
    ((1 ≤ length (select (of_cart 3) market.items))
      × (r ≡ ok (order_of 9 3 cart_row market))
      × (s'.orders ≡ market.orders ++ order_of 9 3 cart_row market ∷ [])
      × (lookup (λ x. x.id) 3 s'.carts ≡ some (record cart_row { expires_at = some 0 }))
      × (s'.items ≡ market.items))
    ⊎ ((length (select (of_cart 3) market.items) ≡ 0)
        × (r ≡ err (bad_request "Cart is empty"))
        × (s' ≡ market))
checkout_places_order_example =
    checkout_places_order lists lists-IsDatabase 9 0 3 market cart_row refl

checkout_again_orders_again_example :
    let s' = (checkout lists 9 0 3 market).1 in
    length (checkout lists 10 0 3 s').1.orders ≡ length market.orders + 2
checkout_again_orders_again_example =
    checkout_again_orders_again lists lists-IsDatabase 9 10 0 3 market cart_row refl (omega arith)
