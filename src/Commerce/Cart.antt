-- ===== src/Commerce/Cart.antt =====
-- "Cart Engine" and "Checkout" of modules/commerce/commerce.service.ts. Money is in units of which a
-- price has a multiple of 100, so that a whole percentage of it is whole.
pub mod Ordered
mod Tests
use duka_backend.Prelude.{
  Action, Bool, List, Option, [], bad_request, database, false, gets, if◌then◌else◌, is_some, leb,
  length, ltb, modify, none, not, not_found, or_throw, p2025, pure, same, some, suc, throw_if, ℕ,
  ◌&&◌, ◌*◌, ◌++◌, ◌+◌, ◌/◌, ◌==◌, ◌>>=◌, ◌>>◌, ◌||◌, ◌∷◌,
}
use duka_backend.Prelude.Int.{
  ltb_ℤ, max_zero, neg_part, negsuc, pos, pos_part, sub_ℕ, ℤ, ◌+ℤ◌, ◌-ℤ◌,
}
use duka_backend.Database.{Database}
use duka_backend.Commerce.Inventory.{
  Product, ProductVariant, Shop, get_available_stock, reserve_inventory,
}

pub data CouponType : Type 0 where
  percentage fixed : CouponType

pub record CartRow : Type 0 where
  pub id : ℕ
  pub tenant_id : ℕ
  pub user_id : Option ℕ
  pub session_id : Option ℕ
  pub coupon_code : Option ℕ
  pub subtotal : ℤ
  pub total : ℤ
  pub expires_at : Option ℕ

pub record CartItem : Type 0 where
  pub id : ℕ
  pub cart_id : ℕ
  pub product_id : ℕ
  pub variant_id : Option ℕ
  pub quantity : ℤ
  pub unit_price : ℕ
  pub total_price : ℤ

pub record Coupon : Type 0 where
  pub id : ℕ
  pub tenant_id : ℕ
  pub code : ℕ
  pub type_ : CouponType
  pub value : ℕ
  pub min_spend : Option ℕ
  pub max_uses : Option ℕ
  pub used_count : ℕ
  pub expires_at : Option ℕ
  pub is_enabled : Bool

pub record PlacedOrder : Type 0 where
  pub id : ℕ
  pub tenant_id : ℕ
  pub user_id : Option ℕ
  pub coupon_code : Option ℕ
  pub order_items : List CartItem
  pub subtotal : ℤ
  pub total : ℤ

-- `product_price` and `variant_price` are the price columns of the rows in `shop`.
pub record Market : Type 0 where
  pub shop : Shop
  pub product_price : ℕ → ℕ
  pub variant_price : ℕ → ℕ
  pub carts : List CartRow
  pub items : List CartItem
  pub coupons : List Coupon
  pub orders : List PlacedOrder
  pub created : List ℕ

-- A call of the inventory's methods.
unfoldable pub in_shop : {A : Type 0} → Action Shop A → Action Market A
in_shop m s = ((m s.shop).0, record s { shop = (m s.shop).1 })

abbrev pub of_cart : ℕ → CartItem → Bool
of_cart k x = x.cart_id == k

abbrev pub sum_prices : List CartItem → ℤ
sum_prices [] = pos 0
sum_prices (x ∷ l) = x.total_price +ℤ sum_prices l

abbrev pub is_coupon : ℕ → ℕ → Coupon → Bool
is_coupon t code c = c.tenant_id == t && (c.code == code)

-- `price * quantity`
abbrev pub scaled : ℕ → ℤ → ℤ
scaled n (pos q) = pos (n * q)
scaled n (negsuc q) = sub_ℕ 0 (n * suc q)

-- A whole percentage of an amount that is a multiple of 100.
abbrev pub hundredth : ℤ → ℤ
hundredth a = sub_ℕ (pos_part a / 100) (neg_part a / 100)

abbrev pub min_ℤ : ℤ → ℤ → ℤ
min_ℤ a b = if ltb_ℤ a b then a else b

unfoldable pub discount_of : ℤ → Option Coupon → ℤ
discount_of subtotal none = pos 0
discount_of subtotal (some c) =
    if c.is_enabled
    then elim c.type_ [
      | percentage ↦ hundredth (scaled c.value subtotal)
      | fixed ↦ min_ℤ (pos c.value) subtotal
    ]
    else pos 0

-- A variant that is not given (`undefined`) filters nothing.
abbrev pub is_line : ℕ → ℕ → Option ℕ → CartItem → Bool
is_line cart product variant x =
    x.cart_id == cart
    && (x.product_id == product)
    && (not (is_some variant) || same x.variant_id variant)

module _ (db : Database) where
  unfoldable pub save_cart : ℕ → (CartRow → CartRow) → Action Market (Unit {0})
  save_cart k f = do
    next ← gets (λ s. db.update CartRow (λ c. c.id) k f s.carts)
    l ← or_throw next (database p2025)
    modify (λ s. record s { carts = l })

  abbrev pub coupon_of : CartRow → Market → Option Coupon
  coupon_of c s = elim c.coupon_code [
    | none ↦ none
    | some code ↦ db.find_first Coupon (is_coupon c.tenant_id code) s.coupons
  ]

  unfoldable pub price_cart : List CartItem → CartRow → Action Market (Unit {0})
  price_cart items cart = do
    coupon ← gets (coupon_of cart)
    save_cart cart.id (λ c. record c {
      subtotal = sum_prices items;
      total = max_zero (sum_prices items -ℤ discount_of (sum_prices items) coupon);
    })

  unfoldable pub recalculate_cart : ℕ → Action Market (Unit {0})
  recalculate_cart cart_id = do
    items ← gets (λ s. db.find_many CartItem (of_cart cart_id) s.items)
    found ← gets (λ s. db.find_unique CartRow (λ c. c.id) cart_id s.carts)
    cart ← or_throw found (not_found "Cart not found")
    price_cart items cart

  unfoldable pub unit_price_of : ℕ → Option ℕ → Action Market ℕ
  unit_price_of product none = gets (λ s. s.product_price product)
  unit_price_of product (some v) = do
    found ← gets (λ s. db.find_unique ProductVariant (λ r. r.id) v s.shop.variants)
    variant ← or_throw found (not_found "Variant not found")
    gets (λ s. s.variant_price variant.id)

  unfoldable pub put_item :
      (fresh cart product : ℕ)
      → (quantity : ℤ) → (price : ℕ) → Option ℕ
      → ℤ
      → Option CartItem
      → Action Market (Unit {0})
  put_item fresh cart product quantity price variant available (some x) = do
    throw_if (ltb_ℤ available (x.quantity +ℤ quantity)) (bad_request "Insufficient stock")
    next ← gets (λ s.
        db.update CartItem (λ y. y.id) x.id
          (λ y. record y {
            quantity = x.quantity +ℤ quantity;
            total_price = scaled price (x.quantity +ℤ quantity);
          })
          s.items)
    l ← or_throw next (database p2025)
    modify (λ s. record s { items = l })
  put_item fresh cart product quantity price variant available none = modify (λ s. record s {
    items =
        db.create CartItem
          (record {
            id = fresh;
            cart_id = cart;
            product_id = product;
            variant_id = variant;
            quantity = quantity;
            unit_price = price;
            total_price = scaled price quantity;
          })
          s.items;
  })

  unfoldable pub add_to_cart :
      (fresh fresh_reservation now cart_id product_id : ℕ)
      → (quantity : ℤ) → Option ℕ
      → Action Market (Unit {0})
  add_to_cart fresh fresh_reservation now cart_id product_id quantity variant_id = do
    found ← gets (λ s. db.find_unique CartRow (λ c. c.id) cart_id s.carts)
    cart ← or_throw found (not_found "Cart not found")
    row ← gets (λ s. db.find_unique Product (λ p. p.id) product_id s.shop.products)
    _ ← or_throw row (not_found "Product not found")
    info ← in_shop (get_available_stock db product_id variant_id)
    throw_if (ltb_ℤ info.available quantity) (bad_request "Insufficient stock")
    price ← unit_price_of product_id variant_id
    existing_item ←
        gets (λ s. db.find_first CartItem (is_line cart_id product_id variant_id) s.items)
    put_item fresh cart_id product_id quantity price variant_id info.available existing_item
    _ ← in_shop (
        reserve_inventory db fresh_reservation now product_id quantity variant_id cart.session_id
          cart.user_id 15)
    recalculate_cart cart_id

  unfoldable pub remove_from_cart : ℕ → Action Market (Unit {0})
  remove_from_cart cart_item_id = do
    found ← gets (λ s. db.find_unique CartItem (λ x. x.id) cart_item_id s.items)
    item ← or_throw found (not_found "Cart item not found")
    modify (λ s. record s { items = db.delete_many CartItem (λ x. x.id == cart_item_id) s.items })
    recalculate_cart item.cart_id

  unfoldable pub set_quantity : ℕ → ℤ → CartItem → Action Market (Unit {0})
  set_quantity cart_item_id quantity item = do
    next ← gets (λ s.
        db.update CartItem (λ x. x.id) cart_item_id
          (λ x. record x { quantity = quantity; total_price = scaled item.unit_price quantity })
          s.items)
    l ← or_throw next (database p2025)
    modify (λ s. record s { items = l })

  unfoldable pub update_cart_item : (cart_item_id : ℕ) → (quantity : ℤ) → Action Market (Unit {0})
  update_cart_item cart_item_id quantity = do
    found ← gets (λ s. db.find_unique CartItem (λ x. x.id) cart_item_id s.items)
    item ← or_throw found (not_found "Cart item not found")
    if not (ltb_ℤ (pos 0) quantity)
        then modify
            (λ s. record s { items = db.delete_many CartItem (λ x. x.id == cart_item_id) s.items })
        else set_quantity cart_item_id quantity item
    recalculate_cart item.cart_id

  -- `coupon.expiresAt && coupon.expiresAt < new Date()`, `coupon.maxUses && …`, `coupon.minSpend && …`
  abbrev pub has_passed : ℕ → Option ℕ → Bool
  has_passed now none = false
  has_passed now (some t) = ltb t now

  abbrev pub is_used_up : Coupon → Bool
  is_used_up c = elim c.max_uses [ none ↦ false | some n ↦ not (n == 0) && leb n c.used_count ]

  abbrev pub is_too_small : ℤ → Option ℕ → Bool
  is_too_small subtotal none = false
  is_too_small subtotal (some n) = ltb_ℤ subtotal (pos n)

  unfoldable pub apply_coupon : (now cart_id code : ℕ) → Action Market (Unit {0})
  apply_coupon now cart_id code = do
    found ← gets (λ s. db.find_unique CartRow (λ c. c.id) cart_id s.carts)
    cart ← or_throw found (not_found "Cart not found")
    known ← gets (λ s. db.find_first Coupon (is_coupon cart.tenant_id code) s.coupons)
    coupon ← or_throw known (bad_request "Invalid or expired coupon")
    throw_if (not coupon.is_enabled) (bad_request "Invalid or expired coupon")
    throw_if (has_passed now coupon.expires_at) (bad_request "Coupon expired")
    throw_if (is_used_up coupon) (bad_request "Coupon usage limit reached")
    throw_if (is_too_small cart.subtotal coupon.min_spend) (bad_request "Minimum spend required")
    save_cart cart_id (λ c. record c { coupon_code = some code })
    recalculate_cart cart_id

  unfoldable pub remove_coupon : ℕ → Action Market (Unit {0})
  remove_coupon cart_id = do
    save_cart cart_id (λ c. record c { coupon_code = none })
    recalculate_cart cart_id

  unfoldable pub count_use : ℕ → Option ℕ → Action Market (Unit {0})
  count_use t none = pure tt
  count_use t (some code) = modify (λ s. record s {
    coupons =
        db.update_many Coupon (is_coupon t code) (λ c. record c { used_count = c.used_count + 1 })
          s.coupons;
  })

  unfoldable pub checkout : (fresh now cart_id : ℕ) → Action Market PlacedOrder
  checkout fresh now cart_id = do
    found ← gets (λ s. db.find_unique CartRow (λ c. c.id) cart_id s.carts)
    cart ← or_throw found (not_found "Cart not found")
    items ← gets (λ s. db.find_many CartItem (of_cart cart_id) s.items)
    throw_if (length items == 0) (bad_request "Cart is empty")
    let order : PlacedOrder = record {
      id = fresh;
      tenant_id = cart.tenant_id;
      user_id = cart.user_id;
      coupon_code = cart.coupon_code;
      order_items = items;
      subtotal = cart.subtotal;
      total = cart.total;
    }
    modify (λ s. record s { orders = db.create PlacedOrder order s.orders })
    save_cart cart_id (λ c. record c { expires_at = some now })
    count_use cart.tenant_id cart.coupon_code
    modify (λ s. record s { created = s.created ++ fresh ∷ [] })
    pure order
