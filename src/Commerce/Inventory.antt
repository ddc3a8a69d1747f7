-- ===== src/Commerce/Inventory.antt =====
-- "Inventory Management" of modules/commerce/commerce.service.ts: stock and reservations.
pub mod Balance
pub mod Reserved
pub mod Available
mod Tests
use duka_backend.Prelude.{
  Action, Bool, List, Option, String, bad_request, database, false, gets, if◌then◌else◌, modify,
  none, not_found, or_throw, p2025, pure, some, throw, throw_if, true, ℕ, ◌*◌, ◌+◌, ◌>>=◌, ◌>>◌,
}
use duka_backend.Prelude.Int.{ltb_ℤ, max_zero, pos, ℤ, ◌+ℤ◌, ◌-ℤ◌}
use duka_backend.Database.{Database}

pub data ReservationStatus : Type 0 where
  active released confirmed : ReservationStatus

pub record Product : Type 0 where
  pub id : ℕ
  pub tenant_id : ℕ
  pub stock : ℤ
  pub reserved_stock : ℤ

pub record ProductVariant : Type 0 where
  pub id : ℕ
  pub product_id : ℕ
  pub stock : ℤ
  pub reserved_stock : ℤ

pub record InventoryReservation : Type 0 where
  pub id : ℕ
  pub tenant_id : ℕ
  pub product_id : ℕ
  pub variant_id : Option ℕ
  pub quantity : ℤ
  pub session_id : Option ℕ
  pub user_id : Option ℕ
  pub expires_at : ℕ
  pub status : ReservationStatus

pub record Shop : Type 0 where
  pub products : List Product
  pub variants : List ProductVariant
  pub reservations : List InventoryReservation

pub record StockInfo : Type 0 where
  pub total : ℤ
  pub reserved : ℤ
  pub available : ℤ

-- `reservation.status !== 'active'` is its negation
abbrev pub is_active : ReservationStatus → Bool
is_active active = Bool.true
is_active _ = Bool.false

abbrev pub stock_info : ℤ → ℤ → StockInfo
stock_info stock reserved = record {
  total = stock;
  reserved = reserved;
  available = max_zero (stock -ℤ reserved);
}

abbrev write_products : Option (List Product) → Action Shop (Unit {0})
write_products none = throw (database p2025)
write_products (some l) = modify (λ s. record s { products = l })

abbrev write_variants : Option (List ProductVariant) → Action Shop (Unit {0})
write_variants none = throw (database p2025)
write_variants (some l) = modify (λ s. record s { variants = l })

abbrev write_reservations : Option (List InventoryReservation) → Action Shop (Unit {0})
write_reservations none = throw (database p2025)
write_reservations (some l) = modify (λ s. record s { reservations = l })

module _ (db : Database) where
  unfoldable pub get_available_stock : ℕ → Option ℕ → Action Shop StockInfo
  get_available_stock product_id (some v) = do
    found ← gets (λ s. db.find_unique ProductVariant (λ r. r.id) v s.variants)
    variant ← or_throw found (not_found "Variant not found")
    pure (stock_info variant.stock variant.reserved_stock)
  get_available_stock product_id none = do
    found ← gets (λ s. db.find_unique Product (λ r. r.id) product_id s.products)
    product ← or_throw found (not_found "Product not found")
    pure (stock_info product.stock product.reserved_stock)

  -- `if (variantId) productVariant.update … else product.update …`; the changes of the two columns
  unfoldable pub update_stock : Option ℕ → ℕ → (ℤ → ℤ) → (ℤ → ℤ) → Action Shop (Unit {0})
  update_stock (some v) product_id f g = do
    next ← gets (λ s.
        db.update ProductVariant (λ r. r.id) v
          (λ r. record r { stock = f r.stock; reserved_stock = g r.reserved_stock }) s.variants)
    write_variants next
  update_stock none product_id f g = do
    next ← gets (λ s.
        db.update Product (λ r. r.id) product_id
          (λ r. record r { stock = f r.stock; reserved_stock = g r.reserved_stock }) s.products)
    write_products next

  unfoldable pub set_status : ℕ → ReservationStatus → Action Shop (Unit {0})
  set_status reservation_id status = do
    next ← gets (λ s.
        db.update InventoryReservation (λ r. r.id) reservation_id
          (λ r. record r { status = status }) s.reservations)
    write_reservations next

  -- The row is created and its quantity added to the reserved stock.
  unfoldable pub hold : InventoryReservation → Action Shop InventoryReservation
  hold r = do
    modify (λ s. record s { reservations = db.create InventoryReservation r s.reservations })
    update_stock r.variant_id r.product_id (λ n. n) (λ n. n +ℤ r.quantity)
    pure r

  -- `fresh` is the id that the database draws for the row, `now` the time in milliseconds.
  unfoldable pub reserve_inventory :
      (fresh now product_id : ℕ) (quantity : ℤ) (variant_id session_id user_id : Option ℕ)
      (ttl_minutes : ℕ)
      → Action Shop InventoryReservation
  reserve_inventory fresh now product_id quantity variant_id session_id user_id ttl_minutes = do
    found ← gets (λ s. db.find_unique Product (λ r. r.id) product_id s.products)
    product ← or_throw found (not_found "Product not found")
    info ← get_available_stock product_id variant_id
    throw_if (ltb_ℤ info.available quantity) (bad_request "Insufficient stock")
    hold (record {
      id = fresh;
      tenant_id = product.tenant_id;
      product_id = product_id;
      variant_id = variant_id;
      quantity = quantity;
      session_id = session_id;
      user_id = user_id;
      expires_at = now + ttl_minutes * 60 * 1000;
      status = active;
    })

  -- The part of `releaseReservation` after its early return.
  unfoldable pub give_back : ℕ → InventoryReservation → Action Shop String
  give_back reservation_id r = do
    update_stock r.variant_id r.product_id (λ n. n) (λ n. n -ℤ r.quantity)
    set_status reservation_id released
    pure "Reservation released"

  unfoldable pub release_found : ℕ → Option InventoryReservation → Action Shop String
  release_found reservation_id none = pure "Reservation already released"
  release_found reservation_id (some r) =
      if is_active r.status then give_back reservation_id r else pure "Reservation already released"

  unfoldable pub release_reservation : ℕ → Action Shop String
  release_reservation reservation_id = do
    found ←
        gets (λ s. db.find_unique InventoryReservation (λ r. r.id) reservation_id s.reservations)
    release_found reservation_id found

  unfoldable pub confirm_reservation : ℕ → Action Shop String
  confirm_reservation reservation_id = do
    found ←
        gets (λ s. db.find_unique InventoryReservation (λ r. r.id) reservation_id s.reservations)
    r ← or_throw found (not_found "Reservation not found")
    update_stock r.variant_id r.product_id (λ n. n -ℤ r.quantity) (λ n. n -ℤ r.quantity)
    set_status reservation_id confirmed
    pure "Reservation confirmed, inventory deducted"

  -- `stock: newStock` is written, computed from the row that was read.
  unfoldable pub adjust_stock : ℕ → ℤ → Option ℕ → Action Shop (Unit {0})
  adjust_stock product_id delta (some v) = do
    found ← gets (λ s. db.find_unique ProductVariant (λ r. r.id) v s.variants)
    variant ← or_throw found (not_found "Variant not found")
    throw_if (ltb_ℤ (variant.stock +ℤ delta) (pos 0)) (bad_request "Insufficient stock")
    update_stock (some v) product_id (λ _. variant.stock +ℤ delta) (λ n. n)
  adjust_stock product_id delta none = do
    found ← gets (λ s. db.find_unique Product (λ r. r.id) product_id s.products)
    product ← or_throw found (not_found "Product not found")
    throw_if (ltb_ℤ (product.stock +ℤ delta) (pos 0)) (bad_request "Insufficient stock")
    update_stock none product_id (λ _. product.stock +ℤ delta) (λ n. n)
