-- ===== src/Commerce/Inventory/Available.antt =====
-- What `reserveInventory` and `adjustStock` do to the stock that is available.
use duka_backend.Prelude.{
  Option, Option-cases, arith, bad_request, err, false, inl, inr, lookup, lookup-change_key, none,
  ok, refl, some, ℕ, ◌≡◌, ◌⊎◌,
}
use duka_backend.Prelude.Int.{ltb_ℤ, max_zero, pos, ℤ, ◌+ℤ◌, ◌-ℤ◌, ◌≤ℤ◌}
use duka_backend.Database.{Database, IsDatabase, lists, transfer}
use duka_backend.Commerce.Inventory.{
  InventoryReservation, Product, ProductVariant, Shop, StockInfo, adjust_stock, get_available_stock,
  hold, reserve_inventory, stock_info, update_stock,
}

-- A quantity that fits is taken from what is available, and no more.
stock_info-raise :
    (a b q : ℤ)
    → pos 1 ≤ℤ q
    → ltb_ℤ (max_zero (a -ℤ b)) q ≡ false
    → stock_info a (b +ℤ q)
      ≡ record { total = a; reserved = b +ℤ q; available = max_zero (a -ℤ b) -ℤ q }
unfolding ◌+ℤ◌ ◌-ℤ◌
stock_info-raise a b q h k = ground arith

module _ (fresh now p : ℕ) (q : ℤ) (session user : Option ℕ) (ttl : ℕ) (s : Shop) (i : StockInfo)
    (r : InventoryReservation) (positive : pos 1 ≤ℤ q) where
  taken :
      (v : Option ℕ)
      → (get_available_stock lists p v s).0 ≡ ok i
      → (reserve_inventory lists fresh now p q v session user ttl s).0 ≡ ok r
      → (get_available_stock lists p v
          (reserve_inventory lists fresh now p q v session user ttl s).1).0
        ≡ ok (record { total = i.total; reserved = i.reserved +ℤ q; available = i.available -ℤ q })
  unfolding get_available_stock reserve_inventory hold update_stock
  taken (some k) before done = grind (
    arith,
    stock_info-raise,
    lookup-change_key (λ (x : ProductVariant). x.id) k k
        (λ x. record x { reserved_stock = x.reserved_stock +ℤ q }) s.variants (λ x. refl),
  )
  taken none before done = grind (
    arith,
    stock_info-raise,
    lookup-change_key (λ (x : Product). x.id) p p
        (λ x. record x { reserved_stock = x.reserved_stock +ℤ q }) s.products (λ x. refl),
  )

adjusted :
    (p : ℕ) (delta : ℤ) (v : Option ℕ) (s : Shop) (i : StockInfo)
    → (get_available_stock lists p v s).0 ≡ ok i
    → let (result, s') = adjust_stock lists p delta v s in
      ((result ≡ ok tt)
        × (pos 0 ≤ℤ i.total +ℤ delta)
        × ((get_available_stock lists p v s').0 ≡ ok (stock_info (i.total +ℤ delta) i.reserved)))
      ⊎ ((result ≡ err (bad_request "Insufficient stock"))
          × (¬ (pos 0 ≤ℤ i.total +ℤ delta))
          × (s' ≡ s))
unfolding adjust_stock get_available_stock update_stock
adjusted p delta (some k) s i before = elim (Option-cases (lookup (λ x. x.id) k s.variants)) [
  | inl e ↦ ground arith
  | inr (row, e) ↦ grind (
    arith,
    lookup-change_key (λ (x : ProductVariant). x.id) k k
        (λ x. record x { stock = row.stock +ℤ delta }) s.variants (λ x. refl),
  )
]
adjusted p delta none s i before = elim (Option-cases (lookup (λ x. x.id) p s.products)) [
  | inl e ↦ ground arith
  | inr (row, e) ↦ grind (
    arith,
    lookup-change_key (λ (x : Product). x.id) p p (λ x. record x { stock = row.stock +ℤ delta })
        s.products (λ x. refl),
  )
]

module _ (db : Database) (d : IsDatabase db) where
  -- A successful `reserveInventory` of a quantity of at least 1 leaves the row's stock as it was,
  -- raises its reserved stock by the quantity, and lowers what is available by exactly it.
  pub reserve_takes_available :
      (fresh now p : ℕ) (q : ℤ) (session user : Option ℕ) (ttl : ℕ) (s : Shop) (i : StockInfo)
      (r : InventoryReservation) (v : Option ℕ)
      → pos 1 ≤ℤ q
      → (get_available_stock db p v s).0 ≡ ok i
      → (reserve_inventory db fresh now p q v session user ttl s).0 ≡ ok r
      → (get_available_stock db p v (reserve_inventory db fresh now p q v session user ttl s).1).0
        ≡ ok (record { total = i.total; reserved = i.reserved +ℤ q; available = i.available -ℤ q })
  reserve_takes_available fresh now p q session user ttl s i r v positive =
      transfer
        (λ c.
          (get_available_stock c p v s).0 ≡ ok i
          → (reserve_inventory c fresh now p q v session user ttl s).0 ≡ ok r
          → (get_available_stock c p v (reserve_inventory c fresh now p q v session user ttl s).1).0
            ≡ ok (record {
              total = i.total;
              reserved = i.reserved +ℤ q;
              available = i.available -ℤ q;
            }))
        d (taken fresh now p q session user ttl s i r positive v)

  -- On a row that exists, `adjustStock` either succeeds, the stock moves by exactly the delta, the
  -- reserved stock stays, and the new stock is not negative; or it throws "Insufficient stock", the
  -- new stock would be negative, and nothing is written.
  pub adjust_moves_stock :
      (p : ℕ) (delta : ℤ) (v : Option ℕ) (s : Shop) (i : StockInfo)
      → (get_available_stock db p v s).0 ≡ ok i
      → let (result, s') = adjust_stock db p delta v s in
        ((result ≡ ok tt)
          × (pos 0 ≤ℤ i.total +ℤ delta)
          × ((get_available_stock db p v s').0 ≡ ok (stock_info (i.total +ℤ delta) i.reserved)))
        ⊎ ((result ≡ err (bad_request "Insufficient stock"))
            × (¬ (pos 0 ≤ℤ i.total +ℤ delta))
            × (s' ≡ s))
  adjust_moves_stock p delta v s i =
      transfer
        (λ c.
          (get_available_stock c p v s).0 ≡ ok i
          → let (result, s') = adjust_stock c p delta v s in
            ((result ≡ ok tt)
              × (pos 0 ≤ℤ i.total +ℤ delta)
              × ((get_available_stock c p v s').0 ≡ ok (stock_info (i.total +ℤ delta) i.reserved)))
            ⊎ ((result ≡ err (bad_request "Insufficient stock"))
                × (¬ (pos 0 ≤ℤ i.total +ℤ delta))
                × (s' ≡ s)))
        d (adjusted p delta v s i)
