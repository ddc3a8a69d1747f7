-- ===== src/Commerce/Cart/Ordered.antt =====
-- What a checkout does.

use native.Mathlib.Decide.{ℕ_discrete}
use duka_backend.Prelude.{
  List, [], ap, arith, bad_request, err, inl, inr, length, lookup, lookup-change_key, ok, refl,
  select, some, subst, sym, ℕ, ◌++◌, ◌+◌, ◌∷◌, ◌≡◌, ◌≤◌, ◌⊎◌,
}
use duka_backend.Database.{Database, IsDatabase, lists, transfer}
use duka_backend.Commerce.Cart.{
  CartRow, Market, PlacedOrder, checkout, count_use, of_cart, save_cart,
}

abbrev pub order_of : ℕ → ℕ → CartRow → Market → PlacedOrder
order_of fresh k c s = record {
  id = fresh;
  tenant_id = c.tenant_id;
  user_id = c.user_id;
  coupon_code = c.coupon_code;
  order_items = select (of_cart k) s.items;
  subtotal = c.subtotal;
  total = c.total;
}

checkout-cases :
    (fresh now k : ℕ) (s : Market) (c : CartRow)
    → lookup (λ x. x.id) k s.carts ≡ some c
    → 1 ≤ length (select (of_cart k) s.items)
    → let (r, s') = checkout lists fresh now k s in
      (r ≡ ok (order_of fresh k c s))
      × (s'.orders ≡ s.orders ++ order_of fresh k c s ∷ [])
      × (lookup (λ x. x.id) k s'.carts ≡ some (record c { expires_at = some now }))
      × (s'.items ≡ s.items)
unfolding checkout save_cart count_use
checkout-cases fresh now k s c e h = ground (
  arith,
  e,
  lookup-change_key (λ x. x.id) k k (λ x. record x { expires_at = some now }) s.carts (λ x. refl),
)

checkout-empty :
    (fresh now k : ℕ) (s : Market) (c : CartRow)
    → lookup (λ x. x.id) k s.carts ≡ some c
    → length (select (of_cart k) s.items) ≡ 0
    → checkout lists fresh now k s ≡ (err (bad_request "Cart is empty"), s)
unfolding checkout
checkout-empty fresh now k s c e h = ground (arith, e)

-- A checkout of a cart that is found: with items, it returns and stores one order, of the cart's
-- items and with its totals, closes the cart and keeps the items; without, it throws and changes
-- nothing.
pub checkout_places_order :
    (db : Database) (d : IsDatabase db) (fresh now k : ℕ) (s : Market) (c : CartRow)
    → lookup (λ x. x.id) k s.carts ≡ some c
    → let (r, s') = checkout db fresh now k s in
      ((1 ≤ length (select (of_cart k) s.items))
        × (r ≡ ok (order_of fresh k c s))
        × (s'.orders ≡ s.orders ++ order_of fresh k c s ∷ [])
        × (lookup (λ x. x.id) k s'.carts ≡ some (record c { expires_at = some now }))
        × (s'.items ≡ s.items))
      ⊎ ((length (select (of_cart k) s.items) ≡ 0)
          × (r ≡ err (bad_request "Cart is empty"))
          × (s' ≡ s))
checkout_places_order db d fresh now k s c e =
    transfer
      (λ x.
        let (r, s') = checkout x fresh now k s in
        ((1 ≤ length (select (of_cart k) s.items))
          × (r ≡ ok (order_of fresh k c s))
          × (s'.orders ≡ s.orders ++ order_of fresh k c s ∷ [])
          × (lookup (λ x. x.id) k s'.carts ≡ some (record c { expires_at = some now }))
          × (s'.items ≡ s.items))
        ⊎ ((length (select (of_cart k) s.items) ≡ 0)
            × (r ≡ err (bad_request "Cart is empty"))
            × (s' ≡ s)))
      d
      (elim (ℕ_discrete (length (select (of_cart k) s.items)) 0) [
        | yes z ↦
            let q = checkout-empty fresh now k s c e z in inr (z, ap (λ p. p.0) q, ap (λ p. p.1) q)
        | no z ↦
            let (r, o, p, i) = checkout-cases fresh now k s c e (omega arith) in
            inl (omega arith, r, o, p, i)
      ])

-- A cart with items that was checked out can be checked out again: after the second call two orders
-- more are stored than before the first.
pub checkout_again_orders_again :
    (db : Database) (d : IsDatabase db) (fresh later now k : ℕ) (s : Market) (c : CartRow)
    → lookup (λ x. x.id) k s.carts ≡ some c
    → 1 ≤ length (select (of_cart k) s.items)
    → let s' = (checkout db fresh now k s).1 in
      length (checkout db later now k s').1.orders ≡ length s.orders + 2
checkout_again_orders_again db d fresh later now k s c e h =
    transfer
      (λ x.
        length (checkout x later now k (checkout x fresh now k s).1).1.orders ≡ length s.orders + 2)
      d
      (let (r, o, f, i) = checkout-cases fresh now k s c e h in
        again (checkout lists fresh now k s).1 (o, f, i))
  where
    length-add : {A : Type 0} (l : List A) (x : A) → length (l ++ x ∷ []) ≡ length l + 1
    length-add [] x = refl
    length-add (y ∷ l) x = ground (arith, length-add l x)

    again :
        (t : Market)
        → (t.orders ≡ s.orders ++ order_of fresh k c s ∷ [])
          × (lookup (λ x. x.id) k t.carts ≡ some (record c { expires_at = some now }))
          × (t.items ≡ s.items)
        → length (checkout lists later now k t).1.orders ≡ length s.orders + 2
    again t (o, f, i) =
        let second =
          checkout-cases later now k t (record c { expires_at = some now }) f
            (subst (λ l. 1 ≤ length (select (of_cart k) l)) (sym i) h) in
        ground (
          arith,
          second.1,
          o,
          length-add s.orders (order_of fresh k c s),
          length-add t.orders (order_of later k (record c { expires_at = some now }) t),
        )
