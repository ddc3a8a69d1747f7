-- ===== src/Commerce/Orders/Paid.antt =====
-- What the status of an order says of its payment, fulfilment and history.

use duka_backend.Database.{Database, IsDatabase, lists, transfer}
use duka_backend.Prelude.{
  All, All-change_key, All-lookup, Bool, Bool-cases, List, Option, Option-cases, String, [], arith,
  bad_request, change_key, err, false, inl, inr, is_some, lookup, none, ok, refl, some, sym, true,
  ℕ, ◌++◌, ◌∷◌, ◌≡◌, ◌⊎◌,
}
use duka_backend.Commerce.Orders.{
  Change, Order, OrderBook, OrderStatus, advance, cancelled, completed, delivered, is_allowed,
  pending_payment, status_eq, unlisted, update_order_status, valid_transitions,
}

-- The statuses that only a payment leads to.
abbrev pub is_past_payment : OrderStatus → Bool
is_past_payment pending_payment = false
is_past_payment cancelled = false
is_past_payment (unlisted _) = false
is_past_payment _ = true

abbrev pub is_finished : OrderStatus → Bool
is_finished completed = true
is_finished delivered = true
is_finished _ = false

-- The history's entries follow one another from `from` to `to`.
abbrev pub Follows : Option OrderStatus → List Change → OrderStatus → Type 0
Follows from [] to = from ≡ some to
Follows from (c ∷ cs) to = (c.from ≡ from) × Follows (some c.to) cs to

pub record IsSound (o : Order) : Type 0 where
  pub paid : is_past_payment o.status ≡ true → (o.is_paid ≡ true) × (is_some o.paid_at ≡ true)
  pub finished : is_finished o.status ≡ true → is_some o.fulfilled_at ≡ true
  pub history : Follows none o.status_history o.status

Follows-append :
    (from : Option OrderStatus) (cs : List Change) (at : OrderStatus) (to : OrderStatus)
    (reason : Option String)
    → Follows from cs at
    → Follows from (cs ++ record { from = some at; to = to; reason = reason } ∷ []) to
Follows-append from [] at to reason h = (sym h, refl)
Follows-append from (c ∷ cs) at to reason h = (h.0, Follows-append (some c.to) cs at to reason h.1)

-- Before a payment an order is only paid or cancelled.
allowed_paid :
    (a b : OrderStatus)
    → is_allowed a b ≡ true
    → is_past_payment b ≡ true
    → (status_eq b OrderStatus.paid ≡ true) ⊎ (is_past_payment a ≡ true)
unfolding valid_transitions
allowed_paid pending_payment b h k = ground arith
allowed_paid _ b h k = ground arith

advance-IsSound :
    (now : ℕ) (to : OrderStatus) (reason : Option String) (o : Order)
    → is_allowed o.status to ≡ true
    → IsSound o
    → IsSound (advance now to reason o)
unfolding advance
advance-IsSound now to reason o allowed h = record {
  paid = λ k. ground (arith, allowed_paid o.status to allowed k, h.paid);
  finished = λ k. ground arith;
  history = Follows-append none o.status_history o.status to reason h.history;
}

pub advance-id :
    (now : ℕ) (to : OrderStatus) (reason : Option String) (o : Order)
    → (advance now to reason o).id ≡ o.id
unfolding advance
advance-id now to reason o = refl

module _ (now k : ℕ) (to : OrderStatus) (reason : Option String) (s : OrderBook) (o : Order)
    (e : lookup (λ o. o.id) k s.orders ≡ some o) where
  pub refused_update :
      is_allowed o.status to ≡ false
      → update_order_status lists now k to reason s ≡ (err (bad_request "Cannot transition"), s)
  unfolding update_order_status
  refused_update refused = rw (e, refused)

  pub allowed_update :
      is_allowed o.status to ≡ true
      → update_order_status lists now k to reason s ≡ (
        ok tt,
        record s {
          orders = change_key (λ o. o.id) k (advance now to reason) s.orders;
          events = s.events ++ record { order_id = k; from = o.status; to = to } ∷ [];
        },
      )
  unfolding update_order_status
  allowed_update allowed = ground arith

  found-IsSound :
      All IsSound s.orders → All IsSound (update_order_status lists now k to reason s).1.orders
  found-IsSound h = elim (Bool-cases (is_allowed o.status to)) [
    | inr refused ↦ rw (refused_update refused) h
    | inl allowed ↦ rw (allowed_update allowed) (
        All-change_key IsSound (λ o. o.id) k (advance now to reason) s.orders o e
          (advance-IsSound now to reason o allowed
            (All-lookup IsSound (λ o. o.id) k s.orders o h e))
          h)
  ]

updated-IsSound :
    (now k : ℕ) (to : OrderStatus) (reason : Option String) (s : OrderBook)
    → All IsSound s.orders
    → All IsSound (update_order_status lists now k to reason s).1.orders
updated-IsSound now k to reason s h = elim (Option-cases (lookup (λ o. o.id) k s.orders)) [
  | inl e ↦ missing_order e
  | inr (o, e) ↦ found-IsSound now k to reason s o e h
]
  where
    missing_order :
        lookup (λ o. o.id) k s.orders ≡ none
        → All IsSound (update_order_status lists now k to reason s).1.orders
    missing_order e = unfold update_order_status in rw e h

module _ (db : Database) (d : IsDatabase db) where
  -- If in every order the payment is recorded once its status is past payment (paid, processing,
  -- shipped, ready for pickup, delivered, completed or refunded), the fulfilment time is set when it is
  -- delivered or completed, and the history's entries lead one to the next, to its status, then so it
  -- is after any call of `updateOrderStatus`, whether it succeeds or throws.
  pub update_order_status-IsSound :
      (now k : ℕ) (to : OrderStatus) (reason : Option String) (s : OrderBook)
      → All IsSound s.orders
      → All IsSound (update_order_status db now k to reason s).1.orders
  update_order_status-IsSound now k to reason s h =
      transfer (λ c. All IsSound (update_order_status c now k to reason s).1.orders) d
        (updated-IsSound now k to reason s h)
