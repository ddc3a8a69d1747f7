-- ===== src/Commerce/Orders/Stages.antt =====
-- How many times the status of an order changes.

use duka_backend.Commerce.Orders.Paid.{advance-id, allowed_update, refused_update}
use duka_backend.Commerce.Orders.{
  Change, Order, OrderBook, OrderStatus, OrderStatusChanged, advance, completed, delivered,
  is_allowed, paid, pending_payment, processing, ready_for_pickup, shipped, update_order_status,
  valid_transitions,
}
use duka_backend.Database.{Database, IsDatabase, lists, transfer}
use duka_backend.Prelude.{
  ==_iff, Bool-cases, List, Option, Option-cases, String, [], ap, arith, change_key, inl, inr,
  length, lookup, lookup-change_key, none, refl, some, subst, suc, sym, true, ℕ, ◌++◌, ◌+◌, ◌-◌,
  ◌<◌, ◌==◌, ◌∙◌, ◌∷◌, ◌≡◌, ◌≤◌,
}

-- A call of `updateOrderStatus`.
pub record StatusCall : Type 0 where
  pub now : ℕ
  pub order_id : ℕ
  pub to : OrderStatus
  pub reason : Option String

abbrev pub update_all : Database → List StatusCall → OrderBook → OrderBook
update_all db [] s = s
update_all db (c ∷ l) s =
    update_all db l (update_order_status db c.now c.order_id c.to c.reason s).1

-- How far an order has come at least.
abbrev pub stage : OrderStatus → ℕ
stage pending_payment = 0
stage paid = 1
stage processing = 2
stage shipped = 3
stage ready_for_pickup = 3
stage delivered = 4
stage completed = 5
stage _ = 6

stage-le : (a : OrderStatus) → stage a ≤ 6
stage-le a = ground arith

stage-lt : (a b : OrderStatus) → is_allowed a b ≡ true → stage a < stage b
unfolding valid_transitions
stage-lt a b h = ground arith

-- What an order's history can still grow to.
abbrev pub reach : Order → ℕ
reach o = length o.status_history + (6 - stage o.status)

record HasReach (k n : ℕ) (s : OrderBook) : Type 0 where
  row : Order
  found : lookup (λ o. o.id) k s.orders ≡ some row
  within_reach : reach row ≤ n

length-snoc : (l : List Change) (x : Change) → length (l ++ x ∷ []) ≡ suc (length l)
length-snoc [] x = refl
length-snoc (y ∷ l) x = ap suc (length-snoc l x)

reach-advance :
    (now : ℕ) (to : OrderStatus) (reason : Option String) (o : Order)
    → is_allowed o.status to ≡ true
    → reach (advance now to reason o) ≤ reach o
unfolding advance
reach-advance now to reason o h =
    let further = stage-lt o.status to h in
    let last = stage-le to in
    let longer =
      length-snoc o.status_history (record { from = some o.status; to = to; reason = reason }) in
    omega (arith, further, last, longer)

module _ (k n : ℕ) where
  HasReach-write :
      (now j : ℕ) (to : OrderStatus) (reason : Option String) (s : OrderBook) (o : Order)
      (e : List OrderStatusChanged)
      → lookup (λ o. o.id) j s.orders ≡ some o
      → is_allowed o.status to ≡ true
      → HasReach k n s
      → HasReach k n (record {
        orders = change_key (λ o. o.id) j (advance now to reason) s.orders;
        events = e;
      })
  HasReach-write now j to reason s o e f h r =
      let at =
        lookup-change_key (λ o. o.id) j k (advance now to reason) s.orders
          (advance-id now to reason) in
      elim (Bool-cases (j == k)) [
        | inl t ↦
            let same_id : j ≡ k = (==_iff j k).0 t in
            let g : lookup (λ o. o.id) k s.orders ≡ some o =
              subst (λ x. lookup (λ o. o.id) x s.orders ≡ some o) same_id f in
            let q : o ≡ r.row = let both = sym g ∙ r.found in cc in
            let less = reach-advance now to reason o h in
            let bound : reach o ≤ n = subst (λ x. reach x ≤ n) (sym q) r.within_reach in
            record {
              row = advance now to reason o;
              found = at ∙ rw t (rw f refl);
              within_reach = omega (arith, less, bound);
            }
        | inr t ↦ record { row = r.row; found = at ∙ rw t r.found; within_reach = r.within_reach }
      ]

  HasReach-update :
      (c : StatusCall) (s : OrderBook)
      → HasReach k n s
      → HasReach k n (update_order_status lists c.now c.order_id c.to c.reason s).1
  HasReach-update c s r = elim (Option-cases (lookup (λ o. o.id) c.order_id s.orders)) [
    | inl e ↦ missing e
    | inr (o, e) ↦ elim (Bool-cases (is_allowed o.status c.to)) [
      | inl a ↦
          rw (allowed_update c.now c.order_id c.to c.reason s o e a)
            (HasReach-write c.now c.order_id c.to c.reason s o _ e a r)
      | inr a ↦ rw (refused_update c.now c.order_id c.to c.reason s o e a) r
    ]
  ]
    where
      missing :
          lookup (λ o. o.id) c.order_id s.orders ≡ none
          → HasReach k n (update_order_status lists c.now c.order_id c.to c.reason s).1
      missing e = unfold update_order_status in rw e r

  HasReach-update_all :
      (l : List StatusCall) (s : OrderBook) → HasReach k n s → HasReach k n (update_all lists l s)
  HasReach-update_all [] s r = r
  HasReach-update_all (c ∷ l) s r = HasReach-update_all l _ (HasReach-update c s r)

-- After any calls of `updateOrderStatus`, of any orders and with any statuses, an order is still there
-- and its status has changed at most six times, less the stage that it had come to: each change leads
-- to a later one, so that no order goes round in circles.
pub status_changes_end :
    (db : Database) (d : IsDatabase db) (k : ℕ) (l : List StatusCall) (s : OrderBook) (o : Order)
    → lookup (λ o. o.id) k s.orders ≡ some o
    → (o' : Order) × (lookup (λ o. o.id) k (update_all db l s).orders ≡ some o')
      × (length o'.status_history + stage o.status ≤ length o.status_history + 6)
status_changes_end db d k l s o e =
    transfer
      (λ x.
        (o' : Order) × (lookup (λ o. o.id) k (update_all x l s).orders ≡ some o')
        × (length o'.status_history + stage o.status ≤ length o.status_history + 6))
      d
      (let r =
          HasReach-update_all k (reach o) l s
            (record { row = o; found = e; within_reach = omega arith }) in
        let bound = r.within_reach in
        let first_stage = stage-le o.status in (r.row, r.found, omega (arith, bound, first_stage)))
