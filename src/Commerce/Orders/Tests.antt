-- ===== src/Commerce/Orders/Tests.antt =====
-- Runs of Commerce.Orders, and its theorems at concrete inputs.

use duka_backend.Prelude.{
  All, List, [], arith, bad_request, count, err, false, length, lookup, map, none, refl, some, true,
  ℕ, ◌++◌, ◌+◌, ◌==◌, ◌∷◌, ◌≡◌, ◌≤◌,
}
use duka_backend.Database.{lists, lists-IsDatabase}
use duka_backend.Commerce.Orders.{
  Order, OrderBook, OrderStatus, TaxBody, TaxRule, advance, create_tax_rule, pending_payment,
  refunded, shipped, update_order_status, update_tax_rule, valid_transitions,
}
use duka_backend.Commerce.Orders.Paid.{IsSound, update_order_status-IsSound}
use duka_backend.Commerce.Orders.Defaults.{
  HasOneDefault, create, serve, tax_rules_keep_one_default, update,
}
use duka_backend.Commerce.Orders.Stages.{StatusCall, status_changes_end, update_all}

abbrev new_order : Order
new_order = record {
  id = 1;
  tenant_id = 9;
  status = pending_payment;
  is_paid = false;
  paid_at = none;
  fulfilled_at = none;
  status_history = record { from = none; to = pending_payment; reason = none } ∷ [];
}

abbrev book : OrderBook
book = record { orders = new_order ∷ []; events = [] }

skip_payment :
    update_order_status lists 50 1 shipped none book ≡ (err (bad_request "Cannot transition"), book)
unfolding update_order_status valid_transitions
skip_payment = refl

pay_run :
    map (λ o. o.paid_at) (update_order_status lists 50 1 OrderStatus.paid none book).1.orders
    ≡ some 50 ∷ []
unfolding update_order_status valid_transitions advance
pay_run = refl

book-IsSound : All IsSound book.orders
book-IsSound = (record { paid = λ k. cc; finished = λ k. cc; history = (refl, refl) }, tt)

update_order_status-IsSound_example :
    All IsSound (update_order_status lists 50 1 OrderStatus.paid none book).1.orders
update_order_status-IsSound_example =
    update_order_status-IsSound lists lists-IsDatabase 50 1 OrderStatus.paid none book book-IsSound

abbrev rules : List TaxRule
rules =
    record { id = 3; tenant_id = 1; is_default = true }
    ∷ record { id = 4; tenant_id = 1; is_default = false }
    ∷ []

rules_keyed : (j : ℕ) → count (λ (x : TaxRule). x.id == j) rules ≤ 1
rules_keyed j = ground arith

rules-HasOneDefault : HasOneDefault rules
rules-HasOneDefault = record { one = λ t. ground arith }

-- A body that makes the rule the default.
abbrev default_body : TaxBody
default_body = record { tenant_id = none; is_default = some true }

tax_run :
    serve lists (update 4 default_body) rules
    ≡ record { id = 3; tenant_id = 1; is_default = false }
      ∷ record { id = 4; tenant_id = 1; is_default = true }
      ∷ []
unfolding update_tax_rule
tax_run = refl

tax_rules_keep_one_default_example : HasOneDefault (serve lists (update 4 default_body) rules)
tax_rules_keep_one_default_example =
    tax_rules_keep_one_default lists lists-IsDatabase (update 4 default_body) rules refl rules_keyed
      rules-HasOneDefault

-- A body that names another tenant leaves that tenant with two default rules.
two_defaults :
    serve lists (create 5 2 (record { tenant_id = some 1; is_default = some true })) rules
    ≡ rules ++ record { id = 5; tenant_id = 1; is_default = true } ∷ []
unfolding create_tax_rule
two_defaults = refl

-- Paid, then a refused change, then refunded.
abbrev calls : List StatusCall
calls =
    record { now = 50; order_id = 1; to = OrderStatus.paid; reason = none }
    ∷ record { now = 60; order_id = 1; to = shipped; reason = none }
    ∷ record { now = 70; order_id = 1; to = refunded; reason = none }
    ∷ []

status_changes_end_example :
    (o' : Order) × (lookup (λ o. o.id) 1 (update_all lists calls book).orders ≡ some o')
    × (length o'.status_history + 0 ≤ 1 + 6)
status_changes_end_example = status_changes_end lists lists-IsDatabase 1 calls book new_order refl
