-- ===== src/Commerce/Orders.antt =====
-- "Orders" and "Tax Rules" of modules/commerce/commerce.service.ts: the order state machine, and the
-- default tax rule of a tenant.
pub mod Paid
pub mod Defaults
pub mod Stages
mod Tests
use duka_backend.Prelude.{
  Action, Bool, List, Option, String, [], any, bad_request, database, false, gets, if◌then◌else◌,
  modify, not, not_found, or_else, or_throw, p2025, pure, some, throw_if, true, when, ℕ, ◌&&◌, ◌++◌,
  ◌==◌, ◌>>=◌, ◌>>◌, ◌||◌, ◌∷◌,
}
use duka_backend.Database.{Database}

-- `unlisted` stands for every other text.
pub data OrderStatus : Type 0 where
  pending_payment paid processing shipped ready_for_pickup delivered completed cancelled refunded :
      OrderStatus
  unlisted : ℕ → OrderStatus

-- A row of the status history.
pub record Change : Type 0 where
  pub from : Option OrderStatus
  pub to : OrderStatus
  pub reason : Option String

pub record Order : Type 0 where
  pub id : ℕ
  pub tenant_id : ℕ
  pub status : OrderStatus
  pub is_paid : Bool
  pub paid_at : Option ℕ
  pub fulfilled_at : Option ℕ
  pub status_history : List Change

pub record OrderStatusChanged : Type 0 where
  pub order_id : ℕ
  pub from : OrderStatus
  pub to : OrderStatus

pub record OrderBook : Type 0 where
  pub orders : List Order
  pub events : List OrderStatusChanged

-- `===` on the nine texts; two unlisted ones may be equal
abbrev pub status_eq : OrderStatus → OrderStatus → Bool
status_eq pending_payment pending_payment = true
status_eq paid paid = true
status_eq processing processing = true
status_eq shipped shipped = true
status_eq ready_for_pickup ready_for_pickup = true
status_eq delivered delivered = true
status_eq completed completed = true
status_eq cancelled cancelled = true
status_eq refunded refunded = true
status_eq (unlisted a) (unlisted b) = a == b
status_eq _ _ = false

-- `validTransitions[status] || []`
unfoldable pub valid_transitions : OrderStatus → List OrderStatus
valid_transitions pending_payment = paid ∷ cancelled ∷ []
valid_transitions paid = processing ∷ refunded ∷ []
valid_transitions processing = shipped ∷ ready_for_pickup ∷ cancelled ∷ []
valid_transitions shipped = delivered ∷ cancelled ∷ []
valid_transitions ready_for_pickup = completed ∷ cancelled ∷ []
valid_transitions delivered = completed ∷ []
valid_transitions completed = refunded ∷ []
valid_transitions cancelled = []
valid_transitions refunded = []
valid_transitions (unlisted _) = []

abbrev pub is_allowed : OrderStatus → OrderStatus → Bool
is_allowed from to = any (λ x. status_eq x to) (valid_transitions from)

-- The `data` of the update.
unfoldable pub advance : ℕ → OrderStatus → Option String → Order → Order
advance now to reason o = record o {
  status = to;
  is_paid = if status_eq to paid then true else o.is_paid;
  paid_at = if status_eq to paid then some now else o.paid_at;
  fulfilled_at =
      if status_eq to delivered || status_eq to completed then some now else o.fulfilled_at;
  status_history =
      o.status_history ++ record { from = some o.status; to = to; reason = reason } ∷ [];
}

module _ (db : Database) where
  unfoldable pub update_order_status :
      (now order_id : ℕ) → OrderStatus → Option String → Action OrderBook (Unit {0})
  update_order_status now order_id status reason = do
    found ← gets (λ s. db.find_unique Order (λ o. o.id) order_id s.orders)
    order ← or_throw found (not_found "Order not found")
    throw_if (not (is_allowed order.status status)) (bad_request "Cannot transition")
    next ← gets (λ s. db.update Order (λ o. o.id) order_id (advance now status reason) s.orders)
    l ← or_throw next (database p2025)
    modify (λ s. record s {
      orders = l;
      events = s.events ++ record { order_id = order_id; from = order.status; to = status } ∷ [];
    })

pub record TaxRule : Type 0 where
  pub id : ℕ
  pub tenant_id : ℕ
  pub is_default : Bool

-- The untyped body, of which each column may be missing (`none`); it is spread over the row's, so
-- that a tenant it names is the row's tenant.
pub record TaxBody : Type 0 where
  pub tenant_id : Option ℕ
  pub is_default : Option Bool

abbrev pub clear_default : TaxRule → TaxRule
clear_default r = record r { is_default = false }

module _ (db : Database) where
  unfoldable pub create_tax_rule : (fresh tenant_id : ℕ) → TaxBody → Action (List TaxRule) TaxRule
  create_tax_rule fresh tenant_id data_ = do
    let rule : TaxRule = record {
      id = fresh;
      tenant_id = or_else data_.tenant_id tenant_id;
      is_default = or_else data_.is_default false;
    }
    when (or_else data_.is_default false) (
        modify
          (db.update_many TaxRule (λ r. r.tenant_id == tenant_id && r.is_default) clear_default))
    modify (db.create TaxRule rule)
    pure rule

  abbrev pub written : TaxBody → TaxRule → TaxRule
  written data_ r = record r {
    tenant_id = or_else data_.tenant_id r.tenant_id;
    is_default = or_else data_.is_default r.is_default;
  }

  unfoldable pub update_tax_rule : ℕ → TaxBody → Action (List TaxRule) (Unit {0})
  update_tax_rule id data_ = do
    found ← gets (db.find_unique TaxRule (λ r. r.id) id)
    t ← or_throw found (not_found "Tax rule not found")
    when (or_else data_.is_default false) (
        modify (
          db.update_many TaxRule
            (λ r. r.tenant_id == t.tenant_id && r.is_default && not (r.id == id)) clear_default))
    next ← gets (db.update TaxRule (λ r. r.id) id (written data_))
    l ← or_throw next (database p2025)
    modify (λ _. l)

  unfoldable pub delete_tax_rule : ℕ → Action (List TaxRule) (Unit {0})
  delete_tax_rule id = do
    found ← gets (db.find_unique TaxRule (λ r. r.id) id)
    t ← or_throw found (not_found "Tax rule not found")
    modify (db.delete_many TaxRule (λ r. r.id == t.id))
