-- ===== src/Payments.antt =====
-- modules/payments/payments.service.ts: payment intents, refunds, settlements and webhooks. The
-- providers' adapters (modules/payments/providers) call the providers, and are a parameter.
pub mod Refunded
mod Tests
use duka_backend.Prelude.{
  Action, Bool, List, Option, Result, [], bad_request, database, false, gets, if◌then◌else◌, lift,
  map_option, modify, none, not, not_found, or_else, or_throw, p2002, p2025, pure, same, some,
  throw_if, true, when, ℕ, ◌&&◌, ◌++◌, ◌==◌, ◌>>=◌, ◌>>◌, ◌∷◌,
}
use duka_backend.Database.{Database}
use duka_backend.Prelude.Int.{pos, sub_ℕ, ℤ}

-- `unlisted` stands for every other text.
pub data IntentStatus : Type 0 where
  created pending completed failed refunded : IntentStatus
  unlisted : ℕ → IntentStatus

pub data TransactionType : Type 0 where
  charge refund : TransactionType

pub data EventType : Type 0 where
  payment_received payment_failed refund_issued settlement_received : EventType

pub record Account : Type 0 where
  pub id : ℕ
  pub tenant_id : ℕ
  pub provider : ℕ
  pub is_active : Bool
  pub is_default : Bool

pub record PaymentIntent : Type 0 where
  pub id : ℕ
  pub tenant_id : ℕ
  pub account_id : ℕ
  pub provider : ℕ
  pub external_id : Option ℕ
  pub amount : ℕ
  pub status : IntentStatus

pub record PaymentTransaction : Type 0 where
  pub id : ℕ
  pub intent_id : ℕ
  pub type_ : TransactionType
  pub external_ref : Option ℕ
  pub amount : ℕ
  pub fees : ℕ
  pub net_amount : Option ℕ
  pub status : IntentStatus
  pub created_at : ℕ

pub record FinancialEvent : Type 0 where
  pub tenant_id : ℕ
  pub type_ : EventType
  pub amount : ℤ
  pub transaction_id : Option ℕ
  pub settlement_id : Option ℕ

pub record Settlement : Type 0 where
  pub id : ℕ
  pub tenant_id : ℕ
  pub reference : ℕ
  pub amount : ℕ
  pub fees : ℕ
  pub net_amount : ℤ
  pub settled_at : Option ℕ

pub data PaymentEvent : Type 0 where
  payment_completed : (intent_id : ℕ) → PaymentEvent
  refund_processed : (intent_id : ℕ) → (amount : ℕ) → PaymentEvent

pub record Payments : Type 0 where
  pub accounts : List Account
  pub intents : List PaymentIntent
  pub transactions : List PaymentTransaction
  pub ledger : List FinancialEvent
  pub settlements : List Settlement
  pub webhooks : List ℕ
  pub events : List PaymentEvent

pub record PaymentResponse : Type 0 where
  pub success : Bool
  pub provider_ref : ℕ

pub record VerifyResponse : Type 0 where
  pub success : Bool
  pub fees : ℕ
  pub net_amount : ℕ

pub record RefundResponse : Type 0 where
  pub success : Bool
  pub refund_ref : Option ℕ
  pub amount : ℕ

pub record WebhookResponse : Type 0 where
  pub is_success : Bool
  pub reference : ℕ

-- What a provider answers; a call may throw.
pub record Adapter : Type 0 where
  pub initialize : (amount reference : ℕ) → Result PaymentResponse
  pub verify : (reference : ℕ) → Result VerifyResponse
  pub refund : Option ℕ → Option ℕ → Result RefundResponse
  pub webhook : (payload signature : ℕ) → Result WebhookResponse

abbrev pub is_completed : IntentStatus → Bool
is_completed completed = true
is_completed _ = false

abbrev pub is_charge : TransactionType → Bool
is_charge charge = true
is_charge refund = false

module _ (db : Database) (providers : ℕ → Option Adapter) where
  unfoldable pub set_intent : ℕ → (PaymentIntent → PaymentIntent) → Action Payments (Unit {0})
  set_intent k f = do
    next ← gets (λ s. db.update PaymentIntent (λ i. i.id) k f s.intents)
    l ← or_throw next (database p2025)
    modify (λ s. record s { intents = l })

  unfoldable pub adapter_of : ℕ → Action Payments Adapter
  adapter_of provider = or_throw (providers provider) (bad_request "Unsupported provider")

  unfoldable pub initialized :
      (now fresh_transaction : ℕ) → PaymentIntent → PaymentResponse → Action Payments (Unit {0})
  initialized now fresh_transaction intent r = do
    set_intent intent.id (λ i.
        if r.success
        then record i { external_id = some r.provider_ref; status = pending }
        else record i { status = failed })
    when r.success (
        modify (λ s. record s {
          transactions =
              db.create PaymentTransaction
                (record {
                  id = fresh_transaction;
                  intent_id = intent.id;
                  type_ = charge;
                  external_ref = some r.provider_ref;
                  amount = intent.amount;
                  fees = 0;
                  net_amount = none;
                  status = pending;
                  created_at = now;
                })
                s.transactions;
        }))

  unfoldable pub initialize_payment :
      (now fresh fresh_transaction reference : ℕ)
      → (tenant_id provider amount : ℕ) → Action Payments PaymentResponse
  initialize_payment now fresh fresh_transaction reference tenant_id provider amount = do
    found ← gets (λ s.
        db.find_first Account
          (λ a. a.tenant_id == tenant_id && (a.provider == provider) && a.is_active && a.is_default)
          s.accounts)
    account ← or_throw found (bad_request "No active account for this tenant")
    adapter ← adapter_of provider
    let intent : PaymentIntent = record {
      id = fresh;
      tenant_id = tenant_id;
      account_id = account.id;
      provider = provider;
      external_id = none;
      amount = amount;
      status = created;
    }
    modify (λ s. record s { intents = db.create PaymentIntent intent s.intents })
    result ← lift (adapter.initialize amount reference)
    initialized now fresh_transaction intent result
    pure result

  unfoldable pub settle_charge :
      Option PaymentTransaction → VerifyResponse → Action Payments (Unit {0})
  settle_charge none r = pure tt
  settle_charge (some t) r = do
    next ← gets (λ s.
        db.update PaymentTransaction (λ x. x.id) t.id
          (λ x. record x {
            status = if r.success then completed else failed;
            fees = r.fees;
            net_amount = some r.net_amount;
          })
          s.transactions)
    l ← or_throw next (database p2025)
    modify (λ s. record s { transactions = l })

  unfoldable pub verify_payment : (intent_id : ℕ) → Action Payments VerifyResponse
  verify_payment intent_id = do
    found ← gets (λ s. db.find_unique PaymentIntent (λ i. i.id) intent_id s.intents)
    intent ← or_throw found (not_found "Payment intent not found")
    external_id ← or_throw intent.external_id (bad_request "No external reference")
    adapter ← adapter_of intent.provider
    result ← lift (adapter.verify external_id)
    set_intent intent_id (λ i. record i { status = if result.success then completed else failed })
    transaction_ ← gets (λ s.
        db.find_last PaymentTransaction (λ t. t.intent_id == intent_id && is_charge t.type_)
          (λ t. t.created_at) s.transactions)
    settle_charge transaction_ result
    modify (λ s. record s {
      ledger =
          db.create FinancialEvent
            (record {
              tenant_id = intent.tenant_id;
              type_ = if result.success then payment_received else payment_failed;
              amount = pos intent.amount;
              transaction_id = map_option (λ (t : PaymentTransaction). t.id) transaction_;
              settlement_id = none;
            })
            s.ledger;
    })
    when result.success
        (modify (λ s. record s { events = s.events ++ payment_completed intent_id ∷ [] }))
    pure result

  -- What follows a refund that the provider made.
  unfoldable pub note_refund : PaymentIntent → RefundResponse → Action Payments (Unit {0})
  note_refund intent r = modify (λ s. record s {
    ledger =
        db.create FinancialEvent
          (record {
            tenant_id = intent.tenant_id;
            type_ = refund_issued;
            amount = sub_ℕ 0 r.amount;
            transaction_id = r.refund_ref;
            settlement_id = none;
          })
          s.ledger;
    events = s.events ++ refund_processed intent.id r.amount ∷ [];
  })

  unfoldable pub issue_refund : PaymentIntent → RefundResponse → Action Payments (Unit {0})
  issue_refund intent r = do
    set_intent intent.id (λ i. record i { status = refunded })
    note_refund intent r

  -- `data?.amount || undefined`
  abbrev pub given : Option ℕ → Option ℕ
  given none = none
  given (some n) = if n == 0 then none else some n

  -- What follows the provider's answer.
  unfoldable pub conclude_refund :
      (now fresh_transaction : ℕ) → PaymentIntent → RefundResponse → Action Payments RefundResponse
  conclude_refund now fresh_transaction intent result = do
    modify (λ s. record s {
      transactions =
          db.create PaymentTransaction
            (record {
              id = fresh_transaction;
              intent_id = intent.id;
              type_ = refund;
              external_ref = result.refund_ref;
              amount = result.amount;
              fees = 0;
              net_amount = none;
              status = if result.success then completed else failed;
              created_at = now;
            })
            s.transactions;
    })
    when result.success (issue_refund intent result)
    pure result

  unfoldable pub process_refund :
      (now fresh_transaction intent_id : ℕ) → Option ℕ → Action Payments RefundResponse
  process_refund now fresh_transaction intent_id amount = do
    found ← gets (λ s. db.find_unique PaymentIntent (λ i. i.id) intent_id s.intents)
    intent ← or_throw found (not_found "Payment intent not found")
    throw_if (not (is_completed intent.status)) (bad_request "Can only refund completed payments")
    adapter ← adapter_of intent.provider
    result ← lift (adapter.refund intent.external_id (given amount))
    conclude_refund now fresh_transaction intent result

  -- `data.amount - (data.fees || 0)`; a reference is unique.
  unfoldable pub record_settlement :
      (fresh tenant_id reference amount : ℕ) → Option ℕ → Action Payments (Unit {0})
  record_settlement fresh tenant_id reference amount fees = do
    let row : Settlement = record {
      id = fresh;
      tenant_id = tenant_id;
      reference = reference;
      amount = amount;
      fees = or_else fees 0;
      net_amount = sub_ℕ amount (or_else fees 0);
      settled_at = none;
    }
    next ← gets (λ s. db.create_unique Settlement (λ x. x.reference == reference) row s.settlements)
    l ← or_throw next (database p2002)
    modify (λ s. record s { settlements = l })

  unfoldable pub confirm_settlement : (now settlement_id : ℕ) → Action Payments (Unit {0})
  confirm_settlement now settlement_id = do
    found ← gets (λ s. db.find_unique Settlement (λ x. x.id) settlement_id s.settlements)
    settlement ← or_throw found (not_found "Settlement not found")
    next ← gets (λ s.
        db.update Settlement (λ x. x.id) settlement_id (λ x. record x { settled_at = some now })
          s.settlements)
    l ← or_throw next (database p2025)
    modify (λ s. record s {
      settlements = l;
      ledger =
          db.create FinancialEvent
            (record {
              tenant_id = settlement.tenant_id;
              type_ = settlement_received;
              amount = settlement.net_amount;
              transaction_id = none;
              settlement_id = some settlement.id;
            })
            s.ledger;
    })

  unfoldable pub process_webhook : (provider payload signature : ℕ) → Action Payments (Unit {0})
  process_webhook provider payload signature = do
    adapter ← adapter_of provider
    modify (λ s. record s { webhooks = db.create ℕ payload s.webhooks })
    result ← lift (adapter.webhook payload signature)
    when result.is_success (
        modify (λ s. record s {
          intents =
              db.update_many PaymentIntent
                (λ i. same i.external_id (some result.reference) && (i.provider == provider))
                (λ i. record i { status = completed }) s.intents;
        }))
