-- ===== src/Payments/Tests.antt =====
-- Runs with a provider that accepts, and the theorems at concrete inputs.

use duka_backend.Prelude.{
  Option, [], bad_request, err, if◌then◌else◌, length, map, none, ok, refl, some, true, ℕ, ◌*◌, ◌+◌,
  ◌==◌, ◌∷◌, ◌≡◌,
}
use duka_backend.Database.{lists, lists-IsDatabase}
use duka_backend.Payments.{
  Adapter, IntentStatus, PaymentIntent, Payments, adapter_of, completed, conclude_refund,
  confirm_settlement, initialize_payment, initialized, issue_refund, note_refund, pending,
  process_refund, process_webhook, record_settlement, set_intent, settle_charge, verify_payment,
}
use duka_backend.Payments.Refunded.{
  IsBalanced, process_refund-IsBalanced, refund_total, refund_webhook_refund, refunded_twice,
}

abbrev provider : Adapter
provider = record {
  initialize = λ amount reference. ok (record { success = true; provider_ref = reference });
  verify = λ reference. ok (record { success = true; fees = 10; net_amount = 490 });
  refund = λ reference amount. ok (record { success = true; refund_ref = some 77; amount = 500 });
  webhook = λ payload signature. ok (record { is_success = true; reference = payload });
}

abbrev providers : ℕ → Option Adapter
providers k = if k == 1 then some provider else none

abbrev intent : IntentStatus → PaymentIntent
intent st = record {
  id = 2;
  tenant_id = 3;
  account_id = 4;
  provider = 1;
  external_id = some 88;
  amount = 500;
  status = st;
}

abbrev book : IntentStatus → Payments
book st = record {
  accounts =
      record { id = 4; tenant_id = 3; provider = 1; is_active = true; is_default = true } ∷ [];
  intents = intent st ∷ [];
  transactions = [];
  ledger = [];
  settlements = [];
  webhooks = [];
  events = [];
}

-- A payment is made and verified; a refund, a second one that is refused; a settlement.
runs : Unit {0}
unfolding initialize_payment initialized set_intent adapter_of verify_payment settle_charge
    process_refund conclude_refund issue_refund note_refund record_settlement confirm_settlement
    process_webhook
runs =
    let made : map (λ x. x.status)
          (initialize_payment lists providers 0 9 9 66 3 1 500 (book pending)).1.intents
        ≡ pending ∷ pending ∷ [] =
      refl in
    let verified : map (λ x. x.status) (verify_payment lists providers 2 (book pending)).1.intents
        ≡ completed ∷ [] =
      refl in
    let again : (process_refund lists providers 1 9 2 none
          (process_refund lists providers 0 8 2 none (book completed)).1).0
        ≡ err (bad_request "Can only refund completed payments") =
      refl in
    let settled : length
          (confirm_settlement lists providers 5 1
            (record_settlement lists providers 1 3 6 900 (some 30) (book pending)).1).1.ledger
        ≡ 1 =
      refl in
    tt

process_refund-IsBalanced_example :
    IsBalanced (process_refund lists providers 0 8 2 none (book completed)).1
process_refund-IsBalanced_example =
    process_refund-IsBalanced lists lists-IsDatabase providers 0 8 2 none (book completed) refl

refunded_twice_example :
    refund_total
      (refund_webhook_refund lists providers 0 9 8 10 2 1 88 0 none (book completed)).transactions
    ≡ 0 + 2 * 500
refunded_twice_example =
    refunded_twice lists lists-IsDatabase providers provider 0 9 8 10 2 88 0 none
      (record { success = true; refund_ref = some 77; amount = 500 })
      (record { is_success = true; reference = 88 }) (intent completed) (book completed) refl refl
      refl refl refl refl refl refl
