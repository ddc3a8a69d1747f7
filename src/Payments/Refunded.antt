-- ===== src/Payments/Refunded.antt =====
-- Refunds, what they leave in the ledger, and what a webhook does to them.
use duka_backend.Prelude.{
  ==_refl, >>=-ok, Action, Bool, Bool-cases, Error, List, Option, Option-cases, Result,
  Result-cases, [], ap, arith, change, change_key, err, false, if◌then◌else◌, inl, inr, key-lookup,
  lookup, lookup-change_key, none, not, ok, pure, refl, same, some, subst, sym, true, when, ℕ, ◌&&◌,
  ◌*◌, ◌++◌, ◌+◌, ◌==◌, ◌>>◌, ◌∙◌, ◌∷◌, ◌≡◌,
}
use duka_backend.Database.{Database, IsDatabase, lists, transfer}
use duka_backend.Prelude.Int.{neg_part, sub_ℕ}
use duka_backend.Payments.{
  Adapter, EventType, FinancialEvent, PaymentIntent, PaymentTransaction, Payments, RefundResponse,
  WebhookResponse, adapter_of, completed, conclude_refund, failed, given, is_charge, is_completed,
  issue_refund, note_refund, process_refund, process_webhook, refund, refund_issued,
  refund_processed, refunded, set_intent,
}

abbrev is_refund : PaymentTransaction → Bool
is_refund t = not (is_charge t.type_) && is_completed t.status

-- The money of the completed refunds, and that of the ledger's refund rows.
abbrev pub refund_total : List PaymentTransaction → ℕ
refund_total [] = 0
refund_total (t ∷ l) = (if is_refund t then t.amount else 0) + refund_total l

abbrev is_issued : EventType → Bool
is_issued refund_issued = true
is_issued _ = false

abbrev pub issued_total : List FinancialEvent → ℕ
issued_total [] = 0
issued_total (e ∷ l) = (if is_issued e.type_ then neg_part e.amount else 0) + issued_total l

-- The ledger gives back what the refunds gave back.
abbrev pub IsBalanced : Payments → Type 0
IsBalanced s = refund_total s.transactions ≡ issued_total s.ledger

refund_total-append :
    (l : List PaymentTransaction) (t : PaymentTransaction)
    → refund_total (l ++ t ∷ []) ≡ refund_total l + (if is_refund t then t.amount else 0)
refund_total-append [] t = ground arith
refund_total-append (x ∷ l) t = ground (arith, refund_total-append l t)

issued_total-append :
    (l : List FinancialEvent) (e : FinancialEvent)
    → issued_total (l ++ e ∷ [])
      ≡ issued_total l + (if is_issued e.type_ then neg_part e.amount else 0)
issued_total-append [] e = ground arith
issued_total-append (x ∷ l) e = ground (arith, issued_total-append l e)

abbrev transaction_row : (now fresh k : ℕ) → RefundResponse → PaymentTransaction
transaction_row now fresh k r = record {
  id = fresh;
  intent_id = k;
  type_ = refund;
  external_ref = r.refund_ref;
  amount = r.amount;
  fees = 0;
  net_amount = none;
  status = if r.success then completed else failed;
  created_at = now;
}

abbrev ledger_row : PaymentIntent → RefundResponse → FinancialEvent
ledger_row i r = record {
  tenant_id = i.tenant_id;
  type_ = refund_issued;
  amount = sub_ℕ 0 r.amount;
  transaction_id = r.refund_ref;
  settlement_id = none;
}

lookup-change :
    (p : PaymentIntent → Bool) (f : PaymentIntent → PaymentIntent) (k : ℕ) (l : List PaymentIntent)
    (i : PaymentIntent)
    → ((x : PaymentIntent) → (f x).id ≡ x.id)
    → lookup (λ x. x.id) k l ≡ some i
    → p i ≡ true
    → lookup (λ x. x.id) k (change p f l) ≡ some (f i)
lookup-change p f k [] i h e t = cc
lookup-change p f k (x ∷ l) i h e t = elim (Bool-cases (x.id == k)) [
  | inl same_id ↦ let q : x ≡ i = ground arith in ground (arith, h x, q, t)
  | inr other_id ↦ ground (arith, h x, lookup-change p f k l i h)
]

module _ (providers : ℕ → Option Adapter) where
  set_intent-ok :
      (k : ℕ) (f : PaymentIntent → PaymentIntent) (s : Payments) (i : PaymentIntent)
      → lookup (λ x. x.id) k s.intents ≡ some i
      → set_intent lists providers k f s
        ≡ (ok tt, record s { intents = change_key (λ x. x.id) k f s.intents })
  unfolding set_intent
  set_intent-ok k f s i e = rw e refl

  abbrev paid_back : PaymentIntent → RefundResponse → Payments → Payments
  paid_back i r s = record s {
    intents = change_key (λ x. x.id) i.id (λ x. record x { status = refunded }) s.intents;
    ledger = s.ledger ++ ledger_row i r ∷ [];
    events = s.events ++ refund_processed i.id r.amount ∷ [];
  }

  issue_refund-ok :
      (i : PaymentIntent) (r : RefundResponse) (s : Payments)
      → lookup (λ x. x.id) i.id s.intents ≡ some i
      → issue_refund lists providers i r s ≡ (ok tt, paid_back i r s)
  unfolding issue_refund note_refund
  issue_refund-ok i r s e =
      >>=-ok (set_intent lists providers i.id (λ x. record x { status = refunded }))
        (λ _. note_refund lists providers i r) s tt _
        (set_intent-ok i.id (λ x. record x { status = refunded }) s i e)

  abbrev with_transaction : (now fresh k : ℕ) → RefundResponse → Payments → Payments
  with_transaction now fresh k r s = record s {
    transactions = s.transactions ++ transaction_row now fresh k r ∷ [];
  }

  abbrev refunded_state : (now fresh : ℕ) → PaymentIntent → RefundResponse → Payments → Payments
  refunded_state now fresh i r s =
      if r.success
      then paid_back i r (with_transaction now fresh i.id r s)
      else with_transaction now fresh i.id r s

  gate :
      (b : Bool) (m : Action Payments (Unit {0})) (s s' : Payments) (r : RefundResponse)
      → m s ≡ (ok tt, s')
      → (when b m >> pure r) s ≡ (ok r, if b then s' else s)
  gate true m s s' r e = >>=-ok m (λ _. pure r) s tt s' e
  gate false m s s' r e = refl

  conclude-ok :
      (now fresh : ℕ) (i : PaymentIntent) (r : RefundResponse) (s : Payments)
      → lookup (λ x. x.id) i.id s.intents ≡ some i
      → conclude_refund lists providers now fresh i r s ≡ (ok r, refunded_state now fresh i r s)
  unfolding conclude_refund
  conclude-ok now fresh i r s e =
      gate r.success (issue_refund lists providers i r) (with_transaction now fresh i.id r s)
        (paid_back i r (with_transaction now fresh i.id r s)) r
        (issue_refund-ok i r (with_transaction now fresh i.id r s) e)

  -- A request either throws and changes nothing, or the provider answered.
  data Outcome (now fresh k : ℕ) (s : Payments) : Result RefundResponse × Payments → Type 0 where
    threw : (x : Error) → Outcome now fresh k s (err x, s)
    answered :
        (i : PaymentIntent) (r : RefundResponse)
        → lookup (λ x. x.id) k s.intents ≡ some i
        → Outcome now fresh k s (ok r, refunded_state now fresh i r s)

  process_refund-Outcome :
      (now fresh k : ℕ) (amount : Option ℕ) (s : Payments)
      → Outcome now fresh k s (process_refund lists providers now fresh k amount s)
  unfolding process_refund adapter_of
  process_refund-Outcome now fresh k amount s =
      elim (Option-cases (lookup (λ x. x.id) k s.intents)) [
        | inl e ↦ rw e (threw _)
        | inr (i, e) ↦ elim (Bool-cases (is_completed i.status)) [
          | inr f ↦ rw (e, f) (threw _)
          | inl f ↦ elim (Option-cases (providers i.provider)) [
            | inl g ↦ rw (e, f, g) (threw _)
            | inr (adapter, g) ↦
                elim (Result-cases (adapter.refund i.external_id (given lists providers amount))) [
                  | inr (x, h) ↦ rw (e, f, g, h) (threw _)
                  | inl (r, h) ↦
                      rw (e, f, g, h)
                        (subst (Outcome now fresh k s)
                          (sym (
                            conclude-ok now fresh i r s (
                              subst (λ j. lookup (λ x. x.id) j s.intents ≡ some i)
                                (sym (key-lookup (λ x. x.id) k s.intents i e)) e)))
                          (answered i r e))
                ]
          ]
        ]
      ]

  Outcome-IsBalanced :
      (now fresh k : ℕ) (s : Payments) (p : Result RefundResponse × Payments)
      → IsBalanced s
      → Outcome now fresh k s p
      → IsBalanced p.1
  Outcome-IsBalanced now fresh k s p h (threw x) = h
  Outcome-IsBalanced now fresh k s p h (answered i r e) = ground (
    arith,
    refund_total-append s.transactions (transaction_row now fresh i.id r),
    issued_total-append s.ledger (ledger_row i r),
  )

-- Where the ledger's refund rows add up to the completed refunds, they still do after a call of
-- `processRefund`, whether it throws, the provider refuses or it refunds.
pub process_refund-IsBalanced :
    (db : Database) (d : IsDatabase db) (providers : ℕ → Option Adapter) (now fresh k : ℕ)
    (amount : Option ℕ) (s : Payments)
    → IsBalanced s
    → IsBalanced (process_refund db providers now fresh k amount s).1
process_refund-IsBalanced db d providers now fresh k amount s h =
    transfer (λ c. IsBalanced (process_refund c providers now fresh k amount s).1) d
      (Outcome-IsBalanced providers now fresh k s
        (process_refund lists providers now fresh k amount s) h
        (process_refund-Outcome providers now fresh k amount s))

abbrev is_referred : ℕ → ℕ → PaymentIntent → Bool
is_referred reference provider x = same x.external_id (some reference) && (x.provider == provider)

-- A refund, a webhook and the same refund again.
abbrev pub refund_webhook_refund :
    Database
    → (ℕ → Option Adapter)
    → (now later fresh fresh_later k provider payload signature : ℕ) → Option ℕ
    → Payments
    → Payments
refund_webhook_refund db providers now later fresh fresh_later k provider payload signature amount
      s =
    (process_refund db providers later fresh_later k amount
      (process_webhook db providers provider payload signature
        (process_refund db providers now fresh k amount s).1).1).1

webhook-state :
    (providers : ℕ → Option Adapter) (adapter : Adapter) (provider payload signature : ℕ)
    (w : WebhookResponse) (s : Payments)
    → providers provider ≡ some adapter
    → adapter.webhook payload signature ≡ ok w
    → w.is_success ≡ true
    → let s' = (process_webhook lists providers provider payload signature s).1 in
      (s'.transactions ≡ s.transactions)
      × (s'.intents
          ≡ change
              (is_referred w.reference provider)
              (λ x. record x { status = completed })
              s.intents)
unfolding process_webhook adapter_of
webhook-state providers adapter provider payload signature w s a b c = rw (a, b, c) (refl, refl)

module _ (providers : ℕ → Option Adapter) (adapter : Adapter) (k : ℕ) (amount : Option ℕ)
    (r : RefundResponse) where
  refund-done :
      (now fresh : ℕ) (i : PaymentIntent) (s : Payments)
      → lookup (λ x. x.id) k s.intents ≡ some i
      → is_completed i.status ≡ true
      → providers i.provider ≡ some adapter
      → adapter.refund i.external_id (given lists providers amount) ≡ ok r
      → process_refund lists providers now fresh k amount s
        ≡ (ok r, refunded_state providers now fresh i r s)
  unfolding process_refund adapter_of
  refund-done now fresh i s e f g h =
      rw (e, f, g, h)
        (conclude-ok providers now fresh i r s (
          subst (λ j. lookup (λ x. x.id) j s.intents ≡ some i)
            (sym (key-lookup (λ x. x.id) k s.intents i e)) e))

  -- One refund: the row that it adds, and the intent that it leaves.
  refund-effect :
      (now fresh : ℕ) (i : PaymentIntent) (s : Payments)
      → lookup (λ x. x.id) k s.intents ≡ some i
      → is_completed i.status ≡ true
      → providers i.provider ≡ some adapter
      → adapter.refund i.external_id (given lists providers amount) ≡ ok r
      → r.success ≡ true
      → let s' = (process_refund lists providers now fresh k amount s).1 in
        (refund_total s'.transactions ≡ refund_total s.transactions + r.amount)
        × (lookup (λ x. x.id) k s'.intents ≡ some (record i { status = refunded }))
  refund-effect now fresh i s e f g h ok_r =
      let same_id : i.id ≡ k = key-lookup (λ x. x.id) k s.intents i e in
      rw (refund-done now fresh i s e f g h) (
        rw ok_r (
          refund_total-append s.transactions
              (record (transaction_row now fresh i.id r) { status = completed }),
          subst
              (λ j.
                lookup (λ x. x.id) k
                  (change_key (λ x. x.id) j (λ x. record x { status = refunded }) s.intents)
                ≡ some (record i { status = refunded }))
              (sym same_id)
              (lookup-change_key (λ x. x.id) k k (λ x. record x { status = refunded }) s.intents
                  (λ x. refl)
                ∙ rw (==_refl k) (rw e refl)),
        ))

  refund-twice :
      (now later fresh fresh_later payload signature : ℕ) (w : WebhookResponse) (i : PaymentIntent)
      (s : Payments)
      → lookup (λ x. x.id) k s.intents ≡ some i
      → is_completed i.status ≡ true
      → providers i.provider ≡ some adapter
      → adapter.refund i.external_id (given lists providers amount) ≡ ok r
      → r.success ≡ true
      → adapter.webhook payload signature ≡ ok w
      → w.is_success ≡ true
      → i.external_id ≡ some w.reference
      → refund_total
          (refund_webhook_refund lists providers now later fresh fresh_later k i.provider payload
            signature amount s).transactions
        ≡ refund_total s.transactions + 2 * r.amount
  refund-twice now later fresh fresh_later payload signature w i s e f g h ok_r wh ws ref =
      let s' = (process_refund lists providers now fresh k amount s).1 in
      let (first_total, left) = refund-effect now fresh i s e f g h ok_r in
      let (same_rows, changed) =
        webhook-state providers adapter i.provider payload signature w s' g wh ws in
      let s'' = (process_webhook lists providers i.provider payload signature s').1 in
      let found : lookup (λ x. x.id) k s''.intents ≡ some (record i { status = completed }) =
        ap (lookup (λ x. x.id) k) changed
        ∙ lookup-change (is_referred w.reference i.provider) (λ x. record x { status = completed })
            k s'.intents (record i { status = refunded }) (λ x. refl) left (ground (arith, ref)) in
      let (second_total, _) =
        refund-effect later fresh_later (record i { status = completed }) s'' found refl g h ok_r in
      let rows = ap refund_total same_rows in omega (arith, first_total, second_total, rows)

-- A completed payment is refunded, and then a webhook of its provider reports success for its
-- reference: the same refund, where the provider accepts it as before, succeeds again, and the
-- completed refunds have grown by twice its amount.
pub refunded_twice :
    (db : Database) (d : IsDatabase db) (providers : ℕ → Option Adapter) (adapter : Adapter)
    (now later fresh fresh_later k payload signature : ℕ) (amount : Option ℕ) (r : RefundResponse)
    (w : WebhookResponse) (i : PaymentIntent) (s : Payments)
    → lookup (λ x. x.id) k s.intents ≡ some i
    → is_completed i.status ≡ true
    → providers i.provider ≡ some adapter
    → adapter.refund i.external_id (given db providers amount) ≡ ok r
    → r.success ≡ true
    → adapter.webhook payload signature ≡ ok w
    → w.is_success ≡ true
    → i.external_id ≡ some w.reference
    → refund_total
        (refund_webhook_refund db providers now later fresh fresh_later k i.provider payload
          signature amount s).transactions
      ≡ refund_total s.transactions + 2 * r.amount
refunded_twice db d providers adapter now later fresh fresh_later k payload signature amount r w i s
      e f g =
    transfer
      (λ x.
        adapter.refund i.external_id (given x providers amount) ≡ ok r
        → r.success ≡ true
        → adapter.webhook payload signature ≡ ok w
        → w.is_success ≡ true
        → i.external_id ≡ some w.reference
        → refund_total
            (refund_webhook_refund x providers now later fresh fresh_later k i.provider payload
              signature amount s).transactions
          ≡ refund_total s.transactions + 2 * r.amount)
      d
      (λ h ok_r wh ws ref.
        refund-twice providers adapter k amount r now later fresh fresh_later payload signature w i
          s e f g h ok_r wh ws ref)
