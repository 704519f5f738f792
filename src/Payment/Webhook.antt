-- ===== src/Payment/Webhook.antt =====
-- The webhooks of Stripe: payment-webhook.controller.ts, and `handleWebhookPaymentIntent` and
-- `handleWebhookRefund` of payment.service.ts. That the signature of a request is checked, and the
-- event read from its body, is Stripe's library; its answer is an argument.
pub mod Replay
pub mod Repeat
use ledger_light_admin.Base.{
  ℕ, Bool, true, false, ◌||◌, Option, none, some, List, [], ◌∷◌, String, Uuid, Instant, ⊤,
  bad_request, record_not_found, ◌==◌, if◌then◌else◌, any, find, modify,
}
use ledger_light_admin.Store.{
  Db, M, pure, throw, gets, or_throw, write, transaction, ◌>>=◌, ◌>>◌, Order, Payment,
  PaymentAttempt, StripeWebhookReceipt, AuditContext,
}
use ledger_light_admin.Payment.Status.{PaymentWithAttempts}
use ledger_light_admin.Payment.Stripe.{PaymentIntent, StripeRefund}
use ledger_light_admin.Payment.Queries.{has_payment_id, with_attempts, get_payment_by_id}
use ledger_light_admin.Payment.Sync.{apply_payment_intent_state}
use ledger_light_admin.Payment.Collect.{attempt_or_first}
use ledger_light_admin.Payment.Refund.{apply_refund_state}

abbrev pub is_receipt_of : Uuid → StripeWebhookReceipt → Bool
is_receipt_of event_id r = r.stripe_event_id == event_id

abbrev pub new_receipt : Instant → Uuid → String → StripeWebhookReceipt
new_receipt now event_id event_type = record {
  stripe_event_id = event_id;
  event_type = event_type;
  received_at = now;
  processed_at = none;
}

-- `createWebhookReceiptTx`: `stripeEventId` is unique, and a violation is caught.
unfoldable pub create_webhook_receipt : Instant → Uuid → String → M Bool
create_webhook_receipt now event_id event_type = do
  taken ← gets (λ db. any (is_receipt_of event_id) db.receipts)
  (if taken
      then pure false
      else write (λ db. record db { receipts = new_receipt now event_id event_type ∷ db.receipts })
        >> pure true)

-- `markWebhookReceiptProcessedTx`
unfoldable pub mark_webhook_receipt_processed : Instant → Uuid → M ⊤
mark_webhook_receipt_processed now event_id = do
  row ← gets (λ db. find (is_receipt_of event_id) db.receipts)
  or_throw row record_not_found
  write (λ db. record db {
    receipts =
        modify (is_receipt_of event_id) (λ r. record r { processed_at = some now }) db.receipts;
  })

-- `OR: [{ <key of Stripe> }, ...(metadata ? [{ id: metadata }] : [])]`
abbrev pub matches_metadata : Option Uuid → Uuid → Bool
matches_metadata none i = false
matches_metadata (some m) i = i == m

abbrev pub attempt_of_intent : PaymentIntent → PaymentAttempt → Bool
attempt_of_intent intent a =
    a.stripe_payment_intent_id == intent.id
    || matches_metadata intent.metadata_payment_attempt_id a.id

abbrev pub payment_of_refund : StripeRefund → Payment → Bool
payment_of_refund refund p =
    refund_is refund.id p.stripe_refund_id || matches_metadata refund.metadata_payment_id p.id
  where
    refund_is : Uuid → Option Uuid → Bool
    refund_is i none = false
    refund_is i (some j) = j == i

-- `AuditContext` of a webhook: nobody acted.
abbrev pub no_context : AuditContext
no_context = record { actor_user_id = none; request_id = none; ip = none; user_agent = none }

-- The transaction of `handleWebhookPaymentIntent` once the receipt is written.
unfoldable pub process_payment_intent : Instant → PaymentIntent → M ⊤
process_payment_intent now intent = do
  row ← gets (λ db. find (attempt_of_intent intent) db.attempts)
  elim row [
    | none ↦ pure tt
    | some attempt ↦ do
      payment ← get_payment_by_id attempt.payment_id
      elim (attempt_or_first attempt.id payment.attempts) [
        | none ↦ pure tt
        | some fresh ↦ apply_payment_intent_state now payment fresh intent no_context >> pure tt
      ]
  ]

-- `include: { attempts, order: true }`: the order of a payment, which a foreign key requires.
unfoldable pub order_of : Db → Payment → Option Order
order_of db p = find (λ o. o.id == p.order_id) db.orders

-- The transaction of `handleWebhookRefund` once the receipt is written.
unfoldable pub process_refund : Instant → StripeRefund → M ⊤
process_refund now refund = do
  row ← gets (λ db. find (payment_of_refund refund) db.payments)
  elim row [
    | none ↦ pure tt
    | some p ↦ do
      payment ← gets (λ db. with_attempts db p)
      found ← gets (λ db. order_of db p)
      order ← or_throw found record_not_found
      apply_refund_state now order payment refund no_context
      pure tt
  ]

-- The body of a handler's transaction: an event that has a receipt is not processed again.
unfoldable pub unless_received : Instant → Uuid → String → M ⊤ → M ⊤
unless_received now event_id event_type process = do
  should_process ← create_webhook_receipt now event_id event_type
  (if should_process then process >> mark_webhook_receipt_processed now event_id else pure tt)

unfoldable pub once : Instant → Uuid → String → M ⊤ → M ⊤
once now event_id event_type process = transaction (unless_received now event_id event_type process)

-- `handleWebhookPaymentIntent` and `handleWebhookRefund`
unfoldable pub handle_webhook_payment_intent : Instant → Uuid → String → PaymentIntent → M ⊤
handle_webhook_payment_intent now event_id event_type intent =
    once now event_id event_type (process_payment_intent now intent)

unfoldable pub handle_webhook_refund : Instant → Uuid → String → StripeRefund → M ⊤
handle_webhook_refund now event_id event_type refund =
    once now event_id event_type (process_refund now refund)

-- `event.type` with `event.data.object`, as far as the controller looks at it.
pub data WebhookEvent : Type 0 where
  intent_succeeded intent_payment_failed intent_processing intent_canceled :
      Uuid → PaymentIntent → WebhookEvent
  refund_created refund_updated refund_failed : Uuid → StripeRefund → WebhookEvent
  other : WebhookEvent

-- `event.id`, of the events that are processed.
abbrev pub event_id : WebhookEvent → Option Uuid
event_id (intent_succeeded i intent) = some i
event_id (intent_payment_failed i intent) = some i
event_id (intent_processing i intent) = some i
event_id (intent_canceled i intent) = some i
event_id (refund_created i refund) = some i
event_id (refund_updated i refund) = some i
event_id (refund_failed i refund) = some i
event_id other = none

-- `handleStripeWebhook`: whether the header and the raw body are there, and the event that
-- `constructWebhookEvent` makes of them, or `none` where it throws.
unfoldable pub handle_stripe_webhook : Instant → Bool → Bool → Option WebhookEvent → M ⊤
handle_stripe_webhook now false has_body event = throw (bad_request "Missing Stripe signature")
handle_stripe_webhook now true false event = throw (bad_request "Missing Stripe webhook payload")
handle_stripe_webhook now true true none = throw (bad_request "Invalid Stripe webhook signature")
handle_stripe_webhook now true true (some event) = elim event [
  | intent_succeeded i intent ↦
      handle_webhook_payment_intent now i "payment_intent.succeeded" intent
  | intent_payment_failed i intent ↦
      handle_webhook_payment_intent now i "payment_intent.payment_failed" intent
  | intent_processing i intent ↦
      handle_webhook_payment_intent now i "payment_intent.processing" intent
  | intent_canceled i intent ↦ handle_webhook_payment_intent now i "payment_intent.canceled" intent
  | refund_created i refund ↦ handle_webhook_refund now i "refund.created" refund
  | refund_updated i refund ↦ handle_webhook_refund now i "refund.updated" refund
  | refund_failed i refund ↦ handle_webhook_refund now i "refund.failed" refund
  | other ↦ pure tt
]
