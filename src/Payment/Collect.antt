-- ===== src/Payment/Collect.antt =====
-- The operations of payment.service.ts that collect a payment: `initiateCardPayment`,
-- `confirmCardPayment` and `markCashPaid`; and `getPaymentByOrderId`, which reads one.
pub mod Cash
pub mod Card
use ledger_light_admin.Base.{
  ℕ, Bool, true, false, not, ◌&&◌, ◌||◌, Option, none, some, List, [], ◌∷◌, String, Uuid, Instant,
  ⊤, bad_request, not_found, conflict, unique_violation, ◌==◌, if◌then◌else◌, ◌otherwise◌, find,
  any,
}
use ledger_light_admin.Access.Scope.{OrganizationScope, resolve_organization_scope}
use ledger_light_admin.Store.{
  Db, M, pure, throw, gets, or_throw, throw_if, write, fresh_id, transaction, ◌>>=◌, ◌>>◌,
  OrderStatus, PaymentStatus, RefundStatus, PaymentMethod, PaymentAttemptStatus, Order, Payment,
  PaymentAttempt, AuditField, AuditContext, payment_attempt_started, payment_paid,
}
use ledger_light_admin.Payment.Status.{
  PaymentWithAttempts, PaymentDto, payment_status_eq, refund_status_eq, to_payment_dto,
}
use ledger_light_admin.Payment.Stripe.{CreateIntentArgs, StripeService, await}
use ledger_light_admin.Payment.Queries.{
  is_confirmed, OrderWithPayment, get_payment_by_id, update_payment, write_payment_audit_log,
  get_order_with_payment, payment_or_legacy,
}
use ledger_light_admin.Payment.Sync.{
  has_attempt_id, get_reusable_attempt, apply_payment_intent_state,
}

-- `ACTIVE_REFUND_STATUSES`
abbrev pub is_active_refund : RefundStatus → Bool
is_active_refund RefundStatus.requested = true
is_active_refund RefundStatus.pending = true
is_active_refund _ = false

-- `assertRefundInactive`
abbrev pub assert_refund_inactive : Payment → M ⊤
assert_refund_inactive payment =
    throw_if (is_active_refund payment.refund_status)
      (bad_request "Refund processing is already in progress for this order")

-- `assertPaymentAcceptsCollection`
unfoldable pub assert_payment_accepts_collection : Payment → M ⊤
assert_payment_accepts_collection payment = do
  throw_if (refund_status_eq payment.refund_status RefundStatus.refunded)
      (conflict "Refunded orders cannot accept new payments")
  assert_refund_inactive payment
  throw_if (payment_status_eq payment.payment_status PaymentStatus.paid)
      (conflict "Order payment has already been completed")

-- `if (!payment || order.status !== OrderStatus.CONFIRMED) throw …`
abbrev pub require_confirmed :
    OrderStatus → Option PaymentWithAttempts → String → M PaymentWithAttempts
require_confirmed status none message = throw (bad_request message)
require_confirmed status (some payment) message =
    if is_confirmed status then pure payment else throw (bad_request message)

pub record CreateCardPaymentResponseDto : Type 0 where
  pub payment_id : Uuid
  pub attempt_id : Uuid
  pub client_secret : String
  pub payment_status : PaymentStatus
  pub attempt_status : PaymentAttemptStatus

-- `if (!paymentIntent.client_secret) throw …`: an empty secret is `none`.
abbrev pub require_secret : Option String → M String
require_secret secret =
    or_throw secret (bad_request "Stripe did not return a client secret for this payment attempt")

-- `paymentAttempt.create`; `stripePaymentIntentId` is unique.
unfoldable pub create_attempt : PaymentAttempt → M ⊤
create_attempt attempt = do
  taken ←
      gets (λ db.
        any (λ a. a.stripe_payment_intent_id == attempt.stripe_payment_intent_id) db.attempts)
  throw_if taken unique_violation
  write (λ db. record db { attempts = attempt ∷ db.attempts })

-- The arguments of the call at Stripe, with the metadata of the attempt.
abbrev pub intent_args : Order → Payment → Uuid → CreateIntentArgs
intent_args order payment attempt_id = record {
  amount_cents = payment.amount_cents;
  currency_code = payment.currency_code;
  order_id = order.id;
  organization_id = order.organization_id;
  payment_id = payment.id;
  payment_attempt_id = attempt_id;
}

-- The row of a new attempt.
abbrev pub new_attempt : Instant → Payment → Uuid → Uuid → String → PaymentAttempt
new_attempt now payment attempt_id intent_id secret = record {
  id = attempt_id;
  payment_id = payment.id;
  stripe_payment_intent_id = intent_id;
  status = PaymentAttemptStatus.pending;
  client_secret = secret;
  amount_cents = payment.amount_cents;
  currency_code = payment.currency_code;
  last_failure = none;
  created_at = now;
}

-- What `initiateCardPayment` does where no attempt can be used again.
unfoldable pub start_attempt :
    StripeService
    → Instant
    → OrderWithPayment
    → PaymentWithAttempts
    → AuditContext
    → M CreateCardPaymentResponseDto
start_attempt stripe now order payment context = do
  attempt_id ← fresh_id
  intent ← await (stripe.create_payment_intent (intent_args order.order payment.payment attempt_id))
  secret ← require_secret intent.client_secret
  create_attempt (new_attempt now payment.payment attempt_id intent.id secret)
  update_payment payment.id (λ p. record p {
    method = some PaymentMethod.card;
    payment_status = PaymentStatus.pending;
    last_payment_failure = none;
  })
  write_payment_audit_log payment.payment payment_attempt_started
      (some (
        AuditField.payment_status payment.payment_status
        ∷ AuditField.refund_status payment.refund_status
        ∷ []))
      (some (
        AuditField.payment_status PaymentStatus.pending
        ∷ AuditField.refund_status payment.refund_status
        ∷ AuditField.attempt_id (some attempt_id)
        ∷ AuditField.stripe_payment_intent_id (some intent.id)
        ∷ []))
      context
  pure (record {
    payment_id = payment.id;
    attempt_id = attempt_id;
    client_secret = secret;
    payment_status = PaymentStatus.pending;
    attempt_status = PaymentAttemptStatus.pending;
  })

-- `initiateCardPayment`
-- From the order and its payment on.
unfoldable pub collect_by_card :
    StripeService
    → Instant
    → AuditContext
    → OrderWithPayment
    → Option PaymentWithAttempts
    → M CreateCardPaymentResponseDto
collect_by_card stripe now context order found = do
  payment ← require_confirmed order.status found "Only confirmed orders can accept payments"
  assert_payment_accepts_collection payment.payment
  elim (get_reusable_attempt payment) [
    | some attempt ↦ pure (record {
      payment_id = payment.id;
      attempt_id = attempt.id;
      client_secret = attempt.client_secret;
      payment_status = payment.payment_status;
      attempt_status = attempt.status;
    })
    | none ↦ start_attempt stripe now order payment context
  ]

unfoldable pub card_payment_of :
    StripeService → Instant → AuditContext → OrderWithPayment → M CreateCardPaymentResponseDto
card_payment_of stripe now context order =
    payment_or_legacy order >>= collect_by_card stripe now context order

unfoldable pub initiate_card_payment :
    StripeService
    → Instant
    → OrganizationScope
    → Uuid
    → AuditContext
    → M CreateCardPaymentResponseDto
initiate_card_payment stripe now organization order_id context = transaction (
    get_order_with_payment (resolve_organization_scope organization) order_id
    >>= card_payment_of stripe now context)

-- `payment.attempts[0]`
abbrev pub first_attempt : List PaymentAttempt → Option PaymentAttempt
first_attempt [] = none
first_attempt (attempt ∷ older) = some attempt

-- `attempts.find((attempt) => attempt.id === id) ?? attempts[0]`
unfoldable pub attempt_or_first : Uuid → List PaymentAttempt → Option PaymentAttempt
attempt_or_first i attempts = elim (find (has_attempt_id i) attempts) [
  | some attempt ↦ some attempt
  | none ↦ first_attempt attempts
]

-- `confirmCardPayment`: the reads before the call at Stripe stand outside the transaction.
unfoldable pub confirm_card_payment :
    StripeService → Instant → OrganizationScope → Uuid → AuditContext → M PaymentDto
confirm_card_payment stripe now organization order_id context = do
  order ← get_order_with_payment (resolve_organization_scope organization) order_id
  found ← payment_or_legacy order
  payment ← or_throw found (not_found "Payment not found for order")
  latest ←
      or_throw (first_attempt payment.attempts)
        (bad_request "No card payment attempt exists for order")
  intent ← await (stripe.retrieve_payment_intent latest.stripe_payment_intent_id)
  transaction (do
    fresh ← get_payment_by_id payment.id
    attempt ←
        or_throw (attempt_or_first latest.id fresh.attempts) (not_found "Payment attempt not found")
    apply_payment_intent_state now fresh attempt intent context)

-- The transaction of `markCashPaid`.
unfoldable pub take_cash : Instant → OrganizationScope → Uuid → AuditContext → M PaymentDto
take_cash now organization order_id context = do
  order ← get_order_with_payment (resolve_organization_scope organization) order_id
  found ← payment_or_legacy order
  payment ← require_confirmed order.status found "Only confirmed orders can be marked as paid"
  assert_refund_inactive payment.payment
  throw_if (payment_status_eq payment.payment_status PaymentStatus.paid)
      (conflict "Order payment has already been completed")
  throw_if (payment_status_eq payment.payment_status PaymentStatus.pending)
      (bad_request "Cannot mark cash paid while a card payment is still in progress")
  updated ← update_payment payment.id (λ p. record p {
    method = some PaymentMethod.cash;
    payment_status = PaymentStatus.paid;
    paid_at = some (payment.paid_at otherwise now);
    last_payment_failure = none;
  })
  write_payment_audit_log payment.payment payment_paid
      (some (
        AuditField.payment_status payment.payment_status
        ∷ AuditField.refund_status payment.refund_status
        ∷ AuditField.method payment.method
        ∷ []))
      (some (
        AuditField.payment_status updated.payment_status
        ∷ AuditField.refund_status updated.refund_status
        ∷ AuditField.method updated.method
        ∷ []))
      context
  pure (to_payment_dto updated)

-- `markCashPaid`
unfoldable pub mark_cash_paid : Instant → OrganizationScope → Uuid → AuditContext → M PaymentDto
mark_cash_paid now organization order_id context =
    transaction (take_cash now organization order_id context)

-- `getPaymentByOrderId`
unfoldable pub get_payment_by_order_id : OrganizationScope → Uuid → M PaymentDto
get_payment_by_order_id organization order_id = do
  order ← get_order_with_payment (resolve_organization_scope organization) order_id
  found ← payment_or_legacy order
  payment ← or_throw found (not_found "Payment not found for order")
  pure (to_payment_dto payment)
