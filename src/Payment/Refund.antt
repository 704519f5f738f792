-- ===== src/Payment/Refund.antt =====
-- The refunds of payment.service.ts: `refundPayment`, and the part of it that brings a payment to
-- the state of its refund at Stripe, which the webhook uses too.
pub mod Rules
use ledger_light_admin.Base.{
  ℕ, Bool, true, false, not, ◌&&◌, ◌||◌, Option, none, some, List, [], ◌∷◌, String, Uuid, Instant,
  ⊤, Result, ok, err, bad_request, not_found, conflict, if◌then◌else◌, ◌otherwise◌, eq_option,
  eq_text, find, any, ◌==◌, unique_violation,
}
use ledger_light_admin.Access.Scope.{CurrentOrg, OrganizationScope, resolve_organization_scope}
use ledger_light_admin.Store.{
  Db, M, pure, throw, gets, or_throw, throw_if, transaction, ◌>>=◌, ◌>>◌, OrderStatus,
  PaymentStatus, RefundStatus, PaymentMethod, PaymentAttemptStatus, Order, Payment, PaymentAttempt,
  AuditField, AuditContext, payment_refund_requested, payment_refunded, payment_refund_failed,
}
use ledger_light_admin.Payment.Status.{
  PaymentWithAttempts, PaymentDto, payment_status_eq, refund_status_eq, attempt_status_eq, is_cash,
  to_payment_dto,
}
use ledger_light_admin.Payment.Stripe.{
  StripeRefundStatus, StripeRefund, StripeService, Answer, answered, thrown,
}
use ledger_light_admin.Payment.Queries.{
  is_confirmed, is_fulfilled, OrderWithPayment, get_payment_by_id, update_payment,
  write_payment_audit_log, get_order_with_payment, payment_or_legacy, update_order,
}
use ledger_light_admin.Payment.Collect.{is_active_refund}

pub record RefundTransitionResult : Type 0 where
  pub refund_status : RefundStatus
  pub last_failure : Option String
  pub refunded_at : Option Instant
  pub refund_failed_at : Option Instant

-- `mapRefundState`
refund_state : StripeRefundStatus → StripeRefund → Payment → Instant → RefundTransitionResult
refund_state StripeRefundStatus.succeeded refund payment now = record {
  refund_status = RefundStatus.refunded;
  last_failure = none;
  refunded_at = some (payment.refunded_at otherwise now);
  refund_failed_at = none;
}
refund_state StripeRefundStatus.failed refund payment now = record {
  refund_status = RefundStatus.failed;
  last_failure = some (refund.failure_reason otherwise "Refund failed");
  refunded_at = none;
  refund_failed_at = some now;
}
refund_state StripeRefundStatus.canceled refund payment now = record {
  refund_status = RefundStatus.failed;
  last_failure = some (refund.failure_reason otherwise "Refund was canceled");
  refunded_at = none;
  refund_failed_at = some now;
}
refund_state _ refund payment now = record {
  refund_status = RefundStatus.pending;
  last_failure = none;
  refunded_at = none;
  refund_failed_at = none;
}

unfoldable pub map_refund_state : StripeRefund → Payment → Instant → RefundTransitionResult
unfolding refund_state
map_refund_state refund payment now = refund_state refund.status refund payment now

abbrev pub refund_changed : Payment → RefundTransitionResult → Uuid → Bool
refund_changed payment next refund_id =
    not (refund_status_eq payment.refund_status next.refund_status)
    || not (eq_text payment.last_refund_failure next.last_failure)
    || not (eq_option payment.refunded_at next.refunded_at)
    || not (eq_option payment.refund_failed_at next.refund_failed_at)
    || not (eq_option payment.stripe_refund_id (some refund_id))

abbrev pub set_refund_state : RefundTransitionResult → Uuid → Payment → Payment
set_refund_state next refund_id p = record p {
  refund_status = next.refund_status;
  stripe_refund_id = some refund_id;
  refunded_at = next.refunded_at;
  refund_failed_at = next.refund_failed_at;
  last_refund_failure = next.last_failure;
}

abbrev pub set_cancelled : Instant → Order → Order
set_cancelled now o = record o { status = OrderStatus.cancelled; cancelled_at = some now }

-- A refunded order that was only confirmed becomes cancelled.
unfoldable pub cancel_refunded_order : Instant → Order → RefundStatus → M ⊤
cancel_refunded_order now order status =
    if refund_status_eq status RefundStatus.refunded && is_confirmed order.status
    then update_order order.id order.organization_id (set_cancelled now) >> pure tt
    else pure tt

-- The audit logs of `applyRefundStateTx`.
unfoldable pub log_refund : Payment → Payment → AuditContext → M ⊤
log_refund payment updated context =
    if refund_status_eq payment.refund_status updated.refund_status
    then pure tt
    else if refund_status_eq updated.refund_status RefundStatus.refunded
    then write_payment_audit_log payment payment_refunded
        (some (AuditField.refund_status payment.refund_status ∷ []))
        (some (AuditField.refund_status updated.refund_status ∷ [])) context
    else if refund_status_eq updated.refund_status RefundStatus.failed
    then write_payment_audit_log payment payment_refund_failed
        (some (AuditField.refund_status payment.refund_status ∷ []))
        (some (
          AuditField.refund_status updated.refund_status
          ∷ AuditField.last_refund_failure updated.last_refund_failure
          ∷ []))
        context
    else pure tt

-- The key of a refund at Stripe is unique among the payments.
abbrev pub has_other_refund : Uuid → Uuid → Payment → Bool
has_other_refund payment_id refund_id p =
    not (p.id == payment_id) && eq_option p.stripe_refund_id (some refund_id)

-- The update of `applyRefundStateTx`.
unfoldable pub save_refund_state : Uuid → RefundTransitionResult → Uuid → M PaymentWithAttempts
save_refund_state payment_id next refund_id = do
  taken ← gets (λ db. any (has_other_refund payment_id refund_id) db.payments)
  throw_if taken unique_violation
  update_payment payment_id (set_refund_state next refund_id)

-- `applyRefundStateTx`
unfoldable pub apply_refund_state :
    Instant → Order → PaymentWithAttempts → StripeRefund → AuditContext → M PaymentDto
apply_refund_state now order payment refund context = do
  let next = map_refund_state refund payment.payment now
  updated ←
      (if refund_changed payment.payment next refund.id
        then save_refund_state payment.id next refund.id
        else pure payment)
  cancel_refunded_order now order updated.refund_status
  log_refund payment.payment updated.payment context
  pure (to_payment_dto updated)

-- `assertPaymentCanRefund`
unfoldable pub assert_payment_can_refund : OrderStatus → Payment → M ⊤
assert_payment_can_refund status payment = do
  throw_if (not (is_confirmed status) && not (is_fulfilled status))
      (bad_request "Only confirmed or fulfilled orders can be refunded")
  throw_if (not (payment_status_eq payment.payment_status PaymentStatus.paid))
      (bad_request "Only paid orders can be refunded")
  throw_if (refund_status_eq payment.refund_status RefundStatus.refunded)
      (conflict "Order payment has already been refunded")
  throw_if (is_active_refund payment.refund_status) (conflict "A refund is already in progress")

-- `markRefundRequestedTx`
unfoldable pub mark_refund_requested :
    Instant → PaymentWithAttempts → String → AuditContext → M PaymentWithAttempts
mark_refund_requested now payment refund_reason context = do
  requested ← update_payment payment.id (λ p. record p {
    refund_status = RefundStatus.requested;
    refund_requested_at = some now;
    refund_reason = some refund_reason;
    last_refund_failure = none;
    refund_failed_at = none;
  })
  (if refund_status_eq payment.refund_status RefundStatus.requested
      then pure tt
      else write_payment_audit_log payment.payment payment_refund_requested
          (some (AuditField.refund_status payment.refund_status ∷ []))
          (some (
            AuditField.refund_status requested.refund_status
            ∷ AuditField.refund_reason (some refund_reason)
            ∷ []))
          context)
  pure requested

-- The transaction of a cash refund.
unfoldable pub refund_cash :
    Instant → CurrentOrg → Uuid → Uuid → String → AuditContext → M PaymentDto
refund_cash now org order_id payment_id refund_reason context = transaction (do
  order ← get_order_with_payment org order_id
  payment ← get_payment_by_id payment_id
  mark_refund_requested now payment refund_reason context
  refunded ← update_payment payment.id (λ p. record p {
    refund_status = RefundStatus.refunded;
    refunded_at = some now;
    last_refund_failure = none;
  })
  cancel_refunded_order now order.order RefundStatus.refunded
  write_payment_audit_log payment.payment payment_refunded
      (some (AuditField.refund_status RefundStatus.requested ∷ []))
      (some (AuditField.refund_status refunded.refund_status ∷ [])) context
  pure (to_payment_dto refunded))

-- `getStripeFailureMessage`
abbrev pub get_stripe_failure_message : Option String → String → String
get_stripe_failure_message message fallback = message otherwise fallback

-- The transaction that records that Stripe refused the refund.
unfoldable pub record_refund_failure : Instant → Uuid → String → AuditContext → M PaymentDto
record_refund_failure now payment_id failure_message context = transaction (do
  payment ← get_payment_by_id payment_id
  updated ← update_payment payment.id (λ p. record p {
    refund_status = RefundStatus.failed;
    last_refund_failure = some failure_message;
    refund_failed_at = some now;
  })
  write_payment_audit_log payment.payment payment_refund_failed
      (some (AuditField.refund_status payment.refund_status ∷ []))
      (some (
        AuditField.refund_status updated.refund_status
        ∷ AuditField.last_refund_failure updated.last_refund_failure
        ∷ []))
      context
  pure (to_payment_dto updated))

abbrev pub has_succeeded : PaymentAttempt → Bool
has_succeeded attempt = attempt_status_eq attempt.status PaymentAttemptStatus.succeeded

-- What `refundPayment` does after the call at Stripe.
unfoldable pub settle_refund :
    Instant → CurrentOrg → Uuid → Uuid → AuditContext → Answer StripeRefund → M PaymentDto
settle_refund now org order_id payment_id context (thrown message) =
    record_refund_failure now payment_id
      (get_stripe_failure_message message "Unable to create Stripe refund") context
settle_refund now org order_id payment_id context (answered refund) = transaction (do
  order ← get_order_with_payment org order_id
  payment ← get_payment_by_id payment_id
  apply_refund_state now order.order payment refund context)

-- A card refund: one transaction before the call at Stripe (at `now`), and one after it (`later`).
unfoldable pub refund_card :
    StripeService
    → Instant
    → Instant
    → CurrentOrg
    → Uuid
    → OrderWithPayment
    → PaymentWithAttempts
    → String
    → AuditContext
    → M PaymentDto
refund_card stripe now later org order_id order payment refund_reason context = do
  attempt ←
      or_throw (find has_succeeded payment.attempts)
        (bad_request "Card refunds require a successful payment attempt")
  transaction (do
    fresh ← get_payment_by_id payment.id
    mark_refund_requested now fresh refund_reason context)
  settle_refund later org order_id payment.id context (
      stripe.create_refund (record {
        payment_intent_id = attempt.stripe_payment_intent_id;
        order_id = order.id;
        organization_id = order.organization_id;
        payment_id = payment.id;
      }))

-- `refundPayment`
unfoldable pub refund_payment :
    StripeService
    → Instant
    → Instant
    → OrganizationScope
    → Uuid
    → String
    → AuditContext
    → M PaymentDto
refund_payment stripe now later organization order_id refund_reason context = do
  let org = resolve_organization_scope organization
  order ← get_order_with_payment org order_id
  found ← payment_or_legacy order
  payment ← or_throw found (not_found "Payment not found for order")
  assert_payment_can_refund order.status payment.payment
  (if is_cash payment.method
      then refund_cash now org order_id payment.id refund_reason context
      else refund_card stripe now later org order_id order payment refund_reason context)
