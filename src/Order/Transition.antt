-- ===== src/Order/Transition.antt =====
-- `transitionStatus` of backend/src/domain/order/order.service.ts, and the permission that the
-- controller (order.controller.ts) asks for each new status. `now` is the value of `new Date()`.
pub mod Frames
pub mod Moves
pub mod Rules
pub mod Money
pub mod Confirm
pub mod Isolation
mod Tests
use Prim.Native.String
use ledger_light_admin.Base.{
  Bool, true, false, not, ◌&&◌, ◌||◌, Option, none, some, List, [], ◌∷◌, String, Uuid, Instant, ⊤,
  Error, bad_request, not_found, forbidden, if◌then◌else◌, ◌otherwise◌, find, any,
}
use ledger_light_admin.Access.Permissions.{
  Permission, orders_transition_confirm, orders_transition_fulfill, orders_transition_cancel,
  orders_transition_reopen,
}
use ledger_light_admin.Access.Roles.{has_permission}
use ledger_light_admin.Access.Scope.{
  CurrentOrg, OrganizationScope, current, resolve_organization_scope, to_organization_scope_input,
}
use ledger_light_admin.Store.{
  Db, M, pure, throw, gets, or_throw, throw_if, transaction, ◌>>=◌, ◌>>◌, OrderStatus,
  PaymentStatus, RefundStatus, Order, Payment, AuditContext,
}
use ledger_light_admin.Payment.Status.{PaymentWithAttempts, payment_status_eq, refund_status_eq}
use ledger_light_admin.Payment.Stripe.{StripeService}
use ledger_light_admin.Payment.Queries.{
  is_payment_of, is_confirmed, visible_order, update_order, get_payment_by_id,
  create_payment_for_confirmed_order, ensure_legacy_payment_for_order,
}
use ledger_light_admin.Payment.Sync.{cancel_active_card_attempt, delete_payment_for_reopen}
use ledger_light_admin.Payment.Collect.{is_active_refund}
use ledger_light_admin.Order.Access.{OrderReply, attach_payment_summary, payment_of}

abbrev pub order_status_eq : OrderStatus → OrderStatus → Bool
order_status_eq OrderStatus.pending OrderStatus.pending = true
order_status_eq OrderStatus.confirmed OrderStatus.confirmed = true
order_status_eq OrderStatus.cancelled OrderStatus.cancelled = true
order_status_eq OrderStatus.fulfilled OrderStatus.fulfilled = true
order_status_eq _ _ = false

-- `allowedTransitions`
abbrev pub allowed_transitions : OrderStatus → List OrderStatus
allowed_transitions OrderStatus.pending = OrderStatus.confirmed ∷ OrderStatus.cancelled ∷ []
allowed_transitions OrderStatus.confirmed = OrderStatus.fulfilled ∷ OrderStatus.cancelled ∷ []
allowed_transitions OrderStatus.cancelled = OrderStatus.pending ∷ []
allowed_transitions OrderStatus.fulfilled = []

abbrev pub status_text : OrderStatus → String
status_text OrderStatus.pending = "PENDING"
status_text OrderStatus.confirmed = "CONFIRMED"
status_text OrderStatus.cancelled = "CANCELLED"
status_text OrderStatus.fulfilled = "FULFILLED"

-- `Cannot transition from ${order.status} to ${toStatus}`
unfoldable pub cannot_transition : OrderStatus → OrderStatus → String
cannot_transition from to =
    String.◌++◌ "Cannot transition from "
      (String.◌++◌ (status_text from) (String.◌++◌ " to " (status_text to)))

-- `ensureTransitionPaymentTx`
unfoldable pub ensure_transition_payment : Order → Option Payment → M (Option PaymentWithAttempts)
ensure_transition_payment order (some payment) = do
  found ← get_payment_by_id payment.id
  pure (some found)
ensure_transition_payment order none = ensure_legacy_payment_for_order order

abbrev pub confirm_order : Instant → Order → Order
confirm_order placed o = record o {
  status = OrderStatus.confirmed;
  placed_at = some placed;
  cancelled_at = none;
}

-- `case OrderStatus.CONFIRMED`
unfoldable pub to_confirmed : Instant → Order → AuditContext → M ⊤
to_confirmed now order context = do
  update_order order.id order.organization_id (confirm_order (order.placed_at otherwise now))
  create_payment_for_confirmed_order order.id order.organization_id order.total_cents
      order.created_at context
  pure tt

-- `payment && payment.paymentStatus === PAID && payment.refundStatus === NONE`
abbrev pub is_settled : Option PaymentWithAttempts → Bool
is_settled none = false
is_settled (some payment) =
    payment_status_eq payment.payment_status PaymentStatus.paid
    && refund_status_eq payment.refund_status RefundStatus.none

abbrev pub not_settled : Error
not_settled = bad_request "Confirmed orders can only be fulfilled after payment has been completed"

-- `case OrderStatus.FULFILLED`
unfoldable pub to_fulfilled : Order → Option Payment → M ⊤
to_fulfilled order included = do
  payment ← ensure_transition_payment order included
  throw_if (not (is_settled payment)) not_settled
  update_order order.id order.organization_id (λ o. record o { status = OrderStatus.fulfilled })
  pure tt

-- The two checks that a payment passes before its order is cancelled or reopened.
unfoldable pub assert_money_at_rest : Payment → String → String → M ⊤
assert_money_at_rest payment paid_message active_message = do
  throw_if
      (payment_status_eq payment.payment_status PaymentStatus.paid
        || refund_status_eq payment.refund_status RefundStatus.refunded)
      (bad_request paid_message)
  throw_if (is_active_refund payment.refund_status) (bad_request active_message)

abbrev pub must_be_refunded : String
must_be_refunded = "Paid orders must be refunded instead of cancelled"

abbrev pub refund_blocks_cancel : String
refund_blocks_cancel = "Orders with refunds in progress cannot be cancelled"

abbrev pub cannot_be_reopened : String
cannot_be_reopened = "Paid or refunded orders cannot be reopened"

abbrev pub refund_blocks_reopen : String
refund_blocks_reopen = "Orders with refunds in progress cannot be reopened"

-- What cancelling does to the payment of a confirmed order.
unfoldable pub release_payment :
    StripeService → Instant → Option PaymentWithAttempts → AuditContext → M ⊤
release_payment stripe now none context = pure tt
release_payment stripe now (some payment) context = do
  assert_money_at_rest payment.payment must_be_refunded refund_blocks_cancel
  cancel_active_card_attempt stripe now payment.id context
  pure tt

-- `case OrderStatus.CANCELLED`
unfoldable pub to_cancelled : StripeService → Instant → Order → Option Payment → AuditContext → M ⊤
to_cancelled stripe now order included context = do
  (if is_confirmed order.status
      then ensure_transition_payment order included
        >>= (λ payment. release_payment stripe now payment context)
      else pure tt)
  update_order order.id order.organization_id
      (λ o. record o { status = OrderStatus.cancelled; cancelled_at = some now })
  pure tt

-- What reopening does to the payment.
unfoldable pub discard_payment : StripeService → Option PaymentWithAttempts → AuditContext → M ⊤
discard_payment stripe none context = pure tt
discard_payment stripe (some payment) context = do
  assert_money_at_rest payment.payment cannot_be_reopened refund_blocks_reopen
  delete_payment_for_reopen stripe payment.id context

abbrev pub reopen_order : Order → Order
reopen_order o = record o { status = OrderStatus.pending; placed_at = none; cancelled_at = none }

-- `case OrderStatus.PENDING`
unfoldable pub to_pending : StripeService → Order → Option Payment → AuditContext → M ⊤
to_pending stripe order included context = do
  payment ← ensure_transition_payment order included
  discard_payment stripe payment context
  update_order order.id order.organization_id reopen_order
  pure tt

-- The `switch` on the new status.
unfoldable pub move_to :
    OrderStatus → StripeService → Instant → Order → Option Payment → AuditContext → M ⊤
move_to OrderStatus.confirmed stripe now order included context = to_confirmed now order context
move_to OrderStatus.fulfilled stripe now order included context = to_fulfilled order included
move_to OrderStatus.cancelled stripe now order included context =
    to_cancelled stripe now order included context
move_to OrderStatus.pending stripe now order included context =
    to_pending stripe order included context

-- The order as it is read for the reply.
unfoldable pub read_again : CurrentOrg → Uuid → M OrderReply
read_again org order_id = do
  row ← gets (λ db. find (visible_order org order_id) db.orders)
  updated ← or_throw row (not_found "Order not found for organization")
  payment ← payment_of updated
  pure (attach_payment_summary updated [] payment)

-- The transaction of `transitionStatus`.
unfoldable pub transition :
    StripeService → Instant → CurrentOrg → Uuid → OrderStatus → AuditContext → M OrderReply
transition stripe now org order_id to_status context = do
  row ← gets (λ db. find (visible_order org order_id) db.orders)
  order ← or_throw row (not_found "Order not found for organization")
  included ← payment_of order
  throw_if (not (any (order_status_eq to_status) (allowed_transitions order.status)))
      (bad_request (cannot_transition order.status to_status))
  move_to to_status stripe now order included context
  read_again org order_id

-- `OrderService.transitionStatus`
unfoldable pub transition_status :
    StripeService → Instant → OrganizationScope → Uuid → OrderStatus → AuditContext → M OrderReply
transition_status stripe now organization order_id to_status context =
    transaction
      (transition stripe now (resolve_organization_scope organization) order_id to_status context)

-- `TRANSITION_PERMISSION`
abbrev pub transition_permission : OrderStatus → Permission
transition_permission OrderStatus.confirmed = orders_transition_confirm
transition_permission OrderStatus.fulfilled = orders_transition_fulfill
transition_permission OrderStatus.cancelled = orders_transition_cancel
transition_permission OrderStatus.pending = orders_transition_reopen

-- `OrderController.transitionStatus`
unfoldable pub request_transition :
    StripeService → Instant → CurrentOrg → Uuid → OrderStatus → AuditContext → M OrderReply
request_transition stripe now org order_id to_status context =
    if not (has_permission org.role (transition_permission to_status))
    then throw (forbidden "Insufficient permissions")
    else transition_status stripe now (to_organization_scope_input (current org)) order_id to_status
        context
