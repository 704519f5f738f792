-- ===== src/Payment/Queries.antt =====
-- The reads and writes of payments that payment.service.ts shares between its operations: a payment
-- with its attempts, the payment of an order, its creation, and the audit log.
use ledger_light_admin.Base.{
  Bool, true, false, ◌&&◌, Option, none, some, List, [], ◌∷◌, ℤ, Uuid, Instant, ⊤, not_found,
  record_not_found, unique_violation, ◌==◌, if◌then◌else◌, ◌otherwise◌, is_some, not, any, find,
  filter, modify,
}
use ledger_light_admin.Access.Scope.{CurrentOrg, location_scope_where}
use ledger_light_admin.Store.{
  Db, M, pure, gets, or_throw, throw_if, write, fresh_id, ◌>>=◌, ◌>>◌, OrderStatus, PaymentStatus,
  RefundStatus, Order, Payment, PaymentAttempt, AuditAction, AuditEntityType, AuditField,
  AuditContext, payment_created,
}
use ledger_light_admin.Payment.Status.{PaymentWithAttempts}

abbrev pub has_payment_id : Uuid → Payment → Bool
has_payment_id i p = p.id == i

abbrev pub is_payment_of : Uuid → Payment → Bool
is_payment_of order_id p = p.order_id == order_id

abbrev pub is_attempt_of : Uuid → PaymentAttempt → Bool
is_attempt_of payment_id a = a.payment_id == payment_id

-- `include: { attempts: { orderBy: { createdAt: 'desc' } } }`
abbrev pub with_attempts : Db → Payment → PaymentWithAttempts
with_attempts db p = record { payment = p; attempts = filter (is_attempt_of p.id) db.attempts }

-- A row that was read, with its attempts.
abbrev pub found_payment : Db → Option Payment → Option PaymentWithAttempts
found_payment db none = none
found_payment db (some p) = some (with_attempts db p)

-- `payment.findUnique({ where: { orderId } })`
unfoldable pub find_payment_of : Uuid → M (Option PaymentWithAttempts)
find_payment_of order_id = gets (λ db. found_payment db (find (is_payment_of order_id) db.payments))

-- `getPaymentByIdTx`
unfoldable pub get_payment_by_id : Uuid → M PaymentWithAttempts
get_payment_by_id payment_id = do
  payment ← gets (λ db. found_payment db (find (has_payment_id payment_id) db.payments))
  or_throw payment (not_found "Payment not found")

-- `payment.update({ where: { id }, data })`, with the attempts included.
unfoldable pub update_payment : Uuid → (Payment → Payment) → M PaymentWithAttempts
update_payment payment_id f = do
  row ← gets (λ db. find (has_payment_id payment_id) db.payments)
  p ← or_throw row record_not_found
  write (λ db. record db { payments = modify (has_payment_id payment_id) f db.payments })
  gets (λ db. with_attempts db (f p))

-- `payment.create`; `orderId` is unique.
unfoldable pub create_payment : (Uuid → Payment) → M PaymentWithAttempts
create_payment row = do
  i ← fresh_id
  taken ← gets (λ db. any (is_payment_of (row i).order_id) db.payments)
  throw_if taken unique_violation
  write (λ db. record db { payments = row i ∷ db.payments })
  gets (λ db. with_attempts db (row i))

-- `writePaymentAuditLogTx`
unfoldable pub write_payment_audit_log :
    Payment → AuditAction → Option (List AuditField) → Option (List AuditField) → AuditContext → M ⊤
write_payment_audit_log payment action before_json after_json context = write (λ db. record db {
  audit_logs =
      record {
        organization_id = payment.organization_id;
        entity_type = AuditEntityType.payment;
        entity_id = payment.id;
        action = action;
        before_json = before_json;
        after_json = after_json;
        context = context;
      }
      ∷ db.audit_logs;
})

-- The row that `createPaymentForConfirmedOrderTx` creates.
abbrev pub new_payment : Uuid → Uuid → ℤ → Instant → Uuid → Payment
new_payment order_id organization_id amount_cents order_created_at i = record {
  id = i;
  organization_id = organization_id;
  order_id = order_id;
  method = none;
  payment_status = PaymentStatus.unpaid;
  refund_status = RefundStatus.none;
  amount_cents = amount_cents;
  currency_code = "CAD";
  stripe_refund_id = none;
  paid_at = none;
  refund_requested_at = none;
  refunded_at = none;
  refund_failed_at = none;
  refund_reason = none;
  last_payment_failure = none;
  last_refund_failure = none;
  created_at = order_created_at;
}

-- `createPaymentForConfirmedOrderTx`
unfoldable pub create_payment_for_confirmed_order :
    Uuid → Uuid → ℤ → Instant → AuditContext → M PaymentWithAttempts
create_payment_for_confirmed_order order_id organization_id amount_cents order_created_at context =
    do
      existing ← find_payment_of order_id
      elim existing [
        | some payment ↦ pure payment
        | none ↦ do
          payment ←
              create_payment (new_payment order_id organization_id amount_cents order_created_at)
          write_payment_audit_log payment.payment payment_created none
              (some (
                AuditField.payment_status payment.payment_status
                ∷ AuditField.refund_status payment.refund_status
                ∷ AuditField.amount_cents payment.amount_cents
                ∷ AuditField.currency_code payment.currency_code
                ∷ []))
              context
          pure payment
      ]

abbrev pub is_pending : OrderStatus → Bool
is_pending OrderStatus.pending = true
is_pending _ = false

abbrev pub is_confirmed : OrderStatus → Bool
is_confirmed OrderStatus.confirmed = true
is_confirmed _ = false

abbrev pub is_cancelled : OrderStatus → Bool
is_cancelled OrderStatus.cancelled = true
is_cancelled _ = false

abbrev pub is_fulfilled : OrderStatus → Bool
is_fulfilled OrderStatus.fulfilled = true
is_fulfilled _ = false

-- The row that `ensureLegacyPaymentForOrderTx` creates.
abbrev pub legacy_payment : Order → Uuid → Payment
legacy_payment order i = record {
  id = i;
  organization_id = order.organization_id;
  order_id = order.id;
  method = none;
  payment_status = if is_fulfilled order.status then PaymentStatus.paid else PaymentStatus.unpaid;
  refund_status = RefundStatus.none;
  amount_cents = order.total_cents;
  currency_code = "CAD";
  stripe_refund_id = none;
  paid_at =
      if is_fulfilled order.status then some (order.placed_at otherwise order.created_at) else none;
  refund_requested_at = none;
  refunded_at = none;
  refund_failed_at = none;
  refund_reason = none;
  last_payment_failure = none;
  last_refund_failure = none;
  created_at = order.created_at;
}

-- `ensureLegacyPaymentForOrderTx`; every caller passes the same columns of an order.
unfoldable pub ensure_legacy_payment_for_order : Order → M (Option PaymentWithAttempts)
ensure_legacy_payment_for_order order = do
  existing ← find_payment_of order.id
  elim existing [
    | some payment ↦ pure (some payment)
    | none ↦
        if is_pending order.status
        then pure none
        else if is_cancelled order.status && not (is_some order.placed_at)
        then pure none
        else do payment ← create_payment (legacy_payment order); pure (some payment)
  ]

pub record OrderWithPayment : Type 0 where
  pub order : Order
  pub open order use *
  pub payment : Option PaymentWithAttempts

-- The condition `{ id, organizationId, ...getLocationScopeWhere(org) }`
abbrev pub visible_order : CurrentOrg → Uuid → Order → Bool
visible_order org order_id o =
    o.id == order_id
    && o.organization_id == org.organization_id
    && location_scope_where org o.location_id

-- `include: { payment: … }`
abbrev pub with_payment : Db → Order → OrderWithPayment
with_payment db o = record {
  order = o;
  payment = found_payment db (find (is_payment_of o.id) db.payments);
}

-- `getOrderWithPaymentTx`
unfoldable pub get_order_with_payment : CurrentOrg → Uuid → M OrderWithPayment
get_order_with_payment org order_id = do
  row ← gets (λ db. find (visible_order org order_id) db.orders)
  order ← or_throw row (not_found "Order not found for organization")
  gets (λ db. with_payment db order)

-- `order.payment ?? (await this.ensureLegacyPaymentForOrderTx(…))`
unfoldable pub payment_or_legacy : OrderWithPayment → M (Option PaymentWithAttempts)
payment_or_legacy order = elim order.payment [
  | some payment ↦ pure (some payment)
  | none ↦ ensure_legacy_payment_for_order order.order
]

-- `order.update({ where: { id_organizationId }, data })`
abbrev pub is_order : Uuid → Uuid → Order → Bool
is_order order_id organization_id o = o.id == order_id && o.organization_id == organization_id

unfoldable pub update_order : Uuid → Uuid → (Order → Order) → M Order
update_order order_id organization_id f = do
  row ← gets (λ db. find (is_order order_id organization_id) db.orders)
  order ← or_throw row record_not_found
  write (λ db. record db { orders = modify (is_order order_id organization_id) f db.orders })
  pure (f order)
