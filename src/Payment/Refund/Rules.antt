-- ===== src/Payment/Refund/Rules.antt =====
-- When a refund may begin, and what a cash refund does.
use ledger_light_admin.Base.{
  ◌≡◌, ◌==◌, ◌&&◌, ◌↔◌, ◌⊎◌, none, some, String, Uuid, Instant, ok, arith, find, modify,
  find-modify,
}
use ledger_light_admin.Access.Scope.{OrganizationScope, resolve_organization_scope}
use ledger_light_admin.Store.{
  Db, OrderStatus, PaymentStatus, RefundStatus, PaymentMethod, Order, Payment, AuditContext,
}
use ledger_light_admin.Payment.Status.{to_payment_dto}
use ledger_light_admin.Payment.Stripe.{StripeService}
use ledger_light_admin.Payment.Queries.{
  has_payment_id, is_order, with_attempts, get_payment_by_id, get_order_with_payment,
  payment_or_legacy, update_payment, update_order, write_payment_audit_log,
}
use ledger_light_admin.Payment.Reads.{Reads}
use ledger_light_admin.Payment.Refund.{
  assert_payment_can_refund, refund_payment, refund_cash, mark_refund_requested,
  cancel_refunded_order, set_cancelled,
}

-- A refund may begin for a paid payment of a confirmed or fulfilled order, unless it is refunded or
-- a refund is under way; a refund that failed may be tried again.
pub record IsRefundable (status : OrderStatus) (p : Payment) : Type 0 where
  pub placed : (status ≡ OrderStatus.confirmed) ⊎ (status ≡ OrderStatus.fulfilled)
  pub paid : p.payment_status ≡ PaymentStatus.paid
  pub at_rest : (p.refund_status ≡ RefundStatus.none) ⊎ (p.refund_status ≡ RefundStatus.failed)

assert_payment_can_refund_iff :
    (status : OrderStatus) (p : Payment) (db : Db)
    → (assert_payment_can_refund status p db ≡ (ok tt, db)) ↔ IsRefundable status p
unfolding assert_payment_can_refund
assert_payment_can_refund_iff status p db = ground arith

-- The columns of a cash refund: requested and refunded at the same time.
abbrev pub cash_refunded : Instant → String → Payment → Payment
cash_refunded now reason p = record p {
  refund_status = RefundStatus.refunded;
  refund_requested_at = some now;
  refund_reason = some reason;
  refunded_at = some now;
  last_refund_failure = none;
  refund_failed_at = none;
}

-- The order of a refunded payment: cancelled, if it was only confirmed.
abbrev pub order_refunded : Instant → Order → Order
order_refunded now o = cancelled_from o.status
  where
    cancelled_from : OrderStatus → Order
    cancelled_from OrderStatus.confirmed = record o {
      status = OrderStatus.cancelled;
      cancelled_at = some now;
    }
    cancelled_from other = o

-- A refund of a cash payment that may begin.
module _ (stripe : StripeService) (now later : Instant) (organization : OrganizationScope)
    (order_id : Uuid) (reason : String) (context : AuditContext) (db : Db) {o : Order} {p : Payment}
    (reads : Reads organization order_id db o p) (refundable : IsRefundable o.status p)
    (in_cash : p.method ≡ some PaymentMethod.cash) where
  refund_cash_completes :
      let org = resolve_organization_scope organization in
      let (r, db') = refund_cash now org order_id p.id reason context db in
      (r ≡ ok (to_payment_dto (with_attempts db (cash_refunded now reason p))))
      × (find (has_payment_id p.id) db'.payments ≡ some (cash_refunded now reason p))
      × (find (is_order o.id o.organization_id) db'.orders ≡ some (order_refunded now o))
  unfolding refund_cash get_order_with_payment get_payment_by_id mark_refund_requested
      update_payment cancel_refunded_order update_order write_payment_audit_log
  refund_cash_completes =
      let mine = has_payment_id p.id in
      let request : Payment → Payment = λ q. record q {
        refund_status = RefundStatus.requested;
        refund_requested_at = some now;
        refund_reason = some reason;
        last_refund_failure = none;
        refund_failed_at = none;
      } in
      let settle : Payment → Payment = λ q. record q {
        refund_status = RefundStatus.refunded;
        refunded_at = some now;
        last_refund_failure = none;
      } in
      let requested = modify mine request db.payments in
      let e1 : find mine requested ≡ some (request p) =
        rw (find-modify mine mine request (λ q. ground arith) db.payments, reads.payment_keyed)
          (ground arith) in
      let e2 : find mine (modify mine settle requested) ≡ some (settle (request p)) =
        rw (find-modify mine mine settle (λ q. ground arith) requested, e1) (ground arith) in
      let this = is_order o.id o.organization_id in
      let e3 : find this (modify this (set_cancelled now) db.orders) ≡ some (set_cancelled now o) =
        rw
          (
            find-modify this this (set_cancelled now) (λ q. ground arith) db.orders,
            reads.order_keyed,
          )
          (ground arith) in
      ground (arith, reads.order, reads.payment_keyed, reads.order_keyed, e1, e2, e3)

  cash_refund_runs :
      refund_payment stripe now later organization order_id reason context db
      ≡ refund_cash now (resolve_organization_scope organization) order_id p.id reason context db
  unfolding refund_payment get_order_with_payment payment_or_legacy
  cash_refund_runs =
      let passed = (assert_payment_can_refund_iff o.status p db).1 refundable in
      ground (arith, reads.order, reads.payment, in_cash, passed)

-- A refund of a cash payment that may begin succeeds at once, whatever Stripe would answer: the
-- payment is refunded, with the reason and both times, and an order that was only confirmed is
-- cancelled, while a fulfilled one stays as it is.
pub cash_refund_settles :
    (stripe : StripeService) (now later : Instant) (organization : OrganizationScope)
    (order_id : Uuid) (reason : String) (context : AuditContext) (db : Db) {o : Order} {p : Payment}
    → Reads organization order_id db o p
    → IsRefundable o.status p
    → p.method ≡ some PaymentMethod.cash
    → let (r, db') = refund_payment stripe now later organization order_id reason context db in
      (r ≡ ok (to_payment_dto (with_attempts db (cash_refunded now reason p))))
      × (find (λ (x : Payment). x.id == p.id) db'.payments ≡ some (cash_refunded now reason p))
      × (find (λ (x : Order). x.id == o.id && x.organization_id == o.organization_id) db'.orders
          ≡ some (order_refunded now o))
cash_refund_settles stripe now later organization order_id reason context db reads ok_to cash =
    rw (cash_refund_runs stripe now later organization order_id reason context db reads ok_to cash)
      (refund_cash_completes stripe now later organization order_id reason context db reads ok_to
        cash)
