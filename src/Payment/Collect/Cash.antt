-- ===== src/Payment/Collect/Cash.antt =====
-- When an order can be marked as paid in cash, and what that does.
use ledger_light_admin.Base.{
  ◌≡◌, ◌⊎◌, inl, inr, none, some, [], ◌∷◌, Uuid, Instant, Error, ok, err, arith, find, modify,
  ◌otherwise◌, find-modify, Result-cases,
}
use ledger_light_admin.Access.Scope.{OrganizationScope}
use ledger_light_admin.Store.{
  Db, OrderStatus, PaymentStatus, RefundStatus, PaymentMethod, Order, Payment, AuditContext,
  AuditLog, AuditField, AuditEntityType, payment_paid,
}
use ledger_light_admin.Base.Atomic.{transaction_err}
use ledger_light_admin.Payment.Status.{PaymentDto, to_payment_dto}
use ledger_light_admin.Payment.Queries.{
  has_payment_id, with_attempts, get_order_with_payment, payment_or_legacy, update_payment,
  write_payment_audit_log,
}
use ledger_light_admin.Payment.Reads.{Reads}
use ledger_light_admin.Payment.Collect.{mark_cash_paid, take_cash}

-- The order is confirmed, and its payment neither paid, nor being paid by card, nor being refunded.
pub record CanPayCash (status : OrderStatus) (p : Payment) : Type 0 where
  pub confirmed : status ≡ OrderStatus.confirmed
  pub open_payment :
      (p.payment_status ≡ PaymentStatus.unpaid) ⊎ (p.payment_status ≡ PaymentStatus.failed)
  pub no_refund :
      (p.refund_status ≡ RefundStatus.none)
      ⊎ (p.refund_status ≡ RefundStatus.failed)
      ⊎ (p.refund_status ≡ RefundStatus.refunded)

-- The columns that are written to the row `q`, where `p` was read.
abbrev pub cash_columns : Instant → Payment → Payment → Payment
cash_columns now p q = record q {
  method = some PaymentMethod.cash;
  payment_status = PaymentStatus.paid;
  paid_at = some (p.paid_at otherwise now);
  last_payment_failure = none;
}

abbrev pub cash_paid : Instant → Payment → Payment
cash_paid now p = cash_columns now p p

-- The entry of the audit log.
abbrev pub cash_entry : Instant → Payment → AuditContext → AuditLog
cash_entry now p context = record {
  organization_id = p.organization_id;
  entity_type = AuditEntityType.payment;
  entity_id = p.id;
  action = payment_paid;
  before_json = some (
      AuditField.payment_status p.payment_status
      ∷ AuditField.refund_status p.refund_status
      ∷ AuditField.method p.method
      ∷ []);
  after_json = some (
      AuditField.payment_status PaymentStatus.paid
      ∷ AuditField.refund_status p.refund_status
      ∷ AuditField.method (some PaymentMethod.cash)
      ∷ []);
  context = context;
}

module _ (now : Instant) (organization : OrganizationScope) (order_id : Uuid)
    (context : AuditContext) (db : Db) {o : Order} {p : Payment}
    (reads : Reads organization order_id db o p) where
  paying :
      CanPayCash o.status p
      → let (r, db') = mark_cash_paid now organization order_id context db in
        (r ≡ ok (to_payment_dto (with_attempts db (cash_paid now p))))
        × (db'.payments ≡ modify (has_payment_id p.id) (cash_columns now p) db.payments)
        × (db'.audit_logs ≡ cash_entry now p context ∷ db.audit_logs)
  unfolding mark_cash_paid take_cash get_order_with_payment payment_or_legacy update_payment
      write_payment_audit_log
  paying can = ground (arith, reads.order, reads.payment, reads.payment_keyed)

  paid_only_if :
      (dto : PaymentDto)
      → (mark_cash_paid now organization order_id context db).0 ≡ ok dto
      → CanPayCash o.status p
  unfolding mark_cash_paid take_cash get_order_with_payment payment_or_legacy
  paid_only_if dto e = ground (arith, reads.order, reads.payment)

failed_unchanged :
    (now : Instant) (organization : OrganizationScope) (order_id : Uuid) (context : AuditContext)
    (db : Db) (e : Error)
    → (mark_cash_paid now organization order_id context db).0 ≡ err e
    → (mark_cash_paid now organization order_id context db).1 ≡ db
unfolding mark_cash_paid
failed_unchanged now organization order_id context db e h =
    transaction_err (take_cash now organization order_id context) db e h

-- An order with a payment can be marked as paid in cash exactly when `CanPayCash` holds. Then the
-- payment is paid, keeping an earlier time of payment, and one entry `PAYMENT_PAID` about it is
-- added to the audit log. Otherwise the call fails and the database stays as it was.
pub mark_cash_paid_outcome :
    (now : Instant) (organization : OrganizationScope) (order_id : Uuid) (context : AuditContext)
    (db : Db) {o : Order} {p : Payment}
    → Reads organization order_id db o p
    → let (r, db') = mark_cash_paid now organization order_id context db in
      CanPayCash o.status p
        × (r ≡ ok (to_payment_dto (with_attempts db (cash_paid now p))))
        × (find (has_payment_id p.id) db'.payments ≡ some (cash_paid now p))
        × (db'.audit_logs ≡ cash_entry now p context ∷ db.audit_logs)
      ⊎ (¬ CanPayCash o.status p) × ((e : Error) × (r ≡ err e)) × (db' ≡ db)
mark_cash_paid_outcome now organization order_id context db {o} {p} reads =
    elim (Result-cases (mark_cash_paid now organization order_id context db).0) [
      | inl (dto, done) ↦
          let can = paid_only_if now organization order_id context db reads dto done in
          let (reply, payments, logs) = paying now organization order_id context db reads can in
          inl (
            can,
            reply,
            rw
                (
                  payments,
                  find-modify (has_payment_id p.id) (has_payment_id p.id) (cash_columns now p)
                      (λ q. ground arith) db.payments,
                  reads.payment_keyed,
                )
                (ground arith),
            logs,
          )
      | inr (e, failed) ↦ inr (
        (λ can. cc ((paying now organization order_id context db reads can).0)),
        (e, failed),
        failed_unchanged now organization order_id context db e failed,
      )
    ]
