-- ===== src/Payment/Sync/Writes.antt =====
-- Which rows a call of `applyPaymentIntentStateTx` writes.
use ledger_light_admin.Base.{
  ◌≡◌, false, not, ◌&&◌, ok, arith, if◌then◌else◌, modify, Bool-cases, ◌⊎◌, inl, inr, Instant,
}
use ledger_light_admin.Store.{Db, Payment, PaymentAttempt, AuditContext}
use ledger_light_admin.Payment.Status.{PaymentWithAttempts, PaymentDto}
use ledger_light_admin.Payment.Queries.{has_payment_id, update_payment, write_payment_audit_log}
use ledger_light_admin.Payment.Stripe.{PaymentIntent}
use ledger_light_admin.Payment.Sync.{
  PaymentTransitionResult, log_synced, sync, update_attempt, set_intent_state, set_attempt_state,
  has_attempt_id, attempt_changed, payment_changed, map_payment_intent_state,
  apply_payment_intent_state,
}

-- Everything but the audit log is the same.
pub record SameButLogs (db db' : Db) : Type 0 where
  pub customers : db'.customers ≡ db.customers
  pub locations : db'.locations ≡ db.locations
  pub products : db'.products ≡ db.products
  pub orders : db'.orders ≡ db.orders
  pub order_items : db'.order_items ≡ db.order_items
  pub payments : db'.payments ≡ db.payments
  pub attempts : db'.attempts ≡ db.attempts
  pub receipts : db'.receipts ≡ db.receipts
  pub next_id : db'.next_id ≡ db.next_id

pub log_synced-SameButLogs :
    (p u : Payment) (c : AuditContext) (db : Db)
    → ((log_synced p u c db).0 ≡ ok tt) × SameButLogs db (log_synced p u c db).1
unfolding log_synced write_payment_audit_log
log_synced-SameButLogs p u c db = ground arith

-- The rows after a run that succeeds.
pub record Synced (db db' : Db) (p : Payment) (a : PaymentAttempt) (next : PaymentTransitionResult)
    : Type 0 where
  pub payments : db'.payments ≡ modify (has_payment_id p.id) (set_intent_state next) db.payments
  pub attempts : db'.attempts ≡ (
      if attempt_changed a next
      then modify (has_attempt_id a.id) (set_attempt_state next) db.attempts
      else db.attempts)
  pub orders : db'.orders ≡ db.orders
  pub order_items : db'.order_items ≡ db.order_items
  pub receipts : db'.receipts ≡ db.receipts

sync-Synced :
    (payment : PaymentWithAttempts) (a : PaymentAttempt) (next : PaymentTransitionResult)
    (c : AuditContext) (db : Db) {dto : PaymentDto} {db' : Db}
    → sync payment a next c db ≡ (ok dto, db')
    → Synced db db' payment.payment a next
unfolding sync update_attempt update_payment
sync-Synced payment a next c db e = grind (arith, log_synced-SameButLogs)

-- A call that succeeds finds nothing to change and writes nothing, or puts the payment and the
-- attempt in the state of the intent.
pub apply_payment_intent_state-Synced :
    (now : Instant) (payment : PaymentWithAttempts) (a : PaymentAttempt) (intent : PaymentIntent)
    (c : AuditContext) (db : Db) {dto : PaymentDto} {db' : Db}
    → apply_payment_intent_state now payment a intent c db ≡ (ok dto, db')
    → let next = map_payment_intent_state intent payment.payment now in
      ((payment_changed payment.payment next ≡ false)
        × (attempt_changed a next ≡ false)
        × (db' ≡ db))
      ⊎ Synced db db' payment.payment a next
unfolding apply_payment_intent_state
apply_payment_intent_state-Synced now payment a intent c db e =
    let next = map_payment_intent_state intent payment.payment now in
    elim (Bool-cases (not (payment_changed payment.payment next) && not (attempt_changed a next))) [
      | inl same ↦ ground arith
      | inr changed ↦
          inr (sync-Synced payment a next c db (rw (changed, apply_payment_intent_state) at e))
    ]
