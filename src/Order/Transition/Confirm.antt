-- ===== src/Order/Transition/Confirm.antt =====
-- What confirming an order does about its payment.
use ledger_light_admin.Base.{
  ◌≡◌, none, some, Uuid, Instant, ok, arith, find, ◌⊎◌, inl, inr, Option-cases,
}
use ledger_light_admin.Access.Scope.{OrganizationScope, resolve_organization_scope}
use ledger_light_admin.Store.{
  Db, OrderStatus, PaymentStatus, RefundStatus, Order, Payment, AuditContext,
}
use ledger_light_admin.Payment.Stripe.{StripeService}
use ledger_light_admin.Payment.Queries.{
  new_payment, is_payment_of, visible_order, update_order, create_payment, find_payment_of,
  write_payment_audit_log, create_payment_for_confirmed_order,
}
use ledger_light_admin.Order.Access.{OrderReply}
use ledger_light_admin.Order.Transition.{to_confirmed, move_to, transition_status}
use ledger_light_admin.Order.Transition.Rules.{transition_status_moves}

-- A payment for the whole amount of an order, of which nothing was collected.
pub record IsDue (o : Order) (p : Payment) : Type 0 where
  pub amount : p.amount_cents ≡ o.total_cents
  pub organization : p.organization_id ≡ o.organization_id
  pub unpaid : p.payment_status ≡ PaymentStatus.unpaid
  pub no_refund : p.refund_status ≡ RefundStatus.none

to_confirmed_pays :
    (now : Instant) (o : Order) (c : AuditContext) (db : Db) {db' : Db}
    → find (is_payment_of o.id) db.payments ≡ none
    → to_confirmed now o c db ≡ (ok tt, db')
    → (p : Payment) × (find (is_payment_of o.id) db'.payments ≡ some p) × IsDue o p
unfolding to_confirmed update_order create_payment_for_confirmed_order find_payment_of
    create_payment write_payment_audit_log find
to_confirmed_pays now o c db {db'} missing h = (
  new_payment o.id o.organization_id o.total_cents o.created_at db.next_id,
  ground (arith, missing),
  ground arith,
)

-- A payment that is there already stays as it is.
to_confirmed_keeps :
    (now : Instant) (o : Order) (c : AuditContext) (db : Db) {p : Payment} {db' : Db}
    → find (is_payment_of o.id) db.payments ≡ some p
    → to_confirmed now o c db ≡ (ok tt, db')
    → db'.payments ≡ db.payments
unfolding to_confirmed update_order create_payment_for_confirmed_order find_payment_of
to_confirmed_keeps now o c db there h = ground (arith, there)

-- An order that is confirmed has a payment afterwards: the one that it had, unchanged, or else a
-- new one for its whole amount, of which nothing was collected.
pub confirmed_order_has_payment :
    (stripe : StripeService) (now : Instant) (organization : OrganizationScope) (order_id : Uuid)
    (c : AuditContext) (db : Db) {o : Order} (reply : OrderReply)
    → let seen = visible_order (resolve_organization_scope organization) order_id in
      let (r, db') =
        transition_status stripe now organization order_id OrderStatus.confirmed c db in
      find seen db.orders ≡ some o
      → r ≡ ok reply
      → (p : Payment) × (find (is_payment_of o.id) db'.payments ≡ some p)
        × ((find (is_payment_of o.id) db.payments ≡ some p)
            ⊎ (find (is_payment_of o.id) db.payments ≡ none) × IsDue o p)
unfolding move_to
confirmed_order_has_payment stripe now organization order_id c db {o} reply seen h =
    let moved =
      transition_status_moves stripe now organization order_id OrderStatus.confirmed c db reply seen
        h in
    elim (Option-cases (find (is_payment_of o.id) db.payments)) [
      | inl missing ↦
          let (p, found, due) = to_confirmed_pays now o c db missing moved in
          (p, found, inr (missing, due))
      | inr (p, there) ↦ (p, rw (to_confirmed_keeps now o c db there moved) there, inl there)
    ]
