-- ===== src/Order/Transition/Money.antt =====
-- What a transition asks of the payment of its order.
use ledger_light_admin.Base.{
  ◌≡◌, ◌⊎◌, ◌==◌, ◌&&◌, inl, inr, none, some, [], Uuid, Instant, Error, ok, err, arith, find,
  filter, remove, modify, find-modify, find-remove_self, filter-remove_self,
}
use ledger_light_admin.Access.Scope.{OrganizationScope, resolve_organization_scope}
use ledger_light_admin.Store.{
  Db, OrderStatus, PaymentStatus, RefundStatus, Order, Payment, AuditContext,
}
use ledger_light_admin.Payment.Stripe.{StripeService}
use ledger_light_admin.Payment.Queries.{
  has_payment_id, is_attempt_of, write_payment_audit_log, is_order, visible_order, update_order,
  get_payment_by_id,
}
use ledger_light_admin.Payment.Reads.{Reads}
use ledger_light_admin.Payment.Sync.{
  delete_payment_for_reopen, void_at_stripe, cancel_payment_intent_for_sync, delete_attempts_of,
  delete_payment,
}
use ledger_light_admin.Order.Transition.Rules.{transition_status_moves, transition_status_outcome}
use ledger_light_admin.Order.Access.{OrderReply, attach_payment_summary}
use ledger_light_admin.Order.Transition.{
  move_to, to_fulfilled, to_cancelled, to_pending, ensure_transition_payment, assert_money_at_rest,
  release_payment, discard_payment, reopen_order, read_again, transition, transition_status,
}

-- Money was taken, or is on its way back, or is back.
pub data HasMoved (p : Payment) : Type 0 where
  paid : p.payment_status ≡ PaymentStatus.paid → HasMoved p
  refunded : p.refund_status ≡ RefundStatus.refunded → HasMoved p
  refund_requested : p.refund_status ≡ RefundStatus.requested → HasMoved p
  refund_pending : p.refund_status ≡ RefundStatus.pending → HasMoved p

-- The order is confirmed and paid, and no refund of it was begun.
pub record CanFulfil (status : OrderStatus) (p : Payment) : Type 0 where
  pub confirmed : status ≡ OrderStatus.confirmed
  pub paid : p.payment_status ≡ PaymentStatus.paid
  pub no_refund : p.refund_status ≡ RefundStatus.none

module _ (stripe : StripeService) (now : Instant) (organization : OrganizationScope)
    (order_id : Uuid) (c : AuditContext) (db : Db) {o : Order} {p : Payment}
    (reads : Reads organization order_id db o p) where
  cancel_not_ok :
      HasMoved p
      → ¬ (o.status ≡ OrderStatus.pending)
      → (reply : OrderReply)
      → ¬ (
          (transition_status stripe now organization order_id OrderStatus.cancelled c db).0
          ≡ ok reply)
  unfolding transition_status transition move_to to_cancelled ensure_transition_payment
      release_payment assert_money_at_rest get_payment_by_id
  cancel_not_ok moved status reply h =
      ground (arith, reads.order, reads.payment, reads.payment_keyed)

  reopen_not_ok :
      HasMoved p
      → (reply : OrderReply)
      → ¬ (
          (transition_status stripe now organization order_id OrderStatus.pending c db).0
          ≡ ok reply)
  unfolding transition_status transition move_to to_pending ensure_transition_payment
      discard_payment assert_money_at_rest get_payment_by_id
  reopen_not_ok moved reply h = ground (arith, reads.order, reads.payment, reads.payment_keyed)

  fulfils :
      CanFulfil o.status p
      → (reply : OrderReply) × ((transition_status stripe now organization order_id
            OrderStatus.fulfilled c db).0
          ≡ ok reply)
        × (find
              (is_order o.id o.organization_id)
              (transition_status stripe now organization order_id OrderStatus.fulfilled c
                db).1.orders
            ≡ some (record o { status = OrderStatus.fulfilled }))
  unfolding transition_status transition move_to to_fulfilled ensure_transition_payment
      get_payment_by_id update_order read_again
  fulfils can =
      let this = is_order o.id o.organization_id in
      let seen = visible_order (resolve_organization_scope organization) order_id in
      let set : Order → Order = λ q. record q { status = OrderStatus.fulfilled } in
      let e1 : find seen (modify this set db.orders) ≡ some (set o) =
        rw (find-modify seen this set (λ q. ground arith) db.orders, reads.order) (ground arith) in
      let e2 : find this (modify this set db.orders) ≡ some (set o) =
        rw (find-modify this this set (λ q. ground arith) db.orders, reads.order_keyed)
          (ground arith) in
      (
        attach_payment_summary (set o) [] (some p),
        ground (arith, reads.order, reads.payment, reads.payment_keyed, reads.order_keyed, e1, e2),
        ground (arith, reads.order, reads.payment, reads.payment_keyed, reads.order_keyed, e1, e2),
      )

  fulfil_only_if :
      (reply : OrderReply)
      → (transition_status stripe now organization order_id OrderStatus.fulfilled c db).0 ≡ ok reply
      → CanFulfil o.status p
  unfolding transition_status transition move_to to_fulfilled ensure_transition_payment
      get_payment_by_id
  fulfil_only_if reply h = ground (arith, reads.order, reads.payment, reads.payment_keyed)

-- Money that was taken, is being refunded or was refunded keeps its order: a confirmed, cancelled
-- or fulfilled order with such a payment can be neither cancelled nor reopened by a transition, which
-- fails and changes nothing.
pub paid_order_stays :
    (stripe : StripeService) (now : Instant) (organization : OrganizationScope) (order_id : Uuid)
    (to : OrderStatus) (c : AuditContext) (db : Db) {o : Order} {p : Payment}
    → Reads organization order_id db o p
    → HasMoved p
    → ¬ (o.status ≡ OrderStatus.pending)
    → (to ≡ OrderStatus.cancelled) ⊎ (to ≡ OrderStatus.pending)
    → (e : Error) × (transition_status stripe now organization order_id to c db ≡ (err e, db))
paid_order_stays stripe now organization order_id to c db reads moved placed either =
    elim (transition_status_outcome stripe now organization order_id to c db) [
      | inl (e, failed, same) ↦ (e, cc)
      | inr (reply, passed, follows) ↦ elim either [
        | inl is_cancel ↦ absurd (
            cancel_not_ok stripe now organization order_id c db reads moved placed reply
              (rw (← is_cancel) passed))
        | inr is_reopen ↦ absurd (
            reopen_not_ok stripe now organization order_id c db reads moved reply
              (rw (← is_reopen) passed))
      ]
    ]

-- An order with a payment is fulfilled exactly when it is confirmed and paid and no refund of it was
-- begun; otherwise the call fails and changes nothing.
pub fulfil_outcome :
    (stripe : StripeService) (now : Instant) (organization : OrganizationScope) (order_id : Uuid)
    (c : AuditContext) (db : Db) {o : Order} {p : Payment}
    → Reads organization order_id db o p
    → let (r, db') =
        transition_status stripe now organization order_id OrderStatus.fulfilled c db in
      CanFulfil o.status p
        × ((reply : OrderReply) × (r ≡ ok reply))
        × (find (is_order o.id o.organization_id) db'.orders
            ≡ some (record o { status = OrderStatus.fulfilled }))
      ⊎ (¬ CanFulfil o.status p) × ((e : Error) × (r ≡ err e)) × (db' ≡ db)
fulfil_outcome stripe now organization order_id c db {o} {p} reads =
    elim (transition_status_outcome stripe now organization order_id OrderStatus.fulfilled c db) [
      | inl (e, failed, same) ↦ inr (
        (λ can. cc ((fulfils stripe now organization order_id c db reads can).1)),
        (e, failed),
        same,
      )
      | inr (reply, passed, follows) ↦
          let can = fulfil_only_if stripe now organization order_id c db reads reply passed in
          let (again, runs, written) = fulfils stripe now organization order_id c db reads can in
          inl (can, (again, runs), written)
    ]

-- What is deleted with a payment.
deletes :
    (stripe : StripeService) (c : AuditContext) (db : Db) (p : Payment)
    → find (has_payment_id p.id) db.payments ≡ some p
    → let (r, db') = delete_payment_for_reopen stripe p.id c db in
      r ≡ ok tt
      → (db'.payments ≡ remove (has_payment_id p.id) db.payments)
        × (db'.attempts ≡ remove (is_attempt_of p.id) db.attempts)
        × (db'.orders ≡ db.orders)
unfolding delete_payment_for_reopen get_payment_by_id void_at_stripe cancel_payment_intent_for_sync
    delete_attempts_of delete_payment write_payment_audit_log
deletes stripe c db p keyed h = ground arith

to_pending_deletes :
    (stripe : StripeService) (o : Order) (p : Payment) (c : AuditContext) (db : Db) {db' : Db}
    → find (has_payment_id p.id) db.payments ≡ some p
    → to_pending stripe o (some p) c db ≡ (ok tt, db')
    → (db'.payments ≡ remove (has_payment_id p.id) db.payments)
      × (db'.attempts ≡ remove (is_attempt_of p.id) db.attempts)
      × (db'.orders ≡ modify (is_order o.id o.organization_id) reopen_order db.orders)
unfolding to_pending ensure_transition_payment get_payment_by_id discard_payment
    assert_money_at_rest update_order
to_pending_deletes stripe o p c db keyed h = ground (arith, deletes stripe c db p keyed)

-- An order with a payment that was reopened is pending again, without the times it was placed and
-- cancelled and otherwise as before, and the payment and every attempt to pay it are gone.
pub reopened_without_payment :
    (stripe : StripeService) (now : Instant) (organization : OrganizationScope) (order_id : Uuid)
    (c : AuditContext) (db : Db) {o : Order} {p : Payment} (reply : OrderReply)
    → Reads organization order_id db o p
    → let (r, db') = transition_status stripe now organization order_id OrderStatus.pending c db in
      r ≡ ok reply
      → (find (has_payment_id p.id) db'.payments ≡ none)
        × (filter (is_attempt_of p.id) db'.attempts ≡ [])
        × (find (λ x. x.id == o.id && x.organization_id == o.organization_id) db'.orders
            ≡ some
                (record o { status = OrderStatus.pending; placed_at = none; cancelled_at = none }))
unfolding move_to
reopened_without_payment stripe now organization order_id c db {o} {p} reply reads h =
    let moved =
      transition_status_moves stripe now organization order_id OrderStatus.pending c db reply
        reads.order h in
    let (payments, attempts, orders) =
      to_pending_deletes stripe o p c db reads.payment_keyed
        (rw (reads.payment, move_to) at moved) in
    let this = is_order o.id o.organization_id in
    (
      rw payments (find-remove_self (has_payment_id p.id) db.payments),
      rw attempts (filter-remove_self (is_attempt_of p.id) db.attempts),
      rw
          (
            orders,
            find-modify this this reopen_order (λ q. ground arith) db.orders,
            reads.order_keyed,
          )
          (ground arith),
    )
