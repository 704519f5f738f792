-- ===== src/Order/Transition/Tests.antt =====
-- The theorems about transitions at sample rows.
use ledger_light_admin.Base.{
  ◌≡◌, refl, ◌⊎◌, inl, true, none, some, [], ◌∷◌, pos, Error, ok, err, find, filter, modify, remove,
  arith,
}
use ledger_light_admin.Access.Roles.{manager, has_permission}
use ledger_light_admin.Access.Scope.{
  current, location_scope_where, resolve_organization_scope, to_organization_scope_input,
}
use ledger_light_admin.Store.{Db, OrderStatus, PaymentStatus, RefundStatus, PaymentMethod, Payment}
use ledger_light_admin.Payment.Status.{to_payment_summary_dto}
use ledger_light_admin.Payment.Sync.{
  delete_payment_for_reopen, void_at_stripe, get_reusable_attempt, reusable_of,
  cancel_payment_intent_for_sync, delete_attempts_of, delete_payment,
}
use ledger_light_admin.Payment.Queries.{
  new_payment, is_payment_of, visible_order, create_payment_for_confirmed_order, find_payment_of,
  create_payment, get_payment_by_id, write_payment_audit_log, update_order, has_payment_id,
  is_attempt_of, is_order,
}
use ledger_light_admin.Payment.Reads.{Reads}
use ledger_light_admin.Order.Access.{OrderReply, attach_payment_summary}
use ledger_light_admin.Order.Transition.{
  ensure_transition_payment, discard_payment, assert_money_at_rest, read_again, transition, move_to,
  to_pending, to_confirmed, transition_permission, transition_status, request_transition,
  reopen_order,
}
use ledger_light_admin.Order.Transition.Rules.{Follows, request_transition_outcome}
use ledger_light_admin.Order.Transition.Money.{
  paid, CanFulfil, paid_order_stays, fulfil_outcome, reopened_without_payment,
}
use ledger_light_admin.Order.Transition.Confirm.{IsDue, confirmed_order_has_payment}
use ledger_light_admin.Order.Transition.Isolation.{
  is_foreign, transition_leaves_other_organizations,
}
use ledger_light_admin.Samples.{
  lead, paid_payment, paid_db, open_db, shop, order_in, payment_in, attempt, db_of, nobody,
  obliging,
}

paid-Reads : Reads shop 10 paid_db (order_in OrderStatus.confirmed) paid_payment
unfolding find resolve_organization_scope location_scope_where
paid-Reads = record { order = refl; payment = refl; order_keyed = refl; payment_keyed = refl }

request_transition_outcome_example :
    let (r, db') = request_transition obliging 8 lead 10 OrderStatus.fulfilled nobody paid_db in
    ((e : Error) × (r ≡ err e) × (db' ≡ paid_db))
    ⊎ (reply : OrderReply) × (r ≡ ok reply)
      × (has_permission manager (transition_permission OrderStatus.fulfilled) ≡ true)
      × Follows
          (resolve_organization_scope (to_organization_scope_input (current lead)))
          10
          OrderStatus.fulfilled
          paid_db
          db'
          reply
request_transition_outcome_example =
    request_transition_outcome obliging 8 lead 10 OrderStatus.fulfilled nobody paid_db

paid_order_stays_example :
    (e : Error) × (transition_status obliging 8 shop 10 OrderStatus.cancelled nobody paid_db
      ≡ (err e, paid_db))
paid_order_stays_example =
    paid_order_stays obliging 8 shop 10 OrderStatus.cancelled nobody paid_db paid-Reads (paid refl)
      (λ e. ground arith) (inl refl)

fulfil_outcome_example :
    let (r, db') = transition_status obliging 8 shop 10 OrderStatus.fulfilled nobody paid_db in
    CanFulfil OrderStatus.confirmed paid_payment
      × ((reply : OrderReply) × (r ≡ ok reply))
      × (find (is_order 10 1) db'.orders ≡ some (order_in OrderStatus.fulfilled))
    ⊎ (¬ CanFulfil OrderStatus.confirmed paid_payment)
      × ((e : Error) × (r ≡ err e))
      × (db' ≡ paid_db)
fulfil_outcome_example = fulfil_outcome obliging 8 shop 10 nobody paid_db paid-Reads

-- An order that was cancelled after a card payment was begun, and is reopened.
abbrev begun_payment : Payment
begun_payment = payment_in (some PaymentMethod.card) PaymentStatus.pending RefundStatus.none

abbrev cancelled_db : Db
cancelled_db = db_of (order_in OrderStatus.cancelled) (begun_payment ∷ []) (attempt ∷ [])

cancelled-Reads : Reads shop 10 cancelled_db (order_in OrderStatus.cancelled) begun_payment
unfolding find resolve_organization_scope location_scope_where
cancelled-Reads = record { order = refl; payment = refl; order_keyed = refl; payment_keyed = refl }

-- Here Stripe cancels the attempt.
abbrev reopened_reply : OrderReply
reopened_reply = record {
  order = reopen_order (order_in OrderStatus.cancelled);
  items = [];
  payment = none;
}

reopens :
    (transition_status obliging 8 shop 10 OrderStatus.pending nobody cancelled_db).0
    ≡ ok reopened_reply
unfolding transition_status transition move_to to_pending find filter modify remove
    resolve_organization_scope location_scope_where ensure_transition_payment get_payment_by_id
    discard_payment assert_money_at_rest delete_payment_for_reopen void_at_stripe
    get_reusable_attempt reusable_of cancel_payment_intent_for_sync delete_attempts_of
    delete_payment write_payment_audit_log update_order read_again attach_payment_summary
    to_payment_summary_dto
reopens = refl

reopened_without_payment_example :
    let (r, db') = transition_status obliging 8 shop 10 OrderStatus.pending nobody cancelled_db in
    (find (has_payment_id 20) db'.payments ≡ none)
    × (filter (is_attempt_of 20) db'.attempts ≡ [])
    × (find (is_order 10 1) db'.orders ≡ some (reopen_order (order_in OrderStatus.cancelled)))
reopened_without_payment_example =
    reopened_without_payment obliging 8 shop 10 nobody cancelled_db reopened_reply cancelled-Reads
      reopens

transition_leaves_other_organizations_example :
    let db' = (transition_status obliging 8 shop 10 OrderStatus.fulfilled nobody paid_db).1 in
    filter (is_foreign shop) db'.orders ≡ filter (is_foreign shop) paid_db.orders
transition_leaves_other_organizations_example =
    transition_leaves_other_organizations obliging 8 shop 10 OrderStatus.fulfilled nobody paid_db

confirms :
    (transition_status obliging 8 shop 10 OrderStatus.confirmed nobody open_db).0
    ≡ ok (record {
      order = order_in OrderStatus.confirmed;
      items = [];
      payment = to_payment_summary_dto (some (new_payment 10 1 (pos 2000) 3 100));
    })
unfolding transition_status transition move_to to_confirmed find filter modify
    resolve_organization_scope location_scope_where update_order create_payment_for_confirmed_order
    find_payment_of create_payment write_payment_audit_log read_again attach_payment_summary
confirms = refl

open_seen :
    find (visible_order (resolve_organization_scope shop) 10) open_db.orders
    ≡ some (order_in OrderStatus.pending)
unfolding find resolve_organization_scope location_scope_where
open_seen = refl

confirmed_order_has_payment_example :
    let db' = (transition_status obliging 8 shop 10 OrderStatus.confirmed nobody open_db).1 in
    (p : Payment) × (find (is_payment_of 10) db'.payments ≡ some p)
    × ((find (is_payment_of 10) open_db.payments ≡ some p)
        ⊎ (find (is_payment_of 10) open_db.payments ≡ none)
          × IsDue (order_in OrderStatus.pending) p)
confirmed_order_has_payment_example =
    confirmed_order_has_payment obliging 8 shop 10 nobody open_db
      (record {
        order = order_in OrderStatus.confirmed;
        items = [];
        payment = to_payment_summary_dto (some (new_payment 10 1 (pos 2000) 3 100));
      })
      open_seen confirms
