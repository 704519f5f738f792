-- ===== src/Order/Transition/Moves.antt =====
-- What each move of a transition writes to the table of orders.
use ledger_light_admin.Base.{
  ◌≡◌, ◌∙◌, ap, Bool, true, false, not, Option, some, Uuid, Instant, ⊤, ok, arith, if◌then◌else◌,
  ◌otherwise◌, modify,
}
use ledger_light_admin.Store.{
  Db, M, pure, throw_if, ◌>>=◌, ◌>>◌, OrderStatus, Order, Payment, AuditContext,
}
use ledger_light_admin.Base.Atomic.{bind_succeeds}
use ledger_light_admin.Payment.Status.{PaymentWithAttempts}
use ledger_light_admin.Payment.Stripe.{StripeService}
use ledger_light_admin.Payment.Queries.{
  is_order, is_confirmed, update_order, create_payment_for_confirmed_order,
}
use ledger_light_admin.Order.Transition.{
  not_settled, is_settled, ensure_transition_payment, release_payment, discard_payment,
  confirm_order, reopen_order, to_confirmed, to_fulfilled, to_cancelled, to_pending, move_to,
}
use ledger_light_admin.Order.Transition.Frames.{
  KeepsOrders, bind-KeepsOrders, ensure-KeepsOrders, release-KeepsOrders, discard-KeepsOrders,
  confirmed_payment-KeepsOrders, pure-KeepsOrders,
}

-- The columns that a move writes: the new status, and times; the money and the keys stay.
pub data IsMove (to : OrderStatus) (f : Order → Order) : Type 0 where
  is_move :
      ((o : Order)
        → ((f o).status ≡ to)
          × ((f o).id ≡ o.id)
          × ((f o).organization_id ≡ o.organization_id)
          × ((f o).location_id ≡ o.location_id)
          × ((f o).total_cents ≡ o.total_cents))
      → IsMove to f

-- One row is written, with such columns.
pub record Moved (to : OrderStatus) (o : Order) (db db' : Db) : Type 0 where
  pub columns : Order → Order
  pub moves : IsMove to columns
  pub orders : db'.orders ≡ modify (is_order o.id o.organization_id) columns db.orders

update_order_writes :
    (i org : Uuid) (f : Order → Order) (db : Db) {o : Order} {db' : Db}
    → update_order i org f db ≡ (ok o, db')
    → db'.orders ≡ modify (is_order i org) f db.orders
unfolding update_order
update_order_writes i org f db h = ground arith

-- The order is written between two calls that leave the orders alone.
write_between :
    {A B : Type 0} (to : OrderStatus) (o : Order) (before : M A) (f : Order → Order) (after : M B)
    → KeepsOrders before
    → KeepsOrders after
    → IsMove to f
    → (db : Db) {b : B} {db' : Db}
    → (before >>= λ _. update_order o.id o.organization_id f >>= λ _. after) db ≡ (ok b, db')
    → Moved to o db db'
unfolding KeepsOrders
write_between to o before f after keeps keeps' moves db {b} {db'} h =
    let (a, db1, ran, rest) =
      bind_succeeds before (λ _. update_order o.id o.organization_id f >>= λ _. after) db h in
    let (o', db2, wrote, done) =
      bind_succeeds (update_order o.id o.organization_id f) (λ _. after) db1 rest in
    record {
      columns = f;
      moves = moves;
      orders =
          keeps' db2 b db' done
          ∙ update_order_writes o.id o.organization_id f db1 wrote
          ∙ ap (modify (is_order o.id o.organization_id) f) (keeps db a db1 ran);
    }

Moved-after :
    (to : OrderStatus) (o : Order) (db db1 db' : Db)
    → db1.orders ≡ db.orders
    → Moved to o db1 db'
    → Moved to o db db'
Moved-after to o db db1 db' same m = record {
  columns = m.columns;
  moves = m.moves;
  orders = m.orders ∙ ap (modify (is_order o.id o.organization_id) m.columns) same;
}

module _ (stripe : StripeService) (now : Instant) (o : Order) (included : Option Payment)
    (c : AuditContext) where
  to_confirmed-Moved :
      (db db' : Db) → to_confirmed now o c db ≡ (ok tt, db') → Moved OrderStatus.confirmed o db db'
  unfolding to_confirmed
  to_confirmed-Moved db db' h =
      write_between OrderStatus.confirmed o (pure tt) (confirm_order (o.placed_at otherwise now))
        (create_payment_for_confirmed_order o.id o.organization_id o.total_cents o.created_at c
          >> pure tt)
        (pure-KeepsOrders tt)
        (bind-KeepsOrders
          (create_payment_for_confirmed_order o.id o.organization_id o.total_cents o.created_at c)
          (λ _. pure tt)
          (confirmed_payment-KeepsOrders o.id o.organization_id o.total_cents o.created_at c)
          (λ _. pure-KeepsOrders tt))
        (is_move (λ q. ground arith)) db h

  to_fulfilled-Moved :
      (db db' : Db)
      → to_fulfilled o included db ≡ (ok tt, db')
      → Moved OrderStatus.fulfilled o db db'
  unfolding to_fulfilled KeepsOrders
  to_fulfilled-Moved db db' h =
      let settled : Option PaymentWithAttempts → M ⊤ =
        λ payment. throw_if (not (is_settled payment)) not_settled in
      let set : Order → Order = λ q. record q { status = OrderStatus.fulfilled } in
      let (payment, db1, ran, rest) =
        bind_succeeds (ensure_transition_payment o included)
          (λ payment. settled payment >> (update_order o.id o.organization_id set >> pure tt)) db
          h in
      Moved-after OrderStatus.fulfilled o db db1 db'
        (ensure-KeepsOrders o included db payment db1 ran)
        (write_between OrderStatus.fulfilled o (settled payment) set (pure tt)
          (λ d a d' q. ground arith) (pure-KeepsOrders tt) (is_move (λ q. ground arith)) db1 rest)

  to_cancelled-Moved :
      (db db' : Db)
      → to_cancelled stripe now o included c db ≡ (ok tt, db')
      → Moved OrderStatus.cancelled o db db'
  unfolding to_cancelled
  to_cancelled-Moved db db' h =
      write_between OrderStatus.cancelled o
        (if is_confirmed o.status
          then ensure_transition_payment o included
            >>= (λ payment. release_payment stripe now payment c)
          else pure tt)
        (λ q. record q { status = OrderStatus.cancelled; cancelled_at = some now }) (pure tt)
        (releases (is_confirmed o.status)) (pure-KeepsOrders tt) (is_move (λ q. ground arith)) db h
    where
      releases :
          (confirmed : Bool)
          → KeepsOrders (
              if confirmed
              then ensure_transition_payment o included
                >>= (λ payment. release_payment stripe now payment c)
              else pure tt)
      releases true =
          bind-KeepsOrders (ensure_transition_payment o included)
            (λ payment. release_payment stripe now payment c) (ensure-KeepsOrders o included)
            (λ payment. release-KeepsOrders stripe now payment c)
      releases false = pure-KeepsOrders tt

  to_pending-Moved :
      (db db' : Db)
      → to_pending stripe o included c db ≡ (ok tt, db')
      → Moved OrderStatus.pending o db db'
  unfolding to_pending KeepsOrders
  to_pending-Moved db db' h =
      let (payment, db1, ran, rest) =
        bind_succeeds (ensure_transition_payment o included)
          (λ payment.
            discard_payment stripe payment c
            >> (update_order o.id o.organization_id reopen_order >> pure tt))
          db h in
      Moved-after OrderStatus.pending o db db1 db'
        (ensure-KeepsOrders o included db payment db1 ran)
        (write_between OrderStatus.pending o (discard_payment stripe payment c) reopen_order
          (pure tt) (discard-KeepsOrders stripe payment c) (pure-KeepsOrders tt)
          (is_move (λ q. ground arith)) db1 rest)

  pub move_to-Moved :
      (to : OrderStatus) (db db' : Db)
      → move_to to stripe now o included c db ≡ (ok tt, db')
      → Moved to o db db'
  unfolding move_to
  move_to-Moved OrderStatus.confirmed db db' h = to_confirmed-Moved db db' h
  move_to-Moved OrderStatus.fulfilled db db' h = to_fulfilled-Moved db db' h
  move_to-Moved OrderStatus.cancelled db db' h = to_cancelled-Moved db db' h
  move_to-Moved OrderStatus.pending db db' h = to_pending-Moved db db' h
