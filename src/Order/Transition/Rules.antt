-- ===== src/Order/Transition/Rules.antt =====
-- What a request for a new status can do to an order.
use ledger_light_admin.Base.{
  ◌≡◌, refl, sym, ◌∙◌, ap, ◌⊎◌, inl, inr, true, some, Uuid, Instant, Error, Result, ok, err, arith,
  find, any, rewritten, find-modify, Option-cases, Result-cases, Bool-cases, forbidden,
}
use ledger_light_admin.Access.Roles.{has_permission}
use ledger_light_admin.Access.Scope.{
  CurrentOrg, OrganizationScope, current, resolve_organization_scope, to_organization_scope_input,
}
use ledger_light_admin.Store.{Db, transaction, ◌>>◌, OrderStatus, Order, AuditContext}
use ledger_light_admin.Base.Atomic.{bind_succeeds, transaction_ok, transaction_err}
use ledger_light_admin.Payment.Stripe.{StripeService}
use ledger_light_admin.Payment.Queries.{is_order, is_payment_of, visible_order}
use ledger_light_admin.Order.Access.{OrderReply, attach_payment_summary}
use ledger_light_admin.Order.Transition.{
  order_status_eq, allowed_transitions, transition_permission, move_to, read_again, transition,
  transition_status, request_transition,
}
use ledger_light_admin.Order.Transition.Moves.{is_move, Moved, move_to-Moved}

-- The life of an order: it is confirmed and then fulfilled, may be cancelled until it is
-- fulfilled, and may be reopened once it is cancelled.
pub data IsEdge : OrderStatus → OrderStatus → Type 0 where
  confirm : IsEdge OrderStatus.pending OrderStatus.confirmed
  fulfil : IsEdge OrderStatus.confirmed OrderStatus.fulfilled
  drop : IsEdge OrderStatus.pending OrderStatus.cancelled
  cancel : IsEdge OrderStatus.confirmed OrderStatus.cancelled
  reopen : IsEdge OrderStatus.cancelled OrderStatus.pending

allowed-IsEdge :
    (from to : OrderStatus)
    → any (order_status_eq to) (allowed_transitions from) ≡ true
    → IsEdge from to
allowed-IsEdge OrderStatus.pending OrderStatus.pending h = absurd (ground arith)
allowed-IsEdge OrderStatus.pending OrderStatus.confirmed h = confirm
allowed-IsEdge OrderStatus.pending OrderStatus.cancelled h = drop
allowed-IsEdge OrderStatus.pending OrderStatus.fulfilled h = absurd (ground arith)
allowed-IsEdge OrderStatus.confirmed OrderStatus.pending h = absurd (ground arith)
allowed-IsEdge OrderStatus.confirmed OrderStatus.confirmed h = absurd (ground arith)
allowed-IsEdge OrderStatus.confirmed OrderStatus.cancelled h = cancel
allowed-IsEdge OrderStatus.confirmed OrderStatus.fulfilled h = fulfil
allowed-IsEdge OrderStatus.cancelled OrderStatus.pending h = reopen
allowed-IsEdge OrderStatus.cancelled OrderStatus.confirmed h = absurd (ground arith)
allowed-IsEdge OrderStatus.cancelled OrderStatus.cancelled h = absurd (ground arith)
allowed-IsEdge OrderStatus.cancelled OrderStatus.fulfilled h = absurd (ground arith)
allowed-IsEdge OrderStatus.fulfilled to h = absurd (ground arith)

-- The order that a request sees before and the one it sees after.
pub record Follows (org : CurrentOrg) (order_id : Uuid) (to : OrderStatus) (db db' : Db)
    (reply : OrderReply) : Type 0 where
  pub before : Order
  pub seen : find (visible_order org order_id) db.orders ≡ some before
  pub edge : IsEdge before.status to
  pub seen_after : find (visible_order org order_id) db'.orders ≡ some reply.order
  pub reached : reply.order.status ≡ to
  pub same_money : reply.order.total_cents ≡ before.total_cents

-- The row that is seen is the row that is written.
Moved-is_seen :
    (org : CurrentOrg) (order_id : Uuid) (to : OrderStatus) (db db' : Db) {o : Order}
    → find (visible_order org order_id) db.orders ≡ some o
    → Moved to o db db'
    → (u : Order) × (find (visible_order org order_id) db'.orders ≡ some u)
      × (u.status ≡ to)
      × (u.total_cents ≡ o.total_cents)
Moved-is_seen org order_id to db db' {o} seen m = elim m.moves [
  | is_move columns ↦
      let this = is_order o.id o.organization_id in
      let is_seen = visible_order org order_id in
      (
        rewritten this m.columns o,
        rw
            (
              m.orders,
              find-modify is_seen this m.columns (λ q. ground (arith, columns q)) db.orders,
              seen,
            )
            refl,
        ground (arith, columns o),
        ground (arith, columns o),
      )
]

read_again_reads :
    (org : CurrentOrg) (order_id : Uuid) (db : Db) {reply : OrderReply} {db' : Db}
    → read_again org order_id db ≡ (ok reply, db')
    → (db ≡ db') × (find (visible_order org order_id) db'.orders ≡ some reply.order)
unfolding read_again attach_payment_summary
read_again_reads org order_id db h = ground arith

module _ (stripe : StripeService) (now : Instant) (org : CurrentOrg) (order_id : Uuid)
    (to : OrderStatus) (c : AuditContext) (db : Db) where
  -- What runs once the checks are passed.
  transition_runs :
      {o : Order}
      → find (visible_order org order_id) db.orders ≡ some o
      → any (order_status_eq to) (allowed_transitions o.status) ≡ true
      → transition stripe now org order_id to c db
        ≡ (move_to to stripe now o (find (is_payment_of o.id) db.payments) c
              >> read_again org order_id)
            db
  unfolding transition
  transition_runs seen allowed = simp (seen, allowed)

  transition_moves :
      {reply : OrderReply} {db' : Db}
      → transition stripe now org order_id to c db ≡ (ok reply, db')
      → (o : Order) × (find (visible_order org order_id) db.orders ≡ some o)
        × (any (order_status_eq to) (allowed_transitions o.status) ≡ true)
        × (move_to to stripe now o (find (is_payment_of o.id) db.payments) c db ≡ (ok tt, db'))
        × (find (visible_order org order_id) db'.orders ≡ some reply.order)
  unfolding transition
  transition_moves {reply} {db'} h =
      elim (Option-cases (find (visible_order org order_id) db.orders)) [
        | inl hidden ↦ absurd (ground arith)
        | inr (o, seen) ↦
            elim (Bool-cases (any (order_status_eq to) (allowed_transitions o.status))) [
              | inr not_allowed ↦ absurd (ground arith)
              | inl allowed ↦
                  let (done, db1, moved, read) =
                    bind_succeeds
                      (move_to to stripe now o (find (is_payment_of o.id) db.payments) c)
                      (λ _. read_again org order_id) db (sym (transition_runs seen allowed) ∙ h) in
                  let (same_db, seen_after) = read_again_reads org order_id db1 read in
                  (o, seen, allowed, moved ∙ ap (λ d. (ok tt, d)) same_db, seen_after)
            ]
      ]

  transition-Follows :
      {reply : OrderReply} {db' : Db}
      → transition stripe now org order_id to c db ≡ (ok reply, db')
      → Follows org order_id to db db' reply
  transition-Follows {reply} {db'} h =
      let (o, seen, allowed, moved, seen_after) = transition_moves h in
      let (u, written, reached, same_money) =
        Moved-is_seen org order_id to db db' seen
          (move_to-Moved stripe now o (find (is_payment_of o.id) db.payments) c to db db' moved) in
      let same : u ≡ reply.order = ground arith in
      record {
        before = o;
        seen = seen;
        edge = allowed-IsEdge o.status to allowed;
        seen_after = seen_after;
        reached = ground arith;
        same_money = ground arith;
      }

pub transition_status_outcome :
    (stripe : StripeService) (now : Instant) (organization : OrganizationScope) (order_id : Uuid)
    (to : OrderStatus) (c : AuditContext) (db : Db)
    → let (r, db') = transition_status stripe now organization order_id to c db in
      ((e : Error) × (r ≡ err e) × (db' ≡ db))
      ⊎ (reply : OrderReply) × (r ≡ ok reply)
        × Follows (resolve_organization_scope organization) order_id to db db' reply
unfolding transition_status
transition_status_outcome stripe now organization order_id to c db =
    let run = transition stripe now (resolve_organization_scope organization) order_id to c in
    elim (Result-cases (transition_status stripe now organization order_id to c db).0) [
      | inr (e, failed) ↦ inl (e, failed, transaction_err run db e failed)
      | inl (reply, passed) ↦
          let both = ap (λ (x : Result OrderReply). (x, (transaction run db).1)) passed in
          inr (
            reply,
            passed,
            transition-Follows stripe now (resolve_organization_scope organization) order_id to c db
                (transaction_ok run db both),
          )
    ]

-- A call that succeeds has run the move for the order that it sees.
pub transition_status_moves :
    (stripe : StripeService) (now : Instant) (organization : OrganizationScope) (order_id : Uuid)
    (to : OrderStatus) (c : AuditContext) (db : Db) {o : Order} (reply : OrderReply)
    → let (r, db') = transition_status stripe now organization order_id to c db in
      let seen = visible_order (resolve_organization_scope organization) order_id in
      find seen db.orders ≡ some o
      → r ≡ ok reply
      → move_to to stripe now o (find (is_payment_of o.id) db.payments) c db ≡ (ok tt, db')
unfolding transition_status
transition_status_moves stripe now organization order_id to c db {o} reply found h =
    let run = transition stripe now (resolve_organization_scope organization) order_id to c in
    let both = ap (λ (x : Result OrderReply). (x, (transaction run db).1)) h in
    let (o', seen, allowed, moved, after) =
      transition_moves stripe now (resolve_organization_scope organization) order_id to c db
        (transaction_ok run db both) in
    let same : o' ≡ o = ground arith in rw same at moved

-- A request for a new status either fails and leaves the whole database as it was, or it is made
-- with the permission for that status, takes an edge of the order's life, ends in that status and
-- leaves the amount alone.
pub request_transition_outcome :
    (stripe : StripeService) (now : Instant) (org : CurrentOrg) (order_id : Uuid) (to : OrderStatus)
    (c : AuditContext) (db : Db)
    → let (r, db') = request_transition stripe now org order_id to c db in
      let seen_as = resolve_organization_scope (to_organization_scope_input (current org)) in
      ((e : Error) × (r ≡ err e) × (db' ≡ db))
      ⊎ (reply : OrderReply) × (r ≡ ok reply)
        × (has_permission org.role (transition_permission to) ≡ true)
        × Follows seen_as order_id to db db' reply
unfolding request_transition
request_transition_outcome stripe now org order_id to c db =
    elim (Bool-cases (has_permission org.role (transition_permission to))) [
      | inr refused ↦ inl (forbidden "Insufficient permissions", rw refused refl, rw refused refl)
      | inl permitted ↦
          rw permitted
            (elim (transition_status_outcome stripe now (to_organization_scope_input (current org))
              order_id to c db) [
                | inl failed ↦ inl failed
                | inr (reply, passed, follows) ↦ inr (reply, passed, refl, follows)
              ])
    ]
