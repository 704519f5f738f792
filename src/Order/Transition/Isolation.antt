-- ===== src/Order/Transition/Isolation.antt =====
-- A transition acts for one organization.
use ledger_light_admin.Base.{
  ◌≡◌, refl, Bool, not, Uuid, Instant, arith, ◌==◌, find, filter, find_holds, filter-modify_other,
  inl, inr,
}
use ledger_light_admin.Access.Scope.{OrganizationScope, resolve_organization_scope}
use ledger_light_admin.Store.{Db, OrderStatus, Order, AuditContext}
use ledger_light_admin.Payment.Stripe.{StripeService}
use ledger_light_admin.Payment.Queries.{is_order, is_payment_of, visible_order}
use ledger_light_admin.Order.Transition.{transition_status}
use ledger_light_admin.Order.Transition.Moves.{is_move, Moved, move_to-Moved}
use ledger_light_admin.Order.Transition.Rules.{transition_status_outcome, transition_status_moves}

-- An order of an organization other than the one that the call acts for.
abbrev pub is_foreign : OrganizationScope → Order → Bool
is_foreign organization o =
    not (o.organization_id == (resolve_organization_scope organization).organization_id)

Moved-is_foreign :
    (organization : OrganizationScope) (to : OrderStatus) (db db' : Db) {o : Order}
    → o.organization_id ≡ (resolve_organization_scope organization).organization_id
    → Moved to o db db'
    → filter (is_foreign organization) db'.orders ≡ filter (is_foreign organization) db.orders
Moved-is_foreign organization to db db' {o} same m = elim m.moves [
  | is_move columns ↦ rw m.orders (
      filter-modify_other (is_foreign organization) (is_order o.id o.organization_id) m.columns
        (λ q e. ground (arith, columns q)) db.orders)
]

-- The orders of every other organization stay as they are, whatever status is asked for and
-- whether or not the call succeeds.
pub transition_leaves_other_organizations :
    (stripe : StripeService) (now : Instant) (organization : OrganizationScope) (order_id : Uuid)
    (to : OrderStatus) (c : AuditContext) (db : Db)
    → let (r, db') = transition_status stripe now organization order_id to c db in
      filter (is_foreign organization) db'.orders ≡ filter (is_foreign organization) db.orders
transition_leaves_other_organizations stripe now organization order_id to c db =
    let org = resolve_organization_scope organization in
    elim (transition_status_outcome stripe now organization order_id to c db) [
      | inl (e, failed, same) ↦ rw same refl
      | inr (reply, passed, follows) ↦
          let o = follows.before in
          let ours = find_holds (visible_order org order_id) db.orders o follows.seen in
          Moved-is_foreign organization to db
            (transition_status stripe now organization order_id to c db).1 (ground arith)
            (move_to-Moved stripe now o (find (is_payment_of o.id) db.payments) c to db
              (transition_status stripe now organization order_id to c db).1
              (transition_status_moves stripe now organization order_id to c db reply follows.seen
                passed))
    ]
