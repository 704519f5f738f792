-- ===== src/Payment/Reads.antt =====
-- What the operations of the payment service find for a request, as an assumption of the theorems.
use ledger_light_admin.Base.{◌≡◌, some, ◌∷◌, suc, none, ok, arith, Uuid, find, find-any}
use ledger_light_admin.Access.Scope.{OrganizationScope, resolve_organization_scope}
use ledger_light_admin.Store.{Db, Order, OrderStatus, Payment}
use ledger_light_admin.Payment.Queries.{
  legacy_payment, with_payment, with_attempts, payment_or_legacy, find_payment_of, create_payment,
  ensure_legacy_payment_for_order, has_payment_id, is_payment_of, is_order, visible_order,
}

-- The order that the service reads for a request; its key, and that of its payment if there is one,
-- find no other rows.
pub record ReadsOrder (organization : OrganizationScope) (order_id : Uuid) (db : Db) (o : Order)
    : Type 0 where
  pub order :
      find (visible_order (resolve_organization_scope organization) order_id) db.orders ≡ some o
  pub order_keyed : find (is_order o.id o.organization_id) db.orders ≡ some o
  pub payment_keyed :
      (p : Payment)
      → find (is_payment_of o.id) db.payments ≡ some p
      → find (has_payment_id p.id) db.payments ≡ some p

-- The database after a payment was made for an order that had none.
abbrev pub with_legacy : Order → Db → Db
with_legacy o db = record db {
  payments = legacy_payment o db.next_id ∷ db.payments;
  next_id = suc db.next_id;
}

-- The order and the payment that the service reads for a request; their keys find no other rows.
pub record Reads (organization : OrganizationScope) (order_id : Uuid) (db : Db) (o : Order)
    (p : Payment) : Type 0 where
  pub order :
      find (visible_order (resolve_organization_scope organization) order_id) db.orders ≡ some o
  pub payment : find (is_payment_of o.id) db.payments ≡ some p
  pub order_keyed : find (is_order o.id o.organization_id) db.orders ≡ some o
  pub payment_keyed : find (has_payment_id p.id) db.payments ≡ some p

pub with_legacy-Reads :
    (organization : OrganizationScope) (order_id : Uuid) (db : Db) {o : Order}
    → ReadsOrder organization order_id db o
    → Reads organization order_id (with_legacy o db) o (legacy_payment o db.next_id)
unfolding find
with_legacy-Reads organization order_id db {o} r = record {
  order = r.order;
  payment = ground arith;
  order_keyed = r.order_keyed;
  payment_keyed = ground arith;
}

-- A confirmed order that has no payment gets one.
pub payment_or_legacy_made :
    (db : Db) (o : Order)
    → find (is_payment_of o.id) db.payments ≡ none
    → o.status ≡ OrderStatus.confirmed
    → payment_or_legacy (with_payment db o) db ≡ (
      ok (some (with_attempts (with_legacy o db) (legacy_payment o db.next_id))),
      with_legacy o db,
    )
unfolding payment_or_legacy ensure_legacy_payment_for_order find_payment_of create_payment
payment_or_legacy_made db o missing confirmed =
    let free = find-any (is_payment_of o.id) db.payments missing in
    ground (arith, missing, confirmed, free)
