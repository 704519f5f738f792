-- ===== src/Order/Records/Access.antt =====
-- What a membership can reach by the operations on one order.
use ledger_light_admin.Base.{
  ◌≡◌, refl, true, Bool, List, Option, none, some, String, Uuid, ok, ◌==◌, ◌&&◌, ◌otherwise◌, ap,
  sym, ◌∙◌, modify, map_option, rewritten, find-modify, find_holds, arith, find, remove,
  Option-cases, ◌⊎◌, inl, inr, find-remove_self,
}
use ledger_light_admin.Access.Scope.{
  CurrentOrg, OrganizationScope, resolve_organization_scope, ensure_location_accessible,
  location_scope_where,
}
use ledger_light_admin.Store.{Db, Order}
use ledger_light_admin.Payment.Queries.{is_payment_of, is_order, update_order}
use ledger_light_admin.Order.Access.{
  OrderReply, attach_payment_summary, check_customer, check_location, check_accessible,
  assert_order_accessible,
}
use ledger_light_admin.Order.Records.{
  UpdateOrder, named, set_columns, check_new_location, update_order_columns, update_order_request,
  remove_order, delete_order,
}

-- A check that succeeds has seen the order within the locations of the membership.
accessible_in_scope :
    (org : CurrentOrg) (order_id : Uuid) (db : Db) {o : Order}
    → find (is_order order_id org.organization_id) db.orders ≡ some o
    → (check_accessible org order_id db).0 ≡ ok tt
    → location_scope_where org o.location_id ≡ true
unfolding check_accessible assert_order_accessible location_scope_where
accessible_in_scope org order_id db {o} found h = ground (arith, found)

check_accessible_keeps :
    (org : CurrentOrg) (order_id : Uuid) (db : Db) → (check_accessible org order_id db).1 ≡ db
unfolding check_accessible assert_order_accessible
check_accessible_keeps org order_id db = ground arith

check_customer_keeps :
    (org : CurrentOrg) (i : Option Uuid) (m : String) (db : Db) → (check_customer org i m db).1 ≡ db
unfolding check_customer
check_customer_keeps org none m db = refl
check_customer_keeps org (some i) m db = ground arith

-- A named location that passes its check is one of the membership's.
check_new_location_scope :
    (org : CurrentOrg) (location : Option Uuid) (db : Db)
    → ((check_new_location org location db).1 ≡ db)
      × ((check_new_location org location db).0 ≡ ok tt
          → (location ≡ none) ⊎ (location_scope_where org location ≡ true))
unfolding check_new_location check_location ensure_location_accessible location_scope_where
check_new_location_scope org none db = (refl, λ h. inl refl)
check_new_location_scope org (some l) db = (ground arith, λ h. inr (ground arith))

-- What a deletion finds and leaves.
record Removed (org : CurrentOrg) (order_id : Uuid) (db db' : Db) (o : Order) : Type 0 where
  found : find (is_order order_id org.organization_id) db.orders ≡ some o
  in_scope : location_scope_where org o.location_id ≡ true
  orders : db'.orders ≡ remove (is_order order_id org.organization_id) db.orders
  payments : db'.payments ≡ remove (is_payment_of order_id) db.payments

remove_order-Removed :
    (org : CurrentOrg) (order_id : Uuid) (db : Db) {reply : OrderReply} {db' : Db}
    → remove_order org order_id db ≡ (ok reply, db')
    → Removed org order_id db db' reply.order
unfolding remove_order attach_payment_summary
remove_order-Removed org order_id db {reply} {db'} h =
    let kept = check_accessible_keeps org order_id db in
    elim (Option-cases (find (is_order order_id org.organization_id) db.orders)) [
      | inl missing ↦ absurd (ground (arith, kept))
      | inr (o, found) ↦
          let seen = accessible_in_scope org order_id db found in ground (arith, found, kept, seen)
    ]

-- An order is deleted only where it belongs to the organization of the call and, for a restricted
-- membership, lies in one of its locations. The reply shows the row; afterwards the organization has
-- no order with that key, and the order no payment.
pub deleted_order_in_scope :
    (organization : OrganizationScope) (order_id : Uuid) (db : Db) {reply : OrderReply} {db' : Db}
    → delete_order organization order_id db ≡ (ok reply, db')
    → let org = resolve_organization_scope organization in
      (find (is_order order_id org.organization_id) db.orders ≡ some reply.order)
      × (location_scope_where org reply.order.location_id ≡ true)
      × (find (is_order order_id org.organization_id) db'.orders ≡ none)
      × (find (is_payment_of order_id) db'.payments ≡ none)
unfolding delete_order
deleted_order_in_scope organization order_id db h =
    let org = resolve_organization_scope organization in
    let r = remove_order-Removed org order_id db h in
    (
      r.found,
      r.in_scope,
      rw r.orders (find-remove_self (is_order order_id org.organization_id) db.orders),
      rw r.payments (find-remove_self (is_payment_of order_id) db.payments),
    )

abbrev pub keyed : Uuid → Uuid → Order → Bool
keyed i k x = x.id == i && x.organization_id == k

-- What the update of one row leaves to be found by the keys of any.
find-modify-keyed :
    (order_id organization_id : Uuid) (f : Order → Order)
    → ((x : Order) → (f x).id ≡ x.id)
    → ((x : Order) → (f x).organization_id ≡ x.organization_id)
    → (i k : Uuid) (orders : List Order)
    → find (keyed i k) (modify (keyed order_id organization_id) f orders)
      ≡ map_option (rewritten (keyed order_id organization_id) f) (find (keyed i k) orders)
find-modify-keyed order_id organization_id f same_id same_organization i k orders =
    find-modify (keyed i k) (keyed order_id organization_id) f
      (λ x. ground (arith, same_id x, same_organization x)) orders

-- What an update that succeeds has read and written.
update_order_columns_ok :
    (org : CurrentOrg) (order_id : Uuid) (change : UpdateOrder) (db : Db) {reply : OrderReply}
    {db' : Db}
    → update_order_columns org order_id change db ≡ (ok reply, db')
    → (o : Order) × (find (keyed order_id org.organization_id) db.orders ≡ some o)
      × (location_scope_where org o.location_id ≡ true)
      × ((reply.order.location_id ≡ none)
          ⊎ (location_scope_where org reply.order.location_id ≡ true))
      × (reply.order ≡ set_columns change o)
      × (db'.orders ≡ modify (keyed order_id org.organization_id) (set_columns change) db.orders)
unfolding update_order_columns update_order attach_payment_summary
update_order_columns_ok org order_id change db {reply} {db'} h =
    let k1 =
      check_customer_keeps org (named change.customer_id) "Customer not found with given id" db in
    let (k2, scope) = check_new_location_scope org (named change.location_id) db in
    let k3 = check_accessible_keeps org order_id db in
    elim (Option-cases (find (is_order order_id org.organization_id) db.orders)) [
      | inl missing ↦ absurd (ground (arith, k1, k2, k3))
      | inr (o, found) ↦
          let seen = accessible_in_scope org order_id db found in
          (
            o,
            found,
            ground (arith, found, k1, k2, k3, seen),
            ground (arith, found, k1, k2, k3, seen, scope),
            ground (arith, found, k1, k2, k3),
            ground (arith, found, k1, k2, k3),
          )
    ]

-- An update that succeeds was made to an order of the organization that the membership can reach;
-- afterwards the order stands in the database as the reply shows it: with the customer and the
-- location of the request, where it names them, and otherwise as before, so with the same status and
-- total. Its location is none, or one that the membership can reach. Every other order is as it was.
pub updated_order_in_scope :
    (organization : OrganizationScope) (order_id : Uuid) (change : UpdateOrder) (db : Db)
    {reply : OrderReply} {db' : Db}
    → update_order_request organization order_id change db ≡ (ok reply, db')
    → let org = resolve_organization_scope organization in
      let u = reply.order in
      (o : Order) × (find (keyed order_id org.organization_id) db.orders ≡ some o)
      × (location_scope_where org o.location_id ≡ true)
      × ((u.location_id ≡ none) ⊎ (location_scope_where org u.location_id ≡ true))
      × (u ≡ record o {
        customer_id = change.customer_id otherwise o.customer_id;
        location_id = change.location_id otherwise o.location_id;
      })
      × (find (keyed order_id org.organization_id) db'.orders ≡ some u)
      × ((i k : Uuid)
          → ¬ ((i ≡ order_id) × (k ≡ org.organization_id))
          → find (keyed i k) db'.orders ≡ find (keyed i k) db.orders)
unfolding update_order_request
updated_order_in_scope organization order_id change db {reply} {db'} h =
    let org = resolve_organization_scope organization in
    let (o, found, seen, to, shown, orders) = update_order_columns_ok org order_id change db h in
    let mine = keyed order_id org.organization_id in
    let kept = λ (i k : Uuid).
      ap (find (keyed i k)) orders
      ∙ find-modify-keyed order_id org.organization_id (set_columns change) (λ x. refl) (λ x. refl)
          i k db.orders in
    (
      o,
      found,
      seen,
      to,
      shown ∙ columns o,
      kept order_id org.organization_id
          ∙ rw found
              (ap some (ground (arith, find_holds mine db.orders o found)) ∙ ap some (sym shown)),
      λ i k apart. kept i k ∙ other i k apart (find (keyed i k) db.orders) refl,
    )
  where
    columns :
        (o : Order)
        → set_columns change o ≡ record o {
          customer_id = change.customer_id otherwise o.customer_id;
          location_id = change.location_id otherwise o.location_id;
        }
    columns o = ground arith

    other :
        (i k : Uuid)
        → ¬ ((i ≡ order_id) × (k ≡ (resolve_organization_scope organization).organization_id))
        → (x : Option Order) → find (keyed i k) db.orders ≡ x
        → map_option
            (rewritten
              (keyed order_id (resolve_organization_scope organization).organization_id)
              (set_columns change))
            x
          ≡ x
    other i k apart none e = refl
    other i k apart (some x) e =
        let this = find_holds (keyed i k) db.orders x e in ap some (ground arith)
