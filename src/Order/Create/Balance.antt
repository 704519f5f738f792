-- ===== src/Order/Create/Balance.antt =====
-- A new order is balanced.
use ledger_light_admin.Base.{
  ℕ, ◌≡◌, refl, sym, ◌∙◌, ap, none, some, List, [], ◌∷◌, arith, Uuid, Instant, ok, ltb, find,
  filter, length, map, Bool-cases, Result-cases, inl, inr,
}
use ledger_light_admin.Access.Scope.{CurrentOrg, OrganizationScope, resolve_organization_scope}
use ledger_light_admin.Store.{Db, pure, ◌>>=◌, Order, OrderItem, Product, OrderStatus}
use ledger_light_admin.Base.Atomic.{bind_succeeds, transaction_ok}
use ledger_light_admin.Payment.Queries.{is_order}
use ledger_light_admin.Order.Pricing.{CreateOrderItem, LineItem, Totals, price_items, no_totals}
use ledger_light_admin.Order.Pricing.Sums.{
  plus, plus-no_totals, no_totals-plus, sums, price_items-sums,
}
use ledger_light_admin.Order.Access.{
  OrderReply, attach_payment_summary, check_customer, check_location,
}
use ledger_light_admin.Order.Balance.{
  Balanced, order_totals, item_totals, items_totals, is_in, plus_swap, plus_assoc, items_totals-add,
}
use ledger_light_admin.Order.Create.{
  CreateOrder, distinct, is_sold_by, create_order_row, item_row, create_item, create_many,
  create_nested, create_items, store_order, place_order, create_order,
}

-- The rows of some lines, added to the table of items.
record Filled (order_id : Uuid) (lines : List LineItem) (db db' : Db) : Type 0 where
  orders : db'.orders ≡ db.orders
  totals :
      items_totals (filter (is_in order_id) db'.order_items)
      ≡ plus (sums lines) (items_totals (filter (is_in order_id) db.order_items))

create_item_writes :
    (row : Uuid → OrderItem) (db : Db) {i : OrderItem} {db' : Db}
    → create_item row db ≡ (ok i, db')
    → (db'.orders ≡ db.orders) × (db'.order_items ≡ row db.next_id ∷ db.order_items)
unfolding create_item
create_item_writes row db h = ground arith

-- One more row.
fill_one :
    (order_id org : Uuid) (line : LineItem) (lines : List LineItem) (db db1 db' : Db)
    {i : OrderItem}
    → create_item (item_row order_id org line) db ≡ (ok i, db1)
    → Filled order_id lines db1 db'
    → Filled order_id (line ∷ lines) db db'
fill_one order_id org line lines db db1 db' wrote rest =
    let (orders, items) = create_item_writes (item_row order_id org line) db wrote in
    let row = item_row order_id org line db.next_id in
    let old = items_totals (filter (is_in order_id) db.order_items) in
    record {
      orders = rest.orders ∙ orders;
      totals =
          rest.totals
          ∙ ap (λ is. plus (sums lines) (items_totals (filter (is_in order_id) is))) items
          ∙ ap (plus (sums lines)) (items_totals-add order_id row db.order_items refl)
          ∙ plus_swap (sums lines) (item_totals row) old
          ∙ sym (plus_assoc (item_totals row) (sums lines) old);
    }

nothing-Filled : (order_id : Uuid) (db : Db) → Filled order_id [] db db
nothing-Filled order_id db = record {
  orders = refl;
  totals = sym (no_totals-plus (items_totals (filter (is_in order_id) db.order_items)));
}

create_many-Filled :
    (order_id : Uuid) (lines : List LineItem) (db : Db) {items : List OrderItem} {db' : Db}
    → create_many order_id lines db ≡ (ok items, db')
    → Filled order_id lines db db'
unfolding create_many
create_many-Filled order_id [] db {items} {db'} h =
    let same : db ≡ db' = ground arith in rw (← same) (nothing-Filled order_id db)
create_many-Filled order_id (line ∷ lines) db {items} {db'} h =
    let (i, db1, wrote, rest) =
      bind_succeeds (create_item (item_row order_id line.organization_id line))
        (λ item. create_many order_id lines >>= (λ items. pure (item ∷ items))) db h in
    let (is, db2, filled, done) =
      bind_succeeds (create_many order_id lines) (λ items. pure (i ∷ items)) db1 rest in
    let same : db2 ≡ db' = ground arith in
    fill_one order_id line.organization_id line lines db db1 db' wrote
      (rw same at (create_many-Filled order_id lines db1 filled))

create_nested-Filled :
    (order : Order) (lines : List LineItem) (db : Db) {items : List OrderItem} {db' : Db}
    → create_nested order lines db ≡ (ok items, db')
    → Filled order.id lines db db'
unfolding create_nested
create_nested-Filled order [] db {items} {db'} h =
    let same : db ≡ db' = ground arith in rw (← same) (nothing-Filled order.id db)
create_nested-Filled order (line ∷ lines) db {items} {db'} h =
    let (i, db1, wrote, rest) =
      bind_succeeds (create_item (item_row order.id order.organization_id line))
        (λ item. create_nested order lines >>= (λ items. pure (item ∷ items))) db h in
    let (is, db2, filled, done) =
      bind_succeeds (create_nested order lines) (λ items. pure (i ∷ items)) db1 rest in
    let same : db2 ≡ db' = ground arith in
    fill_one order.id order.organization_id line lines db db1 db' wrote
      (rw same at (create_nested-Filled order lines db1 filled))

create_items-Filled :
    (count : ℕ) (order : Order) (lines : List LineItem) (db : Db) {items : List OrderItem}
    {db' : Db}
    → create_items count order lines db ≡ (ok items, db')
    → Filled order.id lines db db'
unfolding create_items
create_items-Filled count order lines db h = elim (Bool-cases (ltb 20 count)) [
  | inl many ↦ create_many-Filled order.id lines db (rw (many, create_items) at h)
  | inr few ↦ create_nested-Filled order lines db (rw (few, create_items) at h)
]

create_order_row_writes :
    (now : Instant) (org : Uuid) (body : CreateOrder) (totals : Totals) (db : Db) {o : Order}
    {db' : Db}
    → create_order_row now org body totals db ≡ (ok o, db')
    → (db'.orders ≡ o ∷ db.orders)
      × (db'.order_items ≡ db.order_items)
      × (o.id ≡ db.next_id)
      × (o.organization_id ≡ org)
      × (order_totals o ≡ totals)
      × (o.status ≡ OrderStatus.pending)
unfolding create_order_row
create_order_row_writes now org body totals db h = ground arith

stored :
    (now : Instant) (org : Uuid) (body : CreateOrder) (lines : List LineItem) (db db1 db2 : Db)
    {o : Order}
    → filter (is_in db.next_id) db.order_items ≡ []
    → create_order_row now org body (sums lines) db ≡ (ok o, db1)
    → Filled o.id lines db1 db2
    → (find (is_order db.next_id org) db2.orders ≡ some o)
      × (o.status ≡ OrderStatus.pending)
      × Balanced o db2.order_items
unfolding Balanced find
stored now org body lines db db1 db2 {o} fresh wrote filled =
    let (orders, items, key, in_org, totals, pending) =
      create_order_row_writes now org body (sums lines) db wrote in
    let empty : filter (is_in o.id) db1.order_items ≡ [] = rw (items, key) fresh in
    (
      rw (filled.orders, orders) (ground (arith, key, in_org)),
      pending,
      totals
          ∙ plus-no_totals (sums lines)
          ∙ sym (filled.totals ∙ ap (λ is. plus (sums lines) (items_totals is)) empty),
    )

-- What is stored, where no item has the key of the new order yet.
store_order-Balanced :
    (now : Instant) (org : Uuid) (body : CreateOrder) (lines : List LineItem) (db : Db)
    {reply : OrderReply} {db' : Db}
    → filter (is_in db.next_id) db.order_items ≡ []
    → store_order now org body lines (sums lines) db ≡ (ok reply, db')
    → (find (is_order db.next_id org) db'.orders ≡ some reply.order)
      × (reply.order.status ≡ OrderStatus.pending)
      × Balanced reply.order db'.order_items
unfolding store_order Balanced attach_payment_summary
store_order-Balanced now org body lines db {reply} {db'} fresh h =
    let (o, db1, wrote, rest) =
      bind_succeeds (create_order_row now org body (sums lines))
        (λ order.
          create_items (length body.order_items) order lines
          >>= (λ items. pure (attach_payment_summary order items none)))
        db h in
    let (items, db2, filled, done) =
      bind_succeeds (create_items (length body.order_items) o lines)
        (λ items. pure (attach_payment_summary o items none)) db1 rest in
    let same : db2 ≡ db' = ground arith in
    let is_o : o ≡ reply.order = ground arith in
    rw (← is_o, ← same)
      (stored now org body lines db db1 db2 fresh wrote
        (create_items-Filled (length body.order_items) o lines db1 filled))

-- The products that are read for a request.
abbrev sold : CurrentOrg → CreateOrder → Db → List Product
sold org body db =
    filter (is_sold_by org (distinct (map CreateOrderItem.product_id body.order_items))) db.products

place_order_stores :
    (now : Instant) (org : CurrentOrg) (body : CreateOrder) (db : Db) {reply : OrderReply}
    {db' : Db}
    → place_order now org body db ≡ (ok reply, db')
    → (lines : List LineItem) × (totals : Totals) × (price_items org.organization_id
          (sold org body db)
          body.order_items
          []
          no_totals
        ≡ ok (lines, totals))
      × (store_order now org.organization_id body lines totals db ≡ (ok reply, db'))
unfolding place_order check_customer check_location
place_order_stores now org body db h =
    elim (Result-cases
      (price_items org.organization_id (sold org body db) body.order_items [] no_totals)) [
        | inr (e, bad) ↦ absurd (ground arith)
        | inl ((lines, totals), priced) ↦ (lines, totals, priced, ground arith)
      ]

create_order_places :
    (now : Instant) (organization : OrganizationScope) (body : CreateOrder) (db : Db)
    {reply : OrderReply} {db' : Db}
    → create_order now organization body db ≡ (ok reply, db')
    → place_order now (resolve_organization_scope organization) body db ≡ (ok reply, db')
unfolding create_order
create_order_places now organization body db h =
    transaction_ok (place_order now (resolve_organization_scope organization) body) db
      (ground arith)

-- The order that a request creates is stored, is pending, and is balanced: its four totals are the
-- sums over the items that are stored for it, whichever of the two ways of storing them is taken.
-- It is assumed that no item has the key of the new order beforehand.
pub create_order-Balanced :
    (now : Instant) (organization : OrganizationScope) (body : CreateOrder) (db : Db)
    {reply : OrderReply} {db' : Db}
    → let org = resolve_organization_scope organization in
      filter (is_in db.next_id) db.order_items ≡ []
      → create_order now organization body db ≡ (ok reply, db')
      → (find (is_order db.next_id org.organization_id) db'.orders ≡ some reply.order)
        × (reply.order.status ≡ OrderStatus.pending)
        × Balanced reply.order db'.order_items
create_order-Balanced now organization body db fresh h =
    let org = resolve_organization_scope organization in
    let placed = create_order_places now organization body db h in
    let (lines, totals, priced, stored_it) = place_order_stores now org body db placed in
    let (each, summed) =
      price_items-sums org.organization_id (sold org body db) body.order_items priced in
    store_order-Balanced now org.organization_id body lines db fresh (rw summed at stored_it)
