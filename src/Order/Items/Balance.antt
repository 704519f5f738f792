-- ===== src/Order/Items/Balance.antt =====
-- Adding and removing an item keeps an order balanced.
use ledger_light_admin.Base.{
  ◌≡◌, refl, sym, ◌∙◌, ap, Bool, ◌&&◌, some, List, [], ◌∷◌, arith, Uuid, ok, find, filter, modify,
  remove, find_holds, find-modify, Option-cases, Result-cases, inl, inr,
}
use ledger_light_admin.Access.Scope.{CurrentOrg, OrganizationScope, resolve_organization_scope}
use ledger_light_admin.Store.{Db, Order, OrderItem}
use ledger_light_admin.Base.Atomic.{transaction_ok}
use ledger_light_admin.Payment.Queries.{is_order, is_pending, visible_order, update_order}
use ledger_light_admin.Order.Pricing.{CreateOrderItem, LineItem, price_line, add_messages}
use ledger_light_admin.Order.Pricing.Sums.{plus}
use ledger_light_admin.Order.Access.{
  OrderReply, attach_payment_summary, check_accessible, assert_order_accessible,
}
use ledger_light_admin.Order.Create.{item_row, create_item}
use ledger_light_admin.Order.Balance.{
  Balanced, item_totals, items_totals, is_in, minus, plus-minus, plus_comm, has_item_id,
  items_totals-add, items_totals-remove,
}
use ledger_light_admin.Order.Items.{
  increase, decrease, reply_with_items, append_item, add_order_item, drop_item, delete_order_item,
  is_item, is_org_product,
}

-- What a call that adds an item has written.
record Added (org order_id : Uuid) (db db' : Db) (u : Order) : Type 0 where
  line : LineItem
  item_id : Uuid
  orders : db'.orders ≡ modify (is_order order_id org) (increase line) db.orders
  order_items : db'.order_items ≡ item_row u.id u.organization_id line item_id ∷ db.order_items
  before : Order
  found : find (is_order order_id org) db.orders ≡ some before
  after : u ≡ increase line before

append_item-Added :
    (org : CurrentOrg) (order_id : Uuid) (raw : CreateOrderItem) (db : Db) {reply : OrderReply}
    {db' : Db}
    → append_item org order_id raw db ≡ (ok reply, db')
    → Added org.organization_id order_id db db' reply.order
unfolding append_item update_order create_item reply_with_items attach_payment_summary
append_item-Added org order_id raw db {reply} {db'} h =
    let seen : Order → Bool = λ o. is_pending o.status && visible_order org order_id o in
    elim (Option-cases (find seen db.orders)) [
      | inl hidden ↦ absurd (ground arith)
      | inr (o, found) ↦
          elim (Option-cases (find (is_org_product org raw.product_id) db.products)) [
            | inl missing ↦ absurd (ground arith)
            | inr (product, sold) ↦
                elim (Result-cases (price_line add_messages org.organization_id raw product)) [
                  | inr (e, bad) ↦ absurd (ground arith)
                  | inl (line, priced) ↦
                      elim (Option-cases (find (is_order order_id org.organization_id) db.orders)) [
                        | inl gone ↦ absurd (ground arith)
                        | inr (before, row) ↦ record {
                          line = line;
                          item_id = db.next_id;
                          orders = ground arith;
                          order_items = ground arith;
                          before = before;
                          found = row;
                          after = ground arith;
                        }
                      ]
                ]
          ]
    ]

-- The row of the order after a write to it.
updated_row :
    (org order_id : Uuid) (f : Order → Order) (orders : List Order) {o : Order}
    → ((q : Order) → ((f q).id ≡ q.id) × ((f q).organization_id ≡ q.organization_id))
    → find (is_order order_id org) orders ≡ some o
    → find (is_order order_id org) (modify (is_order order_id org) f orders) ≡ some (f o)
updated_row org order_id f orders {o} keeps found =
    let this = is_order order_id org in
    let matches = find_holds this orders o found in
    rw (find-modify this this f (λ q. ground (arith, keeps q)) orders, found) (ground arith)

increase-Balanced :
    (o : Order) (line : LineItem) (i : Uuid) (items : List OrderItem)
    → Balanced o items
    → Balanced (increase line o) (item_row o.id o.organization_id line i ∷ items)
unfolding Balanced
increase-Balanced o line i items balanced =
    let row = item_row o.id o.organization_id line i in
    ap (λ t. plus t (item_totals row)) balanced
    ∙ plus_comm (items_totals (filter (is_in o.id) items)) (item_totals row)
    ∙ sym (items_totals-add o.id row items refl)

-- The item's columns are taken off again.
decrease-Balanced :
    (o : Order) (item : OrderItem) (items : List OrderItem)
    → filter (has_item_id item.id) items ≡ item ∷ []
    → item.order_id ≡ o.id
    → Balanced o items
    → Balanced (decrease item o) (remove (has_item_id item.id) items)
unfolding Balanced
decrease-Balanced o item items only here balanced =
    let left = items_totals (filter (is_in o.id) (remove (has_item_id item.id) items)) in
    ap (λ t. minus t (item_totals item))
      (balanced ∙ items_totals-remove o.id item.id item items only here)
    ∙ plus-minus (item_totals item) left

-- An item that is added to a balanced order leaves it balanced: what the reply shows is the row
-- that is stored, and its totals are the sums over all items that are stored for it.
pub add_order_item-Balanced :
    (organization : OrganizationScope) (order_id : Uuid) (raw : CreateOrderItem) (db : Db)
    {o : Order} {reply : OrderReply} {db' : Db}
    → let this = is_order order_id (resolve_organization_scope organization).organization_id in
      find this db.orders ≡ some o
      → Balanced o db.order_items
      → add_order_item organization order_id raw db ≡ (ok reply, db')
      → (find this db'.orders ≡ some reply.order) × Balanced reply.order db'.order_items
unfolding add_order_item
add_order_item-Balanced organization order_id raw db {o} {reply} {db'} found balanced h =
    let org = resolve_organization_scope organization in
    let a =
      append_item-Added org order_id raw db (transaction_ok (append_item org order_id raw) db h) in
    let same : a.before ≡ o = ground arith in
    let is_u : increase a.line o ≡ reply.order = sym (a.after ∙ ap (increase a.line) same) in
    let row_is : item_row o.id o.organization_id a.line a.item_id ∷ db.order_items
        ≡ db'.order_items =
      ap (λ (u : Order). item_row u.id u.organization_id a.line a.item_id ∷ db.order_items) is_u
      ∙ sym a.order_items in
    (
      rw (a.orders, ← is_u)
          (updated_row org.organization_id order_id (increase a.line) db.orders (λ q. ground arith)
            found),
      rw (← is_u, ← row_is) (increase-Balanced o a.line a.item_id db.order_items balanced),
    )

-- What a call that removes an item has written.
record Dropped (org order_id item_id : Uuid) (item : OrderItem) (db db' : Db) (u : Order)
    : Type 0 where
  orders : db'.orders ≡ modify (is_order order_id org) (decrease item) db.orders
  order_items : db'.order_items ≡ remove (has_item_id item_id) db.order_items
  before : Order
  found : find (is_order order_id org) db.orders ≡ some before
  after : u ≡ decrease item before

drop_item-Dropped :
    (org : CurrentOrg) (order_id item_id : Uuid) (db : Db) {item : OrderItem} {reply : OrderReply}
    {db' : Db}
    → find (is_item org order_id item_id) db.order_items ≡ some item
    → drop_item org order_id item_id db ≡ (ok reply, db')
    → Dropped org.organization_id order_id item_id item db db' reply.order
unfolding drop_item check_accessible assert_order_accessible update_order reply_with_items
    attach_payment_summary
drop_item-Dropped org order_id item_id db {item} {reply} {db'} listed h =
    elim (Option-cases (find (is_order order_id org.organization_id) db.orders)) [
      | inl gone ↦ absurd (ground arith)
      | inr (before, row) ↦ record {
        orders = ground arith;
        order_items = ground arith;
        before = before;
        found = row;
        after = ground arith;
      }
    ]

-- A balanced order stays balanced when an item is removed: what the reply shows is the row that is
-- stored, and its totals are the sums over the items that are left. It is assumed that the item is
-- the only row with its key.
pub delete_order_item-Balanced :
    (organization : OrganizationScope) (order_id item_id : Uuid) (db : Db) {o : Order}
    {item : OrderItem} {reply : OrderReply} {db' : Db}
    → let org = resolve_organization_scope organization in
      let this = is_order order_id org.organization_id in
      find this db.orders ≡ some o
      → Balanced o db.order_items
      → find (is_item org order_id item_id) db.order_items ≡ some item
      → filter (has_item_id item_id) db.order_items ≡ item ∷ []
      → delete_order_item organization order_id item_id db ≡ (ok reply, db')
      → (find this db'.orders ≡ some reply.order) × Balanced reply.order db'.order_items
unfolding delete_order_item
delete_order_item-Balanced organization order_id item_id db {o} {item} {reply} {db'} found balanced
      listed only h =
    let org = resolve_organization_scope organization in
    let a =
      drop_item-Dropped org order_id item_id db listed
        (transaction_ok (drop_item org order_id item_id) db h) in
    let holds = find_holds (is_item org order_id item_id) db.order_items item listed in
    let o_holds = find_holds (is_order order_id org.organization_id) db.orders o found in
    let same_id : item_id ≡ item.id = ground arith in
    let same_order : item.order_id ≡ o.id = ground arith in
    let same : a.before ≡ o = ground arith in
    let is_u : decrease item o ≡ reply.order = sym (a.after ∙ ap (decrease item) same) in
    let kept : remove (has_item_id item.id) db.order_items ≡ db'.order_items =
      ap (λ i. remove (has_item_id i) db.order_items) (sym same_id) ∙ sym a.order_items in
    (
      rw (a.orders, ← is_u)
          (updated_row org.organization_id order_id (decrease item) db.orders (λ q. ground arith)
            found),
      rw (← is_u, ← kept)
          (decrease-Balanced o item db.order_items (rw same_id at only) same_order balanced),
    )
