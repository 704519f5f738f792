-- ===== src/Order/Items.antt =====
-- `addOrderItem` and `deleteOrderItem` of backend/src/domain/order/order.service.ts.
pub mod Balance
use ledger_light_admin.Base.{
  ℕ, Bool, true, false, not, ◌&&◌, ◌||◌, Option, none, some, List, [], ◌∷◌, String, ℤ, ◌+ℤ◌, ◌-ℤ◌,
  Uuid, Instant, ⊤, bad_request, not_found, ◌==◌, leb, if◌then◌else◌, find, filter, remove, length,
  any,
}
use ledger_light_admin.Access.Scope.{CurrentOrg, OrganizationScope, resolve_organization_scope}
use ledger_light_admin.Store.{
  Db, M, pure, throw, gets, lift, or_throw, throw_if, write, fresh_id, transaction, ◌>>=◌, ◌>>◌,
  Order, OrderItem, Product,
}
use ledger_light_admin.Payment.Queries.{is_pending, visible_order, update_order}
use ledger_light_admin.Order.Pricing.{
  CreateOrderItem, LineItem, price_line, add_messages, has_product_id,
}
use ledger_light_admin.Order.Access.{
  OrderReply, attach_payment_summary, payment_of, check_accessible,
}
use ledger_light_admin.Order.Create.{item_row, create_item}

abbrev pub is_item_of : Uuid → OrderItem → Bool
is_item_of order_id item = item.order_id == order_id

abbrev pub is_org_product : CurrentOrg → Uuid → Product → Bool
is_org_product org i p = p.id == i && p.organization_id == org.organization_id

-- `increment` of the four totals.
abbrev pub increase : LineItem → Order → Order
increase line o = record o {
  subtotal_cents = o.subtotal_cents +ℤ line.line_subtotal_cents;
  discount_cents = o.discount_cents +ℤ line.discount_cents;
  tax_cents = o.tax_cents +ℤ line.tax_cents;
  total_cents = o.total_cents +ℤ line.line_total_cents;
}

-- `decrement` of the four totals.
abbrev pub decrease : OrderItem → Order → Order
decrease item o = record o {
  subtotal_cents = o.subtotal_cents -ℤ item.line_subtotal_cents;
  discount_cents = o.discount_cents -ℤ item.discount_cents;
  tax_cents = o.tax_cents -ℤ item.tax_cents;
  total_cents = o.total_cents -ℤ item.line_total_cents;
}

-- The reply `include: { items: true, payment: true }`.
unfoldable pub reply_with_items : Order → M OrderReply
reply_with_items order = do
  items ← gets (λ db. filter (is_item_of order.id) db.order_items)
  payment ← payment_of order
  pure (attach_payment_summary order items payment)

-- The transaction of `addOrderItem`.
unfoldable pub append_item : CurrentOrg → Uuid → CreateOrderItem → M OrderReply
append_item org order_id raw = do
  row ← gets (λ db. find (λ o. is_pending o.status && visible_order org order_id o) db.orders)
  order ← or_throw row (not_found "Order not found for organization or is not Pending")
  found ← gets (λ db. find (is_org_product org raw.product_id) db.products)
  product ← or_throw found (bad_request "Invalid product")
  items ← gets (λ db. filter (is_item_of order.id) db.order_items)
  throw_if (any (λ item. item.product_id == product.id) items)
      (bad_request "Product already exist in order, update it instead")
  line ← lift (price_line add_messages org.organization_id raw product)
  updated ← update_order order_id org.organization_id (increase line)
  create_item (item_row updated.id updated.organization_id line)
  reply_with_items updated

-- `addOrderItem`
unfoldable pub add_order_item : OrganizationScope → Uuid → CreateOrderItem → M OrderReply
add_order_item organization order_id raw =
    transaction (append_item (resolve_organization_scope organization) order_id raw)

abbrev pub is_item : CurrentOrg → Uuid → Uuid → OrderItem → Bool
is_item org order_id item_id item =
    item.id == item_id && item.order_id == order_id && item.organization_id == org.organization_id

abbrev pub is_org_item_of : CurrentOrg → Uuid → OrderItem → Bool
is_org_item_of org order_id item =
    item.order_id == order_id && item.organization_id == org.organization_id

-- The transaction of `deleteOrderItem`. It asks nothing of the status of the order.
unfoldable pub drop_item : CurrentOrg → Uuid → Uuid → M OrderReply
drop_item org order_id item_id = do
  check_accessible org order_id
  row ← gets (λ db. find (is_item org order_id item_id) db.order_items)
  item ← or_throw row (not_found "Order item not found")
  count ← gets (λ db. length (filter (is_org_item_of org order_id) db.order_items))
  throw_if (leb count 1) (bad_request "Order must have at least one item")
  updated ← update_order order_id org.organization_id (decrease item)
  write (λ db. record db { order_items = remove (λ i. i.id == item_id) db.order_items })
  reply_with_items updated

-- `deleteOrderItem`
unfoldable pub delete_order_item : OrganizationScope → Uuid → Uuid → M OrderReply
delete_order_item organization order_id item_id =
    transaction (drop_item (resolve_organization_scope organization) order_id item_id)
