-- ===== src/Order/Create.antt =====
-- `createOrder` of backend/src/domain/order/order.service.ts.
pub mod Balance
use ledger_light_admin.Base.{
  ℕ, Bool, true, false, not, ◌&&◌, ◌||◌, Option, none, some, List, [], ◌∷◌, String, ℤ, Uuid,
  Instant, ⊤, bad_request, ◌==◌, ltb, if◌then◌else◌, find, filter, remove, length, Error, map,
  Result, ok, err,
}
use ledger_light_admin.Access.Scope.{
  CurrentOrg, OrganizationScope, resolve_organization_scope, has_restricted_locations,
  ensure_location_accessible, LocationOptions, includes_id,
}
use ledger_light_admin.Store.{
  Db, M, pure, throw, gets, lift, throw_if, write, fresh_id, transaction, ◌>>=◌, ◌>>◌, OrderStatus,
  Order, OrderItem, Product,
}
use ledger_light_admin.Order.Pricing.{
  CreateOrderItem, LineItem, Totals, price_items, no_totals, invalid_products,
}
use ledger_light_admin.Order.Access.{
  OrderReply, attach_payment_summary, check_customer, check_location,
}

-- `CreateOrderDto`. An `orderItems` that is missing is the empty list.
pub record CreateOrder : Type 0 where
  pub customer_id : Option Uuid
  pub location_id : Option Uuid
  pub order_items : List CreateOrderItem

-- `[...new Set(ids)]`
unfoldable pub distinct : List Uuid → List Uuid
distinct [] = []
distinct (i ∷ ids) = i ∷ remove (λ j. j == i) (distinct ids)

abbrev pub is_sold_by : CurrentOrg → List Uuid → Product → Bool
is_sold_by org ids p = includes_id ids p.id && p.organization_id == org.organization_id && p.active

-- `order.create`, with the totals and the keys of the request.
unfoldable pub create_order_row : Instant → Uuid → CreateOrder → Totals → M Order
create_order_row now organization_id body totals = do
  i ← fresh_id
  let order : Order = record {
    id = i;
    organization_id = organization_id;
    customer_id = body.customer_id;
    location_id = body.location_id;
    status = OrderStatus.pending;
    subtotal_cents = totals.subtotal_cents;
    tax_cents = totals.tax_cents;
    discount_cents = totals.discount_cents;
    total_cents = totals.total_cents;
    created_at = now;
    placed_at = none;
    cancelled_at = none;
  }
  write (λ db. record db { orders = order ∷ db.orders })
  pure order

-- The row of a line in an order.
abbrev pub item_row : Uuid → Uuid → LineItem → Uuid → OrderItem
item_row order_id organization_id line i = record {
  id = i;
  order_id = order_id;
  product_id = line.product_id;
  organization_id = organization_id;
  product_name = line.product_name;
  sku = line.sku;
  qty = line.qty;
  unit_price_cents = line.unit_price_cents;
  line_subtotal_cents = line.line_subtotal_cents;
  discount_cents = line.discount_cents;
  tax_cents = line.tax_cents;
  line_total_cents = line.line_total_cents;
}

unfoldable pub create_item : (Uuid → OrderItem) → M OrderItem
create_item row = do
  i ← fresh_id
  write (λ db. record db { order_items = row i ∷ db.order_items })
  pure (row i)

-- `orderItem.createManyAndReturn`: the rows carry their own organization.
unfoldable pub create_many : Uuid → List LineItem → M (List OrderItem)
create_many order_id [] = pure []
create_many order_id (line ∷ lines) = do
  item ← create_item (item_row order_id line.organization_id line)
  items ← create_many order_id lines
  pure (item ∷ items)

-- The nested `items: { create }`: both parts of the key of the order come from the order.
unfoldable pub create_nested : Order → List LineItem → M (List OrderItem)
create_nested order [] = pure []
create_nested order (line ∷ lines) = do
  item ← create_item (item_row order.id order.organization_id line)
  items ← create_nested order lines
  pure (item ∷ items)

abbrev pub location_required : LocationOptions
location_required = record {
  allow_unspecified = some false;
  missing_message = some "A location is required when creating orders for a scoped membership";
  forbidden_message = none;
}

-- The items of the order, in one of two ways that depends on how many there are.
unfoldable pub create_items : ℕ → Order → List LineItem → M (List OrderItem)
create_items count order lines =
    if ltb 20 count then create_many order.id lines else create_nested order lines

-- The writes of `createOrder`: the order, and its items.
unfoldable pub store_order : Instant → Uuid → CreateOrder → List LineItem → Totals → M OrderReply
store_order now organization_id body lines totals = do
  order ← create_order_row now organization_id body totals
  items ← create_items (length body.order_items) order lines
  pure (attach_payment_summary order items none)

-- The transaction of `createOrder`.
unfoldable pub place_order : Instant → CurrentOrg → CreateOrder → M OrderReply
place_order now org body = do
  check_customer org body.customer_id "Invalid customer for organization"
  check_location org body.location_id "Invalid location for organization"
  let ids = distinct (map CreateOrderItem.product_id body.order_items)
  products ← gets (λ db. filter (is_sold_by org ids) db.products)
  throw_if (not (length products == length ids)) invalid_products
  (lines, totals) ← lift (price_items org.organization_id products body.order_items [] no_totals)
  store_order now org.organization_id body lines totals

-- `createOrder`
unfoldable pub create_order : Instant → OrganizationScope → CreateOrder → M OrderReply
create_order now organization body = do
  let org = resolve_organization_scope organization
  throw_if (length body.order_items == 0) (bad_request "Order must contain at least one item")
  (if has_restricted_locations org
      then lift (ensure_location_accessible org body.location_id (some location_required))
      else pure tt)
  transaction (place_order now org body)
