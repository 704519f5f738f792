-- ===== src/Order/Tests.antt =====
-- The theorems about orders and their items at sample rows.
use ledger_light_admin.Base.{
  Uuid, Option, ◌≡◌, refl, ◌⊎◌, true, none, some, [], ◌∷◌, pos, ok, find, filter, modify, remove,
  ◌+ℤ◌, ◌-ℤ◌, ◌*ℤ◌,
}
use ledger_light_admin.Access.Scope.{current, location_scope_where, resolve_organization_scope}
use ledger_light_admin.Store.{Db, OrderStatus, Order, OrderItem}
use ledger_light_admin.Payment.Status.{to_payment_summary_dto}
use ledger_light_admin.Payment.Queries.{is_payment_of, update_order, is_order}
use ledger_light_admin.Order.Access.{
  assert_order_accessible, attach_payment_summary, check_customer, check_location, check_accessible,
}
use ledger_light_admin.Order.Balance.{Balanced, is_in, has_item_id}
use ledger_light_admin.Order.Pricing.{CreateOrderItem, price_items, price_item, price_line}
use ledger_light_admin.Order.Create.{
  CreateOrder, distinct, place_order, store_order, create_order_row, create_items, create_nested,
  create_item, create_order,
}
use ledger_light_admin.Order.Create.Balance.{create_order-Balanced}
use ledger_light_admin.Order.Items.{
  append_item, drop_item, reply_with_items, is_item, add_order_item, delete_order_item,
}
use ledger_light_admin.Order.Items.Balance.{add_order_item-Balanced, delete_order_item-Balanced}
use ledger_light_admin.Order.Records.{
  UpdateOrder, check_new_location, update_order_columns, update_order_request, remove_order,
  delete_order,
}
use ledger_light_admin.Order.Records.Access.{keyed, deleted_order_in_scope, updated_order_in_scope}
use ledger_light_admin.Samples.{lead, paid_payment, paid_db, open_db, shop, order_in, item_of}

-- Orders and their items.
abbrev coffees : CreateOrderItem
coffees = record {
  product_id = 40;
  qty = some (pos 2);
  discount_cents = some (pos 100);
  tax_cents = none;
}

abbrev basket : CreateOrder
basket = record { customer_id = none; location_id = none; order_items = coffees ∷ [] }

abbrev created_order : Order
created_order = record {
  id = 100;
  organization_id = 1;
  customer_id = none;
  location_id = none;
  status = OrderStatus.pending;
  subtotal_cents = pos 1000;
  tax_cents = pos 0;
  discount_cents = pos 100;
  total_cents = pos 900;
  created_at = 8;
  placed_at = none;
  cancelled_at = none;
}

abbrev created_item : OrderItem
created_item = record {
  id = 101;
  order_id = 100;
  product_id = 40;
  organization_id = 1;
  product_name = "Coffee";
  sku = some "C";
  qty = pos 2;
  unit_price_cents = pos 500;
  line_subtotal_cents = pos 1000;
  discount_cents = pos 100;
  tax_cents = pos 0;
  line_total_cents = pos 900;
}

abbrev created_db : Db
created_db = record paid_db {
  orders = created_order ∷ paid_db.orders;
  order_items = created_item ∷ paid_db.order_items;
  next_id = 102;
}

creates :
    create_order 8 shop basket paid_db
    ≡ (ok (record { order = created_order; items = created_item ∷ []; payment = none }), created_db)
unfolding create_order place_order store_order filter find remove distinct
    resolve_organization_scope check_customer check_location price_items price_item price_line
    create_order_row create_items create_nested create_item attach_payment_summary
    to_payment_summary_dto ◌+ℤ◌ ◌-ℤ◌ ◌*ℤ◌
creates = refl

no_items_yet : filter (is_in 100) paid_db.order_items ≡ []
unfolding filter
no_items_yet = refl

create_order-Balanced_example :
    (find (is_order 100 1) created_db.orders ≡ some created_order)
    × (OrderStatus.pending ≡ OrderStatus.pending)
    × Balanced created_order created_db.order_items
unfolding resolve_organization_scope
create_order-Balanced_example = create_order-Balanced 8 shop basket paid_db no_items_yet creates

open-Balanced : Balanced (order_in OrderStatus.pending) open_db.order_items
unfolding Balanced filter ◌+ℤ◌
open-Balanced = refl

abbrev with_coffees : Order
with_coffees = record (order_in OrderStatus.pending) {
  subtotal_cents = pos 3000;
  discount_cents = pos 100;
  total_cents = pos 2900;
}

abbrev added_item : OrderItem
added_item = record created_item { id = 100; order_id = 10 }

abbrev added_db : Db
added_db = record open_db {
  orders = with_coffees ∷ [];
  order_items = added_item ∷ open_db.order_items;
  next_id = 101;
}

adds :
    add_order_item shop 10 coffees open_db
    ≡ (ok (record { order = with_coffees; items = added_db.order_items; payment = none }), added_db)
unfolding add_order_item append_item filter find modify resolve_organization_scope
    location_scope_where price_line update_order create_item reply_with_items attach_payment_summary
    to_payment_summary_dto ◌+ℤ◌ ◌-ℤ◌ ◌*ℤ◌
adds = refl

open_found : find (is_order 10 1) open_db.orders ≡ some (order_in OrderStatus.pending)
unfolding find
open_found = refl

add_order_item-Balanced_example :
    (find (is_order 10 1) added_db.orders ≡ some with_coffees)
    × Balanced with_coffees added_db.order_items
unfolding resolve_organization_scope
add_order_item-Balanced_example =
    add_order_item-Balanced shop 10 coffees open_db open_found open-Balanced adds

paid-Balanced : Balanced (order_in OrderStatus.confirmed) paid_db.order_items
unfolding Balanced filter ◌+ℤ◌
paid-Balanced = refl

paid_found : find (is_order 10 1) paid_db.orders ≡ some (order_in OrderStatus.confirmed)
unfolding find
paid_found = refl

abbrev without_item : Order
without_item = record (order_in OrderStatus.confirmed) {
  subtotal_cents = pos 1500;
  total_cents = pos 1500;
}

abbrev deleted_db : Db
deleted_db = record paid_db {
  orders = without_item ∷ [];
  order_items = item_of 31 41 (pos 1500) ∷ [];
}

-- The order is confirmed and paid, and its item is deleted all the same: the totals go down, and
-- the amount of the payment stays.
deletes : delete_order_item shop 10 32 paid_db ≡ (
  ok (record {
    order = without_item;
    items = deleted_db.order_items;
    payment = to_payment_summary_dto (some paid_payment);
  }),
  deleted_db,
)
unfolding delete_order_item drop_item filter find modify remove resolve_organization_scope
    check_accessible update_order reply_with_items attach_payment_summary ◌+ℤ◌ ◌-ℤ◌ ◌*ℤ◌
deletes = refl

listed :
    find (is_item (resolve_organization_scope shop) 10 32) paid_db.order_items
    ≡ some (item_of 32 42 (pos 500))
unfolding find resolve_organization_scope
listed = refl

only : filter (has_item_id 32) paid_db.order_items ≡ item_of 32 42 (pos 500) ∷ []
unfolding filter
only = refl

delete_order_item-Balanced_example :
    (find (is_order 10 1) deleted_db.orders ≡ some without_item)
    × Balanced without_item deleted_db.order_items
unfolding resolve_organization_scope
delete_order_item-Balanced_example =
    delete_order_item-Balanced shop 10 32 paid_db paid_found paid-Balanced listed only deletes

-- The manager of location 7 deletes the order, or gives it another customer.
abbrev emptied_db : Db
emptied_db = record paid_db { orders = []; order_items = []; payments = [] }

removes : delete_order (current lead) 10 paid_db ≡ (
  ok (record {
    order = order_in OrderStatus.confirmed;
    items = [];
    payment = to_payment_summary_dto (some paid_payment);
  }),
  emptied_db,
)
unfolding delete_order remove_order check_accessible assert_order_accessible find filter remove
    resolve_organization_scope attach_payment_summary
removes = refl

deleted_order_in_scope_example :
    (find (is_order 10 1) paid_db.orders ≡ some (order_in OrderStatus.confirmed))
    × (location_scope_where (resolve_organization_scope (current lead)) (some 7) ≡ true)
    × (find (is_order 10 1) emptied_db.orders ≡ none)
    × (find (is_payment_of 10) emptied_db.payments ≡ none)
unfolding resolve_organization_scope
deleted_order_in_scope_example = deleted_order_in_scope (current lead) 10 paid_db removes

abbrev clear_location : UpdateOrder
clear_location = record { customer_id = none; location_id = some none }

abbrev cleared : Order
cleared = record (order_in OrderStatus.pending) { location_id = none }

abbrev cleared_db : Db
cleared_db = record open_db { orders = cleared ∷ [] }

updates :
    update_order_request (current lead) 10 clear_location open_db
    ≡ (ok (record { order = cleared; items = []; payment = none }), cleared_db)
unfolding update_order_request update_order_columns check_customer check_new_location
    check_accessible assert_order_accessible update_order find modify resolve_organization_scope
    attach_payment_summary to_payment_summary_dto
updates = refl

updated_order_in_scope_example :
    (o : Order) × (find (keyed 10 1) open_db.orders ≡ some o)
    × (location_scope_where (resolve_organization_scope (current lead)) o.location_id ≡ true)
    × ((◌≡◌ {A = Option Uuid} none none)
        ⊎ (location_scope_where (resolve_organization_scope (current lead)) none ≡ true))
    × (cleared ≡ record o { customer_id = o.customer_id; location_id = none })
    × (find (keyed 10 1) cleared_db.orders ≡ some cleared)
    × ((i k : Uuid)
        → ¬ ((i ≡ 10) × (k ≡ 1))
        → find (keyed i k) cleared_db.orders ≡ find (keyed i k) open_db.orders)
unfolding resolve_organization_scope
updated_order_in_scope_example =
    updated_order_in_scope (current lead) 10 clear_location open_db updates
