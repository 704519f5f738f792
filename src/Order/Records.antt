-- ===== src/Order/Records.antt =====
-- `getOrderById`, `updateOrder` and `deleteOrder` of backend/src/domain/order/order.service.ts.
pub mod Access
use ledger_light_admin.Base.{
  Bool, true, false, not, Option, none, some, List, [], Uuid, ⊤, not_found, record_not_found,
  if◌then◌else◌, ◌otherwise◌, find, filter, remove, ◌==◌, ◌&&◌,
}
use ledger_light_admin.Access.Scope.{
  CurrentOrg, OrganizationScope, resolve_organization_scope, ensure_location_accessible,
  LocationOptions,
}
use ledger_light_admin.Store.{
  Db, M, pure, throw, gets, lift, or_throw, write, ◌>>=◌, ◌>>◌, Order, OrderItem, Payment,
  PaymentAttempt,
}
use ledger_light_admin.Payment.Queries.{is_order, is_payment_of, visible_order, update_order}
use ledger_light_admin.Order.Access.{
  OrderReply, attach_payment_summary, payment_of, check_customer, check_location, check_accessible,
}
use ledger_light_admin.Order.Items.{is_item_of}

-- `getOrderById`; `withItems` is an argument.
unfoldable pub get_order_by_id : OrganizationScope → Uuid → Bool → M OrderReply
get_order_by_id organization order_id with_items = do
  row ←
      gets (λ db. find (visible_order (resolve_organization_scope organization) order_id) db.orders)
  order ← or_throw row (not_found "Order not found")
  items ← gets (λ db. if with_items then filter (is_item_of order.id) db.order_items else [])
  payment ← payment_of order
  pure (attach_payment_summary order items payment)

-- `UpdateOrderDto`: a key that is missing leaves the column alone, and one that is null clears it.
pub record UpdateOrder : Type 0 where
  pub customer_id : Option (Option Uuid)
  pub location_id : Option (Option Uuid)

-- The column after the update.
abbrev pub set_key : Option (Option Uuid) → Option Uuid → Option Uuid
set_key none old = old
set_key (some new) old = new

-- The text that a truth test lets through.
abbrev pub named : Option (Option Uuid) → Option Uuid
named none = none
named (some key) = key

abbrev pub set_columns : UpdateOrder → Order → Order
set_columns change o = record o {
  customer_id = set_key change.customer_id o.customer_id;
  location_id = set_key change.location_id o.location_id;
}

abbrev pub must_be_named : LocationOptions
must_be_named = record {
  allow_unspecified = some false;
  missing_message = none;
  forbidden_message = none;
}

-- The location that a request names: first the membership, then the row.
unfoldable pub check_new_location : CurrentOrg → Option Uuid → M ⊤
check_new_location org none = pure tt
check_new_location org (some location) = do
  lift (ensure_location_accessible org (some location) (some must_be_named))
  check_location org (some location) "Location not found with given id"

-- `updateOrder`; it is no transaction, but writes once, at its end.
unfoldable pub update_order_columns : CurrentOrg → Uuid → UpdateOrder → M OrderReply
update_order_columns org order_id change = do
  check_customer org (named change.customer_id) "Customer not found with given id"
  check_new_location org (named change.location_id)
  check_accessible org order_id
  updated ← update_order order_id org.organization_id (set_columns change)
  payment ← payment_of updated
  pure (attach_payment_summary updated [] payment)

unfoldable pub update_order_request : OrganizationScope → Uuid → UpdateOrder → M OrderReply
update_order_request organization order_id change =
    update_order_columns (resolve_organization_scope organization) order_id change

-- What `onDelete: Cascade` deletes with an order: its items, its payment, and the attempts of that.
abbrev pub cascade : Option Payment → Uuid → Uuid → Db → Db
cascade payment order_id organization_id db = record db {
  orders = remove (is_order order_id organization_id) db.orders;
  order_items =
      remove (λ i. i.order_id == order_id && i.organization_id == organization_id) db.order_items;
  payments = remove (is_payment_of order_id) db.payments;
  attempts = remove (λ a. is_attempt_of_payment payment a) db.attempts;
}
  where
    is_attempt_of_payment : Option Payment → PaymentAttempt → Bool
    is_attempt_of_payment none a = false
    is_attempt_of_payment (some p) a = a.payment_id == p.id

-- `deleteOrder`
unfoldable pub remove_order : CurrentOrg → Uuid → M OrderReply
remove_order org order_id = do
  check_accessible org order_id
  row ← gets (λ db. find (is_order order_id org.organization_id) db.orders)
  order ← or_throw row record_not_found
  payment ← payment_of order
  write (cascade payment order_id org.organization_id)
  pure (attach_payment_summary order [] payment)

unfoldable pub delete_order : OrganizationScope → Uuid → M OrderReply
delete_order organization order_id = remove_order (resolve_organization_scope organization) order_id
