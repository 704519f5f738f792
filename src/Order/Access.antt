-- ===== src/Order/Access.antt =====
-- What the operations of order.service.ts share: the reply, the checks of a customer and a location
-- that a request names, and the access check of a restricted membership.
use ledger_light_admin.Base.{
  Bool, true, not, ◌&&◌, Option, none, some, List, Uuid, ⊤, forbidden, not_found, bad_request,
  String, ◌==◌, if◌then◌else◌, is_some, find,
}
use ledger_light_admin.Access.Scope.{
  CurrentOrg, has_restricted_locations, includes_id, location_scope_where,
}
use ledger_light_admin.Store.{
  M, pure, gets, or_throw, throw_if, ◌>>=◌, Order, OrderItem, Payment, Customer, Location,
}
use ledger_light_admin.Payment.Status.{PaymentSummaryDto, to_payment_summary_dto}
use ledger_light_admin.Payment.Queries.{is_payment_of, is_order}

-- An order with the items that a read includes, and `attachPaymentSummary`. The customer and the
-- location that some reads include are columns of other rows, and are left out.
pub record OrderReply : Type 0 where
  pub order : Order
  pub items : List OrderItem
  pub payment : Option PaymentSummaryDto

-- `attachPaymentSummary`
unfoldable pub attach_payment_summary : Order → List OrderItem → Option Payment → OrderReply
attach_payment_summary order items payment = record {
  order = order;
  items = items;
  payment = to_payment_summary_dto payment;
}

-- `include: { payment: true }`
abbrev pub payment_of : Order → M (Option Payment)
payment_of order = gets (λ db. find (is_payment_of order.id) db.payments)

abbrev pub is_customer : CurrentOrg → Uuid → Customer → Bool
is_customer org i c = c.id == i && c.organization_id == org.organization_id

-- `if (customerId) { … }`
unfoldable pub check_customer : CurrentOrg → Option Uuid → String → M ⊤
check_customer org none message = pure tt
check_customer org (some i) message = do
  row ← gets (λ db. find (is_customer org i) db.customers)
  throw_if (not (is_some row)) (bad_request message)

abbrev pub is_location : CurrentOrg → Uuid → Location → Bool
is_location org i l =
    l.organization_id == org.organization_id
    && (if has_restricted_locations org
        then l.id == i && location_scope_where org (some l.id)
        else l.id == i)

-- `if (locationId) { … }`, from the read on.
unfoldable pub check_location : CurrentOrg → Option Uuid → String → M ⊤
check_location org none message = pure tt
check_location org (some i) message = do
  row ← gets (λ db. find (is_location org i) db.locations)
  throw_if (not (is_some row)) (bad_request message)

abbrev pub is_outside : CurrentOrg → Option Uuid → Bool
is_outside org none = true
is_outside org (some l) = not (includes_id org.allowed_location_ids l)

-- `assertOrderAccessible`
unfoldable pub assert_order_accessible : CurrentOrg → Uuid → M ⊤
assert_order_accessible org order_id = do
  row ← gets (λ db. find (is_order order_id org.organization_id) db.orders)
  order ← or_throw row (not_found "Order not found")
  throw_if (has_restricted_locations org && is_outside org order.location_id)
      (forbidden "You do not have access to this order")

-- `if (hasRestrictedLocations(org)) await this.assertOrderAccessible(org, orderId)`
unfoldable pub check_accessible : CurrentOrg → Uuid → M ⊤
check_accessible org order_id =
    if has_restricted_locations org then assert_order_accessible org order_id else pure tt
