-- ===== src/Samples.antt =====
-- Sample rows for the tests: one organization with one order of two items, and its payment.
use ledger_light_admin.Base.{false, Option, none, some, List, [], ◌∷◌, ℤ, pos, true, Uuid}
use ledger_light_admin.Access.Roles.{manager}
use ledger_light_admin.Access.Scope.{CurrentOrg, OrganizationScope, identifier}
use ledger_light_admin.Store.{
  Db, OrderStatus, PaymentStatus, RefundStatus, PaymentMethod, PaymentAttemptStatus, Order,
  OrderItem, Product, Payment, PaymentAttempt, AuditContext,
}
use ledger_light_admin.Payment.Stripe.{
  IntentStatus, PaymentIntent, StripeRefundStatus, StripeService, answered, thrown,
}

abbrev pub shop : OrganizationScope
shop = identifier 1

abbrev pub order_in : OrderStatus → Order
order_in status = record {
  id = 10;
  organization_id = 1;
  customer_id = none;
  location_id = some 7;
  status = status;
  subtotal_cents = pos 2000;
  tax_cents = pos 0;
  discount_cents = pos 0;
  total_cents = pos 2000;
  created_at = 3;
  placed_at = some 5;
  cancelled_at = none;
}

abbrev pub item_of : Uuid → Uuid → ℤ → OrderItem
item_of i product cents = record {
  id = i;
  order_id = 10;
  product_id = product;
  organization_id = 1;
  product_name = "Tea";
  sku = some "T";
  qty = pos 1;
  unit_price_cents = cents;
  line_subtotal_cents = cents;
  discount_cents = pos 0;
  tax_cents = pos 0;
  line_total_cents = cents;
}

abbrev pub coffee : Product
coffee = record {
  id = 40;
  organization_id = 1;
  name = "Coffee";
  category = none;
  sku = "C";
  price_cents = pos 500;
  reorder_threshold = pos 10;
  active = true;
}

abbrev pub payment_in : Option PaymentMethod → PaymentStatus → RefundStatus → Payment
payment_in method status refund = record {
  id = 20;
  organization_id = 1;
  order_id = 10;
  method = method;
  payment_status = status;
  refund_status = refund;
  amount_cents = pos 2000;
  currency_code = "CAD";
  stripe_refund_id = none;
  paid_at = none;
  refund_requested_at = none;
  refunded_at = none;
  refund_failed_at = none;
  refund_reason = none;
  last_payment_failure = none;
  last_refund_failure = none;
  created_at = 3;
}

abbrev pub attempt : PaymentAttempt
attempt = record {
  id = 50;
  payment_id = 20;
  stripe_payment_intent_id = 60;
  status = PaymentAttemptStatus.pending;
  client_secret = "secret";
  amount_cents = pos 2000;
  currency_code = "CAD";
  last_failure = none;
  created_at = 4;
}

abbrev pub db_of : Order → List Payment → List PaymentAttempt → Db
db_of order payments attempts = record {
  customers = [];
  locations = [];
  products = coffee ∷ [];
  orders = order ∷ [];
  order_items = item_of 31 41 (pos 1500) ∷ item_of 32 42 (pos 500) ∷ [];
  payments = payments;
  attempts = attempts;
  receipts = [];
  audit_logs = [];
  inventory_levels = [];
  inventory_adjustments = [];
  users = [];
  memberships = [];
  membership_locations = [];
  invite_tokens = [];
  refresh_tokens = [];
  next_id = 100;
}

abbrev pub nobody : AuditContext
nobody = record { actor_user_id = none; request_id = none; ip = none; user_agent = none }

abbrev pub intent_in : IntentStatus → PaymentIntent
intent_in status = record {
  id = 60;
  status = status;
  client_secret = some "secret";
  last_payment_error_message = none;
  cancellation_reason = none;
  metadata_payment_attempt_id = some 50;
}

-- A Stripe that takes every call.
abbrev pub obliging : StripeService
obliging = record {
  create_payment_intent = λ args. answered (intent_in IntentStatus.requires_payment_method);
  retrieve_payment_intent = λ i. answered (intent_in IntentStatus.succeeded);
  cancel_payment_intent = λ i. answered (intent_in IntentStatus.canceled);
  create_refund = λ args. answered (record {
    id = 70;
    status = StripeRefundStatus.succeeded;
    failure_reason = none;
    metadata_payment_id = some 20;
  });
}

-- A Stripe that cannot be reached.
abbrev pub unreachable : StripeService
unreachable = record {
  create_payment_intent = λ args. thrown (some "timeout");
  retrieve_payment_intent = λ i. thrown (some "timeout");
  cancel_payment_intent = λ i. thrown (some "timeout");
  create_refund = λ args. thrown (some "timeout");
}

abbrev pub lead : CurrentOrg
lead = record {
  membership_id = none;
  organization_id = 1;
  role = manager;
  has_all_locations = false;
  allowed_location_ids = 7 ∷ [];
}

abbrev pub paid_payment : Payment
paid_payment = payment_in (some PaymentMethod.cash) PaymentStatus.paid RefundStatus.none

abbrev pub paid_db : Db
paid_db = db_of (order_in OrderStatus.confirmed) (paid_payment ∷ []) []

abbrev pub open_db : Db
open_db = db_of (order_in OrderStatus.pending) [] []
