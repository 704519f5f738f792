-- ===== src/Order/Pricing.antt =====
-- The loop of `createOrder` in backend/src/domain/order/order.service.ts that turns the items of a
-- request into priced lines and adds up the totals; `addOrderItem` prices its one item in the same
-- way, with other messages. Amounts are whole cents of either sign, without a bound.
pub mod Sums
mod Tests
use ledger_light_admin.Base.{
  ℕ, Bool, true, false, ◌||◌, Option, none, some, List, [], ◌∷◌, ◌++◌, String, ℤ, pos, ◌+ℤ◌, ◌-ℤ◌,
  ◌*ℤ◌, ltb_ℤ, Uuid, Result, ok, err, bad_request, Error, ◌==◌, if◌then◌else◌, ◌otherwise◌, find,
}
use ledger_light_admin.Store.{Product}

-- `CreateOrderItemDto`
pub record CreateOrderItem : Type 0 where
  pub product_id : Uuid
  pub qty : Option ℤ
  pub discount_cents : Option ℤ
  pub tax_cents : Option ℤ

-- A line, without the keys that its row will get.
pub record LineItem : Type 0 where
  pub organization_id : Uuid
  pub product_id : Uuid
  pub product_name : String
  pub sku : Option String
  pub qty : ℤ
  pub unit_price_cents : ℤ
  pub line_subtotal_cents : ℤ
  pub discount_cents : ℤ
  pub tax_cents : ℤ
  pub line_total_cents : ℤ

pub record Totals : Type 0 where
  pub subtotal_cents : ℤ
  pub tax_cents : ℤ
  pub discount_cents : ℤ
  pub total_cents : ℤ

-- The three messages in which the two callers differ.
pub record PricingMessages : Type 0 where
  pub negative_cents : String
  pub excessive_discount : String

abbrev pub leb_ℤ : ℤ → ℤ → Bool
leb_ℤ a b = if ltb_ℤ b a then false else true

-- The checks and the arithmetic of one item, once its product is known.
unfoldable pub price_line : PricingMessages → Uuid → CreateOrderItem → Product → Result LineItem
price_line messages organization_id raw product =
    let qty = raw.qty otherwise pos 0 in
    let discount = raw.discount_cents otherwise pos 0 in
    let tax = raw.tax_cents otherwise pos 0 in
    let line_subtotal = qty *ℤ product.price_cents in
    if leb_ℤ qty (pos 0)
    then err (bad_request "Item qty must be > 0")
    else if ltb_ℤ discount (pos 0) || ltb_ℤ tax (pos 0)
    then err (bad_request messages.negative_cents)
    else if ltb_ℤ line_subtotal discount
    then err (bad_request messages.excessive_discount)
    else ok (record {
      organization_id = organization_id;
      product_id = raw.product_id;
      product_name = product.name;
      sku = some product.sku;
      qty = qty;
      unit_price_cents = product.price_cents;
      line_subtotal_cents = line_subtotal;
      discount_cents = discount;
      tax_cents = tax;
      line_total_cents = line_subtotal -ℤ discount +ℤ tax;
    })

abbrev pub create_messages : PricingMessages
create_messages = record {
  negative_cents = "Cents values must be non-negative";
  excessive_discount = "Discount cannot exceed line subtotal";
}

abbrev pub add_messages : PricingMessages
add_messages = record {
  negative_cents = "Cents must be non-negative";
  excessive_discount = "Discount exceeds line subtotal";
}

abbrev pub has_product_id : Uuid → Product → Bool
has_product_id i p = p.id == i

abbrev pub invalid_products : Error
invalid_products = bad_request "One or more products are invalid or inactive for this organization"

-- One round of the loop. The product is looked up after the checks that do not need it: without a
-- product the message is the one for the product only where those checks pass.
unfoldable pub price_item : Uuid → List Product → CreateOrderItem → Result LineItem
price_item organization_id products raw = elim (find (has_product_id raw.product_id) products) [
  | some product ↦ price_line create_messages organization_id raw product
  | none ↦
      if leb_ℤ (raw.qty otherwise pos 0) (pos 0)
      then err (bad_request "Item qty must be > 0")
      else if ltb_ℤ (raw.discount_cents otherwise pos 0) (pos 0)
          || ltb_ℤ (raw.tax_cents otherwise pos 0) (pos 0)
      then err (bad_request create_messages.negative_cents)
      else err invalid_products
]

abbrev pub no_totals : Totals
no_totals = record {
  subtotal_cents = pos 0;
  tax_cents = pos 0;
  discount_cents = pos 0;
  total_cents = pos 0;
}

abbrev pub add_line : Totals → LineItem → Totals
add_line t line = record {
  subtotal_cents = t.subtotal_cents +ℤ line.line_subtotal_cents;
  tax_cents = t.tax_cents +ℤ line.tax_cents;
  discount_cents = t.discount_cents +ℤ line.discount_cents;
  total_cents = t.total_cents +ℤ line.line_total_cents;
}

-- The loop, over the lines and the totals so far.
unfoldable pub price_items :
    Uuid
    → List Product
    → List CreateOrderItem
    → List LineItem
    → Totals
    → Result (List LineItem × Totals)
price_items organization_id products [] lines totals = ok (lines, totals)
price_items organization_id products (raw ∷ items) lines totals =
    elim (price_item organization_id products raw) [
      | err e ↦ err e
      | ok line ↦
          price_items organization_id products items (lines ++ line ∷ []) (add_line totals line)
    ]
