-- ===== src/Order/Pricing/Tests.antt =====
-- The prices of a small request.
use ledger_light_admin.Base.{
  ◌≡◌, refl, some, [], ◌∷◌, pos, ok, err, bad_request, find, ◌+ℤ◌, ◌-ℤ◌, ◌*ℤ◌,
}
use ledger_light_admin.Order.Pricing.{
  CreateOrderItem, LineItem, Totals, price_items, price_item, price_line, no_totals,
}
use ledger_light_admin.Order.Pricing.Sums.{AreLinesOf, sums, price_items-sums}
use ledger_light_admin.Samples.{coffee}

abbrev two_coffees : CreateOrderItem
two_coffees = record {
  product_id = 40;
  qty = some (pos 2);
  discount_cents = some (pos 100);
  tax_cents = some (pos 45);
}

abbrev line : LineItem
line = record {
  organization_id = 1;
  product_id = 40;
  product_name = "Coffee";
  sku = some "C";
  qty = pos 2;
  unit_price_cents = pos 500;
  line_subtotal_cents = pos 1000;
  discount_cents = pos 100;
  tax_cents = pos 45;
  line_total_cents = pos 945;
}

abbrev totals : Totals
totals = record {
  subtotal_cents = pos 1000;
  tax_cents = pos 45;
  discount_cents = pos 100;
  total_cents = pos 945;
}

prices : price_items 1 (coffee ∷ []) (two_coffees ∷ []) [] no_totals ≡ ok (line ∷ [], totals)
unfolding price_items price_item price_line find ◌+ℤ◌ ◌-ℤ◌ ◌*ℤ◌
prices = refl

too_much_off :
    price_items 1
      (coffee ∷ [])
      (record two_coffees { discount_cents = some (pos 1001) } ∷ [])
      []
      no_totals
    ≡ err (bad_request "Discount cannot exceed line subtotal")
unfolding price_items price_item price_line find ◌*ℤ◌
too_much_off = refl

price_items-sums_example :
    AreLinesOf 1 (coffee ∷ []) (two_coffees ∷ []) (line ∷ []) × (totals ≡ sums (line ∷ []))
price_items-sums_example = price_items-sums 1 (coffee ∷ []) (two_coffees ∷ []) prices
