-- ===== src/Order/Pricing/Sums.antt =====
-- What the priced lines and the totals are.
use ledger_light_admin.Base.{
  ◌≡◌, ◌⊎◌, none, some, List, [], ◌∷◌, ◌++◌, pos, ◌+ℤ◌, ◌-ℤ◌, ◌*ℤ◌, ◌≤ℤ◌, arith, Uuid, ok,
  Option-cases, Result-cases, +ℤ-zero, zero-+ℤ, +ℤ_assoc, sym, ◌∙◌, find, inl, inr,
}
use mathlib.Core.List.{append-nil, append_assoc}
use ledger_light_admin.Store.{Product}
use ledger_light_admin.Order.Pricing.{
  CreateOrderItem, LineItem, Totals, PricingMessages, price_line, price_item, price_items,
  has_product_id, add_line, no_totals, create_messages,
}

-- A line that adds up, with a positive quantity and a discount between nothing and the subtotal.
pub record IsPriced (line : LineItem) : Type 0 where
  pub some_qty : pos 1 ≤ℤ line.qty
  pub subtotal : line.line_subtotal_cents ≡ line.qty *ℤ line.unit_price_cents
  pub discount_nonneg : pos 0 ≤ℤ line.discount_cents
  pub discount_bounded : line.discount_cents ≤ℤ line.line_subtotal_cents
  pub tax_nonneg : pos 0 ≤ℤ line.tax_cents
  pub total :
      line.line_total_cents ≡ line.line_subtotal_cents -ℤ line.discount_cents +ℤ line.tax_cents

-- A line that came of an item of the request and the product that it names.
pub record IsLineOf (o : Uuid) (raw : CreateOrderItem) (product : Product) (line : LineItem)
    : Type 0 where
  pub priced : IsPriced line
  pub same_product : line.product_id ≡ raw.product_id
  pub same_price : line.unit_price_cents ≡ product.price_cents
  pub same_organization : line.organization_id ≡ o
  pub same_name : line.product_name ≡ product.name
  pub same_sku : line.sku ≡ some product.sku
  pub asked_qty : raw.qty ≡ some line.qty
  pub asked_discount :
      (raw.discount_cents ≡ some line.discount_cents)
      ⊎ (raw.discount_cents ≡ none) × (line.discount_cents ≡ pos 0)
  pub asked_tax :
      (raw.tax_cents ≡ some line.tax_cents) ⊎ (raw.tax_cents ≡ none) × (line.tax_cents ≡ pos 0)

pub price_line-IsLineOf :
    (messages : PricingMessages) (o : Uuid) (raw : CreateOrderItem) (product : Product)
    {line : LineItem}
    → price_line messages o raw product ≡ ok line
    → IsLineOf o raw product line
unfolding price_line
price_line-IsLineOf messages o raw product h = ground arith

-- The four totals of a list of lines, each the sum of its column.
abbrev pub sums : List LineItem → Totals
sums [] = no_totals
sums (line ∷ lines) = record {
  subtotal_cents = line.line_subtotal_cents +ℤ (sums lines).subtotal_cents;
  tax_cents = line.tax_cents +ℤ (sums lines).tax_cents;
  discount_cents = line.discount_cents +ℤ (sums lines).discount_cents;
  total_cents = line.line_total_cents +ℤ (sums lines).total_cents;
}

abbrev pub plus : Totals → Totals → Totals
plus s t = record {
  subtotal_cents = s.subtotal_cents +ℤ t.subtotal_cents;
  tax_cents = s.tax_cents +ℤ t.tax_cents;
  discount_cents = s.discount_cents +ℤ t.discount_cents;
  total_cents = s.total_cents +ℤ t.total_cents;
}

-- Each line is the line of the item that stands at its place in the request.
abbrev pub AreLinesOf : Uuid → List Product → List CreateOrderItem → List LineItem → Type 0
AreLinesOf o products [] [] = Unit
AreLinesOf o products (raw ∷ items) (line ∷ lines) =
    ((product : Product) × (find (has_product_id raw.product_id) products ≡ some product)
      × IsLineOf o raw product line)
    × AreLinesOf o products items lines
AreLinesOf o products _ _ = ⊥

price_item-IsLineOf :
    (o : Uuid) (products : List Product) (raw : CreateOrderItem) {line : LineItem}
    → price_item o products raw ≡ ok line
    → (product : Product) × (find (has_product_id raw.product_id) products ≡ some product)
      × IsLineOf o raw product line
unfolding price_item
price_item-IsLineOf o products raw h =
    elim (Option-cases (find (has_product_id raw.product_id) products)) [
      | inl missing ↦ absurd (ground arith)
      | inr (product, found) ↦ (
        product,
        found,
        price_line-IsLineOf create_messages o raw product (rw (found, price_item) at h),
      )
    ]

pub plus-no_totals : (t : Totals) → t ≡ plus t no_totals
plus-no_totals t = ground (
  arith,
  +ℤ-zero t.subtotal_cents,
  +ℤ-zero t.tax_cents,
  +ℤ-zero t.discount_cents,
  +ℤ-zero t.total_cents,
)

plus-add_line :
    (t : Totals) (line : LineItem) (lines : List LineItem)
    → plus (add_line t line) (sums lines) ≡ plus t (sums (line ∷ lines))
plus-add_line t line lines = simp +ℤ_assoc

-- The loop from any state: the lines are those before with those of the items, and the totals have
-- grown by their sums.
price_items_from :
    (o : Uuid) (products : List Product) (items : List CreateOrderItem) (before : List LineItem)
    (t : Totals) {lines : List LineItem} {totals : Totals}
    → price_items o products items before t ≡ ok (lines, totals)
    → (new : List LineItem) × (lines ≡ before ++ new)
      × AreLinesOf o products items new
      × (totals ≡ plus t (sums new))
unfolding price_items
price_items_from o products [] before t {lines} {totals} h =
    let same_lines : before ≡ lines = ground arith in
    let same_totals : t ≡ totals = ground arith in
    ([], sym same_lines ∙ sym (append-nil before), tt, sym same_totals ∙ plus-no_totals t)
price_items_from o products (raw ∷ items) before t {lines} {totals} h =
    elim (Result-cases (price_item o products raw)) [
      | inr (e, failed) ↦ cc (rw (failed, price_items) at h)
      | inl (line, priced) ↦
          let (new, same_lines, each, same_totals) =
            price_items_from o products items (before ++ line ∷ []) (add_line t line)
              (rw (priced, price_items) at h) in
          (
            line ∷ new,
            same_lines ∙ append_assoc before (line ∷ []) new,
            (price_item-IsLineOf o products raw priced, each),
            same_totals ∙ plus-add_line t line new,
          )
    ]

pub no_totals-plus : (t : Totals) → plus no_totals t ≡ t
no_totals-plus t = ground (
  arith,
  zero-+ℤ t.subtotal_cents,
  zero-+ℤ t.tax_cents,
  zero-+ℤ t.discount_cents,
  zero-+ℤ t.total_cents,
)

-- The lines that `createOrder` computes are those of the items, in their order, at the prices of
-- the products found and with the quantity, discount and tax of the item, nothing for a discount or
-- tax left out; and its four totals are the sums of the columns of these lines.
pub price_items-sums :
    (o : Uuid) (products : List Product) (items : List CreateOrderItem) {lines : List LineItem}
    {totals : Totals}
    → price_items o products items [] no_totals ≡ ok (lines, totals)
    → AreLinesOf o products items lines × (totals ≡ sums lines)
price_items-sums o products items h =
    let (new, same_lines, each, same_totals) = price_items_from o products items [] no_totals h in
    (rw same_lines each, rw same_lines (same_totals ∙ no_totals-plus (sums new)))
