-- ===== src/Order/Balance.antt =====
-- An order is balanced when its four totals are the sums over its items.
use ledger_light_admin.Base.{
  ◌≡◌, refl, Bool, List, [], ◌∷◌, ℤ, ◌+ℤ◌, ◌-ℤ◌, int_laws, arith, Uuid, ◌==◌, filter, remove,
  +ℤ_assoc, Bool-cases, inl, inr,
}
use ledger_light_admin.Store.{Order, OrderItem}
use ledger_light_admin.Order.Pricing.{Totals, no_totals}
use ledger_light_admin.Order.Pricing.Sums.{plus}

abbrev pub order_totals : Order → Totals
order_totals o = record {
  subtotal_cents = o.subtotal_cents;
  tax_cents = o.tax_cents;
  discount_cents = o.discount_cents;
  total_cents = o.total_cents;
}

abbrev pub item_totals : OrderItem → Totals
item_totals i = record {
  subtotal_cents = i.line_subtotal_cents;
  tax_cents = i.tax_cents;
  discount_cents = i.discount_cents;
  total_cents = i.line_total_cents;
}

abbrev pub items_totals : List OrderItem → Totals
items_totals [] = no_totals
items_totals (i ∷ items) = plus (item_totals i) (items_totals items)

abbrev pub is_in : Uuid → OrderItem → Bool
is_in order_id item = item.order_id == order_id

unfoldable pub Balanced : Order → List OrderItem → Type 0
Balanced o items = order_totals o ≡ items_totals (filter (is_in o.id) items)

cents_comm : (a b c : ℤ) → a +ℤ (b +ℤ c) ≡ b +ℤ (a +ℤ c)
cents_comm a b c = omega int_laws

cents_comm_two : (a b : ℤ) → a +ℤ b ≡ b +ℤ a
cents_comm_two a b = omega int_laws

cents_cancel : (a b : ℤ) → (a +ℤ b) -ℤ a ≡ b
cents_cancel a b = omega int_laws

pub plus_swap : (a b c : Totals) → plus a (plus b c) ≡ plus b (plus a c)
plus_swap a b c = ground (
  arith,
  cents_comm a.subtotal_cents b.subtotal_cents c.subtotal_cents,
  cents_comm a.tax_cents b.tax_cents c.tax_cents,
  cents_comm a.discount_cents b.discount_cents c.discount_cents,
  cents_comm a.total_cents b.total_cents c.total_cents,
)

pub plus_comm : (a b : Totals) → plus a b ≡ plus b a
plus_comm a b = ground (
  arith,
  cents_comm_two a.subtotal_cents b.subtotal_cents,
  cents_comm_two a.tax_cents b.tax_cents,
  cents_comm_two a.discount_cents b.discount_cents,
  cents_comm_two a.total_cents b.total_cents,
)

pub plus_assoc : (a b c : Totals) → plus (plus a b) c ≡ plus a (plus b c)
plus_assoc a b c = simp +ℤ_assoc

abbrev pub minus : Totals → Totals → Totals
minus a b = record {
  subtotal_cents = a.subtotal_cents -ℤ b.subtotal_cents;
  tax_cents = a.tax_cents -ℤ b.tax_cents;
  discount_cents = a.discount_cents -ℤ b.discount_cents;
  total_cents = a.total_cents -ℤ b.total_cents;
}

pub plus-minus : (a b : Totals) → minus (plus a b) a ≡ b
plus-minus a b = ground (
  arith,
  cents_cancel a.subtotal_cents b.subtotal_cents,
  cents_cancel a.tax_cents b.tax_cents,
  cents_cancel a.discount_cents b.discount_cents,
  cents_cancel a.total_cents b.total_cents,
)

abbrev pub has_item_id : Uuid → OrderItem → Bool
has_item_id i item = item.id == i

pub items_totals-add :
    (o : Uuid) (item : OrderItem) (items : List OrderItem)
    → item.order_id ≡ o
    → items_totals (filter (is_in o) (item ∷ items))
      ≡ plus (item_totals item) (items_totals (filter (is_in o) items))
unfolding filter
items_totals-add o item items here = ground (arith, here)

remove_none :
    (i : Uuid) (items : List OrderItem)
    → filter (has_item_id i) items ≡ []
    → remove (has_item_id i) items ≡ items
unfolding filter remove
remove_none i [] h = refl
remove_none i (y ∷ items) h = ground (arith, remove_none i items)

-- The one item with a key is taken out.
pub items_totals-remove :
    (o i : Uuid) (item : OrderItem) (items : List OrderItem)
    → filter (has_item_id i) items ≡ item ∷ []
    → item.order_id ≡ o
    → items_totals (filter (is_in o) items)
      ≡ plus (item_totals item) (items_totals (filter (is_in o) (remove (has_item_id i) items)))
unfolding filter remove
items_totals-remove o i item [] h here = absurd (ground arith)
items_totals-remove o i item (y ∷ items) h here = elim (Bool-cases (y.id == i)) [
  | inl this ↦
      let none_left : filter (has_item_id i) items ≡ [] = ground arith in
      let same : y ≡ item = ground arith in ground (arith, remove_none i items none_left)
  | inr other ↦ ground (
    arith,
    items_totals-remove o i item items,
    plus_swap (item_totals y) (item_totals item)
        (items_totals (filter (is_in o) (remove (has_item_id i) items))),
  )
]
