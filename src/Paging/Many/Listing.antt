-- ===== src/Paging/Many/Listing.antt =====
-- backend/src/infra/prisma/prisma.service.ts: the pages that a client of paginateMany sees, and the
-- reads of the database that they rest on.
use ledger_light_admin.Base.{
  ℕ, Bool, true, false, Option, none, some, List, take, filter, String, ◌≡◌,
}
use ledger_light_admin.Paging.{Page}
use ledger_light_admin.Paging.Cursor.{
  OrderBy, SortValue, undefined, json, null, Codec, normalize_order_by,
}
use ledger_light_admin.Paging.Many.{Comparison, Columns, FindArgs, PaginationOptions, paginate_many}

abbrev pub is_present : SortValue → Bool
is_present undefined = false
is_present (json null) = false
is_present value = true

abbrev pub order_asked : PaginationOptions → Option (List OrderBy)
order_asked options = normalize_order_by options.order_by options.sort_by options.sort_order

module _ {Row : Type 0} where
  -- The pages of one listing, by their cursors.
  abbrev pub pages :
      Comparison
      → Columns Row
      → Codec
      → (FindArgs Row → List Row)
      → (Option (Row → Bool) → ℕ)
      → (Row → Bool)
      → PaginationOptions
      → Option String
      → Option (Page Row String)
  pages comparison columns codec find_many count rows options cursor =
      let page =
        paginate_many comparison columns codec find_many count (some rows)
          (record options { cursor = cursor }) in
      some (record { items = page.items; next_cursor = page.next_cursor })

  -- Without a row to begin after, `findMany` gives the first rows that pass the condition, out of
  -- the table in the order asked for.
  abbrev pub ReadsInOrder : (FindArgs Row → List Row) → Option (List OrderBy) → List Row → Type 0
  ReadsInOrder find_many order sorted =
      (all : Row → Bool) (n : ℕ)
      → find_many (record { where_rows = some all; take = n; after = none; order_by = order })
        ≡ take n (filter all sorted)
