-- ===== src/Paging/Many.antt =====
-- backend/src/infra/prisma/prisma.service.ts: paginateMany, over any model. The columns of the
-- rows, the database's comparison of values, its reads and its counts are parameters.
pub mod Listing
pub mod Complete
mod Tests
use ledger_light_admin.Base.{
  ℕ, Bool, true, false, ◌&&◌, ◌||◌, Option, none, some, eq_text, List, length, last, map_option,
  String, ◌==◌, if◌then◌else◌,
}
use ledger_light_admin.Paging.Cursor.{
  OrderBy, Direction, asc, desc, SortValue, undefined, json, null, string, SortConfig, Codec,
  encode_cursor, decode_cursor, normalize_order_by, extract_sort_cursor_config,
}

-- `>` and `=` of the database, which hold of no null.
pub record Comparison : Type 0 where
  pub gt : SortValue → SortValue → Bool
  pub eq : SortValue → SortValue → Bool

-- The row `x` has the key and the columns that these functions give.
pub record Columns (Row : Type 0) : Type 0 where
  pub id : Row → String
  pub column : Row → String → SortValue

-- What `findMany` is asked for: a condition, a number of rows, the key of the row to begin after,
-- and the order.
pub record FindArgs (Row : Type 0) : Type 0 where
  pub where_rows : Option (Row → Bool)
  pub take : ℕ
  pub after : Option String
  pub order_by : Option (List OrderBy)

pub record PaginationOptions : Type 0 where
  pub limit : ℕ
  -- undefined and '' are `none`
  pub cursor : Option String
  pub order_by : Option (List OrderBy)
  pub sort_by : Option String
  pub sort_order : Option Direction

pub record ManyPage (Row : Type 0) : Type 0 where
  pub items : List Row
  pub total : ℕ
  pub next_cursor : Option String

module _ {Row : Type 0} (comparison : Comparison) (columns : Columns Row) (codec : Codec) where
  -- `{ gt: right }` or `{ lt: right }`, for a value `left`.
  abbrev pub beyond : Direction → SortValue → SortValue → Bool
  beyond asc left right = comparison.gt left right
  beyond desc left right = comparison.gt right left

  -- `cursorWhere`: the rows after the value and the key of the cursor.
  abbrev pub cursor_where : SortConfig → SortValue → String → Row → Bool
  cursor_where config value id row =
      let own = columns.column row config.field in
      beyond config.direction own value
      || (comparison.eq own value
          && beyond config.direction (json (string (columns.id row))) (json (string id)))

  abbrev pub and_where : Option (Row → Bool) → (Row → Bool) → Option (Row → Bool)
  and_where none q = some q
  and_where (some p) q = some (λ row. p row && q row)

  abbrev pub where_after :
      Option (Row → Bool) → SortConfig → SortValue → String → Option (Row → Bool)
  where_after rows config undefined id = rows
  where_after rows config (json null) id = rows
  where_after rows config value id = and_where rows (cursor_where config value id)

  unfoldable pub build_cursor_where :
      Option (Row → Bool) → Option String → Option SortConfig → Option (Row → Bool)
  build_cursor_where rows none config = rows
  build_cursor_where rows (some cursor) none = rows
  build_cursor_where rows (some cursor) (some config) =
      let decoded = decode_cursor codec cursor (some config.field) in
      where_after rows config decoded.sort_value decoded.id

  -- The cursor after a last record.
  abbrev pub cursor_after : Option SortConfig → Row → String
  cursor_after none row = encode_cursor codec (columns.id row) none undefined
  cursor_after (some config) row =
      encode_cursor codec (columns.id row) (some config.field) (columns.column row config.field)

  abbrev pub next_cursor_at : ℕ → Option SortConfig → List Row → Option Row → Option String
  next_cursor_at limit config rows none = none
  next_cursor_at limit config rows (some row) =
      if length rows == limit
      then if eq_text (some (columns.id row)) (some "")
        then none
        else some (cursor_after config row)
      else none

  unfoldable pub next_cursor_of : ℕ → Option SortConfig → List Row → Option String
  next_cursor_of limit config rows = next_cursor_at limit config rows (last rows)

  unfoldable pub paginate_many :
      (FindArgs Row → List Row)
      → (Option (Row → Bool) → ℕ)
      → Option (Row → Bool)
      → PaginationOptions
      → ManyPage Row
  paginate_many find_many count rows options =
      let order_by = normalize_order_by options.order_by options.sort_by options.sort_order in
      let config = extract_sort_cursor_config order_by in
      let data_rows = find_many (record {
        where_rows = build_cursor_where rows options.cursor config;
        take = options.limit;
        after = elim config [ none ↦ options.cursor | some c ↦ none ];
        order_by = order_by;
      }) in
      record {
        items = data_rows;
        total = count rows;
        next_cursor = next_cursor_of options.limit config data_rows;
      }
