-- ===== src/Paging/Many/Complete.antt =====
-- backend/src/infra/prisma/prisma.service.ts: the pages of a list that is ordered by one column
-- and the key.
use ledger_light_admin.Base.{
  ℕ, zero, suc, ◌+◌, ◌<◌, Bool, true, false, Bool-cases, ◌&&◌, ◌||◌, ap, Option, none, some,
  Option-cases, List, [], length, take, drop, slice, last, last-slice, last_none, length-slice, ◌-◌,
  filter, filter-&&, String, ◌==◌, ==_iff, ==_false, eq_text, ◌≡◌, ◌∙◌, refl, inl, inr, arith,
}
use ledger_light_admin.Paging.{read_all, Continues, IsPaging, read_all-rest}
use ledger_light_admin.Paging.Sorted.{InOrder, filter_after}
use ledger_light_admin.Paging.Cursor.{
  Direction, asc, desc, SortValue, undefined, json, null, boolean, number, string, date, SortConfig,
  Codec, extract_sort_cursor_config,
}
use ledger_light_admin.Paging.Cursor.Roundtrip.{IsFaithful, decode_cursor-encode_cursor}
use ledger_light_admin.Paging.Many.{
  Comparison, Columns, FindArgs, PaginationOptions, cursor_where, where_after, cursor_after,
  build_cursor_where, next_cursor_of, paginate_many,
}
use ledger_light_admin.Paging.Many.Listing.{is_present, order_asked, pages, ReadsInOrder}

module _ {Row : Type 0} (comparison : Comparison) (columns : Columns Row) (codec : Codec)
    (config : SortConfig) where
  abbrev pub value_of : Row → SortValue
  value_of row = columns.column row config.field

  abbrev pub key_of : Row → SortValue
  key_of row = json (string (columns.id row))

  -- The order of two columns, the value first and the key for rows with the same value: the row
  -- `y` comes after the row `x`.
  abbrev pub after_by : Direction → Row → Row → Bool
  after_by asc x y =
      comparison.gt (value_of y) (value_of x)
      || (comparison.eq (value_of y) (value_of x) && comparison.gt (key_of y) (key_of x))
  after_by desc x y =
      comparison.gt (value_of x) (value_of y)
      || (comparison.eq (value_of y) (value_of x) && comparison.gt (key_of x) (key_of y))

  abbrev pub after : Row → Row → Bool
  after x y = after_by config.direction x y

  cursor_where-after :
      (row : Row)
      → cursor_where comparison columns codec config (value_of row) (columns.id row) ≡ after row
  cursor_where-after row = towards config.direction
    where
      towards :
          (direction : Direction)
          → cursor_where comparison columns codec
              (record config { direction = direction })
              (value_of row)
              (columns.id row)
            ≡ after_by direction row
      towards asc = refl
      towards desc = refl

  module _
      (faithful : (row : Row)
        → IsFaithful codec (columns.id row) (some config.field) (value_of row))
      (present : (row : Row) → is_present (value_of row) ≡ true)
      (named : (row : Row) → eq_text (some (columns.id row)) (some "") ≡ false) where
    build_cursor_where_after :
        (rows : Row → Bool) (row : Row)
        → build_cursor_where comparison columns codec
            (some rows)
            (some (cursor_after comparison columns codec (some config) row))
            (some config)
          ≡ some (λ y. rows y && after row y)
    unfolding build_cursor_where
    build_cursor_where_after rows row =
        rw
          (decode_cursor-encode_cursor codec (columns.id row) (some config.field) (value_of row)
            (faithful row))
          (kept (value_of row) (present row)
            ∙ ap (λ p. some (λ y. rows y && p y)) (cursor_where-after row))
      where
        kept :
            (value : SortValue)
            → is_present value ≡ true
            → where_after comparison columns codec (some rows) config value (columns.id row)
              ≡ some (λ y.
                rows y && cursor_where comparison columns codec config value (columns.id row) y)
        kept undefined p = cc
        kept (json null) p = cc
        kept (json (boolean b)) p = refl
        kept (json (number n)) p = refl
        kept (json (string t)) p = refl
        kept (date d) p = refl

    -- The cursor stands before row `i`.
    StandsAt : List Row → Option String → ℕ → Type 0
    StandsAt rows none i = i ≡ 0
    StandsAt rows (some cursor) i =
        (row : Row) × (last (take i rows) ≡ some row)
        × (cursor ≡ cursor_after comparison columns codec (some config) row)

    -- What a page shows.
    filter-build_cursor_where :
        (rows : Row → Bool) (sorted : List Row)
        → InOrder after (filter rows sorted)
        → (cursor : Option String) (i : ℕ) → StandsAt (filter rows sorted) cursor i
        → (all : Row → Bool) × (build_cursor_where comparison columns codec
              (some rows)
              cursor
              (some config)
            ≡ some all)
          × (filter all sorted ≡ drop i (filter rows sorted))
    unfolding StandsAt build_cursor_where
    filter-build_cursor_where rows sorted ord none i at = (rows, first, rw at refl)
      where
        first :
            build_cursor_where comparison columns codec (some rows) none (some config) ≡ some rows
        first = refl
    filter-build_cursor_where rows sorted ord (some cursor) i (row, e, c) = (
      (λ y. rows y && after row y),
      rw c (build_cursor_where_after rows row),
      filter-&& rows (after row) sorted ∙ filter_after after i (filter rows sorted) row ord e,
    )

    next_cursor_none :
        (limit : ℕ) (shown : List Row)
        → last shown ≡ none
        → next_cursor_of comparison columns codec limit (some config) shown ≡ none
    unfolding next_cursor_of
    next_cursor_none limit shown e = rw e refl

    next_cursor_some :
        (limit : ℕ) (shown : List Row) (row : Row)
        → last shown ≡ some row
        → (length shown == limit) ≡ true
        → next_cursor_of comparison columns codec limit (some config) shown
          ≡ some (cursor_after comparison columns codec (some config) row)
    unfolding next_cursor_of
    next_cursor_some limit shown row e t = rw (e, t, named row) refl

    next_cursor_short :
        (limit : ℕ) (shown : List Row) (row : Row)
        → last shown ≡ some row
        → (length shown == limit) ≡ false
        → next_cursor_of comparison columns codec limit (some config) shown ≡ none
    unfolding next_cursor_of
    next_cursor_short limit shown row e t = rw (e, t) refl

    -- The next cursor of a page that starts at row `i`.
    next_cursor-Continues :
        (rows : List Row) (n i : ℕ)
        → Continues
            (StandsAt rows)
            (suc n)
            rows
            i
            (next_cursor_of comparison columns codec (suc n) (some config) (slice i (suc n) rows))
    unfolding Continues StandsAt
    next_cursor-Continues rows n i = elim (Option-cases (last (slice i (suc n) rows))) [
      | inl e ↦
          let nothing : slice i (suc n) rows ≡ [] = last_none (slice i (suc n) rows) e in
          let h : 0 + (length rows - (i + suc n)) ≡ length rows - i = rw nothing at size in
          rw (next_cursor_none (suc n) (slice i (suc n) rows) e) (omega arith)
      | inr (row, e) ↦ elim (Bool-cases (length (slice i (suc n) rows) == suc n)) [
        | inl t ↦
            rw (next_cursor_some (suc n) (slice i (suc n) rows) row e t)
              (omega (arith, size, (==_iff _ _).0 t), (row, last-slice i (suc n) rows row e, refl))
        | inr t ↦
            rw (next_cursor_short (suc n) (slice i (suc n) rows) row e t)
              (omega (arith, size, ==_false _ _ t))
      ]
    ]
      where
        size : length (slice i (suc n) rows) + (length rows - (i + suc n)) ≡ length rows - i
        size = length-slice i (suc n) rows

    pages-IsPaging :
        (find_many : FindArgs Row → List Row) (count : Option (Row → Bool) → ℕ) (rows : Row → Bool)
        (options : PaginationOptions) (sorted : List Row) (n : ℕ)
        → options.limit ≡ suc n
        → extract_sort_cursor_config (order_asked options) ≡ some config
        → ReadsInOrder find_many (order_asked options) sorted
        → InOrder after (filter rows sorted)
        → IsPaging
            (pages comparison columns codec find_many count rows options)
            (suc n)
            (filter rows sorted)
            (StandsAt (filter rows sorted))
    unfolding IsPaging paginate_many
    pages-IsPaging find_many count rows options sorted n limit chosen reads ord cursor i at =
        let (all, asked, rest) = filter-build_cursor_where rows sorted ord cursor i at in
        let shown = reads all (suc n) in
        (
          record {
            items = slice i (suc n) (filter rows sorted);
            next_cursor =
                next_cursor_of comparison columns codec (suc n) (some config)
                  (slice i (suc n) (filter rows sorted));
          },
          rw (chosen, asked, limit, shown, rest) refl,
          refl,
          next_cursor-Continues (filter rows sorted) n i,
        )

    -- A client that follows the cursors of a list that is ordered by one column and the key reads
    -- every row that passes the condition once, in order, with a limit of at least one: as many
    -- calls as there are such rows, and one more, are enough. It is assumed that cursors can be
    -- read back, that no key is empty and no value of the column is missing, and that `findMany`
    -- gives the first rows that pass its condition, out of the table in the order of the column
    -- and the key.
    pub paginate_many-read_all :
        (find_many : FindArgs Row → List Row) (count : Option (Row → Bool) → ℕ) (rows : Row → Bool)
        (options : PaginationOptions) (sorted : List Row)
        → 0 < options.limit
        → extract_sort_cursor_config (order_asked options) ≡ some config
        → ReadsInOrder find_many (order_asked options) sorted
        → InOrder after (filter rows sorted)
        → read_all
            (pages comparison columns codec find_many count rows options)
            (suc (length (filter rows sorted)))
            none
          ≡ some (filter rows sorted)
    unfolding StandsAt
    paginate_many-read_all find_many count rows options sorted pos chosen reads ord =
        at_limit options.limit refl pos
      where
        start : StandsAt (filter rows sorted) none 0
        start = refl

        at_limit :
            (limit : ℕ)
            → options.limit ≡ limit
            → 0 < limit
            → read_all
                (pages comparison columns codec find_many count rows options)
                (suc (length (filter rows sorted)))
                none
              ≡ some (filter rows sorted)
        at_limit zero e pos = absurd (omega arith)
        at_limit (suc n) e pos =
            read_all-rest (pages comparison columns codec find_many count rows options) (suc n)
              (filter rows sorted) (StandsAt (filter rows sorted))
              (pages-IsPaging find_many count rows options sorted n e chosen reads ord) pos
              (suc (length (filter rows sorted))) 0 none start (omega arith) (omega arith)
