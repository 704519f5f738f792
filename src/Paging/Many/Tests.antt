-- ===== src/Paging/Many/Tests.antt =====
-- Pages of a small table, computed, and the theorems on paging at them.
use mathlib.Core.Bool.{Bool, true, false}
use ledger_light_admin.Base.{
  ℕ, Option, none, some, List, [], ◌∷◌, filter, take, String, ltb, ◌==◌, eq_text, if◌then◌else◌,
  ◌≡◌, refl, ltb_iff,
}
use ledger_light_admin.Paging.{read_all}
use ledger_light_admin.Paging.Sorted.{InOrder}
use ledger_light_admin.Paging.Rows.{find_index, Distinct, paginate_rows, paginate_rows-read_all}
use ledger_light_admin.Paging.Cursor.{
  SortValue, Json, json, string, date, Codec, Payload, by, asc, desc, SortConfig, encode_cursor,
  decode_cursor, normalize_order_by, extract_sort_cursor_config,
}
use ledger_light_admin.Paging.Cursor.Roundtrip.{
  decoded, IsFaithful, IsDateKept, decode_cursor-encode_cursor,
}
use ledger_light_admin.Paging.Many.{
  Comparison, Columns, FindArgs, PaginationOptions, paginate_many, build_cursor_where,
  next_cursor_of,
}
use ledger_light_admin.Paging.Many.Listing.{pages}
use ledger_light_admin.Paging.Many.Complete.{paginate_many-read_all}

data Guest : Type 0 where
  ada bob cyd : Guest

abbrev key : Guest → String
key ada = "a"
key bob = "b"
key cyd = "c"

abbrev created : Guest → ℕ
created ada = 3
created bob = 2
created cyd = 2

abbrev columns : Columns Guest
columns = record { id = key; column = λ guest field. date (created guest) }

-- The keys are ordered by their letters.
abbrev comparison : Comparison
comparison = record { gt = gt; eq = eq }
  where
    rank : SortValue → ℕ
    rank (date d) = d
    rank (json (string t)) =
        if eq_text (some t) (some "a") then 1 else if eq_text (some t) (some "b") then 2 else 3
    rank value = 0

    gt : SortValue → SortValue → Bool
    gt left right = ltb (rank right) (rank left)

    eq : SortValue → SortValue → Bool
    eq left right = rank left == rank right

-- Texts for the cursors of the three guests.
abbrev codec : Codec
codec = record { stringify = stringify; parse = parse; to_iso_string = iso; to_date = back }
  where
    iso : ℕ → String
    iso d = if d == 3 then "3" else "2"

    back : Option Json → ℕ
    back (some (string t)) = if eq_text (some t) (some "3") then 3 else 2
    back value = 0

    stringify : Payload → String
    stringify p =
        if eq_text p.id (some "a") then "A" else if eq_text p.id (some "b") then "B" else "C"

    payload : String → ℕ → Payload
    payload id d = record {
      v = some 1;
      id = some id;
      sort_field = some "createdAt";
      sort_value = some (record { type = some "date"; value = some (string (iso d)) });
    }

    parse : String → Option Payload
    parse t =
        if eq_text (some t) (some "A")
        then some (payload "a" 3)
        else if eq_text (some t) (some "B")
        then some (payload "b" 2)
        else some (payload "c" 2)

abbrev newest_first : List Guest
newest_first = ada ∷ cyd ∷ bob ∷ []

abbrev find_guests : List Guest → FindArgs Guest → List Guest
find_guests sorted args =
    take args.take (elim args.where_rows [ none ↦ sorted | some p ↦ filter p sorted ])

abbrev by_creation : PaginationOptions
by_creation = record {
  limit = 2;
  cursor = none;
  order_by = some ((("createdAt", by desc) ∷ []) ∷ []);
  sort_by = none;
  sort_order = none;
}

abbrev everyone : Guest → Bool
everyone guest = true

abbrev creation : SortConfig
creation = record { field = "createdAt"; direction = desc }

two_pages :
    read_all
      (pages comparison columns codec
        (find_guests newest_first)
        (λ where_rows. 3)
        everyone
        by_creation)
      4
      none
    ≡ some newest_first
unfolding read_all paginate_many filter encode_cursor decode_cursor normalize_order_by
    extract_sort_cursor_config eq_text build_cursor_where next_cursor_of
two_pages = refl

-- With a second column in the order, here the name, the condition on the cursor does not follow the
-- order: of two guests created together, the one with the larger key is lost behind the other.
abbrev by_creation_and_name : PaginationOptions
by_creation_and_name = record by_creation {
  limit = 1;
  order_by = some ((("createdAt", by desc) ∷ []) ∷ (("name", by asc) ∷ []) ∷ []);
}

second_column_loses_rows :
    read_all
      (pages comparison columns codec
        (find_guests (bob ∷ cyd ∷ []))
        (λ where_rows. 2)
        everyone
        by_creation_and_name)
      3
      none
    ≡ some (bob ∷ [])
unfolding read_all paginate_many filter encode_cursor decode_cursor normalize_order_by
    extract_sort_cursor_config eq_text build_cursor_where next_cursor_of
second_column_loses_rows = refl

paginate_many-read_all_example :
    read_all
      (pages comparison columns codec
        (find_guests newest_first)
        (λ where_rows. 3)
        everyone
        by_creation)
      4
      none
    ≡ some newest_first
unfolding filter InOrder IsFaithful IsDateKept eq_text normalize_order_by extract_sort_cursor_config
paginate_many-read_all_example =
    paginate_many-read_all comparison columns codec creation faithful (λ guest. refl) named
      (find_guests newest_first) (λ where_rows. 3) everyone by_creation newest_first
      ((ltb_iff 0 2).0 refl) refl (λ all n. refl)
      (
        refl,
        (refl, (refl, tt)),
        (refl, (refl, tt)),
        (refl, (refl, tt), (refl, tt), (refl, tt, tt, tt)),
      )
  where
    faithful :
        (guest : Guest) → IsFaithful codec (key guest) (some "createdAt") (date (created guest))
    faithful ada = (refl, refl)
    faithful bob = (refl, refl)
    faithful cyd = (refl, refl)

    named : (guest : Guest) → eq_text (some (key guest)) (some "") ≡ false
    named ada = refl
    named bob = refl
    named cyd = refl

decode_cursor-encode_cursor_example :
    decode_cursor codec (encode_cursor codec "a" (some "createdAt") (date 3)) (some "createdAt")
    ≡ decoded "a" (date 3)
unfolding IsFaithful IsDateKept eq_text
decode_cursor-encode_cursor_example =
    decode_cursor-encode_cursor codec "a" (some "createdAt") (date 3) (refl, refl)

-- The same guests, cut out of a list.
abbrev number_of : Guest → ℕ
number_of ada = 1
number_of bob = 2
number_of cyd = 3

paginate_rows-read_all_example :
    read_all (paginate_rows number_of newest_first 2) 4 none ≡ some newest_first
unfolding Distinct find_index
paginate_rows-read_all_example =
    paginate_rows-read_all number_of newest_first 2 ((ltb_iff 0 2).0 refl)
      (refl, (refl, (refl, tt)))
