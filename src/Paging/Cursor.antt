-- ===== src/Paging/Cursor.antt =====
-- backend/src/infra/prisma/prisma.service.ts: the orders that a list can be asked for
-- (normalizeOrderBy, extractSortCursorConfig), and the texts that stand for a place in it
-- (encodeCursor, decodeCursor). Base64, JSON and dates are the parameter `Codec`.
pub mod Roundtrip
use ledger_light_admin.Base.{
  ℕ, Bool, true, false, not, ◌&&◌, ◌||◌, Option, none, some, is_some, eq_option, eq_text, List, [],
  ◌∷◌, ◌++◌, any, map_option, String, Instant, ℤ, if◌then◌else◌,
}

pub data Direction : Type 0 where
  asc desc : Direction

-- The value of an entry of an order: a direction, or an object for a relation.
pub data Sort : Type 0 where
  by : Direction → Sort
  nested : Sort

-- `PaginationOrderBy`: the keys of an object with their values, in their order.
abbrev pub OrderBy : Type 0
OrderBy = List (String × Sort)

abbrev pub build_order_by : Option String → Option Direction → Option OrderBy
build_order_by none order = none
build_order_by (some field) none = some ((field, by desc) ∷ [])
build_order_by (some field) (some order) = some ((field, by order) ∷ [])

abbrev pub is_id : String → Bool
is_id field = eq_text (some field) (some "id")

-- `Object.keys(entry).includes('id')`
abbrev pub has_id : OrderBy → Bool
has_id entry = any (λ key. is_id key.0) entry

-- The order asked for, with the key as the last criterion where the first one is a column. An order
-- that is one object comes as a list of one.
unfoldable pub normalize_order_by :
    Option (List OrderBy) → Option String → Option Direction → Option (List OrderBy)
normalize_order_by order_by sort_by sort_order = map_option with_id (resolved order_by)
  where
    resolved : Option (List OrderBy) → Option (List OrderBy)
    resolved (some order) = some order
    resolved none = map_option (λ entry. entry ∷ []) (build_order_by sort_by sort_order)

    with_id : List OrderBy → List OrderBy
    with_id (((field, by direction) ∷ keys) ∷ rest) =
        let order = ((field, by direction) ∷ keys) ∷ rest in
        if not (is_id field) && not (any has_id order)
        then order ++ ((("id", by direction) ∷ []) ∷ [])
        else order
    with_id order = order

pub record SortConfig : Type 0 where
  pub field : String
  pub direction : Direction

unfoldable pub extract_sort_cursor_config : Option (List OrderBy) → Option SortConfig
extract_sort_cursor_config (some (((field, by direction) ∷ keys) ∷ rest)) =
    if is_id field then none else some (record { field = field; direction = direction })
extract_sort_cursor_config order = none

-- What JSON carries of a column.
pub data Json : Type 0 where
  null : Json
  boolean : Bool → Json
  number : ℤ → Json
  string : String → Json

-- What a column of a record holds.
pub data SortValue : Type 0 where
  undefined : SortValue
  json : Json → SortValue
  date : Instant → SortValue

-- `typeof`
abbrev pub type_of : SortValue → String
type_of undefined = "undefined"
type_of (json null) = "object"
type_of (json (boolean b)) = "boolean"
type_of (json (number n)) = "number"
type_of (json (string t)) = "string"
type_of (date d) = "object"

-- The object in a cursor's text. A key that is absent, or not of the type looked for, is `none`.
pub record TypedValue : Type 0 where
  pub type : Option String
  pub value : Option Json

pub record Payload : Type 0 where
  pub v : Option ℕ
  pub id : Option String
  pub sort_field : Option String
  pub sort_value : Option TypedValue

pub record Codec : Type 0 where
  -- JSON.stringify, then base64url
  pub stringify : Payload → String
  -- Back again: `none` when it throws, or reads null.
  pub parse : String → Option Payload
  -- toISOString
  pub to_iso_string : Instant → String
  -- new Date(String(value))
  pub to_date : Option Json → Instant

pub record DecodedCursor : Type 0 where
  pub id : String
  pub sort_value : SortValue

abbrev pub sort_cursor_version : ℕ
sort_cursor_version = 1

module _ (codec : Codec) where
  abbrev pub typed_value : SortValue → TypedValue
  typed_value (date d) = record {
    type = some "date";
    value = some (string (codec.to_iso_string d));
  }
  typed_value (json j) = record { type = some (type_of (json j)); value = some j }
  typed_value undefined = record { type = some (type_of undefined); value = none }

  unfoldable pub encode_cursor : String → Option String → SortValue → String
  encode_cursor id none value = id
  encode_cursor id (some field) value = codec.stringify (record {
    v = some sort_cursor_version;
    id = some id;
    sort_field = some field;
    sort_value = some (typed_value value);
  })

  abbrev pub untyped_value : Option TypedValue → SortValue
  untyped_value none = undefined
  untyped_value (some t) =
      if eq_text t.type (some "date")
      then date (codec.to_date t.value)
      else elim t.value [ none ↦ undefined | some j ↦ json j ]

  -- The cursor as a plain key.
  abbrev pub plain_cursor : String → DecodedCursor
  plain_cursor cursor = record { id = cursor; sort_value = undefined }

  abbrev pub decode_payload : String → String → Payload → DecodedCursor
  decode_payload cursor field payload = elim payload.id [
    | none ↦ plain_cursor cursor
    | some id ↦
        if not (eq_option payload.v (some sort_cursor_version))
          || not (eq_text payload.sort_field (some field))
        then plain_cursor cursor
        else record { id = id; sort_value = untyped_value payload.sort_value }
  ]

  unfoldable pub decode_cursor : String → Option String → DecodedCursor
  decode_cursor cursor none = plain_cursor cursor
  decode_cursor cursor (some field) = elim (codec.parse cursor) [
    | none ↦ plain_cursor cursor
    | some payload ↦ decode_payload cursor field payload
  ]
