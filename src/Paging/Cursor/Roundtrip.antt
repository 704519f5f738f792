-- ===== src/Paging/Cursor/Roundtrip.antt =====
-- backend/src/infra/prisma/prisma.service.ts: what is read back from a cursor.
use ledger_light_admin.Base.{
  arith, Option, none, some, String, ◌≡◌, refl, ◌∙◌, eq_text, eq_text_refl,
}
use ledger_light_admin.Paging.Cursor.{
  Codec, Payload, SortValue, undefined, json, date, null, boolean, number, string, encode_cursor,
  decode_cursor, decode_payload, typed_value, untyped_value, sort_cursor_version, DecodedCursor,
}

abbrev payload_of : Codec → String → String → SortValue → Payload
payload_of codec id field value = record {
  v = some sort_cursor_version;
  id = some id;
  sort_field = some field;
  sort_value = some (typed_value codec value);
}

-- What the service relies on for one cursor: JSON and base64url give back the object that went in,
-- and the text of a date gives back the date.
unfoldable pub IsDateKept : Codec → SortValue → Type 0
IsDateKept codec (date d) = codec.to_date (some (string (codec.to_iso_string d))) ≡ d
IsDateKept codec value = Unit

unfoldable pub IsFaithful : Codec → String → Option String → SortValue → Type 0
IsFaithful codec id none value = Unit
IsFaithful codec id (some field) value =
    (codec.parse (codec.stringify (payload_of codec id field value))
      ≡ some (payload_of codec id field value))
    × IsDateKept codec value

-- The value that a cursor keeps: none without a column.
abbrev pub kept_value : Option String → SortValue → SortValue
kept_value none value = undefined
kept_value (some field) value = value

abbrev pub decoded : String → SortValue → DecodedCursor
decoded id value = record { id = id; sort_value = value }

decode_cursor-stringify :
    (codec : Codec) (field : String) (p : Payload)
    → codec.parse (codec.stringify p) ≡ some p
    → decode_cursor codec (codec.stringify p) (some field)
      ≡ decode_payload codec (codec.stringify p) field p
unfolding decode_cursor
decode_cursor-stringify codec field p e = ground arith

read_payload :
    (codec : Codec) (id field : String) (value : SortValue) (cursor : String)
    → IsDateKept codec value
    → decode_payload codec cursor field (payload_of codec id field value) ≡ decoded id value
unfolding eq_text IsDateKept
read_payload codec id field value cursor kept = rw (eq_text_refl (some field)) (same value kept)
  where
    same :
        (value : SortValue)
        → IsDateKept codec value
        → decoded id (untyped_value codec (some (typed_value codec value))) ≡ decoded id value
    same undefined kept = refl
    same (date d) kept = rw kept refl
    same (json null) kept = refl
    same (json (boolean b)) kept = refl
    same (json (number n)) kept = refl
    same (json (string t)) kept = refl

-- A cursor says what was put into it, when it is read for the same column: the key and, where the
-- list is ordered by a column, the value of the column, a date as a date. It is assumed that
-- its own text can be read back, and so can the text of its date.
pub decode_cursor-encode_cursor :
    (codec : Codec) (id : String) (field : Option String) (value : SortValue)
    → IsFaithful codec id field value
    → decode_cursor codec (encode_cursor codec id field value) field
      ≡ decoded id (kept_value field value)
unfolding IsFaithful decode_cursor encode_cursor
decode_cursor-encode_cursor codec id none value faithful = refl
decode_cursor-encode_cursor codec id (some field) value (parses, kept) =
    decode_cursor-stringify codec field (payload_of codec id field value) parses
    ∙ read_payload codec id field value _ kept
