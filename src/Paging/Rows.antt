-- ===== src/Paging/Rows.antt =====
-- backend/src/domain/inventory/inventory.service.ts: paginateRows, which cuts a page out of a list
-- that was sorted and filtered in memory.
use ledger_light_admin.Base.{
  ℕ, zero, suc, ◌+◌, ◌<◌, Bool, true, Bool-cases, Option, none, some, List, [], ◌∷◌, length, slice,
  last, map_option, Uuid, ltb, ltb_iff, ltb-false, ◌==◌, ==_iff, if◌then◌else◌, arith, ◌≡◌, refl,
  inl, inr,
}
use ledger_light_admin.Paging.{Page, read_all, Continues, IsPaging, read_all-rest}

-- `findIndex`, with `none` for -1.
unfoldable pub find_index {ℓ} : {A : Type ℓ} → (A → Bool) → List A → Option ℕ
find_index p [] = none
find_index p (x ∷ xs) = let rest = find_index p xs in if p x then some 0 else map_option suc rest

module _ {A : Type 0} (get_cursor : A → Uuid) where
  abbrev pub has_cursor : Uuid → A → Bool
  has_cursor cursor row = get_cursor row == cursor

  -- A cursor that is undefined or '' is `none`.
  abbrev pub start_index : List A → Option Uuid → ℕ
  start_index rows none = 0
  start_index rows (some cursor) = elim (find_index (has_cursor cursor) rows) [
    | none ↦ 0
    | some i ↦ suc i
  ]

  -- The answer `none` is the exception that `getCursor(undefined)` is.
  unfoldable pub paginate_rows : List A → ℕ → Option Uuid → Option (Page A Uuid)
  paginate_rows rows limit cursor =
      let start = start_index rows cursor in
      let page = slice start limit rows in
      if ltb (start + limit) (length rows)
      then map_option (λ row. record { items = page; next_cursor = some (get_cursor row) })
          (last page)
      else some (record { items = page; next_cursor = none })

  -- No two rows have the same cursor.
  unfoldable pub Distinct : List A → Type 0
  Distinct [] = Unit
  Distinct (x ∷ xs) = (find_index (has_cursor (get_cursor x)) xs ≡ none) × Distinct xs

  find_index_later :
      (y x : A) (ys : List A) (m k : ℕ)
      → suc m ≡ k
      → find_index (has_cursor (get_cursor y)) ys ≡ none
      → find_index (has_cursor (get_cursor x)) ys ≡ some m
      → find_index (has_cursor (get_cursor x)) (y ∷ ys) ≡ some k
  unfolding find_index
  find_index_later y x ys m k e apart found = elim (Bool-cases (has_cursor (get_cursor x) y)) [
    | inl t ↦
        let same : get_cursor y ≡ get_cursor x = (==_iff _ _).0 t in
        let lost = rw same at apart in cc
    | inr t ↦ ground arith
  ]

  find_index-last :
      (rows : List A) (i n : ℕ)
      → Distinct rows
      → i + n < length rows
      → (x : A) × (last (slice i (suc n) rows) ≡ some x)
        × (find_index (has_cursor (get_cursor x)) rows ≡ some (i + n))
  unfolding Distinct find_index
  find_index-last [] i n d h = absurd (omega arith)
  find_index-last (y ∷ ys) zero zero d h = (y, refl, here)
    where
      here : find_index (has_cursor (get_cursor y)) (y ∷ ys) ≡ some 0
      here = ground arith
  find_index-last (y ∷ z ∷ ys) zero (suc n) (fresh, d) h =
      let (x, e, f) = find_index-last (z ∷ ys) zero n d (omega arith) in
      (x, e, find_index_later y x (z ∷ ys) (0 + n) (0 + suc n) (omega arith) fresh f)
  find_index-last (y ∷ []) zero (suc n) d h = absurd (omega arith)
  find_index-last (y ∷ ys) (suc i) n (fresh, d) h =
      let (x, e, f) = find_index-last ys i n d (omega arith) in
      (x, e, find_index_later y x ys (i + n) (suc i + n) (omega arith) fresh f)

  -- The cursor stands before row `i`.
  abbrev StartsAt : List A → Option Uuid → ℕ → Type 0
  StartsAt rows cursor i = start_index rows cursor ≡ i

  paginate_rows-IsPaging :
      (rows : List A) (n : ℕ)
      → Distinct rows
      → IsPaging (paginate_rows rows (suc n)) (suc n) rows (StartsAt rows)
  unfolding IsPaging Continues paginate_rows
  paginate_rows-IsPaging rows n d cursor i at = elim (Bool-cases (ltb (i + suc n) (length rows))) [
    | inl t ↦
        let room = (ltb_iff _ _).0 t in
        let (x, e, f) = find_index-last rows i n d (omega arith) in
        (
          record { items = slice i (suc n) rows; next_cursor = some (get_cursor x) },
          more x e t,
          refl,
          (omega arith, next (get_cursor x) f),
        )
    | inr t ↦
        let end = ltb-false _ _ t in
        (
          record { items = slice i (suc n) rows; next_cursor = none },
          rw (at, t) refl,
          refl,
          omega arith,
        )
  ]
    where
      more :
          (x : A)
          → last (slice i (suc n) rows) ≡ some x
          → ltb (i + suc n) (length rows) ≡ true
          → paginate_rows rows (suc n) cursor
            ≡ some (record { items = slice i (suc n) rows; next_cursor = some (get_cursor x) })
      more x e t = rw (at, t, e) refl

      next :
          (cursor : Uuid)
          → find_index (has_cursor cursor) rows ≡ some (i + n)
          → start_index rows (some cursor) ≡ i + suc n
      next cursor f = ground arith

  -- A client that follows the cursors to the end reads every row once, in order: with distinct
  -- cursors and a limit of at least one, as many calls as there are rows, and one more, are enough.
  pub paginate_rows-read_all :
      (rows : List A) (limit : ℕ)
      → 0 < limit
      → Distinct rows
      → read_all (paginate_rows rows limit) (suc (length rows)) none ≡ some rows
  paginate_rows-read_all rows zero pos d = absurd (omega arith)
  paginate_rows-read_all rows (suc n) pos d =
      read_all-rest (paginate_rows rows (suc n)) (suc n) rows (StartsAt rows)
        (paginate_rows-IsPaging rows n d) pos (suc (length rows)) 0 none refl (omega arith)
        (omega arith)
