-- ===== src/Paging.antt =====
-- Lists that are read page by page, and the client that follows the cursors: backend/src/domain/
-- inventory/inventory.service.ts (Rows) and backend/src/infra/prisma/prisma.service.ts (Cursor,
-- Many).
pub mod Rows
pub mod Cursor
pub mod Sorted
pub mod Many
use ledger_light_admin.Base.{
  ℕ, zero, suc, ◌+◌, ◌-◌, ◌<◌, ◌≤◌, Option, none, some, Option-cases, ◌⊎◌, inl, inr, ◌≡◌, sym, ◌∙◌,
  List, [], ◌∷◌, ◌++◌, length, drop, slice, slice-drop, drop_end, map_option, arith,
}
use mathlib.Core.List.{append-nil}

-- The part of a reply that paging decides on.
pub record Page {ℓ} (A C : Type ℓ) : Type ℓ where
  pub items : List A
  pub next_cursor : Option C

module _ {ℓ} {A C : Type ℓ} where
  -- The client that asks for a first page, and for the next one as long as there is a cursor. The
  -- answer is `none` when a page cannot be read, and when the calls allowed do not reach the end.
  unfoldable pub read_all : (Option C → Option (Page A C)) → ℕ → Option C → Option (List A)
  read_all page zero cursor = none
  read_all page (suc fuel) cursor = elim (page cursor) [
    | none ↦ none
    | some p ↦ elim p.next_cursor [
      | none ↦ some p.items
      | some c ↦ map_option (λ rest. p.items ++ rest) (read_all page fuel (some c))
    ]
  ]

  -- What the next cursor of the page at row `i` has to say, where `At c i` means that the cursor
  -- `c` stands before row `i`.
  unfoldable pub Continues : (Option C → ℕ → Type 0) → ℕ → List A → ℕ → Option C → Type 0
  Continues At limit rows i none = length rows ≤ i + limit
  Continues At limit rows i (some k) = (i + limit ≤ length rows) × At (some k) (i + limit)

  -- Paging that keeps its place: every page shows the rows from its place on.
  unfoldable pub IsPaging :
      (Option C → Option (Page A C)) → ℕ → List A → (Option C → ℕ → Type 0) → Type ℓ
  IsPaging page limit rows At =
      (c : Option C) (i : ℕ)
      → At c i
      → (p : Page A C) × (page c ≡ some p)
        × (p.items ≡ slice i limit rows)
        × Continues At limit rows i p.next_cursor

module _ {ℓ} {A C : Type ℓ} (page : Option C → Option (Page A C)) (limit : ℕ) (rows : List A)
    (At : Option C → ℕ → Type 0) where
  -- One call of the client, when the calls after it read the rest.
  read_all_step :
      (fuel i : ℕ) (c : Option C) (p : Page A C)
      → page c ≡ some p
      → p.items ≡ slice i limit rows
      → (p.next_cursor ≡ none) ⊎ ((k : C) × (p.next_cursor ≡ some k))
      → Continues At limit rows i p.next_cursor
      → ((k : C)
          → (i + limit ≤ length rows) × At (some k) (i + limit)
          → read_all page fuel (some k) ≡ some (drop (i + limit) rows))
      → read_all page (suc fuel) c ≡ some (drop i rows)
  unfolding read_all Continues
  read_all_step fuel i c p asked shown (inl e) next again =
      let end = drop_end (i + limit) rows (rw e at next) in
      let parts = slice-drop {A = A} i limit rows in
      let joined : slice i limit rows ++ [] ≡ drop i rows = rw end at parts in
      let whole : slice i limit rows ≡ drop i rows = sym (append-nil _) ∙ joined in ground arith
  read_all_step fuel i c p asked shown (inr (k, e)) next again =
      let rest = again k (rw e at next) in let whole = slice-drop i limit rows in ground arith

  pub read_all-rest :
      IsPaging page limit rows At
      → 0 < limit
      → (fuel i : ℕ) (c : Option C) → At c i
      → i ≤ length rows
      → length rows < i + fuel
      → read_all page fuel c ≡ some (drop i rows)
  unfolding IsPaging
  read_all-rest keeps pos zero i c at below enough = absurd (omega arith)
  read_all-rest keeps pos (suc fuel) i c at below enough =
      let (p, asked, shown, next) = keeps c i at in
      read_all_step fuel i c p asked shown (Option-cases p.next_cursor) next (λ k (room, there).
        read_all-rest keeps pos fuel (i + limit) (some k) there room (omega arith))
