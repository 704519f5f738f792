-- ===== src/Inventory/Upsert.antt =====
-- backend/src/domain/inventory/inventory.service.ts: the upsert at the start of an adjustment keeps
-- the ledger.
use ledger_light_admin.Base.{
  suc, UniqueBy, ◌<◌, true, false, Bool-cases, none, some, Option-cases, List, ◌∷◌, Uuid, pos, find,
  ok, All-mono, ◌≡◌, refl, ◌∙◌, inl, inr, arith, ◌⊎◌,
}
use ledger_light_admin.Store.{Db, pure, InventoryLevel}
use ledger_light_admin.Inventory.{is_level_at, has_level_id, create_level_row, upsert_level}
use ledger_light_admin.Inventory.Ledger.{IsLedger, stock_at, same_place}

-- What `upsert` leaves: the ledger, with a level at the place, and all quantities as they were.
pub record Upserted (db : Db) (p l : Uuid) (level : InventoryLevel) (db' : Db) : Type 0 where
  pub ledger : IsLedger db'
  pub here : find (is_level_at p l) db'.inventory_levels ≡ some level
  pub same :
      (p' l' : Uuid) → stock_at db'.inventory_levels p' l' ≡ stock_at db.inventory_levels p' l'

abbrev empty_level : Uuid → Uuid → Uuid → InventoryLevel
empty_level i p l = record { id = i; product_id = p; location_id = l; quantity = pos 0 }

abbrev with_empty_level : Db → Uuid → Uuid → Db
with_empty_level db p l = record db {
  inventory_levels = empty_level db.next_id p l ∷ db.inventory_levels;
  next_id = suc db.next_id;
}

-- A row for a place that had none has no quantity, so all quantities stay.
stock_at-empty_level :
    (levels : List InventoryLevel) (i p l p' l' : Uuid)
    → find (is_level_at p l) levels ≡ none
    → stock_at (empty_level i p l ∷ levels) p' l' ≡ stock_at levels p' l'
unfolding stock_at find
stock_at-empty_level levels i p l p' l' nothing =
    elim (Bool-cases (is_level_at p' l' (empty_level i p l))) [
      | inl t ↦
          let (e, f) = same_place p l p' l' (empty_level i p l) here t in
          let none_there : find (is_level_at p' l') levels ≡ none = rw (e, f) nothing in
          rw (t, none_there) refl
      | inr t ↦ rw t refl
    ]
  where
    here : is_level_at p l (empty_level i p l) ≡ true
    here = ground arith

with_empty_level-Upserted :
    (db : Db) (p l : Uuid)
    → IsLedger db
    → find (is_level_at p l) db.inventory_levels ≡ none
    → Upserted db p l (empty_level db.next_id p l) (with_empty_level db p l)
unfolding UniqueBy find
with_empty_level-Upserted db p l led nothing = record {
  ledger = record {
    stocked = λ p' l'. same p' l' ∙ led.stocked p' l';
    filled = (omega arith, led.filled);
    unique = (
      All-mono (λ (x : InventoryLevel). x.id < db.next_id) (λ x. has_level_id db.next_id x ≡ false)
          apart db.inventory_levels led.below,
      led.unique,
    );
    below = (
      omega arith,
      All-mono (λ (x : InventoryLevel). x.id < db.next_id)
          (λ (x : InventoryLevel). x.id < suc db.next_id) (λ x h. omega arith) db.inventory_levels
          led.below,
    );
  };
  here = found;
  same = same;
}
  where
    same :
        (p' l' : Uuid)
        → stock_at (empty_level db.next_id p l ∷ db.inventory_levels) p' l'
          ≡ stock_at db.inventory_levels p' l'
    same p' l' = stock_at-empty_level db.inventory_levels db.next_id p l p' l' nothing

    apart : (x : InventoryLevel) → x.id < db.next_id → has_level_id db.next_id x ≡ false
    apart x h = ground arith

    found :
        find (is_level_at p l) (empty_level db.next_id p l ∷ db.inventory_levels)
        ≡ some (empty_level db.next_id p l)
    found = ground arith

create_level_row_ok :
    (db : Db) (p l : Uuid) (level : InventoryLevel) (db' : Db)
    → create_level_row p l (pos 0) db ≡ (ok level, db')
    → (level ≡ empty_level db.next_id p l) × (db' ≡ with_empty_level db p l)
unfolding create_level_row
create_level_row_ok db p l level db' e = ground arith

pub upsert_level-Upserted :
    (db : Db) (p l : Uuid) (level : InventoryLevel) (db' : Db)
    → IsLedger db
    → upsert_level p l db ≡ (ok level, db')
    → Upserted db p l level db'
unfolding upsert_level
upsert_level-Upserted db p l level db' led e =
    split (Option-cases (find (is_level_at p l) db.inventory_levels))
  where
    kept : (r : InventoryLevel) → pure {S = Db} r db ≡ (ok level, db') → (level ≡ r) × (db' ≡ db)
    kept r e = ground arith

    split :
        (find (is_level_at p l) db.inventory_levels ≡ none)
          ⊎ ((r : InventoryLevel) × (find (is_level_at p l) db.inventory_levels ≡ some r))
        → Upserted db p l level db'
    split (inl f) =
        let (same, after) = create_level_row_ok db p l level db' (rw f at e) in
        rw (same, after) (with_empty_level-Upserted db p l led f)
    split (inr (r, f)) =
        let (same, after) = kept r (rw f at e) in
        rw (same, after) (record { ledger = led; here = f; same = λ p' l'. refl })
