-- ===== src/Inventory/Ledger.antt =====
-- backend/src/domain/inventory/inventory.service.ts: stock levels as the sums of the adjustments.
use ledger_light_admin.Base.{
  ◌<◌, Bool, true, false, Bool-cases, both_ways, ◌&&◌, Option, none, some, Option-cases, List, [],
  ◌∷◌, Uuid, ℤ, pos, ◌+ℤ◌, ◌≤ℤ◌, UniqueBy, find_unique, find, find-modify, find_holds, rewritten,
  ◌⊎◌, modify, map_option, ◌==◌, if◌then◌else◌, All, All-mono, ◌≤◌, All-modify, ◌≡◌, refl, inl, inr,
  arith,
}
use ledger_light_admin.Store.{Db, InventoryLevel, InventoryAdjustment}
use ledger_light_admin.Inventory.{is_level_at, has_level_id, set_quantity}

-- The quantity in stock, which is 0 without a row.
abbrev pub quantity_of : Option InventoryLevel → ℤ
quantity_of none = pos 0
quantity_of (some level) = level.quantity

unfoldable pub stock_at : List InventoryLevel → Uuid → Uuid → ℤ
stock_at levels product location = quantity_of (find (is_level_at product location) levels)

abbrev pub is_adjustment_at : Uuid → Uuid → InventoryAdjustment → Bool
is_adjustment_at product location a = a.product_id == product && a.location_id == location

-- The sum of the adjustments of a product at a location.
unfoldable pub recorded_at : List InventoryAdjustment → Uuid → Uuid → ℤ
recorded_at [] product location = pos 0
recorded_at (a ∷ rest) product location =
    let sum = recorded_at rest product location in
    if is_adjustment_at product location a then a.delta +ℤ sum else sum

-- No two levels have the same key.
abbrev pub UniqueIds : List InventoryLevel → Type 0
UniqueIds levels = UniqueBy (λ level. level.id) levels

-- Levels and adjustments agree: every level is the sum of its adjustments, none is negative, and the
-- keys of the levels are different, and not those of rows to come.
pub record IsLedger (db : Db) : Type 0 where
  pub stocked :
      (product location : Uuid)
      → stock_at db.inventory_levels product location
        ≡ recorded_at db.inventory_adjustments product location
  pub filled : All (λ (level : InventoryLevel). pos 0 ≤ℤ level.quantity) db.inventory_levels
  pub unique : UniqueIds db.inventory_levels
  pub below : All (λ (level : InventoryLevel). level.id < db.next_id) db.inventory_levels

pub same_place :
    (p l p' l' : Uuid) (level : InventoryLevel)
    → is_level_at p l level ≡ true
    → is_level_at p' l' level ≡ true
    → (p' ≡ p) × (l' ≡ l)
same_place p l p' l' level e f = ground arith

-- A new quantity for the level at one place leaves the other places alone.
pub stock_at-set_quantity :
    (levels : List InventoryLevel) (level : InventoryLevel) (p l p' l' : Uuid) (q : ℤ)
    → UniqueIds levels
    → find (is_level_at p l) levels ≡ some level
    → stock_at (modify (has_level_id level.id) (set_quantity q) levels) p' l'
      ≡ (if is_level_at p' l' level then q else stock_at levels p' l')
unfolding stock_at
stock_at-set_quantity levels level p l p' l' q u found =
    rw (find-modify (is_level_at p' l') (has_level_id level.id) (set_quantity q) keeps levels)
      (seen (Option-cases (find (is_level_at p' l') levels)) (Bool-cases (is_level_at p' l' level)))
  where
    keeps :
        (x : InventoryLevel)
        → is_level_at p' l' (rewritten (has_level_id level.id) (set_quantity q) x)
          ≡ is_level_at p' l' x
    keeps x = ground arith

    here : is_level_at p l level ≡ true
    here = find_holds (is_level_at p l) levels level found

    there : is_level_at p' l' level ≡ true → find (is_level_at p' l') levels ≡ some level
    there t = let (e, f) = same_place p l p' l' level here t in rw (e, f) found

    seen :
        (find (is_level_at p' l') levels ≡ none)
          ⊎ ((r : InventoryLevel) × (find (is_level_at p' l') levels ≡ some r))
        → (is_level_at p' l' level ≡ true) ⊎ (is_level_at p' l' level ≡ false)
        → quantity_of (
            map_option
              (rewritten (has_level_id level.id) (set_quantity q))
              (find (is_level_at p' l') levels))
          ≡ (if is_level_at p' l' level then q else quantity_of (find (is_level_at p' l') levels))
    seen o (inl t) =
        let self : has_level_id level.id level ≡ true = ground arith in rw (there t, t, self) refl
    seen (inl e) (inr f) = rw (e, f) refl
    seen (inr (r, e)) (inr f) =
        rw (e, f)
          (elim (Bool-cases (has_level_id level.id r)) [
            | inl t ↦
                let same =
                  find_unique (λ (x : InventoryLevel). x.id) (is_level_at p l) (is_level_at p' l')
                    levels level r u found e t in
                let held = find_holds (is_level_at p' l') levels r e in
                let at : is_level_at p' l' level ≡ true = rw same held in absurd (both_ways at f)
            | inr s ↦ rw s refl
          ])

pub UniqueIds-set_quantity :
    (i : Uuid) (q : ℤ) (levels : List InventoryLevel)
    → UniqueIds levels
    → UniqueIds (modify (has_level_id i) (set_quantity q) levels)
unfolding UniqueBy modify
UniqueIds-set_quantity i q [] u = tt
UniqueIds-set_quantity i q (level ∷ rest) (apart, u) = (
  rw kept (
      All-modify (λ other. has_level_id level.id other ≡ false) (has_level_id i) (set_quantity q)
        rest (λ x t e. e) apart),
  UniqueIds-set_quantity i q rest u,
)
  where
    kept : (rewritten (has_level_id i) (set_quantity q) level).id ≡ level.id
    kept = ground arith

-- Other rows and new keys do not matter to the ledger.
pub IsLedger-later :
    (db db' : Db)
    → db'.inventory_levels ≡ db.inventory_levels
    → db'.inventory_adjustments ≡ db.inventory_adjustments
    → db.next_id ≤ db'.next_id
    → IsLedger db
    → IsLedger db'
IsLedger-later db db' levels adjustments later led = record {
  stocked = λ p l. rw (levels, adjustments) (led.stocked p l);
  filled = rw levels led.filled;
  unique = rw levels led.unique;
  below = rw levels (
      All-mono (λ (x : InventoryLevel). x.id < db.next_id)
        (λ (x : InventoryLevel). x.id < db'.next_id) (λ x h. omega arith) db.inventory_levels
        led.below);
}
