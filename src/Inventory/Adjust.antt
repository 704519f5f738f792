-- ===== src/Inventory/Adjust.antt =====
-- backend/src/domain/inventory/inventory.service.ts: createAdjustment and createAdjustmentWithTx keep
-- the ledger.
use ledger_light_admin.Base.{
  suc, ◌<◌, Bool, true, false, Bool-cases, ◌&&◌, some, List, Uuid, ℤ, pos, ◌+ℤ◌, ◌≤ℤ◌, ltb_ℤ, find,
  find_holds, ok, ◌==◌, if◌then◌else◌, All-mono, All-modify, ◌≡◌, refl, sym, ap, ◌∙◌, inl, inr,
  arith, ◌⊎◌, int_laws,
}
use ledger_light_admin.Base.Atomic.{bind_succeeds, transaction_ok}
use ledger_light_admin.Store.{Db, ◌>>=◌, transaction, InventoryLevel, InventoryAdjustment}
use ledger_light_admin.Inventory.{
  is_level_at, has_level_id, set_quantity, NewAdjustment, check_adjustment_scope, upsert_level,
  record_adjustment, adjust_level, create_adjustment_with_tx, create_adjustment,
}
use ledger_light_admin.Inventory.Ledger.{
  IsLedger, stock_at, recorded_at, stock_at-set_quantity, UniqueIds-set_quantity, same_place,
}
use ledger_light_admin.Inventory.Upsert.{upsert_level-Upserted}

-- The reply and the database after the writes of an adjustment.
abbrev adjusted_db : NewAdjustment → InventoryLevel → ℤ → Db → Db
adjusted_db data_in level q db = (record_adjustment data_in level q db).1

-- The adjustment is about this place.
abbrev pub is_at : NewAdjustment → Uuid → Uuid → Bool
is_at data_in p l = data_in.product_id == p && data_in.location_id == l

-- The stock afterwards: the change at the place of the adjustment.
abbrev pub changed : NewAdjustment → Uuid → Uuid → ℤ → ℤ
changed data_in p l quantity = if is_at data_in p l then quantity +ℤ data_in.delta else quantity

stock_at_found :
    (levels : List InventoryLevel) (p l : Uuid) (level : InventoryLevel)
    → find (is_level_at p l) levels ≡ some level
    → stock_at levels p l ≡ level.quantity
unfolding stock_at
stock_at_found levels p l level e = rw e refl

stock_at-record_adjustment :
    (db : Db) (data_in : NewAdjustment) (level : InventoryLevel)
    → IsLedger db
    → find (is_level_at data_in.product_id data_in.location_id) db.inventory_levels ≡ some level
    → (p l : Uuid)
    → stock_at (adjusted_db data_in level (level.quantity +ℤ data_in.delta) db).inventory_levels p l
      ≡ changed data_in p l (stock_at db.inventory_levels p l)
unfolding record_adjustment
stock_at-record_adjustment db data_in level led found p l =
    rw
      (
        stock_at-set_quantity db.inventory_levels level data_in.product_id data_in.location_id p l
            (level.quantity +ℤ data_in.delta) led.unique found,
        same_test,
      )
      (at (Bool-cases (is_at data_in p l)))
  where
    here : is_level_at data_in.product_id data_in.location_id level ≡ true
    here =
        find_holds (is_level_at data_in.product_id data_in.location_id) db.inventory_levels level
          found

    same_test : is_level_at p l level ≡ is_at data_in p l
    same_test = ground (arith, here)

    stock_here : is_at data_in p l ≡ true → stock_at db.inventory_levels p l ≡ level.quantity
    stock_here t =
        let (e, f) =
          same_place data_in.product_id data_in.location_id p l level here (same_test ∙ t) in
        rw (e, f)
          (stock_at_found db.inventory_levels data_in.product_id data_in.location_id level found)

    at :
        (is_at data_in p l ≡ true) ⊎ (is_at data_in p l ≡ false)
        → (if is_at data_in p l
            then level.quantity +ℤ data_in.delta
            else stock_at db.inventory_levels p l)
          ≡ changed data_in p l (stock_at db.inventory_levels p l)
    at (inl t) = rw (t, stock_here t) refl
    at (inr t) = rw t refl

record_adjustment-IsLedger :
    (db : Db) (data_in : NewAdjustment) (level : InventoryLevel)
    → IsLedger db
    → find (is_level_at data_in.product_id data_in.location_id) db.inventory_levels ≡ some level
    → pos 0 ≤ℤ (level.quantity +ℤ data_in.delta)
    → IsLedger (adjusted_db data_in level (level.quantity +ℤ data_in.delta) db)
unfolding record_adjustment recorded_at
record_adjustment-IsLedger db data_in level led found room = record {
  stocked = λ p l. stock_at-record_adjustment db data_in level led found p l ∙ sums p l;
  filled =
      All-modify (λ (x : InventoryLevel). pos 0 ≤ℤ x.quantity) (has_level_id level.id)
        (set_quantity (level.quantity +ℤ data_in.delta)) db.inventory_levels (λ x t h. room)
        led.filled;
  unique =
      UniqueIds-set_quantity level.id (level.quantity +ℤ data_in.delta) db.inventory_levels
        led.unique;
  below =
      All-modify (λ (x : InventoryLevel). x.id < suc db.next_id) (has_level_id level.id)
        (set_quantity (level.quantity +ℤ data_in.delta)) db.inventory_levels (λ x t h. h)
        (All-mono (λ (x : InventoryLevel). x.id < db.next_id)
          (λ (x : InventoryLevel). x.id < suc db.next_id) (λ x h. omega arith) db.inventory_levels
          led.below);
}
  where
    sums :
        (p l : Uuid)
        → changed data_in p l (stock_at db.inventory_levels p l)
          ≡ recorded_at
              (adjusted_db data_in level (level.quantity +ℤ data_in.delta) db).inventory_adjustments
              p
              l
    sums p l = rw (led.stocked p l) (elim (Bool-cases (is_at data_in p l)) [
      | inl t ↦ rw t (omega int_laws)
      | inr t ↦ rw t refl
    ])

-- What an adjustment that succeeds has done.
pub record Adjusted (db : Db) (data_in : NewAdjustment) (level : InventoryLevel) (db' : Db)
    : Type 0 where
  pub ledger : IsLedger db'
  pub stock :
      (p l : Uuid)
      → stock_at db'.inventory_levels p l ≡ changed data_in p l (stock_at db.inventory_levels p l)
  pub reply : level.quantity ≡ stock_at db'.inventory_levels data_in.product_id data_in.location_id

record_adjustment_ok :
    (data_in : NewAdjustment) (old : InventoryLevel) (q : ℤ) (db : Db) (level : InventoryLevel)
    (adjustment : InventoryAdjustment) (db' : Db)
    → record_adjustment data_in old q db ≡ (ok (level, adjustment), db')
    → (level ≡ set_quantity q old) × (db' ≡ adjusted_db data_in old q db)
unfolding record_adjustment
record_adjustment_ok data_in old q db level adjustment db' e = ground arith

not_below : (q : ℤ) → ltb_ℤ q (pos 0) ≡ false → pos 0 ≤ℤ q
not_below q h = ground arith

adjust_level-Adjusted :
    (db : Db) (data_in : NewAdjustment) (old level : InventoryLevel)
    (adjustment : InventoryAdjustment) (db' : Db)
    → IsLedger db
    → find (is_level_at data_in.product_id data_in.location_id) db.inventory_levels ≡ some old
    → adjust_level data_in old db ≡ (ok (level, adjustment), db')
    → Adjusted db data_in level db'
unfolding adjust_level
adjust_level-Adjusted db data_in old level adjustment db' led found e =
    elim (Bool-cases (ltb_ℤ (old.quantity +ℤ data_in.delta) (pos 0))) [
      | inl t ↦ absurd (refused t)
      | inr t ↦
          let (same, after) =
            record_adjustment_ok data_in old (old.quantity +ℤ data_in.delta) db level adjustment db'
              (written t) in
          rw (same, after) (done (not_below _ t))
    ]
  where
    here : is_at data_in data_in.product_id data_in.location_id ≡ true
    here = ground arith

    before : stock_at db.inventory_levels data_in.product_id data_in.location_id ≡ old.quantity
    before = stock_at_found db.inventory_levels data_in.product_id data_in.location_id old found

    done :
        pos 0 ≤ℤ (old.quantity +ℤ data_in.delta)
        → Adjusted db data_in
            (set_quantity (old.quantity +ℤ data_in.delta) old)
            (adjusted_db data_in old (old.quantity +ℤ data_in.delta) db)
    done room = record {
      ledger = record_adjustment-IsLedger db data_in old led found room;
      stock = stock_at-record_adjustment db data_in old led found;
      reply = sym (
          stock_at-record_adjustment db data_in old led found data_in.product_id data_in.location_id
          ∙ rw (here, before) refl);
    }

    refused : ltb_ℤ (old.quantity +ℤ data_in.delta) (pos 0) ≡ true → ⊥
    refused t = ground arith

    written :
        ltb_ℤ (old.quantity +ℤ data_in.delta) (pos 0) ≡ false
        → record_adjustment data_in old (old.quantity +ℤ data_in.delta) db
          ≡ (ok (level, adjustment), db')
    written t = rw t at e

check_adjustment_scope_ok :
    (data_in : NewAdjustment) (db db' : Db)
    → check_adjustment_scope data_in db ≡ (ok tt, db')
    → db' ≡ db
unfolding check_adjustment_scope
check_adjustment_scope_ok data_in db db' e = ground arith

pub create_adjustment_with_tx-Adjusted :
    (db : Db) (data_in : NewAdjustment) (level : InventoryLevel) (adjustment : InventoryAdjustment)
    (db' : Db)
    → IsLedger db
    → create_adjustment_with_tx data_in db ≡ (ok (level, adjustment), db')
    → Adjusted db data_in level db'
unfolding create_adjustment_with_tx
create_adjustment_with_tx-Adjusted db data_in level adjustment db' led e =
    let (u, db1, checked, e1) =
      bind_succeeds (check_adjustment_scope data_in)
        (λ _. upsert_level data_in.product_id data_in.location_id >>= adjust_level data_in) db e in
    let (old, db2, upserted, e2) =
      bind_succeeds (upsert_level data_in.product_id data_in.location_id) (adjust_level data_in) db1
        e1 in
    let unchanged = check_adjustment_scope_ok data_in db db1 checked in
    let up =
      upsert_level-Upserted db data_in.product_id data_in.location_id old db2 led
        (rw unchanged at upserted) in
    let done = adjust_level-Adjusted db2 data_in old level adjustment db' up.ledger up.here e2 in
    record {
      ledger = done.ledger;
      stock = λ p l. done.stock p l ∙ ap (changed data_in p l) (up.same p l);
      reply = done.reply;
    }

-- An adjustment that succeeds keeps the ledger: afterwards too every stock level is the sum of the
-- adjustments of its product at its location, and none is negative. The stock of the product at
-- the location has changed by the adjustment's delta, the reply shows the new quantity, and all
-- other stock is as it was.
pub create_adjustment-IsLedger :
    (db : Db) (data_in : NewAdjustment) (level : InventoryLevel) (adjustment : InventoryAdjustment)
    (db' : Db)
    → IsLedger db
    → create_adjustment data_in db ≡ (ok (level, adjustment), db')
    → IsLedger db'
      × ((p l : Uuid)
          → stock_at db'.inventory_levels p l
            ≡ changed data_in p l (stock_at db.inventory_levels p l))
      × (level.quantity ≡ stock_at db'.inventory_levels data_in.product_id data_in.location_id)
unfolding create_adjustment
create_adjustment-IsLedger db data_in level adjustment db' led e =
    let (u, db1, checked, e1) =
      bind_succeeds (check_adjustment_scope data_in)
        (λ _. transaction (create_adjustment_with_tx data_in)) db e in
    let unchanged = check_adjustment_scope_ok data_in db db1 checked in
    let done =
      create_adjustment_with_tx-Adjusted db data_in level adjustment db' led
        (transaction_ok (create_adjustment_with_tx data_in) db (rw unchanged at e1)) in
    (done.ledger, done.stock, done.reply)
