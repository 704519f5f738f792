-- ===== src/Inventory/Refusal.antt =====
-- backend/src/domain/inventory/inventory.service.ts: an adjustment that would go below zero.
use ledger_light_admin.Base.{
  true, Option-cases, Uuid, ℤ, pos, ◌+ℤ◌, ◌≤ℤ◌, ltb_ℤ, find, ok, err, Error, Result, find-All, ◌≡◌,
  refl, ◌∙◌, inl, inr, arith,
}
use ledger_light_admin.Base.Atomic.{bind_unchanged, transaction_err}
use ledger_light_admin.Store.{Db, transaction, InventoryLevel, InventoryAdjustment}
use ledger_light_admin.Inventory.{
  is_level_at, NewAdjustment, check_adjustment_scope, create_adjustment_with_tx, create_adjustment,
}
use ledger_light_admin.Inventory.Ledger.{IsLedger, stock_at}
use ledger_light_admin.Inventory.Adjust.{is_at, changed, create_adjustment-IsLedger}

stock_at-filled : (db : Db) (p l : Uuid) → IsLedger db → pos 0 ≤ℤ stock_at db.inventory_levels p l
unfolding stock_at
stock_at-filled db p l led = elim (Option-cases (find (is_level_at p l) db.inventory_levels)) [
  | inl e ↦ rw e (omega arith)
  | inr (level, e) ↦ rw e (
      find-All (λ (x : InventoryLevel). pos 0 ≤ℤ x.quantity) (is_level_at p l) db.inventory_levels
        level led.filled e)
]

check_adjustment_scope_reads :
    (data_in : NewAdjustment) (db : Db) → (check_adjustment_scope data_in db).1 ≡ db
unfolding check_adjustment_scope
check_adjustment_scope_reads data_in db = ground arith

create_adjustment_err :
    (db : Db) (data_in : NewAdjustment) (e : Error)
    → (create_adjustment data_in db).0 ≡ err e
    → (create_adjustment data_in db).1 ≡ db
unfolding create_adjustment
create_adjustment_err db data_in e h =
    bind_unchanged (check_adjustment_scope data_in)
      (λ _. transaction (create_adjustment_with_tx data_in)) db
      (check_adjustment_scope_reads data_in db)
      (λ u e. transaction_err (create_adjustment_with_tx data_in) db e) e h

-- An adjustment that would take more than there is fails, and the database stays as it was. It is
-- assumed that levels and adjustments agree beforehand.
pub create_adjustment_below_zero :
    (db : Db) (data_in : NewAdjustment)
    → IsLedger db
    → ltb_ℤ
        (stock_at db.inventory_levels data_in.product_id data_in.location_id +ℤ data_in.delta)
        (pos 0)
      ≡ true
    → (e : Error) × (create_adjustment data_in db ≡ (err e, db))
create_adjustment_below_zero db data_in led short = outcome (create_adjustment data_in db) refl
  where
    here : is_at data_in data_in.product_id data_in.location_id ≡ true
    here = ground arith

    negative : (q : ℤ) → ltb_ℤ q (pos 0) ≡ true → pos 0 ≤ℤ q → ⊥
    negative q h k = ground arith

    outcome :
        (r : Result (InventoryLevel × InventoryAdjustment) × Db)
        → create_adjustment data_in db ≡ r
        → (e : Error) × (create_adjustment data_in db ≡ (err e, db))
    outcome (err e, db') eq =
        let unchanged : db' ≡ db = rw eq at (create_adjustment_err db data_in e (rw eq refl)) in
        (e, eq ∙ rw unchanged refl)
    outcome (ok (level, adjustment), db') eq =
        let (after, stock, reply) =
          create_adjustment-IsLedger db data_in level adjustment db' led eq in
        let there = stock data_in.product_id data_in.location_id in
        let full = stock_at-filled db' data_in.product_id data_in.location_id after in
        absurd (
          negative
            (changed data_in data_in.product_id data_in.location_id
              (stock_at db.inventory_levels data_in.product_id data_in.location_id))
            (rw here short) (rw there at full))
