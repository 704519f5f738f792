-- ===== src/Product/Stock.antt =====
-- backend/src/domain/product/product.service.ts: createProduct with an initial stock.
use ledger_light_admin.Base.{
  suc, ◌==◌, ◌&&◌, ◌+ℤ◌, if◌then◌else◌, Option, none, some, Uuid, ℤ, ok, ◌≡◌, refl, ◌∙◌, arith,
}
use ledger_light_admin.Base.Atomic.{pure_ok, bind_succeeds, transaction_ok}
use ledger_light_admin.Access.Scope.{CurrentOrg, OrganizationScope, resolve_organization_scope}
use ledger_light_admin.Store.{Db, pure, transaction, Product}
use ledger_light_admin.Inventory.{create_adjustment_with_tx}
use ledger_light_admin.Inventory.Ledger.{IsLedger, IsLedger-later, stock_at}
use ledger_light_admin.Inventory.Adjust.{create_adjustment_with_tx-Adjusted}
use ledger_light_admin.Product.{
  CreateProduct, CreatedProduct, InitialStock, initial_adjustment, create_product_row,
  stock_product, check_stock_location, place_product, create_product, with_stock,
}

create_product_row_ok :
    (db : Db) (organization_id : Uuid) (data_in : CreateProduct) (product : Product) (db' : Db)
    → create_product_row organization_id data_in db ≡ (ok product, db')
    → (db'.inventory_levels ≡ db.inventory_levels)
      × (db'.inventory_adjustments ≡ db.inventory_adjustments)
      × (db'.next_id ≡ suc db.next_id)
unfolding create_product_row
create_product_row_ok db organization_id data_in product db' e = ground arith

check_stock_location_ok :
    (org : CurrentOrg) (stock : Option InitialStock) (db db' : Db)
    → check_stock_location org stock db ≡ (ok tt, db')
    → db' ≡ db
check_stock_location_ok org stock db db' e = ground arith

-- The stock of the product `p` at the location `l` with an initial stock of the new product.
abbrev pub stocked : Uuid → Option InitialStock → Uuid → Uuid → ℤ → ℤ
stocked product_id none p l quantity = quantity
stocked product_id (some stock) p l quantity =
    if product_id == p && stock.location_id == l then quantity +ℤ stock.quantity else quantity

stock_product-IsLedger :
    (db : Db) (organization : OrganizationScope) (actor : Option Uuid) (stock : Option InitialStock)
    (product : Product) (created : CreatedProduct) (db' : Db)
    → IsLedger db
    → stock_product organization actor stock product db ≡ (ok created, db')
    → IsLedger db'
      × ((p l : Uuid)
          → stock_at db'.inventory_levels p l
            ≡ stocked created.product.id stock p l (stock_at db.inventory_levels p l))
stock_product-IsLedger db organization actor none product created db' led e =
    let (same, after) = pure_ok _ created db db' e in rw after (led, λ p l. refl)
stock_product-IsLedger db organization actor (some stock) product created db' led e =
    let adjustment =
      initial_adjustment organization (resolve_organization_scope organization) actor product.id
        stock in
    let ((level, entry), db1, adjusted, e1) =
      bind_succeeds (create_adjustment_with_tx adjustment) (λ done. pure (with_stock product done))
        db e in
    let (same, after) = pure_ok (with_stock product (level, entry)) created db1 db' e1 in
    let done = create_adjustment_with_tx-Adjusted db adjustment level entry db1 led adjusted in
    rw (same, after) (done.ledger, done.stock)

-- Creating a product keeps the ledger of stock, and no other stock changes: afterwards the stock of
-- the new product at the location named is larger by the quantity named, and where none is named
-- all stock is as it was.
pub create_product-IsLedger :
    (db : Db) (organization : OrganizationScope) (data_in : CreateProduct) (actor : Option Uuid)
    (created : CreatedProduct) (db' : Db)
    → IsLedger db
    → create_product organization data_in actor db ≡ (ok created, db')
    → IsLedger db'
      × ((p l : Uuid)
          → stock_at db'.inventory_levels p l
            ≡ stocked created.product.id data_in.inventory p l (stock_at db.inventory_levels p l))
unfolding create_product place_product
create_product-IsLedger db organization data_in actor created db' led e =
    let (u, db1, checked, e1) =
      bind_succeeds
        (check_stock_location (resolve_organization_scope organization) data_in.inventory)
        (λ _. transaction (place_product organization data_in actor)) db e in
    let unchanged =
      check_stock_location_ok (resolve_organization_scope organization) data_in.inventory db db1
        checked in
    let placed =
      transaction_ok (place_product organization data_in actor) db (rw unchanged at e1) in
    let (product, db2, row, e2) =
      bind_succeeds
        (create_product_row (resolve_organization_scope organization).organization_id data_in)
        (stock_product organization actor data_in.inventory) db placed in
    let (levels, adjustments, later) =
      create_product_row_ok db (resolve_organization_scope organization).organization_id data_in
        product db2 row in
    let led2 = IsLedger-later db db2 levels adjustments (omega arith) led in
    let (after, stock) =
      stock_product-IsLedger db2 organization actor data_in.inventory product created db' led2 e2 in
    (after, λ p l. stock p l ∙ rw levels refl)
