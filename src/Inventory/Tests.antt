-- ===== src/Inventory/Tests.antt =====
-- The theorems about stock at sample rows.
use ledger_light_admin.Base.{
  ◌≡◌, refl, true, none, some, [], ◌∷◌, ℤ, pos, negsuc, ◌+ℤ◌, ◌-ℤ◌, err, find, filter, modify,
  arith, ltb_iff, Error, UniqueBy, String, bad_request, eq_text,
}
use ledger_light_admin.Access.Scope.{
  plain, resolve_organization_scope, has_resolved_location_scope, ensure_location_accessible,
  location_scope_where,
}
use ledger_light_admin.Store.{
  Db, InventoryLevel, InventoryAdjustment, InventoryAdjustmentReason, Location, LocationStatus,
}
use ledger_light_admin.Paging.Rows.{paginate_rows}
use ledger_light_admin.Inventory.{
  NewAdjustment, create_adjustment, create_adjustment_with_tx, check_adjustment_scope, upsert_level,
  create_level_row, adjust_level, record_adjustment,
}
use ledger_light_admin.Inventory.Ledger.{IsLedger, stock_at, recorded_at}
use ledger_light_admin.Inventory.Adjust.{changed, create_adjustment-IsLedger}
use ledger_light_admin.Inventory.Refusal.{create_adjustment_below_zero}
use ledger_light_admin.Inventory.Snapshot.{
  SortBy, InventoryQuery, AggregatedRow, get_inventory, get_low_stock_product_count,
  get_aggregated_inventory_snapshot, aggregate, total_of, sort, insert,
}
use ledger_light_admin.Inventory.Snapshot.LowStock.{get_inventory-low_stock_count}
use ledger_light_admin.Product.{
  CreateProduct, CreatedProduct, create_product, place_product, create_product_row,
}
use ledger_light_admin.Product.Stock.{stocked, create_product-IsLedger}
use ledger_light_admin.Samples.{shop, open_db, lead}

abbrev store_room : Location
store_room = record {
  id = 7;
  organization_id = 1;
  name = "Store";
  code = none;
  status = LocationStatus.active;
}

abbrev shelf : InventoryLevel
shelf = record { id = 60; product_id = 40; location_id = 7; quantity = pos 5 }

abbrev delivery : InventoryAdjustment
delivery = record {
  id = 61;
  organization_id = 1;
  product_id = 40;
  location_id = 7;
  actor_user_id = none;
  delta = pos 5;
  reason = InventoryAdjustmentReason.restock;
  note = none;
}

abbrev stock_db : Db
stock_db = record open_db {
  locations = store_room ∷ [];
  inventory_levels = shelf ∷ [];
  inventory_adjustments = delivery ∷ [];
}

abbrev sale : ℤ → NewAdjustment
sale delta = record {
  product_id = 40;
  location_id = 7;
  delta = delta;
  reason = some InventoryAdjustmentReason.sale;
  note = none;
  organization_id = 1;
  organization = some lead;
  actor_user_id = none;
}

stock_db-IsLedger : IsLedger stock_db
unfolding stock_at recorded_at find ◌+ℤ◌ UniqueBy
stock_db-IsLedger = record {
  stocked = λ p l. ground arith;
  filled = (omega arith, tt);
  unique = (tt, tt);
  below = ((ltb_iff 60 100).0 refl, tt);
}

abbrev sold_db : Db
sold_db = (create_adjustment (sale (negsuc 1)) stock_db).1

create_adjustment-IsLedger_example :
    stock_at sold_db.inventory_levels 40 7 ≡ changed (sale (negsuc 1)) 40 7 (pos 5)
unfolding create_adjustment create_adjustment_with_tx check_adjustment_scope upsert_level
    adjust_level record_adjustment ensure_location_accessible find modify ◌+ℤ◌ stock_at
create_adjustment-IsLedger_example =
    (create_adjustment-IsLedger stock_db (sale (negsuc 1)) (record shelf { quantity = pos 3 })
        (record delivery { id = 100; delta = negsuc 1; reason = InventoryAdjustmentReason.sale })
        sold_db stock_db-IsLedger refl).1
      40 7

create_adjustment_below_zero_example :
    (e : Error) × (create_adjustment (sale (negsuc 6)) stock_db ≡ (err e, stock_db))
unfolding stock_at find ◌+ℤ◌
create_adjustment_below_zero_example =
    create_adjustment_below_zero stock_db (sale (negsuc 6)) stock_db-IsLedger refl

below_zero_message :
    create_adjustment (sale (negsuc 6)) stock_db
    ≡ (err (bad_request "Attempting to reduce product stock below zero"), stock_db)
unfolding create_adjustment create_adjustment_with_tx check_adjustment_scope upsert_level
    adjust_level record_adjustment ensure_location_accessible find modify ◌+ℤ◌
below_zero_message = refl

-- An adjustment for an organization without restrictions is not compared with the organization of
-- the product: one that acts for organization 2 changes the stock of organization 1.
abbrev foreign_sale : NewAdjustment
foreign_sale = record (sale (negsuc 0)) {
  organization_id = 2;
  organization = some (resolve_organization_scope (plain 2));
}

foreign_adjustment_passes :
    stock_at (create_adjustment foreign_sale stock_db).1.inventory_levels 40 7 ≡ pos 4
unfolding create_adjustment create_adjustment_with_tx check_adjustment_scope upsert_level
    adjust_level record_adjustment ensure_location_accessible find modify ◌+ℤ◌ stock_at
    resolve_organization_scope
foreign_adjustment_passes = refl

abbrev same_names : String → String → ℤ
same_names left right = pos 0

abbrev low_only : InventoryQuery
low_only = record {
  limit = 10;
  cursor = none;
  low_stock_only = true;
  sort_by = SortBy.name;
  sort_order = none;
}

abbrev coffee_row : AggregatedRow
coffee_row = record {
  product_id = 40;
  name = "Coffee";
  sku = "C";
  total_quantity = pos 5;
  reorder_threshold = pos 10;
  stock_gap = pos 5;
  is_low_stock = true;
  locations = record { location_id = 7; location_name = "Store"; quantity = pos 5 } ∷ [];
}

get_inventory-low_stock_count_example : 1 ≡ get_low_stock_product_count same_names shop stock_db
unfolding get_inventory get_aggregated_inventory_snapshot aggregate total_of sort insert filter find
    resolve_organization_scope paginate_rows ◌+ℤ◌ ◌-ℤ◌ location_scope_where
get_inventory-low_stock_count_example =
    get_inventory-low_stock_count same_names shop low_only stock_db
      (record { items = coffee_row ∷ []; total_count = 1; next_cursor = none }) refl refl

abbrev tea : CreateProduct
tea = record {
  name = "Tea";
  sku = "T";
  price_cents = pos 300;
  reorder_threshold = pos 2;
  category = none;
  inventory = some (record { location_id = 7; quantity = pos 4; note = none });
}

abbrev tea_db : Db
tea_db = (create_product shop tea none stock_db).1

abbrev created_tea : CreatedProduct
created_tea = record {
  product = record {
    id = 100;
    organization_id = 1;
    name = "Tea";
    category = none;
    sku = "T";
    price_cents = pos 300;
    reorder_threshold = pos 2;
    active = true;
  };
  inventory_level = some (record { id = 101; product_id = 100; location_id = 7; quantity = pos 4 });
  adjustment = some (record delivery {
    id = 102;
    product_id = 100;
    delta = pos 4;
    reason = InventoryAdjustmentReason.initial_stock;
  });
}

create_product-IsLedger_example :
    stock_at tea_db.inventory_levels 100 7 ≡ stocked 100 tea.inventory 100 7 (pos 0)
unfolding create_product place_product create_product_row create_adjustment_with_tx
    check_adjustment_scope upsert_level create_level_row adjust_level record_adjustment
    ensure_location_accessible find modify ◌+ℤ◌ stock_at resolve_organization_scope
    has_resolved_location_scope eq_text
create_product-IsLedger_example =
    (create_product-IsLedger stock_db shop tea none created_tea tea_db stock_db-IsLedger refl).1 100
      7
