-- ===== src/Inventory/Snapshot.antt =====
-- backend/src/domain/inventory/inventory.service.ts: getAggregatedInventorySnapshot,
-- getLowStockProductCount and getInventory. The comparison of texts (`localeCompare`) is a
-- parameter.
pub mod LowStock
use ledger_light_admin.Base.{
  ℕ, zero, suc, ◌||◌, Bool, true, false, ◌&&◌, Option, none, some, List, [], ◌∷◌, map, length,
  String, Uuid, ℤ, pos, negsuc, ◌+ℤ◌, ◌-ℤ◌, ◌*ℤ◌, ltb_ℤ, find, filter, map_option, ◌==◌,
  if◌then◌else◌, ◌otherwise◌, not,
}
use ledger_light_admin.Access.Scope.{
  CurrentOrg, OrganizationScope, resolve_organization_scope, has_restricted_locations,
  location_scope_where,
}
use ledger_light_admin.Store.{Db, InventoryLevel, Product, Location}
use ledger_light_admin.Paging.{Page}
use ledger_light_admin.Paging.Rows.{paginate_rows}
use ledger_light_admin.Paging.Cursor.{Direction, asc, desc}
use ledger_light_admin.Inventory.{has_location_id}

pub record LocationQuantity : Type 0 where
  pub location_id : Uuid
  pub location_name : String
  pub quantity : ℤ

-- `AggregatedInventoryRow`
pub record AggregatedRow : Type 0 where
  pub product_id : Uuid
  pub name : String
  pub sku : String
  pub total_quantity : ℤ
  pub reorder_threshold : ℤ
  pub stock_gap : ℤ
  pub is_low_stock : Bool
  pub locations : List LocationQuantity

-- `reduce((sum, level) => sum + level.quantity, 0)`
unfoldable pub total_of : List InventoryLevel → ℤ → ℤ
total_of [] sum = sum
total_of (level ∷ rest) sum = total_of rest (sum +ℤ level.quantity)

abbrev pub max_ℤ : ℤ → ℤ → ℤ
max_ℤ a b = if ltb_ℤ a b then b else a

-- `Array.prototype.sort`, which is stable: a comparison below 0 puts the first argument first.
module _ {ℓ} {A : Type ℓ} (compare_rows : A → A → ℤ) where
  unfoldable pub insert : A → List A → List A
  insert x [] = x ∷ []
  insert x (y ∷ ys) =
      let rest = insert x ys in if ltb_ℤ (pos 0) (compare_rows x y) then y ∷ rest else x ∷ y ∷ ys

  unfoldable pub sort : List A → List A
  sort [] = []
  sort (x ∷ xs) = insert x (sort xs)

-- `compareNumbers`
abbrev pub compare_numbers : ℤ → ℤ → ℤ → ℤ
compare_numbers left right direction =
    if ltb_ℤ right left then direction else if ltb_ℤ left right then pos 0 -ℤ direction else pos 0

-- `x || y` on numbers.
abbrev pub or_else : ℤ → ℤ → ℤ
or_else (pos zero) y = y
or_else (pos (suc n)) y = pos (suc n)
or_else (negsuc n) y = negsuc n

pub data SortBy : Type 0 where
  stock_gap total_quantity reorder_threshold sku name other : SortBy

abbrev pub direction_of : Direction → ℤ
direction_of asc = pos 1
direction_of desc = negsuc 0

pub record InventoryQuery : Type 0 where
  pub limit : ℕ
  pub cursor : Option Uuid
  pub low_stock_only : Bool
  pub sort_by : SortBy
  pub sort_order : Option Direction

pub record InventoryPage : Type 0 where
  pub items : List AggregatedRow
  pub total_count : ℕ
  pub next_cursor : Option Uuid

-- `product.inventoryLevels` as they are included.
abbrev pub included_levels : CurrentOrg → Db → Product → List InventoryLevel
included_levels org db product =
    filter
      (λ (level : InventoryLevel).
        level.product_id == product.id
        && (not (has_restricted_locations org)
            || location_scope_where org (some level.location_id)))
      db.inventory_levels

abbrev pub is_product_of : CurrentOrg → Product → Bool
is_product_of org product = product.organization_id == org.organization_id

abbrev pub low_stock : List AggregatedRow → List AggregatedRow
low_stock rows = filter (λ row. row.is_low_stock) rows

-- The SQL query: SUM of no rows is NULL, which COALESCE turns into 0.
unfoldable pub sum_of : List InventoryLevel → Option ℤ
sum_of [] = none
sum_of (level ∷ rest) = some (level.quantity +ℤ (sum_of rest otherwise pos 0))

abbrev pub is_low_stock_product : CurrentOrg → Db → Product → Bool
is_low_stock_product org db product =
    is_product_of org product
    && not (
        ltb_ℤ product.reorder_threshold (
          sum_of (
            filter (λ (level : InventoryLevel). level.product_id == product.id) db.inventory_levels)
          otherwise pos 0))

module _ (locale_compare : String → String → ℤ) where
  abbrev pub compare_levels : LocationQuantity → LocationQuantity → ℤ
  compare_levels left right = locale_compare left.location_name right.location_name

  -- A level with the name of its location. The key of a location always refers to a row.
  abbrev pub location_quantity : Db → InventoryLevel → LocationQuantity
  location_quantity db level = record {
    location_id = level.location_id;
    location_name = elim (find (has_location_id level.location_id) db.locations) [
      | none ↦ ""
      | some location ↦ location.name
    ];
    quantity = level.quantity;
  }

  unfoldable pub aggregate : CurrentOrg → Db → Product → AggregatedRow
  aggregate org db product =
      let levels = included_levels org db product in
      let total = total_of levels (pos 0) in
      record {
        product_id = product.id;
        name = product.name;
        sku = product.sku;
        total_quantity = total;
        reorder_threshold = product.reorder_threshold;
        stock_gap = max_ℤ (product.reorder_threshold -ℤ total) (pos 0);
        is_low_stock = not (ltb_ℤ product.reorder_threshold total);
        locations = sort compare_levels (map (location_quantity db) levels);
      }

  unfoldable pub get_aggregated_inventory_snapshot : OrganizationScope → Db → List AggregatedRow
  get_aggregated_inventory_snapshot organization db =
      let org = resolve_organization_scope organization in
      map (aggregate org db) (filter (is_product_of org) db.products)

  abbrev pub compare_aggregated : SortBy → ℤ → AggregatedRow → AggregatedRow → ℤ
  compare_aggregated SortBy.stock_gap direction left right =
      or_else (compare_numbers left.stock_gap right.stock_gap direction)
        (locale_compare left.name right.name)
  compare_aggregated SortBy.total_quantity direction left right =
      or_else (compare_numbers left.total_quantity right.total_quantity direction)
        (locale_compare left.name right.name)
  compare_aggregated SortBy.reorder_threshold direction left right =
      or_else (compare_numbers left.reorder_threshold right.reorder_threshold direction)
        (locale_compare left.name right.name)
  compare_aggregated SortBy.sku direction left right =
      direction *ℤ locale_compare left.sku right.sku
  compare_aggregated SortBy.name direction left right =
      direction *ℤ locale_compare left.name right.name
  compare_aggregated SortBy.other direction left right = locale_compare left.name right.name

  abbrev pub sort_aggregated_inventory_rows :
      List AggregatedRow → SortBy → Option Direction → List AggregatedRow
  sort_aggregated_inventory_rows rows sort_by sort_order =
      sort (compare_aggregated sort_by (direction_of (sort_order otherwise desc))) rows

  -- `none` where `paginateRows` throws.
  unfoldable pub get_inventory : OrganizationScope → InventoryQuery → Db → Option InventoryPage
  get_inventory organization query db =
      let org = resolve_organization_scope organization in
      let rows = get_aggregated_inventory_snapshot (OrganizationScope.current org) db in
      let filtered = if query.low_stock_only then low_stock rows else rows in
      let sorted = sort_aggregated_inventory_rows filtered query.sort_by query.sort_order in
      map_option
        (λ (page : Page AggregatedRow Uuid). record {
          items = page.items;
          total_count = length filtered;
          next_cursor = page.next_cursor;
        })
        (paginate_rows (λ (row : AggregatedRow). row.product_id) sorted query.limit query.cursor)

  unfoldable pub get_low_stock_product_count : OrganizationScope → Db → ℕ
  get_low_stock_product_count organization db =
      let org = resolve_organization_scope organization in
      if not (has_restricted_locations org)
      then length (filter (is_low_stock_product org db) db.products)
      else length (low_stock (get_aggregated_inventory_snapshot (OrganizationScope.current org) db))
