-- ===== src/Inventory.antt =====
-- backend/src/domain/inventory/inventory.service.ts: the calls that write stock levels
-- (createAdjustment, createAdjustmentWithTx, createLevel, updateLevel, deleteLevel). The reads are
-- in Snapshot.
pub mod Ledger
pub mod Upsert
pub mod Adjust
pub mod Refusal
pub mod Snapshot
mod Tests
use ledger_light_admin.Base.{
  Bool, true, false, not, ◌&&◌, Option, none, some, List, [], ◌∷◌, String, Uuid, ℤ, pos, ◌+ℤ◌,
  ltb_ℤ, find, any, modify, remove, is_some, bad_request, not_found, unique_violation,
  foreign_key_violation, record_not_found, ok, err, ⊤, ◌==◌, if◌then◌else◌, ◌otherwise◌,
}
use ledger_light_admin.Access.Scope.{
  CurrentOrg, OrganizationScope, resolve_organization_scope, ensure_location_accessible,
  location_scope_where, LocationOptions, includes_id,
}
use ledger_light_admin.Store.{
  Db, M, pure, throw, gets, or_throw, lift, ◌>>=◌, ◌>>◌, throw_if, write, transaction, fresh_id,
  InventoryLevel, InventoryAdjustment, InventoryAdjustmentReason, Product, Location,
}

-- `CreateAdjustmentBodyDto & { organizationId, organization?, actorUserId? }`
pub record NewAdjustment : Type 0 where
  pub product_id : Uuid
  pub location_id : Uuid
  pub delta : ℤ
  pub reason : Option InventoryAdjustmentReason
  pub note : Option String
  pub organization_id : Uuid
  pub organization : Option CurrentOrg
  pub actor_user_id : Option Uuid

abbrev pub is_level_at : Uuid → Uuid → InventoryLevel → Bool
is_level_at product location level = level.product_id == product && level.location_id == location

abbrev pub has_level_id : Uuid → InventoryLevel → Bool
has_level_id i level = level.id == i

abbrev pub is_product_with_id : Uuid → Product → Bool
is_product_with_id i product = product.id == i

abbrev pub has_location_id : Uuid → Location → Bool
has_location_id i location = location.id == i

abbrev pub required_location : LocationOptions
required_location = record {
  allow_unspecified = some false;
  missing_message = none;
  forbidden_message = none;
}

-- The check at the start of both calls that adjust.
unfoldable pub check_adjustment_scope : NewAdjustment → M ⊤
check_adjustment_scope data_in = elim data_in.organization [
  | none ↦ pure tt
  | some org ↦
      lift (ensure_location_accessible org (some data_in.location_id) (some required_location))
]

-- `inventoryLevel.create`: the keys refer to rows, and there is one level for a product at a place.
unfoldable pub create_level_row : Uuid → Uuid → ℤ → M InventoryLevel
create_level_row product location quantity = do
  known ← gets (λ db.
      any (is_product_with_id product) db.products && any (has_location_id location) db.locations)
  throw_if (not known) foreign_key_violation
  taken ← gets (λ db. is_some (find (is_level_at product location) db.inventory_levels))
  throw_if taken unique_violation
  i ← fresh_id
  let row : InventoryLevel = record {
    id = i;
    product_id = product;
    location_id = location;
    quantity = quantity;
  }
  write (λ db. record db { inventory_levels = row ∷ db.inventory_levels })
  pure row

abbrev pub level_or_new : Uuid → Uuid → Option InventoryLevel → M InventoryLevel
level_or_new product location none = create_level_row product location (pos 0)
level_or_new product location (some level) = pure level

-- `inventoryLevel.upsert` with an empty update
unfoldable pub upsert_level : Uuid → Uuid → M InventoryLevel
upsert_level product location = do
  found ← gets (λ db. find (is_level_at product location) db.inventory_levels)
  level_or_new product location found

abbrev pub set_quantity : ℤ → InventoryLevel → InventoryLevel
set_quantity quantity level = record level { quantity = quantity }

-- The rows that an adjustment writes: the new quantity of the level, and the adjustment.
unfoldable pub record_adjustment :
    NewAdjustment → InventoryLevel → ℤ → M (InventoryLevel × InventoryAdjustment)
record_adjustment data_in level quantity = do
  write (λ db. record db {
    inventory_levels = modify (has_level_id level.id) (set_quantity quantity) db.inventory_levels;
  })
  i ← fresh_id
  let adjustment : InventoryAdjustment = record {
    id = i;
    organization_id = data_in.organization_id;
    product_id = data_in.product_id;
    location_id = data_in.location_id;
    actor_user_id = data_in.actor_user_id;
    delta = data_in.delta;
    reason = data_in.reason otherwise InventoryAdjustmentReason.manual;
    note = data_in.note;
  }
  write (λ db. record db { inventory_adjustments = adjustment ∷ db.inventory_adjustments })
  pure (set_quantity quantity level, adjustment)

-- `createAdjustmentWithTx` from the new quantity on.
unfoldable pub adjust_level :
    NewAdjustment → InventoryLevel → M (InventoryLevel × InventoryAdjustment)
adjust_level data_in level = do
  let new_quantity = level.quantity +ℤ data_in.delta
  throw_if (ltb_ℤ new_quantity (pos 0))
      (bad_request "Attempting to reduce product stock below zero")
  record_adjustment data_in level new_quantity

unfoldable pub create_adjustment_with_tx : NewAdjustment → M (InventoryLevel × InventoryAdjustment)
create_adjustment_with_tx data_in = do
  check_adjustment_scope data_in
  level ← upsert_level data_in.product_id data_in.location_id
  adjust_level data_in level

unfoldable pub create_adjustment : NewAdjustment → M (InventoryLevel × InventoryAdjustment)
create_adjustment data_in = do
  check_adjustment_scope data_in
  transaction (create_adjustment_with_tx data_in)

-- `CreateInventoryLevelDto`
pub record NewLevel : Type 0 where
  pub product_id : Uuid
  pub location_id : Uuid
  pub quantity : Option ℤ

abbrev pub is_own_product : CurrentOrg → Uuid → Product → Bool
is_own_product org i product = product.id == i && product.organization_id == org.organization_id

abbrev pub is_own_location : CurrentOrg → Uuid → Location → Bool
is_own_location org i location =
    location.organization_id == org.organization_id
    && location.id == i
    && location_scope_where org (some location.id)

unfoldable pub create_level : OrganizationScope → NewLevel → M InventoryLevel
create_level organization data_in = do
  let org = resolve_organization_scope organization
  lift (ensure_location_accessible org (some data_in.location_id) (some required_location))
  product ← gets (λ db. find (is_own_product org data_in.product_id) db.products)
  location ← gets (λ db. find (is_own_location org data_in.location_id) db.locations)
  throw_if (not (is_some product)) (not_found "Product not found")
  throw_if (not (is_some location)) (not_found "Location not found")
  create_level_row data_in.product_id data_in.location_id (data_in.quantity otherwise pos 0)

-- The condition on the level that `updateLevel` and `deleteLevel` share.
unfoldable pub is_own_level : CurrentOrg → Uuid → Db → InventoryLevel → Bool
is_own_level org i db level =
    level.id == i
    && any (is_own_product org level.product_id) db.products
    && any (is_own_location org level.location_id) db.locations

-- `UpdateInventoryLevelDto` has the quantity alone, and may leave it out.
unfoldable pub update_level : OrganizationScope → Uuid → Option ℤ → M InventoryLevel
update_level organization i quantity = do
  let org = resolve_organization_scope organization
  found ← gets (λ db. find (is_own_level org i db) db.inventory_levels)
  level ← or_throw found record_not_found
  write (λ db. record db {
    inventory_levels =
        modify (has_level_id level.id) (set_quantity (quantity otherwise level.quantity))
          db.inventory_levels;
  })
  pure (set_quantity (quantity otherwise level.quantity) level)

unfoldable pub delete_level : OrganizationScope → Uuid → M InventoryLevel
delete_level organization i = do
  let org = resolve_organization_scope organization
  found ← gets (λ db. find (is_own_level org i db) db.inventory_levels)
  level ← or_throw found record_not_found
  write (λ db. record db { inventory_levels = remove (has_level_id level.id) db.inventory_levels })
  pure level
