-- ===== src/Product.antt =====
-- backend/src/domain/product/product.service.ts: getProductById, createProduct, updateProduct and
-- deleteProduct.
pub mod Stock
use ledger_light_admin.Base.{
  Bool, true, false, not, ◌&&◌, Option, none, some, is_some, map_option, List, [], ◌∷◌, String,
  Uuid, ℤ, find, any, modify, ok, err, ⊤, ◌==◌, eq_text, if◌then◌else◌, ◌otherwise◌, not_found,
  unique_violation, record_not_found,
}
use ledger_light_admin.Access.Scope.{
  CurrentOrg, OrganizationScope, resolve_organization_scope, ensure_location_accessible,
  has_resolved_location_scope,
}
use ledger_light_admin.Store.{
  Db, M, pure, throw, gets, or_throw, lift, ◌>>=◌, ◌>>◌, throw_if, write, transaction, fresh_id,
  Product, InventoryLevel, InventoryAdjustment, InventoryAdjustmentReason,
}
use ledger_light_admin.Inventory.{
  NewAdjustment, create_adjustment_with_tx, required_location, is_product_with_id,
}

-- `InventoryDto`
pub record InitialStock : Type 0 where
  pub location_id : Uuid
  pub quantity : ℤ
  pub note : Option String

-- `CreateProductDto`
pub record CreateProduct : Type 0 where
  pub name : String
  pub sku : String
  pub price_cents : ℤ
  pub reorder_threshold : ℤ
  pub category : Option String
  pub inventory : Option InitialStock

pub record CreatedProduct : Type 0 where
  pub product : Product
  pub inventory_level : Option InventoryLevel
  pub adjustment : Option InventoryAdjustment

-- The columns of `UpdateProductDto`, each as it is sent, or left out.
pub record UpdateProduct : Type 0 where
  pub name : Option String
  pub sku : Option String
  pub price_cents : Option ℤ
  pub reorder_threshold : Option ℤ
  pub category : Option (Option String)
  pub active : Option Bool

abbrev pub is_product : Uuid → Uuid → Product → Bool
is_product organization_id i product = product.id == i && product.organization_id == organization_id

abbrev pub has_sku : Uuid → String → Product → Bool
has_sku organization_id sku product =
    product.organization_id == organization_id && eq_text (some product.sku) (some sku)

unfoldable pub get_product_by_id : Uuid → Uuid → M Product
get_product_by_id organization_id i = do
  found ← gets (λ db. find (is_product organization_id i) db.products)
  or_throw found (not_found "Product not found")

-- `tx.product.create`: a SKU is unique in its organization.
unfoldable pub create_product_row : Uuid → CreateProduct → M Product
create_product_row organization_id data_in = do
  taken ← gets (λ db. any (has_sku organization_id data_in.sku) db.products)
  throw_if taken unique_violation
  i ← fresh_id
  let row : Product = record {
    id = i;
    organization_id = organization_id;
    name = data_in.name;
    category = data_in.category;
    sku = data_in.sku;
    price_cents = data_in.price_cents;
    reorder_threshold = data_in.reorder_threshold;
    active = true;
  }
  write (λ db. record db { products = row ∷ db.products })
  pure row

abbrev pub initial_adjustment :
    OrganizationScope → CurrentOrg → Option Uuid → Uuid → InitialStock → NewAdjustment
initial_adjustment organization org actor_user_id product_id stock = record {
  product_id = product_id;
  location_id = stock.location_id;
  delta = stock.quantity;
  reason = some InventoryAdjustmentReason.initial_stock;
  note = stock.note;
  organization_id = org.organization_id;
  organization = if has_resolved_location_scope organization then some org else none;
  actor_user_id = actor_user_id;
}

abbrev pub with_stock : Product → InventoryLevel × InventoryAdjustment → CreatedProduct
with_stock product (level, adjustment) = record {
  product = product;
  inventory_level = some level;
  adjustment = some adjustment;
}

-- What `createProduct` does after the row of the product.
abbrev pub stock_product :
    OrganizationScope → Option Uuid → Option InitialStock → Product → M CreatedProduct
stock_product organization actor_user_id none product =
    pure (record { product = product; inventory_level = none; adjustment = none })
stock_product organization actor_user_id (some stock) product = do
  done ← create_adjustment_with_tx (
      initial_adjustment organization (resolve_organization_scope organization) actor_user_id
        product.id stock)
  pure (with_stock product done)

abbrev pub check_stock_location : CurrentOrg → Option InitialStock → M ⊤
check_stock_location org none = pure tt
check_stock_location org (some stock) =
    lift (ensure_location_accessible org (some stock.location_id) (some required_location))

unfoldable pub place_product : OrganizationScope → CreateProduct → Option Uuid → M CreatedProduct
place_product organization data_in actor_user_id =
    create_product_row (resolve_organization_scope organization).organization_id data_in
    >>= stock_product organization actor_user_id data_in.inventory

unfoldable pub create_product : OrganizationScope → CreateProduct → Option Uuid → M CreatedProduct
create_product organization data_in actor_user_id = do
  check_stock_location (resolve_organization_scope organization) data_in.inventory
  transaction (place_product organization data_in actor_user_id)

abbrev pub set_columns : UpdateProduct → Product → Product
set_columns u product = record product {
  name = u.name otherwise product.name;
  sku = u.sku otherwise product.sku;
  price_cents = u.price_cents otherwise product.price_cents;
  reorder_threshold = u.reorder_threshold otherwise product.reorder_threshold;
  category = u.category otherwise product.category;
  active = u.active otherwise product.active;
}

-- Another product of the organization has the SKU that a product gets.
abbrev pub takes_sku : Product → Option String → Product → Bool
takes_sku product none other = false
takes_sku product (some sku) other =
    not (other.id == product.id) && has_sku product.organization_id sku other

unfoldable pub update_product : Uuid → Uuid → UpdateProduct → M Product
update_product organization_id i u = do
  found ← gets (λ db. find (is_product organization_id i) db.products)
  product ← or_throw found record_not_found
  taken ← gets (λ db. any (takes_sku product u.sku) db.products)
  throw_if taken unique_violation
  write (λ db. record db {
    products = modify (is_product_with_id product.id) (set_columns u) db.products;
  })
  pure (set_columns u product)

abbrev pub deactivated_product : UpdateProduct
deactivated_product = record {
  name = none;
  sku = none;
  price_cents = none;
  reorder_threshold = none;
  category = none;
  active = some false;
}

-- A product is not deleted, but made inactive.
unfoldable pub delete_product : Uuid → Uuid → M Product
delete_product organization_id i = update_product organization_id i deactivated_product
