-- ===== src/Store/Goods.antt =====
-- Products, locations, and the stock of one at the other, after backend/prisma/schema.prisma. Left
-- out are the columns of a location that are only stored and shown (its address, type and notes).
use ledger_light_admin.Base.{Bool, Option, String, ℤ, Uuid}

pub data LocationStatus : Type 0 where
  active inactive archived : LocationStatus

pub data InventoryAdjustmentReason : Type 0 where
  manual restock sale return shrinkage count_correction initial_stock : InventoryAdjustmentReason

pub record Location : Type 0 where
  pub id : Uuid
  pub organization_id : Uuid
  pub name : String
  pub code : Option String
  pub status : LocationStatus

pub record Product : Type 0 where
  pub id : Uuid
  pub organization_id : Uuid
  pub name : String
  pub category : Option String
  pub sku : String
  pub price_cents : ℤ
  pub reorder_threshold : ℤ
  pub active : Bool

pub record InventoryLevel : Type 0 where
  pub id : Uuid
  pub product_id : Uuid
  pub location_id : Uuid
  pub quantity : ℤ

pub record InventoryAdjustment : Type 0 where
  pub id : Uuid
  pub organization_id : Uuid
  pub product_id : Uuid
  pub location_id : Uuid
  pub actor_user_id : Option Uuid
  pub delta : ℤ
  pub reason : InventoryAdjustmentReason
  pub note : Option String
