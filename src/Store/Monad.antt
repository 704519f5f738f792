-- ===== src/Store/Monad.antt =====
-- The database, and calls on it.
use ledger_light_admin.Base.{ℕ, suc, List, Uuid, ok, Action}
use ledger_light_admin.Store.People.{
  User, Membership, MembershipLocation, InviteToken, RefreshToken,
}
use ledger_light_admin.Store.Goods.{Location, Product, InventoryLevel, InventoryAdjustment}
use ledger_light_admin.Store.Rows.{
  Customer, Order, OrderItem, Payment, PaymentAttempt, StripeWebhookReceipt, AuditLog,
}

pub record Db : Type 0 where
  pub customers : List Customer
  pub locations : List Location
  pub products : List Product
  pub orders : List Order
  pub order_items : List OrderItem
  pub payments : List Payment
  pub attempts : List PaymentAttempt
  pub receipts : List StripeWebhookReceipt
  pub audit_logs : List AuditLog
  pub inventory_levels : List InventoryLevel
  pub inventory_adjustments : List InventoryAdjustment
  pub users : List User
  pub memberships : List Membership
  pub membership_locations : List MembershipLocation
  pub invite_tokens : List InviteToken
  pub refresh_tokens : List RefreshToken
  pub next_id : ℕ

abbrev pub M : Type 0 → Type 0
M A = Action Db A

-- A new key.
abbrev pub fresh_id : M Uuid
fresh_id db = (ok db.next_id, record db { next_id = suc db.next_id })
