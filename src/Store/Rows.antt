-- ===== src/Store/Rows.antt =====
-- The rows of the database, after backend/prisma/schema.prisma: the enumerations, and the models
-- that the order and payment services use. Left out are `updatedAt`, which the Prisma client fills
-- in and no service reads, and columns that the services only copy to a reply (names, addresses).
use ledger_light_admin.Access.Roles.{Role}
use ledger_light_admin.Store.People.{MembershipStatus}
use ledger_light_admin.Base.{Bool, Option, List, String, ℤ, Uuid, Instant}

pub data OrderStatus : Type 0 where
  pending confirmed cancelled fulfilled : OrderStatus

pub data PaymentStatus : Type 0 where
  unpaid pending failed paid : PaymentStatus

pub data RefundStatus : Type 0 where
  none requested pending failed refunded : RefundStatus

pub data PaymentMethod : Type 0 where
  card cash : PaymentMethod

pub data PaymentAttemptStatus : Type 0 where
  pending requires_action succeeded failed canceled : PaymentAttemptStatus

pub data AuditAction : Type 0 where
  create update delete status_change inventory_adjust login logout : AuditAction
  invite_sent invite_resent invite_accepted role_changed : AuditAction
  member_deactivated member_reactivated location_scope_changed : AuditAction
  payment_created payment_attempt_started payment_paid payment_failed payment_reopen_voided
        payment_refund_requested payment_refunded payment_refund_failed :
      AuditAction

pub data AuditEntityType : Type 0 where
  user membership customer product location : AuditEntityType
  inventory_level inventory_adjustment order order_item payment : AuditEntityType

pub record Customer : Type 0 where
  pub id : Uuid
  pub organization_id : Uuid

pub record Order : Type 0 where
  pub id : Uuid
  pub organization_id : Uuid
  pub customer_id : Option Uuid
  pub location_id : Option Uuid
  pub status : OrderStatus
  pub subtotal_cents : ℤ
  pub tax_cents : ℤ
  pub discount_cents : ℤ
  pub total_cents : ℤ
  pub created_at : Instant
  pub placed_at : Option Instant
  pub cancelled_at : Option Instant

pub record OrderItem : Type 0 where
  pub id : Uuid
  pub order_id : Uuid
  pub product_id : Uuid
  pub organization_id : Uuid
  pub product_name : String
  pub sku : Option String
  pub qty : ℤ
  pub unit_price_cents : ℤ
  pub line_subtotal_cents : ℤ
  pub discount_cents : ℤ
  pub tax_cents : ℤ
  pub line_total_cents : ℤ

pub record Payment : Type 0 where
  pub id : Uuid
  pub organization_id : Uuid
  pub order_id : Uuid
  pub method : Option PaymentMethod
  pub payment_status : PaymentStatus
  pub refund_status : RefundStatus
  pub amount_cents : ℤ
  pub currency_code : String
  pub stripe_refund_id : Option Uuid
  pub paid_at : Option Instant
  pub refund_requested_at : Option Instant
  pub refunded_at : Option Instant
  pub refund_failed_at : Option Instant
  pub refund_reason : Option String
  pub last_payment_failure : Option String
  pub last_refund_failure : Option String
  pub created_at : Instant

pub record PaymentAttempt : Type 0 where
  pub id : Uuid
  pub payment_id : Uuid
  pub stripe_payment_intent_id : Uuid
  pub status : PaymentAttemptStatus
  pub client_secret : String
  pub amount_cents : ℤ
  pub currency_code : String
  pub last_failure : Option String
  pub created_at : Instant

pub record StripeWebhookReceipt : Type 0 where
  pub stripe_event_id : Uuid
  pub event_type : String
  pub received_at : Instant
  pub processed_at : Option Instant

-- One key of a `beforeJson` or `afterJson` object, with its value.
pub data AuditField : Type 0 where
  payment_status : PaymentStatus → AuditField
  refund_status : RefundStatus → AuditField
  method : Option PaymentMethod → AuditField
  amount_cents : ℤ → AuditField
  currency_code : String → AuditField
  attempt_id latest_attempt_id : Option Uuid → AuditField
  latest_attempt_status : Option PaymentAttemptStatus → AuditField
  stripe_payment_intent_id : Option Uuid → AuditField
  last_payment_failure last_refund_failure refund_reason : Option String → AuditField
  deleted : Bool → AuditField
  member_id user_id : Uuid → AuditField
  role : Role → AuditField
  member_status : MembershipStatus → AuditField
  email : String → AuditField
  first_name last_name : Option String → AuditField
  location_ids : List Uuid → AuditField

-- `AuditContext`
pub record AuditContext : Type 0 where
  pub actor_user_id : Option Uuid
  pub request_id : Option String
  pub ip : Option String
  pub user_agent : Option String

pub record AuditLog : Type 0 where
  pub organization_id : Uuid
  pub entity_type : AuditEntityType
  pub entity_id : Uuid
  pub action : AuditAction
  pub before_json : Option (List AuditField)
  pub after_json : Option (List AuditField)
  pub context : AuditContext
