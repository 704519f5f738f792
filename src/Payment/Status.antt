-- ===== src/Payment/Status.antt =====
-- backend/src/domain/payment/payment.utils.ts: the financial status that is derived from a payment,
-- and the objects that a reply shows of it; and the tests on statuses that payment.service.ts makes.
use ledger_light_admin.Base.{
  Bool, true, false, Option, none, some, List, [], ◌∷◌, String, ℤ, Uuid, Instant, if◌then◌else◌,
  map_option,
}
use ledger_light_admin.Store.{
  PaymentStatus, RefundStatus, PaymentMethod, PaymentAttemptStatus, Payment, PaymentAttempt,
}

-- `Payment & { attempts: PaymentAttempt[] }`, the latest attempt first.
pub record PaymentWithAttempts : Type 0 where
  pub payment : Payment
  pub open payment use *
  pub attempts : List PaymentAttempt

pub data FinancialStatus : Type 0 where
  no_payment unpaid payment_pending payment_failed paid refund_requested refund_pending
        refund_failed refunded :
      FinancialStatus

abbrev pub payment_status_eq : PaymentStatus → PaymentStatus → Bool
payment_status_eq PaymentStatus.unpaid PaymentStatus.unpaid = true
payment_status_eq PaymentStatus.pending PaymentStatus.pending = true
payment_status_eq PaymentStatus.failed PaymentStatus.failed = true
payment_status_eq PaymentStatus.paid PaymentStatus.paid = true
payment_status_eq _ _ = false

abbrev pub refund_status_eq : RefundStatus → RefundStatus → Bool
refund_status_eq RefundStatus.none RefundStatus.none = true
refund_status_eq RefundStatus.requested RefundStatus.requested = true
refund_status_eq RefundStatus.pending RefundStatus.pending = true
refund_status_eq RefundStatus.failed RefundStatus.failed = true
refund_status_eq RefundStatus.refunded RefundStatus.refunded = true
refund_status_eq _ _ = false

abbrev pub attempt_status_eq : PaymentAttemptStatus → PaymentAttemptStatus → Bool
attempt_status_eq PaymentAttemptStatus.pending PaymentAttemptStatus.pending = true
attempt_status_eq PaymentAttemptStatus.requires_action PaymentAttemptStatus.requires_action = true
attempt_status_eq PaymentAttemptStatus.succeeded PaymentAttemptStatus.succeeded = true
attempt_status_eq PaymentAttemptStatus.failed PaymentAttemptStatus.failed = true
attempt_status_eq PaymentAttemptStatus.canceled PaymentAttemptStatus.canceled = true
attempt_status_eq _ _ = false

-- `method === PaymentMethod.CARD` and `method === PaymentMethod.CASH`
abbrev pub is_card : Option PaymentMethod → Bool
is_card (some PaymentMethod.card) = true
is_card _ = false

abbrev pub is_cash : Option PaymentMethod → Bool
is_cash (some PaymentMethod.cash) = true
is_cash _ = false

unfoldable pub derive_financial_status : Option Payment → FinancialStatus
derive_financial_status none = FinancialStatus.no_payment
derive_financial_status (some payment) =
    if refund_status_eq payment.refund_status RefundStatus.refunded
    then FinancialStatus.refunded
    else if refund_status_eq payment.refund_status RefundStatus.requested
    then FinancialStatus.refund_requested
    else if refund_status_eq payment.refund_status RefundStatus.pending
    then FinancialStatus.refund_pending
    else if refund_status_eq payment.refund_status RefundStatus.failed
    then FinancialStatus.refund_failed
    else if payment_status_eq payment.payment_status PaymentStatus.paid
    then FinancialStatus.paid
    else if payment_status_eq payment.payment_status PaymentStatus.pending
    then FinancialStatus.payment_pending
    else if payment_status_eq payment.payment_status PaymentStatus.failed
    then FinancialStatus.payment_failed
    else FinancialStatus.unpaid

pub record PaymentAttemptSummaryDto : Type 0 where
  pub id : Uuid
  pub stripe_payment_intent_id : Uuid
  pub status : PaymentAttemptStatus
  pub last_failure : Option String
  pub created_at : Instant

pub record PaymentSummaryDto : Type 0 where
  pub id : Uuid
  pub method : Option PaymentMethod
  pub payment_status : PaymentStatus
  pub refund_status : RefundStatus
  pub financial_status : FinancialStatus
  pub amount_cents : ℤ
  pub currency_code : String
  pub paid_at : Option Instant
  pub refund_requested_at : Option Instant
  pub refunded_at : Option Instant

pub record PaymentDto : Type 0 where
  pub summary : PaymentSummaryDto
  pub order_id : Uuid
  pub organization_id : Uuid
  pub stripe_refund_id : Option Uuid
  pub refund_failed_at : Option Instant
  pub refund_reason : Option String
  pub last_payment_failure : Option String
  pub last_refund_failure : Option String
  pub latest_attempt : Option PaymentAttemptSummaryDto
  pub created_at : Instant

to_payment_attempt_summary_dto : PaymentAttempt → PaymentAttemptSummaryDto
to_payment_attempt_summary_dto attempt = record {
  id = attempt.id;
  stripe_payment_intent_id = attempt.stripe_payment_intent_id;
  status = attempt.status;
  last_failure = attempt.last_failure;
  created_at = attempt.created_at;
}

summary_of : Payment → PaymentSummaryDto
summary_of payment = record {
  id = payment.id;
  method = payment.method;
  payment_status = payment.payment_status;
  refund_status = payment.refund_status;
  financial_status = derive_financial_status (some payment);
  amount_cents = payment.amount_cents;
  currency_code = payment.currency_code;
  paid_at = payment.paid_at;
  refund_requested_at = payment.refund_requested_at;
  refunded_at = payment.refunded_at;
}

unfoldable pub to_payment_summary_dto : Option Payment → Option PaymentSummaryDto
unfolding summary_of
to_payment_summary_dto payment = map_option summary_of payment

latest_of : List PaymentAttempt → Option PaymentAttemptSummaryDto
latest_of [] = none
latest_of (attempt ∷ older) = some (to_payment_attempt_summary_dto attempt)

unfoldable pub to_payment_dto : PaymentWithAttempts → PaymentDto
unfolding summary_of latest_of to_payment_attempt_summary_dto
to_payment_dto payment = record {
  summary = summary_of payment.payment;
  order_id = payment.order_id;
  organization_id = payment.organization_id;
  stripe_refund_id = payment.stripe_refund_id;
  refund_failed_at = payment.refund_failed_at;
  refund_reason = payment.refund_reason;
  last_payment_failure = payment.last_payment_failure;
  last_refund_failure = payment.last_refund_failure;
  latest_attempt = latest_of payment.attempts;
  created_at = payment.created_at;
}
