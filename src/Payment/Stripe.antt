-- ===== src/Payment/Stripe.antt =====
-- What the payment service asks of Stripe, through backend/src/infra/stripe/stripe.service.ts. The
-- client of Stripe is not part of the repository: its answers are a parameter, of which nothing is
-- assumed. A key of Stripe is a number, as one of the database is.
use ledger_light_admin.Base.{
  Option, String, ℤ, Uuid, stripe_failure, ◌otherwise◌, ◌≡◌, refl, ◌⊎◌, inl, inr,
}
use ledger_light_admin.Store.{M, pure, throw}

-- `PaymentIntent.status`; `other` is any further text.
pub data IntentStatus : Type 0 where
  succeeded processing requires_action requires_confirmation requires_payment_method canceled
        other :
      IntentStatus

pub record PaymentIntent : Type 0 where
  pub id : Uuid
  pub status : IntentStatus
  pub client_secret : Option String
  -- `last_payment_error?.message`
  pub last_payment_error_message : Option String
  pub cancellation_reason : Option String
  -- `metadata?.paymentAttemptId || null`
  pub metadata_payment_attempt_id : Option Uuid

-- `Refund.status`; `other` is any further text, and null.
pub data StripeRefundStatus : Type 0 where
  succeeded failed canceled other : StripeRefundStatus

pub record StripeRefund : Type 0 where
  pub id : Uuid
  pub status : StripeRefundStatus
  pub failure_reason : Option String
  -- `metadata?.paymentId || null`
  pub metadata_payment_id : Option Uuid

pub record CreateIntentArgs : Type 0 where
  pub amount_cents : ℤ
  pub currency_code : String
  pub order_id : Uuid
  pub organization_id : Uuid
  pub payment_id : Uuid
  pub payment_attempt_id : Uuid

pub record CreateRefundArgs : Type 0 where
  pub payment_intent_id : Uuid
  pub order_id : Uuid
  pub organization_id : Uuid
  pub payment_id : Uuid

-- An answer, or what the call throws: an error with its message, where that is not empty.
pub data Answer (A : Type 0) : Type 0 where
  answered : A → Answer A
  thrown : Option String → Answer A

-- `StripeService`. The idempotency keys are made of two arguments each, the payment's key and the
-- attempt's.
pub record StripeService : Type 0 where
  pub create_payment_intent : CreateIntentArgs → Answer PaymentIntent
  pub retrieve_payment_intent : Uuid → Answer PaymentIntent
  pub cancel_payment_intent : Uuid → Answer PaymentIntent
  pub create_refund : CreateRefundArgs → Answer StripeRefund

-- `await`: what the client throws goes on.
abbrev pub await : {A : Type 0} → Answer A → M A
await (answered a) = pure a
await (thrown message) = throw (stripe_failure (message otherwise ""))

pub Answer-cases :
    {A : Type 0} (a : Answer A)
    → ((x : A) × (a ≡ answered x)) ⊎ ((m : Option String) × (a ≡ thrown m))
Answer-cases (answered x) = inl (x, refl)
Answer-cases (thrown m) = inr (m, refl)
