-- ===== src/Payment/Sync.antt =====
-- The part of payment.service.ts that brings a card payment to the state of its PaymentIntent at
-- Stripe, and the two calls that the order service makes of it when an order is cancelled or
-- reopened. `now` is the value of `new Date()` in the call.
pub mod Idempotence
pub mod Writes
use ledger_light_admin.Base.{
  Bool, true, false, not, ◌&&◌, ◌||◌, Option, none, some, List, [], ◌∷◌, String, Uuid, Instant, ⊤,
  Result, ok, err, ◌==◌, if◌then◌else◌, ◌otherwise◌, eq_option, eq_text, map_option, find, modify,
  remove, record_not_found,
}
use ledger_light_admin.Store.{
  Db, M, pure, throw, gets, or_throw, write, ◌>>=◌, ◌>>◌, PaymentStatus, PaymentMethod,
  PaymentAttemptStatus, Payment, PaymentAttempt, AuditAction, AuditField, AuditContext,
  payment_paid, payment_failed, payment_reopen_voided,
}
use ledger_light_admin.Payment.Status.{
  PaymentWithAttempts, PaymentDto, payment_status_eq, attempt_status_eq, is_card, to_payment_dto,
}
use ledger_light_admin.Payment.Stripe.{
  IntentStatus, PaymentIntent, StripeService, Answer, answered, thrown, await,
}
use ledger_light_admin.Payment.Queries.{
  has_payment_id, is_attempt_of, get_payment_by_id, update_payment, write_payment_audit_log,
}

pub record PaymentTransitionResult : Type 0 where
  pub payment_status : PaymentStatus
  pub attempt_status : PaymentAttemptStatus
  pub last_failure : Option String
  pub paid_at : Option Instant

-- `mapPaymentIntentState`
intent_state : IntentStatus → PaymentIntent → Payment → Instant → PaymentTransitionResult
intent_state IntentStatus.succeeded intent payment now = record {
  payment_status = PaymentStatus.paid;
  attempt_status = PaymentAttemptStatus.succeeded;
  last_failure = none;
  paid_at = some (payment.paid_at otherwise now);
}
intent_state IntentStatus.requires_action intent payment now = record {
  payment_status = PaymentStatus.pending;
  attempt_status = PaymentAttemptStatus.requires_action;
  last_failure = none;
  paid_at = payment.paid_at;
}
intent_state IntentStatus.requires_confirmation intent payment now = record {
  payment_status = PaymentStatus.pending;
  attempt_status = PaymentAttemptStatus.requires_action;
  last_failure = none;
  paid_at = payment.paid_at;
}
intent_state IntentStatus.requires_payment_method intent payment now = record {
  payment_status = PaymentStatus.failed;
  attempt_status = PaymentAttemptStatus.failed;
  last_failure =
      some (intent.last_payment_error_message otherwise "Payment requires a new payment method");
  paid_at = none;
}
intent_state IntentStatus.canceled intent payment now = record {
  payment_status = PaymentStatus.failed;
  attempt_status = PaymentAttemptStatus.canceled;
  last_failure = some (intent.cancellation_reason otherwise "Payment attempt was canceled");
  paid_at = none;
}
-- `processing` and the default
intent_state _ intent payment now = record {
  payment_status = PaymentStatus.pending;
  attempt_status = PaymentAttemptStatus.pending;
  last_failure = none;
  paid_at = payment.paid_at;
}

unfoldable pub map_payment_intent_state :
    PaymentIntent → Payment → Instant → PaymentTransitionResult
unfolding intent_state
map_payment_intent_state intent payment now = intent_state intent.status intent payment now

abbrev pub has_attempt_id : Uuid → PaymentAttempt → Bool
has_attempt_id i a = a.id == i

-- `paymentAttempt.update({ where: { id }, data })`
unfoldable pub update_attempt : Uuid → (PaymentAttempt → PaymentAttempt) → M ⊤
update_attempt attempt_id f = do
  row ← gets (λ db. find (has_attempt_id attempt_id) db.attempts)
  attempt ← or_throw row record_not_found
  write (λ db. record db { attempts = modify (has_attempt_id attempt_id) f db.attempts })

abbrev pub set_intent_state : PaymentTransitionResult → Payment → Payment
set_intent_state next p = record p {
  method = some PaymentMethod.card;
  payment_status = next.payment_status;
  last_payment_failure = next.last_failure;
  paid_at = next.paid_at;
}

abbrev pub set_attempt_state : PaymentTransitionResult → PaymentAttempt → PaymentAttempt
set_attempt_state next a = record a {
  status = next.attempt_status;
  last_failure = next.last_failure;
}

unfoldable pub payment_changed : Payment → PaymentTransitionResult → Bool
payment_changed payment next =
    not (payment_status_eq payment.payment_status next.payment_status)
    || not (eq_text payment.last_payment_failure next.last_failure)
    || not (eq_option payment.paid_at next.paid_at)
    || not (is_card payment.method)

unfoldable pub attempt_changed : PaymentAttempt → PaymentTransitionResult → Bool
attempt_changed attempt next =
    not (attempt_status_eq attempt.status next.attempt_status)
    || not (eq_text attempt.last_failure next.last_failure)

-- The action that a new payment status is logged under, if any.
abbrev pub synced_action : PaymentStatus → Option AuditAction
synced_action PaymentStatus.paid = some payment_paid
synced_action PaymentStatus.failed = some payment_failed
synced_action _ = none

-- The audit log of `applyPaymentIntentStateTx`.
unfoldable pub log_synced : Payment → Payment → AuditContext → M ⊤
log_synced payment updated context =
    if payment_status_eq payment.payment_status updated.payment_status
    then pure tt
    else elim (synced_action updated.payment_status) [
      | none ↦ pure tt
      | some action ↦
          write_payment_audit_log payment action
            (some (
              AuditField.payment_status payment.payment_status
              ∷ AuditField.refund_status payment.refund_status
              ∷ []))
            (some (
              AuditField.payment_status updated.payment_status
              ∷ AuditField.refund_status updated.refund_status
              ∷ AuditField.last_payment_failure updated.last_payment_failure
              ∷ []))
            context
    ]

-- The writes of `applyPaymentIntentStateTx`, where something has changed.
unfoldable pub sync :
    PaymentWithAttempts → PaymentAttempt → PaymentTransitionResult → AuditContext → M PaymentDto
sync payment attempt next context = do
  (if attempt_changed attempt next
      then update_attempt attempt.id (set_attempt_state next)
      else pure tt)
  updated ← update_payment payment.id (set_intent_state next)
  log_synced payment.payment updated.payment context
  pure (to_payment_dto updated)

-- `applyPaymentIntentStateTx`
unfoldable pub apply_payment_intent_state :
    Instant → PaymentWithAttempts → PaymentAttempt → PaymentIntent → AuditContext → M PaymentDto
apply_payment_intent_state now payment attempt intent context =
    let next = map_payment_intent_state intent payment.payment now in
    if not (payment_changed payment.payment next) && not (attempt_changed attempt next)
    then pure (to_payment_dto payment)
    else sync payment attempt next context

-- `CARD_ACTIVE_ATTEMPT_STATUSES`
abbrev pub is_active_attempt : PaymentAttemptStatus → Bool
is_active_attempt PaymentAttemptStatus.pending = true
is_active_attempt PaymentAttemptStatus.requires_action = true
is_active_attempt _ = false

-- `getReusableAttempt`, on the payment's status and its attempts.
unfoldable pub reusable_of : PaymentStatus → List PaymentAttempt → Option PaymentAttempt
reusable_of status [] = none
reusable_of status (latest ∷ older) =
    if payment_status_eq status PaymentStatus.pending && is_active_attempt latest.status
    then some latest
    else none

unfoldable pub get_reusable_attempt : PaymentWithAttempts → Option PaymentAttempt
unfolding reusable_of
get_reusable_attempt payment = reusable_of payment.payment_status payment.attempts

-- `cancelPaymentIntentForSync`
unfoldable pub cancel_payment_intent_for_sync : StripeService → Uuid → M PaymentIntent
cancel_payment_intent_for_sync stripe intent_id = elim (stripe.cancel_payment_intent intent_id) [
  | answered intent ↦ pure intent
  | thrown message ↦ await (stripe.retrieve_payment_intent intent_id)
]

-- What `cancelActiveCardAttemptTx` does, by whether an attempt is active.
unfoldable pub cancel_attempt :
    StripeService
    → Instant
    → Uuid
    → AuditContext
    → PaymentWithAttempts
    → Option PaymentAttempt
    → M PaymentWithAttempts
cancel_attempt stripe now payment_id context payment none = pure payment
cancel_attempt stripe now payment_id context payment (some attempt) = do
  intent ← cancel_payment_intent_for_sync stripe attempt.stripe_payment_intent_id
  apply_payment_intent_state now payment attempt intent context
  get_payment_by_id payment_id

-- `cancelActiveCardAttemptTx`
unfoldable pub cancel_active_card_attempt :
    StripeService → Instant → Uuid → AuditContext → M PaymentWithAttempts
cancel_active_card_attempt stripe now payment_id context = do
  payment ← get_payment_by_id payment_id
  cancel_attempt stripe now payment_id context payment (get_reusable_attempt payment)

-- The call at Stripe of `deletePaymentForReopenTx`; its answer is not used.
unfoldable pub void_at_stripe : StripeService → Option PaymentAttempt → M ⊤
void_at_stripe stripe none = pure tt
void_at_stripe stripe (some attempt) = do
  cancel_payment_intent_for_sync stripe attempt.stripe_payment_intent_id
  pure tt

-- `paymentAttempt.deleteMany` and `payment.delete`
unfoldable pub delete_attempts_of : Uuid → M ⊤
delete_attempts_of payment_id =
    write (λ db. record db { attempts = remove (is_attempt_of payment_id) db.attempts })

unfoldable pub delete_payment : Uuid → M ⊤
delete_payment payment_id = do
  row ← gets (λ db. find (has_payment_id payment_id) db.payments)
  or_throw row record_not_found
  write (λ db. record db { payments = remove (has_payment_id payment_id) db.payments })

-- `deletePaymentForReopenTx`
unfoldable pub delete_payment_for_reopen : StripeService → Uuid → AuditContext → M ⊤
delete_payment_for_reopen stripe payment_id context = do
  payment ← get_payment_by_id payment_id
  let attempt = get_reusable_attempt payment
  void_at_stripe stripe attempt
  delete_attempts_of payment.id
  delete_payment payment.id
  write_payment_audit_log payment.payment payment_reopen_voided
      (some (
        AuditField.method payment.method
        ∷ AuditField.payment_status payment.payment_status
        ∷ AuditField.refund_status payment.refund_status
        ∷ AuditField.latest_attempt_id (map_option PaymentAttempt.id attempt)
        ∷ AuditField.latest_attempt_status (map_option PaymentAttempt.status attempt)
        ∷ AuditField.stripe_payment_intent_id
            (map_option PaymentAttempt.stripe_payment_intent_id attempt)
        ∷ []))
      (some (AuditField.deleted true ∷ [])) context
