-- ===== src/Payment/Sync/Idempotence.antt =====
-- A PaymentIntent that is seen again in the same state changes nothing.
use ledger_light_admin.Base.{
  ◌≡◌, refl, true, false, Instant, arith, eq_option_refl, eq_text_refl, if◌then◌else◌,
}
use ledger_light_admin.Store.{PaymentStatus, PaymentAttemptStatus, Payment, PaymentAttempt}
use ledger_light_admin.Payment.Status.{payment_status_eq, attempt_status_eq}
use ledger_light_admin.Payment.Stripe.{IntentStatus, PaymentIntent}
use ledger_light_admin.Payment.Sync.{
  intent_state, map_payment_intent_state, set_intent_state, set_attempt_state, payment_changed,
  attempt_changed,
}

-- The state that a stored state leads to does not depend on when it is computed again.
intent_state_stable :
    (s : IntentStatus) (intent : PaymentIntent) (p : Payment) (now later : Instant)
    → intent_state s intent (set_intent_state (intent_state s intent p now) p) later
      ≡ intent_state s intent p now
unfolding intent_state
intent_state_stable IntentStatus.succeeded intent p now later = refl
intent_state_stable _ intent p now later = refl

payment_status_eq_refl : (s : PaymentStatus) → payment_status_eq s s ≡ true
payment_status_eq_refl PaymentStatus.unpaid = refl
payment_status_eq_refl _ = refl

attempt_status_eq_refl : (s : PaymentAttemptStatus) → attempt_status_eq s s ≡ true
attempt_status_eq_refl PaymentAttemptStatus.pending = refl
attempt_status_eq_refl _ = refl

-- What was just written has not changed when the same intent comes again, however much later.
pub written_is_unchanged :
    (intent : PaymentIntent) (p : Payment) (now later : Instant)
    → let next = map_payment_intent_state intent p now in
      payment_changed
        (set_intent_state next p)
        (map_payment_intent_state intent (set_intent_state next p) later)
      ≡ false
unfolding map_payment_intent_state payment_changed
written_is_unchanged intent p now later =
    let next = intent_state intent.status intent p now in
    rw (intent_state_stable intent.status intent p now later) (
      ground (
        arith,
        payment_status_eq_refl next.payment_status,
        eq_text_refl next.last_failure,
        eq_option_refl next.paid_at,
      ))

pub attempt_is_unchanged :
    (intent : PaymentIntent) (p : Payment) (a : PaymentAttempt) (now later : Instant)
    → let next = map_payment_intent_state intent p now in
      attempt_changed
        (if attempt_changed a next then set_attempt_state next a else a)
        (map_payment_intent_state intent (set_intent_state next p) later)
      ≡ false
unfolding map_payment_intent_state attempt_changed
attempt_is_unchanged intent p a now later =
    let next = intent_state intent.status intent p now in
    rw (intent_state_stable intent.status intent p now later)
      (ground (arith, attempt_status_eq_refl next.attempt_status, eq_text_refl next.last_failure))

-- Nor has what was unchanged the first time.
pub unchanged_stays :
    (intent : PaymentIntent) (p : Payment) (a : PaymentAttempt) (now later : Instant)
    → payment_changed p (map_payment_intent_state intent p now) ≡ false
    → attempt_changed a (map_payment_intent_state intent p now) ≡ false
    → (payment_changed p (map_payment_intent_state intent p later) ≡ false)
      × (attempt_changed a (map_payment_intent_state intent p later) ≡ false)
unfolding map_payment_intent_state intent_state payment_changed attempt_changed
unchanged_stays intent p a now later h k = ground arith
