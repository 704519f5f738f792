-- ===== src/Order/Transition/Frames.antt =====
-- What the parts of a transition do to the table of orders.
use ledger_light_admin.Base.{◌≡◌, ◌∙◌, Option, none, some, ℤ, String, Uuid, Instant, ok, arith}
use ledger_light_admin.Store.{
  Db, M, pure, ◌>>=◌, ◌>>◌, Order, Payment, PaymentAttempt, AuditContext,
}
use ledger_light_admin.Base.Atomic.{bind_succeeds}
use ledger_light_admin.Payment.Status.{PaymentWithAttempts}
use ledger_light_admin.Payment.Stripe.{StripeService, PaymentIntent}
use ledger_light_admin.Payment.Queries.{
  get_payment_by_id, create_payment, find_payment_of, write_payment_audit_log,
  create_payment_for_confirmed_order, ensure_legacy_payment_for_order,
}
use ledger_light_admin.Payment.Sync.{
  cancel_payment_intent_for_sync, cancel_attempt, cancel_active_card_attempt,
  delete_payment_for_reopen, void_at_stripe, delete_attempts_of, delete_payment,
  get_reusable_attempt, apply_payment_intent_state,
}
use ledger_light_admin.Payment.Sync.Writes.{apply_payment_intent_state-Synced}
use ledger_light_admin.Order.Transition.{
  must_be_refunded, refund_blocks_cancel, cannot_be_reopened, refund_blocks_reopen,
  ensure_transition_payment, assert_money_at_rest, release_payment, discard_payment,
}

-- A call that leaves the orders alone when it succeeds.
unfoldable pub KeepsOrders : {A : Type 0} → M A → Type 0
KeepsOrders {A} m = (db : Db) (a : A) (db' : Db) → m db ≡ (ok a, db') → db'.orders ≡ db.orders

module _ {A B : Type 0} where
  pub bind-KeepsOrders :
      (m : M A) (f : A → M B)
      → KeepsOrders m
      → ((a : A) → KeepsOrders (f a))
      → KeepsOrders (m >>= f)
  unfolding KeepsOrders
  bind-KeepsOrders m f hm hf db b db'' h =
      let (a, db', ran, then_ran) = bind_succeeds m f db h in
      hf a db' b db'' then_ran ∙ hm db a db' ran

pub pure-KeepsOrders : {A : Type 0} (a : A) → KeepsOrders (pure a)
unfolding KeepsOrders
pure-KeepsOrders x db a db' h = ground arith

get_payment_by_id-KeepsOrders : (i : Uuid) → KeepsOrders (get_payment_by_id i)
unfolding KeepsOrders get_payment_by_id
get_payment_by_id-KeepsOrders i db a db' h = ground arith

apply-KeepsOrders :
    (now : Instant) (p : PaymentWithAttempts) (a : PaymentAttempt) (intent : PaymentIntent)
    (c : AuditContext)
    → KeepsOrders (apply_payment_intent_state now p a intent c)
unfolding KeepsOrders
apply-KeepsOrders now p a intent c db dto db' h =
    grind (arith, apply_payment_intent_state-Synced now p a intent c db h)

cancel_for_sync-KeepsOrders :
    (stripe : StripeService) (i : Uuid) → KeepsOrders (cancel_payment_intent_for_sync stripe i)
unfolding KeepsOrders cancel_payment_intent_for_sync
cancel_for_sync-KeepsOrders stripe i db a db' h = ground arith

cancel_attempt-KeepsOrders :
    (stripe : StripeService) (now : Instant) (i : Uuid) (c : AuditContext) (p : PaymentWithAttempts)
    (attempt : Option PaymentAttempt)
    → KeepsOrders (cancel_attempt stripe now i c p attempt)
unfolding cancel_attempt
cancel_attempt-KeepsOrders stripe now i c p none = pure-KeepsOrders p
cancel_attempt-KeepsOrders stripe now i c p (some attempt) =
    bind-KeepsOrders (cancel_payment_intent_for_sync stripe attempt.stripe_payment_intent_id)
      (λ intent. apply_payment_intent_state now p attempt intent c >> get_payment_by_id i)
      (cancel_for_sync-KeepsOrders stripe attempt.stripe_payment_intent_id)
      (λ intent.
        bind-KeepsOrders (apply_payment_intent_state now p attempt intent c)
          (λ _. get_payment_by_id i) (apply-KeepsOrders now p attempt intent c)
          (λ _. get_payment_by_id-KeepsOrders i))

cancel_active-KeepsOrders :
    (stripe : StripeService) (now : Instant) (i : Uuid) (c : AuditContext)
    → KeepsOrders (cancel_active_card_attempt stripe now i c)
unfolding cancel_active_card_attempt
cancel_active-KeepsOrders stripe now i c =
    bind-KeepsOrders (get_payment_by_id i)
      (λ p. cancel_attempt stripe now i c p (get_reusable_attempt p))
      (get_payment_by_id-KeepsOrders i)
      (λ p. cancel_attempt-KeepsOrders stripe now i c p (get_reusable_attempt p))

delete-KeepsOrders :
    (stripe : StripeService) (i : Uuid) (c : AuditContext)
    → KeepsOrders (delete_payment_for_reopen stripe i c)
unfolding KeepsOrders delete_payment_for_reopen get_payment_by_id void_at_stripe
    cancel_payment_intent_for_sync delete_attempts_of delete_payment write_payment_audit_log
delete-KeepsOrders stripe i c db a db' h = ground arith

create-KeepsOrders : (row : Uuid → Payment) → KeepsOrders (create_payment row)
unfolding KeepsOrders create_payment
create-KeepsOrders row db a db' h = ground arith

legacy-KeepsOrders : (o : Order) → KeepsOrders (ensure_legacy_payment_for_order o)
unfolding KeepsOrders ensure_legacy_payment_for_order create_payment find_payment_of
legacy-KeepsOrders o db a db' h = ground arith

pub confirmed_payment-KeepsOrders :
    (i o : Uuid) (amount : ℤ) (t : Instant) (c : AuditContext)
    → KeepsOrders (create_payment_for_confirmed_order i o amount t c)
unfolding KeepsOrders create_payment_for_confirmed_order create_payment find_payment_of
    write_payment_audit_log
confirmed_payment-KeepsOrders i o amount t c db a db' h = ground arith

pub ensure-KeepsOrders :
    (o : Order) (included : Option Payment) → KeepsOrders (ensure_transition_payment o included)
unfolding ensure_transition_payment
ensure-KeepsOrders o none = legacy-KeepsOrders o
ensure-KeepsOrders o (some p) =
    bind-KeepsOrders (get_payment_by_id p.id) (λ found. pure (some found))
      (get_payment_by_id-KeepsOrders p.id) (λ found. pure-KeepsOrders (some found))

at_rest-KeepsOrders : (p : Payment) (s t : String) → KeepsOrders (assert_money_at_rest p s t)
unfolding KeepsOrders assert_money_at_rest
at_rest-KeepsOrders p s t db a db' h = ground arith

pub release-KeepsOrders :
    (stripe : StripeService) (now : Instant) (p : Option PaymentWithAttempts) (c : AuditContext)
    → KeepsOrders (release_payment stripe now p c)
unfolding release_payment
release-KeepsOrders stripe now none c = pure-KeepsOrders tt
release-KeepsOrders stripe now (some p) c =
    bind-KeepsOrders (assert_money_at_rest p.payment must_be_refunded refund_blocks_cancel)
      (λ _. cancel_active_card_attempt stripe now p.id c >> pure tt)
      (at_rest-KeepsOrders p.payment must_be_refunded refund_blocks_cancel)
      (λ _.
        bind-KeepsOrders (cancel_active_card_attempt stripe now p.id c) (λ _. pure tt)
          (cancel_active-KeepsOrders stripe now p.id c) (λ _. pure-KeepsOrders tt))

pub discard-KeepsOrders :
    (stripe : StripeService) (p : Option PaymentWithAttempts) (c : AuditContext)
    → KeepsOrders (discard_payment stripe p c)
unfolding discard_payment
discard-KeepsOrders stripe none c = pure-KeepsOrders tt
discard-KeepsOrders stripe (some p) c =
    bind-KeepsOrders (assert_money_at_rest p.payment cannot_be_reopened refund_blocks_reopen)
      (λ _. delete_payment_for_reopen stripe p.id c)
      (at_rest-KeepsOrders p.payment cannot_be_reopened refund_blocks_reopen)
      (λ _. delete-KeepsOrders stripe p.id c)
