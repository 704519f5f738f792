-- ===== src/Payment/Tests.antt =====
-- The theorems about payments at sample rows.
use ledger_light_admin.Base.{
  ◌≡◌, refl, ◌⊎◌, inl, true, false, none, some, [], ◌∷◌, Error, ok, err, find, filter, modify,
  arith, unique_violation, any, ◌==◌,
}
use ledger_light_admin.Access.Scope.{location_scope_where, resolve_organization_scope}
use ledger_light_admin.Store.{
  Db, OrderStatus, PaymentStatus, RefundStatus, PaymentMethod, PaymentAttemptStatus, Payment,
  PaymentAttempt, StripeWebhookReceipt, AuditField, AuditEntityType, payment_attempt_started,
}
use ledger_light_admin.Payment.Status.{to_payment_dto}
use ledger_light_admin.Payment.Stripe.{StripeRefundStatus, IntentStatus, PaymentIntent}
use ledger_light_admin.Payment.Queries.{
  get_order_with_payment, payment_or_legacy, has_payment_id, with_attempts, is_order,
  get_payment_by_id, update_payment, write_payment_audit_log,
}
use ledger_light_admin.Payment.Reads.{Reads, ReadsOrder}
use ledger_light_admin.Payment.Sync.{
  get_reusable_attempt, reusable_of, map_payment_intent_state, apply_payment_intent_state,
  payment_changed, attempt_changed, sync, update_attempt, log_synced,
}
use ledger_light_admin.Payment.Collect.{
  assert_payment_accepts_collection, start_attempt, create_attempt, CreateCardPaymentResponseDto,
  attempt_or_first, mark_cash_paid, initiate_card_payment, card_payment_of, collect_by_card,
}
use ledger_light_admin.Payment.Collect.Cash.{
  CanPayCash, cash_paid, cash_entry, mark_cash_paid_outcome,
}
use ledger_light_admin.Payment.Collect.Card.{initiate_card_payment_resumes}
use ledger_light_admin.Payment.Refund.{
  refund_payment, apply_refund_state, save_refund_state, map_refund_state,
}
use ledger_light_admin.Payment.Refund.Rules.{order_refunded, cash_refunded, cash_refund_settles}
use ledger_light_admin.Payment.Webhook.{
  WebhookEvent, intent_succeeded, intent_payment_failed, once, unless_received,
  create_webhook_receipt, mark_webhook_receipt_processed, handle_webhook_payment_intent,
  process_payment_intent, handle_stripe_webhook, refund_created, handle_webhook_refund,
  process_refund, order_of,
}
use ledger_light_admin.Payment.Webhook.Repeat.{process_payment_intent_idempotent}
use ledger_light_admin.Payment.Webhook.Replay.{webhook_replay_ignored, webhook_failure_unchanged}
use ledger_light_admin.Samples.{
  shop, order_in, payment_in, attempt, db_of, nobody, intent_in, obliging, unreachable,
}

abbrev unpaid : Payment
unpaid = payment_in none PaymentStatus.unpaid RefundStatus.none

abbrev paid_cash : Payment
paid_cash = payment_in (some PaymentMethod.cash) PaymentStatus.paid RefundStatus.none

abbrev db_with : Payment → Db
db_with p = db_of (order_in OrderStatus.confirmed) (p ∷ []) []

with_payment-Reads :
    (p : Payment)
    → p.id ≡ 20
    → p.order_id ≡ 10
    → Reads shop 10 (db_with p) (order_in OrderStatus.confirmed) p
unfolding find resolve_organization_scope location_scope_where
with_payment-Reads p i o = record {
  order = refl;
  payment = ground (arith, o);
  order_keyed = refl;
  payment_keyed = ground (arith, i);
}

with_payment-ReadsOrder :
    (p : Payment)
    → p.id ≡ 20
    → p.order_id ≡ 10
    → ReadsOrder shop 10 (db_with p) (order_in OrderStatus.confirmed)
unfolding find resolve_organization_scope location_scope_where
with_payment-ReadsOrder p i o = record {
  order = refl;
  order_keyed = refl;
  payment_keyed =
      λ q found. let same : p ≡ q = ground (arith, o) in rw (← same) (ground (arith, i));
}

mark_cash_paid_outcome_example :
    let (r, db') = mark_cash_paid 8 shop 10 nobody (db_with unpaid) in
    CanPayCash OrderStatus.confirmed unpaid
      × (r ≡ ok (to_payment_dto (with_attempts (db_with unpaid) (cash_paid 8 unpaid))))
      × (find (has_payment_id 20) db'.payments ≡ some (cash_paid 8 unpaid))
      × (db'.audit_logs ≡ cash_entry 8 unpaid nobody ∷ [])
    ⊎ (¬ CanPayCash OrderStatus.confirmed unpaid)
      × ((e : Error) × (r ≡ err e))
      × (db' ≡ db_with unpaid)
mark_cash_paid_outcome_example =
    mark_cash_paid_outcome 8 shop 10 nobody (db_with unpaid) (with_payment-Reads unpaid refl refl)

cash_refund_settles_example :
    let (r, db') = refund_payment unreachable 8 9 shop 10 "late" nobody (db_with paid_cash) in
    (r ≡ ok (to_payment_dto (with_attempts (db_with paid_cash) (cash_refunded 8 "late" paid_cash))))
    × (find (has_payment_id 20) db'.payments ≡ some (cash_refunded 8 "late" paid_cash))
    × (find (is_order 10 1) db'.orders ≡ some (order_refunded 8 (order_in OrderStatus.confirmed)))
cash_refund_settles_example =
    cash_refund_settles unreachable 8 9 shop 10 "late" nobody (db_with paid_cash)
      (with_payment-Reads paid_cash refl refl)
      (record { placed = inl refl; paid = refl; at_rest = inl refl }) refl

-- A card payment that is begun, asked for again, and paid.
abbrev begun : Payment
begun = payment_in (some PaymentMethod.card) PaymentStatus.pending RefundStatus.none

abbrev begun_attempt : PaymentAttempt
begun_attempt = record attempt { id = 100; created_at = 8 }

abbrev begun_db : Db
begun_db = record (db_with begun) {
  attempts = begun_attempt ∷ [];
  next_id = 101;
  audit_logs =
      record {
        organization_id = 1;
        entity_type = AuditEntityType.payment;
        entity_id = 20;
        action = payment_attempt_started;
        before_json = some (
            AuditField.payment_status PaymentStatus.unpaid
            ∷ AuditField.refund_status RefundStatus.none
            ∷ []);
        after_json = some (
            AuditField.payment_status PaymentStatus.pending
            ∷ AuditField.refund_status RefundStatus.none
            ∷ AuditField.attempt_id (some 100)
            ∷ AuditField.stripe_payment_intent_id (some 60)
            ∷ []);
        context = nobody;
      }
      ∷ [];
}

abbrev begun_reply : CreateCardPaymentResponseDto
begun_reply = record {
  payment_id = 20;
  attempt_id = 100;
  client_secret = "secret";
  payment_status = PaymentStatus.pending;
  attempt_status = PaymentAttemptStatus.pending;
}

begins :
    initiate_card_payment obliging 8 shop 10 nobody (db_with unpaid) ≡ (ok begun_reply, begun_db)
unfolding initiate_card_payment card_payment_of collect_by_card get_order_with_payment
    payment_or_legacy find filter modify resolve_organization_scope location_scope_where
    assert_payment_accepts_collection get_reusable_attempt reusable_of start_attempt create_attempt
    update_payment write_payment_audit_log
begins = refl

initiate_card_payment_resumes_example :
    initiate_card_payment unreachable 9 shop 10 nobody begun_db ≡ (ok begun_reply, begun_db)
initiate_card_payment_resumes_example =
    initiate_card_payment_resumes obliging unreachable 8 9 shop 10 nobody nobody (db_with unpaid)
      (with_payment-ReadsOrder unpaid refl refl) begins

abbrev succeeded : PaymentIntent
succeeded = intent_in IntentStatus.succeeded

abbrev after_succeeded : Db
after_succeeded = (process_payment_intent 9 succeeded begun_db).1

processes : process_payment_intent 9 succeeded begun_db ≡ (ok tt, after_succeeded)
unfolding process_payment_intent find filter modify get_payment_by_id attempt_or_first
    apply_payment_intent_state map_payment_intent_state payment_changed attempt_changed sync
    update_attempt update_payment log_synced write_payment_audit_log
processes = refl

process_payment_intent_idempotent_example :
    process_payment_intent 11 succeeded after_succeeded ≡ (ok tt, after_succeeded)
process_payment_intent_idempotent_example =
    process_payment_intent_idempotent 9 11 succeeded begun_db processes

abbrev event : WebhookEvent
event = intent_succeeded 500 succeeded

abbrev after_event : Db
after_event = (handle_stripe_webhook 9 true true (some event) begun_db).1

handles : handle_stripe_webhook 9 true true (some event) begun_db ≡ (ok tt, after_event)
unfolding handle_stripe_webhook handle_webhook_payment_intent once unless_received
    create_webhook_receipt mark_webhook_receipt_processed process_payment_intent find filter modify
    get_payment_by_id attempt_or_first apply_payment_intent_state map_payment_intent_state
    payment_changed attempt_changed sync update_attempt update_payment log_synced
    write_payment_audit_log
handles = refl

webhook_replay_ignored_example :
    handle_stripe_webhook 11 true true
      (some (intent_payment_failed 500 (intent_in IntentStatus.requires_payment_method)))
      after_event
    ≡ (ok tt, after_event)
webhook_replay_ignored_example =
    webhook_replay_ignored 9 11 event
      (intent_payment_failed 500 (intent_in IntentStatus.requires_payment_method)) 500 begun_db refl
      refl handles

-- An order whose payment has no refund, beside a payment that has the refund 70 already: Stripe
-- cannot mean both.
abbrev other_refunded : Payment
other_refunded =
    record (payment_in (some PaymentMethod.card) PaymentStatus.paid RefundStatus.refunded) {
      id = 21;
      order_id = 11;
      stripe_refund_id = some 70;
    }

abbrev crowded_db : Db
crowded_db = record begun_db { payments = begun ∷ other_refunded ∷ [] }

abbrev refunding : WebhookEvent
refunding = refund_created 501 (record {
  id = 70;
  status = StripeRefundStatus.succeeded;
  failure_reason = none;
  metadata_payment_id = some 20;
})

fails : (handle_stripe_webhook 9 true true (some refunding) crowded_db).0 ≡ err unique_violation
unfolding handle_stripe_webhook handle_webhook_refund once unless_received create_webhook_receipt
    process_refund order_of apply_refund_state save_refund_state map_refund_state find filter
fails = refl

webhook_failure_unchanged_example :
    ((handle_stripe_webhook 9 true true (some refunding) crowded_db).1 ≡ crowded_db)
    × (any
          (λ (x : StripeWebhookReceipt). x.stripe_event_id == 501)
          (handle_stripe_webhook 9 true true (some refunding) crowded_db).1.receipts
        ≡ false)
webhook_failure_unchanged_example =
    webhook_failure_unchanged 9 refunding 501 crowded_db unique_violation refl fails
