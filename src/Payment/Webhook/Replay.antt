-- ===== src/Payment/Webhook/Replay.antt =====
-- What the receipts are for: an event that Stripe delivers again is not processed again, and one
-- whose processing failed leaves no receipt.
use ledger_light_admin.Base.{
  ◌≡◌, refl, sym, ◌∙◌, Bool, true, false, none, some, List, [], ◌∷◌, String, Uuid, Instant, ⊤,
  Error, ok, err, arith, any, find, modify, rewritten, find-modify, if◌then◌else◌, Option-cases,
  Bool-cases, inl, inr, ap, ◌==◌,
}
use ledger_light_admin.Store.{Db, M, pure, ◌>>◌, StripeWebhookReceipt}
use ledger_light_admin.Base.Atomic.{bind_ok, bind_succeeds, transaction_err, transaction_ok}
use ledger_light_admin.Payment.Webhook.{
  WebhookEvent, intent_succeeded, intent_payment_failed, intent_processing, intent_canceled,
  refund_created, refund_updated, refund_failed, other, new_receipt, is_receipt_of,
  create_webhook_receipt, mark_webhook_receipt_processed, unless_received, once, event_id,
  handle_webhook_payment_intent, handle_webhook_refund, handle_stripe_webhook,
}

found_any : {A : Type 0} (q : A → Bool) (xs : List A) (x : A) → find q xs ≡ some x → any q xs ≡ true
unfolding find
found_any q [] x h = absurd (ground arith)
found_any q (y ∷ xs) x h = ground (arith, found_any q xs x)

has_receipt : Uuid → Db → Bool
has_receipt i db = any (is_receipt_of i) db.receipts

-- An event is marked as processed only where it has a receipt, which stays.
marked_has_receipt :
    (now : Instant) (i : Uuid) (db : Db) {db' : Db}
    → mark_webhook_receipt_processed now i db ≡ (ok tt, db')
    → has_receipt i db' ≡ true
unfolding mark_webhook_receipt_processed has_receipt
marked_has_receipt now i db {db'} h =
    let mine = is_receipt_of i in
    let done : StripeWebhookReceipt → StripeWebhookReceipt =
      λ r. record r { processed_at = some now } in
    elim (Option-cases (find mine db.receipts)) [
      | inl missing ↦ absurd (ground arith)
      | inr (r, found) ↦
          let kept : find mine (modify mine done db.receipts) ≡ some (rewritten mine done r) =
            rw (find-modify mine mine done (λ q. ground arith) db.receipts, found) refl in
          let marked = found_any mine (modify mine done db.receipts) (rewritten mine done r) kept in
          ground (arith, found, marked)
    ]

then_marked :
    (now : Instant) (i : Uuid) (process : M ⊤) (db : Db) {db' : Db}
    → (process >> mark_webhook_receipt_processed now i) db ≡ (ok tt, db')
    → has_receipt i db' ≡ true
then_marked now i process db h =
    let (done, db1, ran, marked) =
      bind_succeeds process (λ _. mark_webhook_receipt_processed now i) db h in
    marked_has_receipt now i db1 marked

create_webhook_receipt_new :
    (now : Instant) (i : Uuid) (event_type : String) (db : Db)
    → has_receipt i db ≡ false
    → create_webhook_receipt now i event_type db
      ≡ (ok true, record db { receipts = new_receipt now i event_type ∷ db.receipts })
unfolding create_webhook_receipt has_receipt
create_webhook_receipt_new now i event_type db new = ground arith

unless_received_new :
    (now : Instant) (i : Uuid) (event_type : String) (process : M ⊤) (db : Db)
    → has_receipt i db ≡ false
    → unless_received now i event_type process db
      ≡ (process >> mark_webhook_receipt_processed now i)
          (record db { receipts = new_receipt now i event_type ∷ db.receipts })
unfolding unless_received
unless_received_new now i event_type process db new =
    bind_ok (create_webhook_receipt now i event_type)
      (λ new. if new then process >> mark_webhook_receipt_processed now i else pure tt) db
      (create_webhook_receipt_new now i event_type db new)

unless_received-receipt :
    (now : Instant) (i : Uuid) (event_type : String) (process : M ⊤) (db : Db) {db' : Db}
    → unless_received now i event_type process db ≡ (ok tt, db')
    → has_receipt i db' ≡ true
unfolding unless_received create_webhook_receipt has_receipt
unless_received-receipt now i event_type process db {db'} h =
    elim (Bool-cases (any (is_receipt_of i) db.receipts)) [
      | inl taken ↦ ground arith
      | inr new ↦
          then_marked now i process
            (record db { receipts = new_receipt now i event_type ∷ db.receipts })
            (sym (unless_received_new now i event_type process db new) ∙ h)
    ]

-- An event with a receipt changes nothing.
received_unchanged :
    (now : Instant) (i : Uuid) (event_type : String) (process : M ⊤) (db : Db)
    → has_receipt i db ≡ true
    → once now i event_type process db ≡ (ok tt, db)
unfolding once unless_received create_webhook_receipt has_receipt
received_unchanged now i event_type process db taken = ground arith

once-receipt :
    (now : Instant) (i : Uuid) (event_type : String) (process : M ⊤) (db : Db) {db' : Db}
    → once now i event_type process db ≡ (ok tt, db')
    → has_receipt i db' ≡ true
unfolding once
once-receipt now i event_type process db h =
    unless_received-receipt now i event_type process db
      (transaction_ok (unless_received now i event_type process) db h)

-- An event is handled once for its id, or is none that the controller looks at.
data Handling (now : Instant) (event : WebhookEvent) : Type 0 where
  handled_once :
      (i : Uuid) (event_type : String) (process : M ⊤)
      → event_id event ≡ some i
      → handle_stripe_webhook now true true (some event) ≡ once now i event_type process
      → Handling now event
  ignored :
      event_id event ≡ none
      → handle_stripe_webhook now true true (some event) ≡ pure tt
      → Handling now event

handling : (now : Instant) (event : WebhookEvent) → Handling now event
unfolding handle_stripe_webhook handle_webhook_payment_intent handle_webhook_refund
handling now (intent_succeeded i intent) = handled_once i _ _ refl refl
handling now (intent_payment_failed i intent) = handled_once i _ _ refl refl
handling now (intent_processing i intent) = handled_once i _ _ refl refl
handling now (intent_canceled i intent) = handled_once i _ _ refl refl
handling now (refund_created i refund) = handled_once i _ _ refl refl
handling now (refund_updated i refund) = handled_once i _ _ refl refl
handling now (refund_failed i refund) = handled_once i _ _ refl refl
handling now other = ignored refl refl

handled_has_receipt :
    (now : Instant) (event : WebhookEvent) (i : Uuid) (db : Db) {db' : Db}
    → event_id event ≡ some i
    → handle_stripe_webhook now true true (some event) db ≡ (ok tt, db')
    → has_receipt i db' ≡ true
handled_has_receipt now event i db {db'} e h = elim (handling now event) [
  | ignored no_id runs ↦ absurd (ground arith)
  | handled_once j event_type process has_id runs ↦
      let same : j ≡ i = ground arith in
      rw (← same) (once-receipt now j event_type process db (rw runs at h))
]

received_ignored :
    (now : Instant) (event : WebhookEvent) (i : Uuid) (db : Db)
    → event_id event ≡ some i
    → has_receipt i db ≡ true
    → handle_stripe_webhook now true true (some event) db ≡ (ok tt, db)
received_ignored now event i db e taken = elim (handling now event) [
  | ignored no_id runs ↦ absurd (ground arith)
  | handled_once j event_type process has_id runs ↦
      let same : i ≡ j = ground arith in
      rw runs (received_unchanged now j event_type process db (rw same at taken))
]

-- An event that was handled with success is not handled again: a later delivery with the same
-- event id, whatever else it says, succeeds and changes nothing.
pub webhook_replay_ignored :
    (now later : Instant) (event again : WebhookEvent) (i : Uuid) (db : Db) {db' : Db}
    → event_id event ≡ some i
    → event_id again ≡ some i
    → handle_stripe_webhook now true true (some event) db ≡ (ok tt, db')
    → handle_stripe_webhook later true true (some again) db' ≡ (ok tt, db')
webhook_replay_ignored now later event again i db {db'} same_event same_again h =
    received_ignored later again i db' same_again (handled_has_receipt now event i db same_event h)

event_failure_unchanged :
    (now : Instant) (event : WebhookEvent) (db : Db) (e : Error)
    → (handle_stripe_webhook now true true (some event) db).0 ≡ err e
    → (handle_stripe_webhook now true true (some event) db).1 ≡ db
unfolding once
event_failure_unchanged now event db e h = elim (handling now event) [
  | ignored no_id runs ↦ rw runs refl
  | handled_once i event_type process has_id runs ↦
      rw runs (transaction_err (unless_received now i event_type process) db e (rw runs at h))
]

-- A delivery of an event that fails leaves the database as it was, although its receipt is written
-- before the event is processed: there is no receipt of the event, so that a later delivery of it is
-- not taken for a repetition.
pub webhook_failure_unchanged :
    (now : Instant) (event : WebhookEvent) (i : Uuid) (db : Db) (e : Error)
    → event_id event ≡ some i
    → let (r, db') = handle_stripe_webhook now true true (some event) db in
      r ≡ err e
      → (db' ≡ db)
        × (any (λ (x : StripeWebhookReceipt). x.stripe_event_id == i) db'.receipts ≡ false)
unfolding has_receipt
webhook_failure_unchanged now event i db e named h =
    let same = event_failure_unchanged now event db e h in
    elim (Bool-cases (has_receipt i db)) [
      | inl taken ↦
          let ignored_again = received_ignored now event i db named taken in absurd (ground arith)
      | inr new ↦ (same, ap (λ d. has_receipt i d) same ∙ new)
    ]
