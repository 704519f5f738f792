-- ===== src/Payment/Collect/Card.antt =====
-- Starting a card payment a second time resumes the first.
use ledger_light_admin.Base.{
  Result, Option, ap, refl, ◌≡◌, sym, ◌∙◌, inl, inr, none, some, ◌∷◌, Uuid, Instant, ok, arith,
  find, filter, modify, find-modify, Option-cases,
}
use ledger_light_admin.Base.Atomic.{bind_succeeds, bind_ok, transaction_ok}
use ledger_light_admin.Access.Scope.{CurrentOrg, OrganizationScope, resolve_organization_scope}
use ledger_light_admin.Store.{
  Db, ◌>>=◌, rolled_back, OrderStatus, PaymentStatus, PaymentMethod, PaymentAttemptStatus, Order,
  Payment, PaymentAttempt, AuditContext,
}
use ledger_light_admin.Payment.Status.{PaymentWithAttempts}
use ledger_light_admin.Payment.Stripe.{StripeService, Answer-cases}
use ledger_light_admin.Payment.Queries.{
  OrderWithPayment, with_payment, legacy_payment, visible_order, has_payment_id, is_payment_of,
  with_attempts, get_order_with_payment, payment_or_legacy, update_payment, write_payment_audit_log,
}
use ledger_light_admin.Payment.Sync.{get_reusable_attempt, reusable_of}
use ledger_light_admin.Payment.Reads.{
  Reads, ReadsOrder, with_legacy, with_legacy-Reads, payment_or_legacy_made,
}
use ledger_light_admin.Payment.Collect.{
  CreateCardPaymentResponseDto, initiate_card_payment, start_attempt, create_attempt, intent_args,
  new_attempt, assert_payment_accepts_collection, collect_by_card, card_payment_of,
}

abbrev card_started : Payment → Payment
card_started p = record p {
  method = some PaymentMethod.card;
  payment_status = PaymentStatus.pending;
  last_payment_failure = none;
}

-- The reply that names an attempt.
abbrev resumed : Payment → PaymentAttempt → CreateCardPaymentResponseDto
resumed p a = record {
  payment_id = p.id;
  attempt_id = a.id;
  client_secret = a.client_secret;
  payment_status = p.payment_status;
  attempt_status = a.status;
}

-- What a new attempt has written, and the reply.
record Started (db db' : Db) (p : Payment) (a : PaymentAttempt) (r : CreateCardPaymentResponseDto)
    : Type 0 where
  payments : db'.payments ≡ modify (has_payment_id p.id) card_started db.payments
  attempts : db'.attempts ≡ a ∷ db.attempts
  orders : db'.orders ≡ db.orders
  of_payment : a.payment_id ≡ p.id
  is_pending : a.status ≡ PaymentAttemptStatus.pending
  reply : r ≡ resumed (card_started p) a

start_attempt-Started :
    (stripe : StripeService) (now : Instant) (order : OrderWithPayment)
    (payment : PaymentWithAttempts) (c : AuditContext) (db : Db) {r : CreateCardPaymentResponseDto}
    {db' : Db}
    → start_attempt stripe now order payment c db ≡ (ok r, db')
    → (a : PaymentAttempt) × Started db db' payment.payment a r
unfolding start_attempt create_attempt update_payment write_payment_audit_log
start_attempt-Started stripe now order payment c db e =
    let i = db.next_id in
    elim (Answer-cases (stripe.create_payment_intent (intent_args order.order payment.payment i))) [
      | inr (m, failed) ↦ absurd (ground arith)
      | inl (intent, created) ↦ elim (Option-cases intent.client_secret) [
        | inl missing ↦ absurd (ground arith)
        | inr (secret, given) ↦ (new_attempt now payment.payment i intent.id secret, ground arith)
      ]
    ]

-- The order and the payment can be read again.
Started-Reads :
    (organization : OrganizationScope) (order_id : Uuid) (db db' : Db) {o : Order} {p : Payment}
    {a : PaymentAttempt} {r : CreateCardPaymentResponseDto}
    → Reads organization order_id db o p
    → Started db db' p a r
    → Reads organization order_id db' o (card_started p)
Started-Reads organization order_id db db' {o} {p} reads st =
    let mine = has_payment_id p.id in
    record {
      order = rw st.orders reads.order;
      payment =
          rw
            (
              st.payments,
              find-modify (is_payment_of o.id) mine card_started (λ q. ground arith) db.payments,
              reads.payment,
            )
            (ground arith);
      order_keyed = rw st.orders reads.order_keyed;
      payment_keyed =
          rw
            (
              st.payments,
              find-modify mine mine card_started (λ q. ground arith) db.payments,
              reads.payment_keyed,
            )
            (ground arith);
    }

module _ (stripe : StripeService) (now : Instant) (organization : OrganizationScope)
    (order_id : Uuid) (c : AuditContext) (db : Db) {o : Order} {p : Payment}
    (reads : Reads organization order_id db o p) where
  -- With an attempt that can be used again.
  resumes :
      (a : PaymentAttempt)
      → o.status ≡ OrderStatus.confirmed
      → assert_payment_accepts_collection p db ≡ (ok tt, db)
      → get_reusable_attempt (with_attempts db p) ≡ some a
      → initiate_card_payment stripe now organization order_id c db ≡ (ok (resumed p a), db)
  unfolding initiate_card_payment card_payment_of collect_by_card get_order_with_payment
      payment_or_legacy
  resumes a confirmed accepts reusable = ground (arith, reads.order, reads.payment)

  -- What a call that succeeds has passed.
  passes :
      {db' : Db} {r : CreateCardPaymentResponseDto}
      → initiate_card_payment stripe now organization order_id c db ≡ (ok r, db')
      → (o.status ≡ OrderStatus.confirmed) × (assert_payment_accepts_collection p db ≡ (ok tt, db))
  unfolding initiate_card_payment card_payment_of collect_by_card get_order_with_payment
      payment_or_legacy assert_payment_accepts_collection
  passes e = ground (arith, reads.order, reads.payment)

  starts :
      {db' : Db} {r : CreateCardPaymentResponseDto}
      → initiate_card_payment stripe now organization order_id c db ≡ (ok r, db')
      → get_reusable_attempt (with_attempts db p) ≡ none
      → start_attempt stripe now
          (record { order = o; payment = some (with_attempts db p) })
          (with_attempts db p)
          c
          db
        ≡ (ok r, db')
  unfolding initiate_card_payment card_payment_of collect_by_card get_order_with_payment
      payment_or_legacy
  starts e none_left =
      let (confirmed, accepts) = passes e in
      ground (arith, reads.order, reads.payment, confirmed, accepts)

-- The attempt that a call has started can be used again.
Started-reusable :
    (db db' : Db) {p : Payment} {a : PaymentAttempt} {r : CreateCardPaymentResponseDto}
    → Started db db' p a r
    → get_reusable_attempt (with_attempts db' (card_started p)) ≡ some a
unfolding get_reusable_attempt reusable_of filter
Started-reusable db db' {p} {a} st = rw (st.attempts) (ground (arith, st.of_payment, st.is_pending))

accepts_started :
    (p : Payment) (db db' : Db)
    → assert_payment_accepts_collection p db ≡ (ok tt, db)
    → assert_payment_accepts_collection (card_started p) db' ≡ (ok tt, db')
unfolding assert_payment_accepts_collection
accepts_started p db db' h = ground arith

-- For an order that has a payment.
resumes_with_payment :
    (stripe stripe' : StripeService) (now later : Instant) (organization : OrganizationScope)
    (order_id : Uuid) (c c' : AuditContext) (db : Db) {db' : Db} {o : Order} {p : Payment}
    {r : CreateCardPaymentResponseDto}
    → Reads organization order_id db o p
    → initiate_card_payment stripe now organization order_id c db ≡ (ok r, db')
    → initiate_card_payment stripe' later organization order_id c' db' ≡ (ok r, db')
resumes_with_payment stripe stripe' now later organization order_id c c' db {db'} {o} {p} {r} reads
      e =
    let (confirmed, accepts) = passes stripe now organization order_id c db reads e in
    elim (Option-cases (get_reusable_attempt (with_attempts db p))) [
      | inl none_left ↦
          let (a, st) =
            start_attempt-Started stripe now _ _ c db
              (starts stripe now organization order_id c db reads e none_left) in
          rw (st.reply) (
            resumes stripe' later organization order_id c' db'
              (Started-Reads organization order_id db db' reads st) a confirmed
              (accepts_started p db db' accepts) (Started-reusable db db' st))
      | inr (a, reusable) ↦
          let first =
            resumes stripe now organization order_id c db reads a confirmed accepts reusable in
          let same : ◌≡◌ {A = Result CreateCardPaymentResponseDto × Db} (ok (resumed p a), db)
              (ok r, db') =
            sym first ∙ e in
          let again =
            resumes stripe' later organization order_id c' db reads a confirmed accepts reusable in
          cc
    ]

collect_by_card_confirmed :
    (stripe : StripeService) (now : Instant) (c : AuditContext) (order : OrderWithPayment)
    (found : Option PaymentWithAttempts) (db : Db) {db' : Db} {r : CreateCardPaymentResponseDto}
    → collect_by_card stripe now c order found db ≡ (ok r, db')
    → order.order.status ≡ OrderStatus.confirmed
unfolding collect_by_card
collect_by_card_confirmed stripe now c order found db e = ground arith

get_order_reads :
    (org : CurrentOrg) (order_id : Uuid) (db : Db) {o : Order}
    → find (visible_order org order_id) db.orders ≡ some o
    → get_order_with_payment org order_id db ≡ (ok (with_payment db o), db)
unfolding get_order_with_payment
get_order_reads org order_id db found = ground (arith, found)

payment_or_legacy_there :
    (db : Db) (o : Order) {p : Payment}
    → find (is_payment_of o.id) db.payments ≡ some p
    → payment_or_legacy (with_payment db o) db ≡ (ok (some (with_attempts db p)), db)
unfolding payment_or_legacy
payment_or_legacy_there db o found = ground (arith, found)

-- The payment that was read with the order is not looked at again.
collect_by_card_rereads :
    (stripe : StripeService) (now : Instant) (c : AuditContext) (o : Order)
    (a b found : Option PaymentWithAttempts)
    → collect_by_card stripe now c (record { order = o; payment = a }) found
      ≡ collect_by_card stripe now c (record { order = o; payment = b }) found
unfolding collect_by_card start_attempt
collect_by_card_rereads stripe now c o a b found = refl

-- For an order without a payment the first call makes one, and goes on as if it had been there.
initiate_card_payment-with_legacy :
    (stripe : StripeService) (now : Instant) (organization : OrganizationScope) (order_id : Uuid)
    (c : AuditContext) (db : Db) {db' : Db} {o : Order} {r : CreateCardPaymentResponseDto}
    → ReadsOrder organization order_id db o
    → find (is_payment_of o.id) db.payments ≡ none
    → initiate_card_payment stripe now organization order_id c db ≡ (ok r, db')
    → initiate_card_payment stripe now organization order_id c (with_legacy o db) ≡ (ok r, db')
unfolding initiate_card_payment card_payment_of
initiate_card_payment-with_legacy stripe now organization order_id c db {db'} {o} {r} reads missing
      e =
    let org = resolve_organization_scope organization in
    let p = legacy_payment o db.next_id in
    let later = with_legacy o db in
    let e1 =
      sym (
        bind_ok (get_order_with_payment org order_id) (card_payment_of stripe now c) db
          (get_order_reads org order_id db reads.order))
      ∙ transaction_ok (get_order_with_payment org order_id >>= card_payment_of stripe now c) db
          e in
    let (found, db2, second, e2) =
      bind_succeeds (payment_or_legacy (with_payment db o))
        (collect_by_card stripe now c (with_payment db o)) db e1 in
    let confirmed = collect_by_card_confirmed stripe now c (with_payment db o) found db2 e2 in
    let same = sym (payment_or_legacy_made db o missing confirmed) ∙ second in
    let again = with_legacy-Reads organization order_id db reads in
    let there : found ≡ some (with_attempts later p) = ground (arith, same) in
    let after : db2 ≡ later = ground (arith, same) in
    let collected =
      ap (λ k. k later)
        (collect_by_card_rereads stripe now c o (with_payment later o).payment
          (with_payment db o).payment (some (with_attempts later p))) in
    let done = rw (there, after) at e2 in
    let whole =
      bind_ok (get_order_with_payment org order_id) (card_payment_of stripe now c) later
        (get_order_reads org order_id later again.order)
      ∙ bind_ok (payment_or_legacy (with_payment later o))
          (collect_by_card stripe now c (with_payment later o)) later
          (payment_or_legacy_there later o again.payment)
      ∙ collected
      ∙ done in
    ap (rolled_back later) whole

-- Once a call has started or resumed a card payment, be it for an order that had a payment or for
-- one that got it only then, a further call gives the same reply, with the same client secret, and
-- changes nothing, whatever Stripe would answer then. It is assumed that the keys of the order and of
-- its payment, if it has one, find no other rows.
pub initiate_card_payment_resumes :
    (stripe stripe' : StripeService) (now later : Instant) (organization : OrganizationScope)
    (order_id : Uuid) (c c' : AuditContext) (db : Db) {db' : Db} {o : Order}
    {r : CreateCardPaymentResponseDto}
    → ReadsOrder organization order_id db o
    → initiate_card_payment stripe now organization order_id c db ≡ (ok r, db')
    → initiate_card_payment stripe' later organization order_id c' db' ≡ (ok r, db')
initiate_card_payment_resumes stripe stripe' now later organization order_id c c' db {db'} {o} {r}
      reads e =
    elim (Option-cases (find (is_payment_of o.id) db.payments)) [
      | inl missing ↦
          resumes_with_payment stripe stripe' now later organization order_id c c'
            (with_legacy o db) (with_legacy-Reads organization order_id db reads)
            (initiate_card_payment-with_legacy stripe now organization order_id c db reads missing
              e)
      | inr (p, found) ↦
          resumes_with_payment stripe stripe' now later organization order_id c c' db
            (record {
              order = reads.order;
              payment = found;
              order_keyed = reads.order_keyed;
              payment_keyed = reads.payment_keyed p found;
            })
            e
    ]
