-- ===== src/Payment/Webhook/Repeat.antt =====
-- Two events about a PaymentIntent in the same state: the second one writes nothing.
use ledger_light_admin.Base.{
  ◌≡◌, refl, ◌∙◌, Bool, true, false, Option, none, some, List, [], ◌∷◌, Uuid, Instant, Result, ok,
  err, arith, if◌then◌else◌, inl, inr, find, filter, modify, rewritten, map_option, find-modify,
  filter-modify, Option-cases,
}
use ledger_light_admin.Store.{Db, Payment, PaymentAttempt}
use ledger_light_admin.Payment.Status.{PaymentDto}
use ledger_light_admin.Payment.Stripe.{PaymentIntent}
use ledger_light_admin.Payment.Queries.{
  has_payment_id, is_attempt_of, with_attempts, get_payment_by_id,
}
use ledger_light_admin.Payment.Sync.{
  PaymentTransitionResult, map_payment_intent_state, payment_changed, attempt_changed,
  set_intent_state, set_attempt_state, has_attempt_id, apply_payment_intent_state,
}
use ledger_light_admin.Payment.Sync.Idempotence.{
  written_is_unchanged, attempt_is_unchanged, unchanged_stays,
}
use ledger_light_admin.Payment.Sync.Writes.{apply_payment_intent_state-Synced}
use ledger_light_admin.Payment.Collect.{first_attempt, attempt_or_first}
use ledger_light_admin.Payment.Webhook.{attempt_of_intent, no_context, process_payment_intent}

-- What processing an intent finds in the database: the attempt, its payment, and the attempt among
-- those of the payment.
record Finds (intent : PaymentIntent) (db : Db) (p : Payment) (f : PaymentAttempt) : Type 0 where
  listed : PaymentAttempt
  found_attempt : find (attempt_of_intent intent) db.attempts ≡ some listed
  found_payment : find (has_payment_id listed.payment_id) db.payments ≡ some p
  found_fresh : attempt_or_first listed.id (filter (is_attempt_of p.id) db.attempts) ≡ some f

-- Where the payment and the attempt are in the state of the intent, nothing is written.
process_unchanged :
    (now : Instant) (intent : PaymentIntent) (db : Db) {p : Payment} {f : PaymentAttempt}
    → Finds intent db p f
    → payment_changed p (map_payment_intent_state intent p now) ≡ false
    → attempt_changed f (map_payment_intent_state intent p now) ≡ false
    → process_payment_intent now intent db ≡ (ok tt, db)
unfolding process_payment_intent get_payment_by_id apply_payment_intent_state
process_unchanged now intent db h e k = ground arith

-- Writes to payments and to attempts that leave their keys alone.
KeepsKeys : (Payment → Payment) → (PaymentAttempt → PaymentAttempt) → Type 0
KeepsKeys g k =
    ((x : Payment) → (g x).id ≡ x.id)
    × ((a : PaymentAttempt)
        → ((k a).id ≡ a.id)
          × ((k a).payment_id ≡ a.payment_id)
          × ((k a).stripe_payment_intent_id ≡ a.stripe_payment_intent_id))

module _ (g : Payment → Payment) (k : PaymentAttempt → PaymentAttempt) (keeps : KeepsKeys g k) where
  attempt_or_first-modify :
      (i j : Uuid) (attempts : List PaymentAttempt)
      → attempt_or_first i (modify (has_attempt_id j) k attempts)
        ≡ map_option (rewritten (has_attempt_id j) k) (attempt_or_first i attempts)
  unfolding attempt_or_first KeepsKeys modify
  attempt_or_first-modify i j attempts =
      rw
        (
          find-modify (has_attempt_id i) (has_attempt_id j) k (λ a. ground (arith, keeps.1 a))
              attempts,
          attempt_or_first,
        )
        (found (find (has_attempt_id i) attempts) attempts)
    where
      found :
          (o : Option PaymentAttempt) (l : List PaymentAttempt)
          → (elim (map_option (rewritten (has_attempt_id j) k) o) [
            | some attempt ↦ some attempt
            | none ↦ first_attempt (modify (has_attempt_id j) k l)
          ])
            ≡ map_option
                (rewritten (has_attempt_id j) k)
                (elim o [ some attempt ↦ some attempt | none ↦ first_attempt l ])
      found (some a) l = refl
      found none [] = refl
      found none (a ∷ l) = refl

  -- The three reads, after a write to the payment and one to the attempt.
  Finds-again :
      (intent : PaymentIntent) (db db' : Db) {p : Payment} {f : PaymentAttempt}
      → Finds intent db p f
      → db'.payments ≡ modify (has_payment_id p.id) g db.payments
      → db'.attempts ≡ modify (has_attempt_id f.id) k db.attempts
      → Finds intent db' (g p) (k f)
  unfolding KeepsKeys
  Finds-again intent db db' {p} {f} h e a =
      let q = has_attempt_id f.id in
      let other = rewritten q k h.listed in
      let same_id : other.id ≡ h.listed.id = ground (arith, keeps.1 h.listed) in
      let same_payment : other.payment_id ≡ h.listed.payment_id =
        ground (arith, keeps.1 h.listed) in
      record {
        listed = other;
        found_attempt = rw (
          a,
          find-modify (attempt_of_intent intent) q k (λ x. ground (arith, keeps.1 x)) db.attempts,
          h.found_attempt,
        );
        found_payment =
            rw
              (
                e,
                same_payment,
                find-modify (has_payment_id h.listed.payment_id) (has_payment_id p.id) g
                    (λ x. ground (arith, keeps.0 x)) db.payments,
                h.found_payment,
              )
              (ground arith);
        found_fresh =
            rw
              (
                a,
                keeps.0 p,
                same_id,
                filter-modify (is_attempt_of p.id) q k (λ x. ground (arith, keeps.1 x)) db.attempts,
                attempt_or_first-modify h.listed.id f.id (filter (is_attempt_of p.id) db.attempts),
                h.found_fresh,
              )
              (ground arith);
      }

-- A run that succeeds is a run of `applyPaymentIntentStateTx` on what it finds.
process_applies :
    (now : Instant) (intent : PaymentIntent) (db : Db) {db' : Db} {p : Payment} {f : PaymentAttempt}
    → Finds intent db p f
    → process_payment_intent now intent db ≡ (ok tt, db')
    → (dto : PaymentDto) × (apply_payment_intent_state now
          (with_attempts db p)
          f
          intent
          no_context
          db
        ≡ (ok dto, db'))
unfolding process_payment_intent get_payment_by_id
process_applies now intent db {db'} {p} {f} h e =
    applied (apply_payment_intent_state now (with_attempts db p) f intent no_context db) refl
  where
    applied :
        (r : Result PaymentDto × Db)
        → apply_payment_intent_state now (with_attempts db p) f intent no_context db ≡ r
        → (dto : PaymentDto) × (apply_payment_intent_state now
              (with_attempts db p)
              f
              intent
              no_context
              db
            ≡ (ok dto, db'))
    applied (ok dto, db'') r = (dto, ground arith)
    applied (err x, db'') r = absurd (ground arith)

-- The payment is looked for by the key in the attempt, and the attempt by its own.
set_if_changed : PaymentTransitionResult → PaymentAttempt → PaymentAttempt → PaymentAttempt
set_if_changed next f a = if attempt_changed f next then set_attempt_state next a else a

modify_same : {A : Type 0} (q : A → Bool) (xs : List A) → xs ≡ modify q (λ x. x) xs
unfolding modify
modify_same q [] = refl
modify_same q (x ∷ xs) = ground (arith, modify_same q xs)

modify_if :
    {A : Type 0} (b : Bool) (q : A → Bool) (g : A → A) (xs : List A)
    → (if b then modify q g xs else xs) ≡ modify q (λ a. if b then g a else a) xs
modify_if true q g xs = refl
modify_if false q g xs = modify_same q xs

synced_attempts :
    (next : PaymentTransitionResult) (f : PaymentAttempt) (xs : List PaymentAttempt)
    → (if attempt_changed f next
        then modify (has_attempt_id f.id) (set_attempt_state next) xs
        else xs)
      ≡ modify (has_attempt_id f.id) (set_if_changed next f) xs
unfolding set_if_changed
synced_attempts next f xs =
    modify_if (attempt_changed f next) (has_attempt_id f.id) (set_attempt_state next) xs

set_if_changed-KeepsKeys :
    (next : PaymentTransitionResult) (f : PaymentAttempt)
    → KeepsKeys (set_intent_state next) (set_if_changed next f)
unfolding KeepsKeys set_if_changed
set_if_changed-KeepsKeys next f = (λ x. refl, λ a. ground arith)

-- After a run that succeeds, the next one finds nothing to change, whenever it comes.
repeat_unchanged :
    (now later : Instant) (intent : PaymentIntent) (db : Db) {db' : Db} {p : Payment}
    {f : PaymentAttempt}
    → Finds intent db p f
    → process_payment_intent now intent db ≡ (ok tt, db')
    → process_payment_intent later intent db' ≡ (ok tt, db')
unfolding set_if_changed
repeat_unchanged now later intent db {db'} {p} {f} h e =
    let next = map_payment_intent_state intent p now in
    let (dto, applied) = process_applies now intent db h e in
    elim (apply_payment_intent_state-Synced now (with_attempts db p) f intent no_context db
      applied) [
        | inl (same_p, same_a, same_db) ↦
            let (still_p, still_a) = unchanged_stays intent p f now later same_p same_a in
            rw same_db (process_unchanged later intent db h still_p still_a)
        | inr synced ↦
            process_unchanged later intent db'
              (Finds-again (set_intent_state next) (set_if_changed next f)
                (set_if_changed-KeepsKeys next f) intent db db' h synced.payments
                (synced.attempts ∙ synced_attempts next f db.attempts))
              (written_is_unchanged intent p now later) (attempt_is_unchanged intent p f now later)
      ]

-- What an intent's state has brought about stays as it is: when the same intent is processed
-- again, at any later time, the call succeeds and changes nothing in the database, not even the
-- audit log.
pub process_payment_intent_idempotent :
    (now later : Instant) (intent : PaymentIntent) (db : Db) {db' : Db}
    → process_payment_intent now intent db ≡ (ok tt, db')
    → process_payment_intent later intent db' ≡ (ok tt, db')
unfolding process_payment_intent get_payment_by_id
process_payment_intent_idempotent now later intent db {db'} e =
    elim (Option-cases (find (attempt_of_intent intent) db.attempts)) [
      | inl no_attempt ↦ let same : db ≡ db' = ground arith in rw (← same) (ground arith)
      | inr (a, attempt) ↦ elim (Option-cases (find (has_payment_id a.payment_id) db.payments)) [
        | inl no_payment ↦ absurd (ground arith)
        | inr (p, payment) ↦
            elim (Option-cases (attempt_or_first a.id (filter (is_attempt_of p.id) db.attempts))) [
              | inl no_fresh ↦ let same : db ≡ db' = ground arith in rw (← same) (ground arith)
              | inr (f, fresh) ↦
                  repeat_unchanged now later intent db
                    (record {
                      listed = a;
                      found_attempt = attempt;
                      found_payment = payment;
                      found_fresh = fresh;
                    })
                    e
            ]
      ]
    ]
