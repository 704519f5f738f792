-- ===== src/Base/Atomic.antt =====
-- What a transaction promises: a call that fails has changed nothing; and how a chain of calls runs.
use mathlib.Core.Path.{◌≡◌, refl, sym, ◌∙◌, ap}
use mathlib.Core.Bool.{Bool, true, false}
use mathlib.Core.Option.{Option, none, some}
use native.Mathlib.Omega.{arith}
use ledger_light_admin.Base.Results.{Error, Result, ok, err}
use ledger_light_admin.Base.Actions.{
  Action, pure, throw, or_throw, throw_if, ◌>>=◌, transaction, rolled_back,
}

module _ {S A : Type 0} where
  rolled_back_err :
      (db : S) (e : Error) (r : Result A × S)
      → (rolled_back db r).0 ≡ err e
      → (rolled_back db r).1 ≡ db
  rolled_back_err db e (ok a, db') h = absurd (ground arith)
  rolled_back_err db e (err x, db') h = ground arith

  pub transaction_err :
      (m : Action S A) (db : S) (e : Error)
      → (transaction m db).0 ≡ err e
      → (transaction m db).1 ≡ db
  transaction_err m db e h = rolled_back_err db e (m db) h

  pub pure_ok : (a b : A) (db db' : S) → pure a db ≡ (ok b, db') → (b ≡ a) × (db' ≡ db)
  pure_ok a b db db' e = ground arith

  pub or_throw_ok :
      (o : Option A) (x : Error) (a : A) (db db' : S)
      → or_throw o x db ≡ (ok a, db')
      → (o ≡ some a) × (db' ≡ db)
  or_throw_ok none x a db db' e = absurd (ground arith)
  or_throw_ok (some b) x a db db' e = ground arith

  -- What holds after a transaction: it holds where nothing is written, and after a body that
  -- succeeds.
  pub transaction_post :
      (P : S → Type 0) (m : Action S A) (db : S)
      → P db
      → ((a : A) (db' : S) → m db ≡ (ok a, db') → P db')
      → P (transaction m db).1
  transaction_post P m db before after = split (m db) refl
    where
      split : (r : Result A × S) → m db ≡ r → P (rolled_back db r).1
      split (ok a, d) e = after a d e
      split (err x, d) e = before

  -- What succeeds in a transaction has succeeded in its body.
  rolled_back_ok :
      (db : S) (r : Result A × S) (a : A) (db' : S)
      → rolled_back db r ≡ (ok a, db')
      → r ≡ (ok a, db')
  rolled_back_ok db (ok x, d) a db' h = h
  rolled_back_ok db (err x, d) a db' h = absurd (ground arith)

  pub transaction_ok :
      (m : Action S A) (db : S) {a : A} {db' : S}
      → transaction m db ≡ (ok a, db')
      → m db ≡ (ok a, db')
  transaction_ok m db {a} {db'} h = rolled_back_ok db (m db) a db' h

module _ {S : Type 0} where
  pub throw_if_ok :
      (b : Bool) (x : Error) (db db' : S)
      → throw_if b x db ≡ (ok tt, db')
      → (b ≡ false) × (db' ≡ db)
  throw_if_ok true x db db' e = absurd (ground arith)
  throw_if_ok false x db db' e = ground arith

-- A chain of two calls runs the first and then the second, and succeeds only where both do.
module _ {S A B : Type 0} where
  bound : (A → Action S B) → Result A × S → Result B × S
  bound f (ok a, db) = f a db
  bound f (err e, db) = (err e, db)

  bind_is : (m : Action S A) (f : A → Action S B) (db : S) → (m >>= f) db ≡ bound f (m db)
  unfolding bound
  bind_is m f db = is (m db)
    where
      is :
          (r : Result A × S)
          → (let (x, d) = r in elim x as (λ _. Result B × S) [ ok a ↦ f a d | err e ↦ throw e d ])
            ≡ bound f r
      is (ok a, d) = refl
      is (err e, d) = refl

  pub bind_ok :
      (m : Action S A) (f : A → Action S B) (db : S) {a : A} {db' : S}
      → m db ≡ (ok a, db')
      → (m >>= f) db ≡ f a db'
  unfolding bound
  bind_ok m f db h = bind_is m f db ∙ ap (bound f) h

  pub bind_succeeds :
      (m : Action S A) (f : A → Action S B) (db : S) {b : B} {db'' : S}
      → (m >>= f) db ≡ (ok b, db'')
      → (a : A) × (db' : S) × (m db ≡ (ok a, db')) × (f a db' ≡ (ok b, db''))
  unfolding bound
  bind_succeeds m f db {b} {db''} h = split (m db) refl (sym (bind_is m f db) ∙ h)
    where
      split :
          (r : Result A × S)
          → m db ≡ r
          → bound f r ≡ (ok b, db'')
          → (a : A) × (db' : S) × (m db ≡ (ok a, db')) × (f a db' ≡ (ok b, db''))
      split (ok a, d) e q = (a, d, e, q)
      split (err x, d) e q = absurd (ground arith)

  -- A call whose first part only reads leaves the state alone on failure, when the rest does.
  pub bind_unchanged :
      (m : Action S A) (f : A → Action S B) (db : S)
      → (m db).1 ≡ db
      → ((a : A) (e : Error) → (f a db).0 ≡ err e → (f a db).1 ≡ db)
      → (e : Error) → ((m >>= f) db).0 ≡ err e
      → ((m >>= f) db).1 ≡ db
  unfolding bound
  bind_unchanged m f db reads rest e h =
      rw (bind_is m f db) (split (m db) reads (rw (bind_is m f db) at h))
    where
      split : (r : Result A × S) → r.1 ≡ db → (bound f r).0 ≡ err e → (bound f r).1 ≡ db
      split (ok a, d) same h = rw same (rest a e (rw same at h))
      split (err x, d) same h = same

  -- What holds after a chain of calls: it holds where the first one fails, and after the second one
  -- where the first succeeds.
  pub bind_post :
      (P : S → Type 0) (m : Action S A) (f : A → Action S B) (db : S)
      → ((e : Error) (db' : S) → m db ≡ (err e, db') → P db')
      → ((a : A) (db' : S) → m db ≡ (ok a, db') → P (f a db').1)
      → P ((m >>= f) db).1
  unfolding bound
  bind_post P m f db failed went = rw (bind_is m f db) (split (m db) refl)
    where
      split : (r : Result A × S) → m db ≡ r → P (bound f r).1
      split (ok a, d) e = went a d e
      split (err x, d) e = failed x d e

  -- The same, where the first call only reads.
  pub read_post :
      (P : S → Type 0) (m : Action S A) (f : A → Action S B) (db : S)
      → (m db).1 ≡ db
      → P db
      → ((a : A) → m db ≡ (ok a, db) → P (f a db).1)
      → P ((m >>= f) db).1
  read_post P m f db reads before after =
      bind_post P m f db (λ x db' e. let same : db' ≡ db = here x db' e in rw same before)
        (λ a db' e. let same : db' ≡ db = there a db' e in rw same (after a (rw same at e)))
    where
      here : (x : Error) (db' : S) → m db ≡ (err x, db') → db' ≡ db
      here x db' e = rw e at reads

      there : (a : A) (db' : S) → m db ≡ (ok a, db') → db' ≡ db
      there a db' e = rw e at reads

  -- A transaction, and a reply that only reads.
  pub commit_post :
      (P : S → Type 0) (m : Action S A) (f : A → Action S B) (db : S)
      → P db
      → ((a : A) (db' : S) → m db ≡ (ok a, db') → P db')
      → ((a : A) (db' : S) → (f a db').1 ≡ db')
      → P ((transaction m >>= f) db).1
  commit_post P m f db before after reads =
      bind_post P (transaction m) f db (λ x db' e. rw e at holds)
        (λ a db' e. let h : P db' = rw e at holds in rw (reads a db') h)
    where
      holds : P (transaction m db).1
      holds = transaction_post P m db before after
