-- ===== src/Base/Actions.antt =====
-- Calls that read and write a state of their own and may throw, such as those on a database.
use ledger_light_admin.Base.Results.{Error, Result, ok, err, ⊤}
use ledger_light_admin.Base.Tests.{if◌then◌else◌}
use mathlib.Core.Bool.{Bool}
use mathlib.Core.Option.{Option, none, some}

-- A call on the state `S`.
abbrev pub Action : Type 0 → Type 0 → Type 0
Action S A = S → Result A × S

module _ {S A : Type 0} where
  abbrev pub pure : A → Action S A
  pure a db = (ok a, db)

  abbrev pub throw : Error → Action S A
  throw e db = (err e, db)

  abbrev pub gets : (S → A) → Action S A
  gets f db = (ok (f db), db)

  -- `throw` where a read found nothing.
  abbrev pub or_throw : Option A → Error → Action S A
  or_throw none e = throw e
  or_throw (some a) e = pure a

  abbrev pub lift : Result A → Action S A
  lift r db = (r, db)

infixl 5 ◌>>=◌ ◌>>◌
abbrev pub ◌>>=◌ : {S A B : Type 0} → Action S A → (A → Action S B) → Action S B
◌>>=◌ m f db = let (r, db') = m db in elim r [ ok a ↦ f a db' | err e ↦ throw e db' ]

abbrev pub ◌>>◌ : {S A B : Type 0} → Action S A → Action S B → Action S B
m >> k = m >>= λ _. k

abbrev pub throw_if : {S : Type 0} → Bool → Error → Action S ⊤
throw_if b e = if b then throw e else pure tt

abbrev pub write : {S : Type 0} → (S → S) → Action S ⊤
write f db = (ok tt, f db)

-- `$transaction`: what it wrote is taken back when it throws.
abbrev pub rolled_back : {S A : Type 0} → S → Result A × S → Result A × S
rolled_back db (ok a, db') = (ok a, db')
rolled_back db (err e, db') = (err e, db)

abbrev pub transaction : {S A : Type 0} → Action S A → Action S A
transaction m db = rolled_back db (m db)
