-- ===== src/Base/Results.antt =====
-- Results of fallible code: the exceptions of @nestjs/common that the services throw, and the two
-- errors of the Prisma client that reach them. A key of a row is only compared, so it is a number;
-- an instant is the number of milliseconds since the epoch.
use Prim.Native.Nat.{ℕ}
use Prim.Native.String.{String}
use mathlib.Core.Path.{◌≡◌, refl}
use mathlib.Core.Logic.{◌⊎◌, inl, inr}

abbrev pub Uuid : Type 0
Uuid = ℕ

abbrev pub Instant : Type 0
Instant = ℕ

pub data Error : Type 0 where
  bad_request forbidden not_found conflict unauthorized : String → Error
  -- Prisma's P2025, P2002 and P2003
  record_not_found unique_violation foreign_key_violation : Error
  -- What a call of the Stripe client throws.
  stripe_failure : String → Error

pub data Result {ℓ} (A : Type ℓ) : Type ℓ where
  ok : A → Result A
  err : Error → Result A

abbrev pub ⊤ : Type 0
⊤ = Unit

pub Result-cases {ℓ} :
    {A : Type ℓ} (r : Result A) → ((a : A) × (r ≡ ok a)) ⊎ ((e : Error) × (r ≡ err e))
Result-cases (ok a) = inl (a, refl)
Result-cases (err e) = inr (e, refl)
