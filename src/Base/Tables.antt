-- ===== src/Base/Tables.antt =====
-- A table of the database is a list of rows. These are the reads and writes that the queries of
-- the services come to, over any type of row, and their laws.
use mathlib.Core.Path.{◌≡◌, refl}
use mathlib.Core.Logic.{◌⊎◌, inl, inr}
use mathlib.Core.Bool.{Bool, true, false, not, ◌&&◌}
use mathlib.Core.Option.{Option, none, some}
use mathlib.Core.List.{List, [], ◌∷◌}
use native.Mathlib.Omega.{arith}
use ledger_light_admin.Base.Tests.{if◌then◌else◌, Bool-cases}
use ledger_light_admin.Base.Lists.{All}

module _ {ℓ} {A : Type ℓ} where
  -- `findFirst` and `findUnique`
  unfoldable pub find : (A → Bool) → List A → Option A
  find p [] = none
  find p (x ∷ xs) = if p x then some x else find p xs

  -- `findMany`
  unfoldable pub filter : (A → Bool) → List A → List A
  filter p [] = []
  filter p (x ∷ xs) = let rest = filter p xs in if p x then x ∷ rest else rest

  -- `update` and `updateMany`
  unfoldable pub modify : (A → Bool) → (A → A) → List A → List A
  modify q f [] = []
  modify q f (x ∷ xs) = (if q x then f x else x) ∷ modify q f xs

  -- `delete` and `deleteMany`
  unfoldable pub remove : (A → Bool) → List A → List A
  unfolding filter
  remove q = filter (λ x. not (q x))

  -- The row that a write leaves in place of `x`.
  abbrev pub rewritten : (A → Bool) → (A → A) → A → A
  rewritten q f x = if q x then f x else x

  abbrev pub map_option {κ} : {B : Type κ} → (A → B) → Option A → Option B
  map_option f none = none
  map_option f (some x) = some (f x)

module _ {ℓ} {A : Type ℓ} where
  pub find_holds : (p : A → Bool) (xs : List A) (x : A) → find p xs ≡ some x → p x ≡ true
  unfolding find
  find_holds p [] x e = cc
  find_holds p (y ∷ xs) x e = ground (arith, find_holds p xs x)

  -- A read whose test a write does not change finds the rewritten row.
  pub find-modify :
      (p q : A → Bool) (f : A → A)
      → ((x : A) → p (rewritten q f x) ≡ p x)
      → (xs : List A) → find p (modify q f xs) ≡ map_option (rewritten q f) (find p xs)
  unfolding find modify
  find-modify p q f keeps [] = refl
  find-modify p q f keeps (x ∷ xs) = ground (arith, keeps x, find-modify p q f keeps xs)

  pub filter-modify :
      (p q : A → Bool) (f : A → A)
      → ((x : A) → p (rewritten q f x) ≡ p x)
      → (xs : List A) → filter p (modify q f xs) ≡ modify q f (filter p xs)
  unfolding filter modify
  filter-modify p q f keeps [] = refl
  filter-modify p q f keeps (x ∷ xs) = ground (arith, keeps x, filter-modify p q f keeps xs)

  -- A write leaves alone the rows of a read that it does not touch.
  pub filter-modify_other :
      (p q : A → Bool) (f : A → A)
      → ((x : A) → q x ≡ true → (p x ≡ false) × (p (f x) ≡ false))
      → (xs : List A) → filter p (modify q f xs) ≡ filter p xs
  unfolding filter modify
  filter-modify_other p q f apart [] = refl
  filter-modify_other p q f apart (x ∷ xs) =
      ground (arith, apart x, filter-modify_other p q f apart xs)

  pub find-remove_self : (q : A → Bool) (xs : List A) → find q (remove q xs) ≡ none
  unfolding find remove filter
  find-remove_self q [] = refl
  find-remove_self q (x ∷ xs) = ground (arith, find-remove_self q xs)

  -- A read finds nothing more after a deletion.
  pub find-remove_none :
      (p q : A → Bool) (xs : List A) → find p xs ≡ none → find p (remove q xs) ≡ none
  unfolding find remove filter
  find-remove_none p q [] e = refl
  find-remove_none p q (x ∷ xs) e = ground (arith, find-remove_none p q xs)

  pub filter-&& :
      (p q : A → Bool) (xs : List A) → filter (λ x. p x && q x) xs ≡ filter q (filter p xs)
  unfolding filter
  filter-&& p q [] = refl
  filter-&& p q (x ∷ xs) = ground (arith, filter-&& p q xs)

  pub filter_ext :
      (p q : A → Bool) → ((x : A) → p x ≡ q x) → (xs : List A) → filter p xs ≡ filter q xs
  unfolding filter
  filter_ext p q same [] = refl
  filter_ext p q same (x ∷ xs) = ground (arith, same x, filter_ext p q same xs)

  pub filter_none : (p : A → Bool) (xs : List A) → All (λ x. p x ≡ false) xs → filter p xs ≡ []
  unfolding filter
  filter_none p [] h = refl
  filter_none p (x ∷ xs) (e, h) = rw (e, filter_none p xs h) refl

  pub filter-All : (p : A → Bool) (xs : List A) → All (λ x. p x ≡ true) xs → filter p xs ≡ xs
  unfolding filter
  filter-All p [] h = refl
  filter-All p (x ∷ xs) (e, h) = rw (e, filter-All p xs h) refl

  pub filter-remove_self : (q : A → Bool) (xs : List A) → filter q (remove q xs) ≡ []
  unfolding remove filter
  filter-remove_self q [] = refl
  filter-remove_self q (x ∷ xs) = ground (arith, filter-remove_self q xs)

  -- A deletion leaves alone a read that no deleted row passes.
  pub find-remove :
      (p q : A → Bool)
      → ((x : A) → p x ≡ true → q x ≡ false)
      → (xs : List A) → find p (remove q xs) ≡ find p xs
  unfolding find remove filter
  find-remove p q apart [] = refl
  find-remove p q apart (x ∷ xs) = ground (arith, apart x, find-remove p q apart xs)

module _ {ℓ κ} {A : Type ℓ} (P : A → Type κ) where
  pub All-modify :
      (q : A → Bool) (f : A → A) (xs : List A)
      → ((x : A) → q x ≡ true → P x → P (f x))
      → All P xs
      → All P (modify q f xs)
  unfolding modify
  All-modify q f [] step h = tt
  All-modify q f (x ∷ xs) step (p, h) = (row (Bool-cases (q x)), All-modify q f xs step h)
    where
      row : (q x ≡ true) ⊎ (q x ≡ false) → P (rewritten q f x)
      row (inl e) = rw e (step x e p)
      row (inr e) = rw e p

  pub All-remove : (q : A → Bool) (xs : List A) → All P xs → All P (remove q xs)
  unfolding remove filter
  All-remove q [] h = tt
  All-remove q (x ∷ xs) (p, h) = elim (Bool-cases (q x)) [
    | inl e ↦ rw e (All-remove q xs h)
    | inr e ↦ rw e (p, All-remove q xs h)
  ]

  pub find-All : (p : A → Bool) (xs : List A) (x : A) → All P xs → find p xs ≡ some x → P x
  unfolding find
  find-All p [] x h e = cc
  find-All p (y ∷ xs) x (py, h) e = elim (Bool-cases (p y)) [
    | inl t ↦ let same : y ≡ x = ground arith in rw (← same) py
    | inr t ↦ find-All p xs x h (rw t at e)
  ]
