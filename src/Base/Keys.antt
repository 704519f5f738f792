-- ===== src/Base/Keys.antt =====
-- Tables whose rows have different keys.
use mathlib.Core.Path.{◌≡◌, refl}
use mathlib.Core.Logic.{inl, inr}
use mathlib.Core.Bool.{Bool, true, false, ◌&&◌, not}
use mathlib.Core.Option.{none, some}
use mathlib.Core.List.{List, [], ◌∷◌}
use native.Mathlib.Omega.{arith}
use ledger_light_admin.Base.Tests.{Bool-cases, both_ways, ◌==◌, ==_iff}
use ledger_light_admin.Base.Lists.{All, All-mono, any, length}
use ledger_light_admin.Base.Tables.{find, filter, filter-All, modify, remove, find-All}
use ledger_light_admin.Base.Results.{Uuid}
use Prim.Native.Nat.{suc, ◌≤◌}

module _ {ℓ} {A : Type ℓ} (key : A → Uuid) where
  -- No two rows have the same key.
  unfoldable pub UniqueBy : List A → Type 0
  UniqueBy [] = Unit
  UniqueBy (row ∷ rest) = All (λ other. (key other == key row) ≡ false) rest × UniqueBy rest

  -- Two reads that find rows with the same key find the same row.
  pub find_unique :
      (p q : A → Bool) (rows : List A) (a b : A)
      → UniqueBy rows
      → find p rows ≡ some a
      → find q rows ≡ some b
      → (key b == key a) ≡ true
      → a ≡ b
  unfolding UniqueBy find
  find_unique p q [] a b u e f same = cc
  find_unique p q (row ∷ rest) a b (apart, u) e f same = elim (Bool-cases (p row)) [
    | inl t ↦ elim (Bool-cases (q row)) [
      | inl s ↦ ground arith
      | inr s ↦
          let here : row ≡ a = ground arith in
          let there : find q rest ≡ some b = rw s at f in
          let other = find-All (λ other. (key other == key row) ≡ false) q rest b apart there in
          absurd (both_ways same (rw here at other))
    ]
    | inr t ↦
        let there : find p rest ≡ some a = rw t at e in
        elim (Bool-cases (q row)) [
          | inl s ↦
              let here : row ≡ b = ground arith in
              let other = find-All (λ other. (key other == key row) ≡ false) p rest a apart there in
              absurd (mismatch (rw here at other) same)
          | inr s ↦ find_unique p q rest a b u there (rw s at f) same
        ]
  ]
    where
      mismatch : (key a == key b) ≡ false → (key b == key a) ≡ true → ⊥
      mismatch h k = ground arith

module _ {ℓ} {A : Type ℓ} where
  pub any-filter :
      (p : A → Bool) (xs : List A) → (length (filter p xs) == 0) ≡ false → any p xs ≡ true
  unfolding filter
  any-filter p [] h = ground arith
  any-filter p (x ∷ xs) h = ground (arith, any-filter p xs)

  pub any-find : (p : A → Bool) (xs : List A) → any p xs ≡ true → (x : A) × (find p xs ≡ some x)
  unfolding find
  any-find p [] h = cc
  any-find p (x ∷ xs) h = elim (Bool-cases (p x)) [
    | inl t ↦ (x, rw t refl)
    | inr f ↦ let (y, e) = any-find p xs (rw f at h) in (y, rw f e)
  ]

  pub any_none : (q : A → Bool) (xs : List A) → any q xs ≡ false → All (λ x. q x ≡ false) xs
  any_none q [] h = tt
  any_none q (x ∷ xs) h = let rest = any_none q xs in (ground arith, rest (ground arith))

  pub any_of_filter :
      (p q : A → Bool) (xs : List A) → any p (filter q xs) ≡ any (λ x. q x && p x) xs
  unfolding filter
  any_of_filter p q [] = refl
  any_of_filter p q (x ∷ xs) = ground (arith, any_of_filter p q xs)

  pub length-filter-any :
      (p : A → Bool) (xs : List A) → (length (filter p xs) == 0) ≡ not (any p xs)
  unfolding filter
  length-filter-any p [] = refl
  length-filter-any p (x ∷ xs) = ground (arith, length-filter-any p xs)

  pub any_ext : (p q : A → Bool) → ((x : A) → p x ≡ q x) → (xs : List A) → any p xs ≡ any q xs
  any_ext p q same [] = refl
  any_ext p q same (x ∷ xs) = ground (arith, same x, any_ext p q same xs)

  pub find-any : (q : A → Bool) (xs : List A) → find q xs ≡ none → any q xs ≡ false
  unfolding find
  find-any q [] h = refl
  find-any q (x ∷ xs) h = ground (arith, find-any q xs)

  -- A row that a write does not touch is still there.
  pub any-modify_other :
      (p q : A → Bool) (f : A → A) (xs : List A)
      → any (λ x. p x && not (q x)) xs ≡ true
      → any p (modify q f xs) ≡ true
  unfolding modify
  any-modify_other p q f [] h = cc
  any-modify_other p q f (x ∷ xs) h = ground (arith, any-modify_other p q f xs)

  pub none_left :
      (p : A → Bool) (xs : List A) → (length (filter p xs) == 0) ≡ true → any p xs ≡ false
  unfolding filter
  none_left p [] h = refl
  none_left p (x ∷ xs) h = ground (arith, none_left p xs)

module _ {ℓ} {A : Type ℓ} (key : A → Uuid) (p : A → Bool) (i : Uuid) where
  -- Where no row has the key, nothing is removed.
  remove_absent :
      (xs : List A) → All (λ x. (key x == i) ≡ false) xs → remove (λ x. key x == i) xs ≡ xs
  unfolding remove
  remove_absent xs h =
      filter-All (λ x. not (key x == i)) xs
        (All-mono (λ x. (key x == i) ≡ false) (λ x. not (key x == i) ≡ true) (λ x e. rw e refl) xs
          h)

  -- Removing one key removes one row at most.
  pub length-filter-remove :
      (xs : List A)
      → UniqueBy key xs
      → length (filter p xs) ≤ suc (length (filter p (remove (λ x. key x == i) xs)))
  unfolding UniqueBy filter remove
  length-filter-remove [] u = omega arith
  length-filter-remove (x ∷ xs) (apart, u) = elim (Bool-cases (key x == i)) [
    | inl t ↦
        let same : key x ≡ i = (==_iff _ _).0 t in
        let rest : filter (λ x. not (key x == i)) xs ≡ xs = remove_absent xs (rw same at apart) in
        rw (t, rest) (ground arith)
    | inr f ↦ let rest = length-filter-remove xs u in ground arith
  ]
