-- ===== src/Base/Lists.antt =====
-- Lists measured by native numbers, membership tests, and predicates on every entry.
use Prim.Native.Nat.{ℕ, zero, suc, ◌+◌, ◌-◌, ◌≤◌}
use mathlib.Core.Path.{◌≡◌, refl, ap, subst}
use mathlib.Core.Bool.{Bool, true, false, ◌&&◌, ◌||◌}
use mathlib.Core.Option.{Option, none, some}
use mathlib.Core.List.{List, [], ◌∷◌, ◌++◌}
use native.Mathlib.Omega.{arith}

module _ {ℓ} {A : Type ℓ} where
  abbrev pub length : List A → ℕ
  length [] = 0
  length (x ∷ xs) = suc (length xs)

  -- `xs.some(p)` and `xs.every(p)`
  abbrev pub any : (A → Bool) → List A → Bool
  any p [] = false
  any p (x ∷ xs) = p x || any p xs

  abbrev pub all : (A → Bool) → List A → Bool
  all p [] = true
  all p (x ∷ xs) = p x && all p xs

  abbrev pub take : ℕ → List A → List A
  take zero xs = []
  take (suc n) [] = []
  take (suc n) (x ∷ xs) = x ∷ take n xs

  abbrev pub drop : ℕ → List A → List A
  drop zero xs = xs
  drop (suc n) [] = []
  drop (suc n) (x ∷ xs) = drop n xs

  -- `xs.slice(start, start + limit)`
  abbrev pub slice : ℕ → ℕ → List A → List A
  slice start limit xs = take limit (drop start xs)

  -- `xs[xs.length - 1]`
  abbrev pub last : List A → Option A
  last [] = none
  last (x ∷ []) = some x
  last (x ∷ y ∷ ys) = last (y ∷ ys)

  take-drop : (n : ℕ) (xs : List A) → take n xs ++ drop n xs ≡ xs
  take-drop zero xs = refl
  take-drop (suc n) [] = refl
  take-drop (suc n) (x ∷ xs) = ap (λ rest. x ∷ rest) (take-drop n xs)

  pub drop_end : (i : ℕ) (xs : List A) → length xs ≤ i → drop i xs ≡ []
  drop_end zero [] h = refl
  drop_end zero (x ∷ xs) h = absurd (omega arith)
  drop_end (suc i) [] h = refl
  drop_end (suc i) (x ∷ xs) h = drop_end i xs (omega arith)

  drop_nil : (i : ℕ) → drop i [] ≡ []
  drop_nil zero = refl
  drop_nil (suc i) = refl

  pub drop_add : (i n : ℕ) (xs : List A) → drop (i + n) xs ≡ drop n (drop i xs)
  drop_add zero n xs = let e : 0 + n ≡ n = omega arith in rw e refl
  drop_add (suc i) n [] = rw (drop_nil (suc i + n), drop_nil n) refl
  drop_add (suc i) n (x ∷ xs) =
      let e : suc i + n ≡ suc (i + n) = omega arith in rw e (drop_add i n xs)

  pub slice-drop : (i n : ℕ) (xs : List A) → slice i n xs ++ drop (i + n) xs ≡ drop i xs
  slice-drop i n xs = rw (drop_add i n xs) (take-drop n (drop i xs))

  pub length-drop : (i : ℕ) (xs : List A) → length (drop i xs) ≡ length xs - i
  length-drop zero xs = omega arith
  length-drop (suc i) [] = omega arith
  length-drop (suc i) (x ∷ xs) = omega (arith, length-drop i xs)

  pub length-append : (xs ys : List A) → length (xs ++ ys) ≡ length xs + length ys
  length-append [] ys = omega arith
  length-append (x ∷ xs) ys = omega (arith, length-append xs ys)

-- The property `P` of every entry.
abbrev pub All {ℓ κ} : {A : Type ℓ} → (A → Type κ) → List A → Type κ
All P [] = Unit
All P (x ∷ xs) = P x × All P xs

module _ {ℓ κ} {A : Type ℓ} (P : A → Type κ) where
  pub All-append : (xs ys : List A) → All P xs → All P ys → All P (xs ++ ys)
  All-append [] ys h k = k
  All-append (x ∷ xs) ys (p, h) k = (p, All-append xs ys h k)

module _ {ℓ κ μ} {A : Type ℓ} (P : A → Type κ) (Q : A → Type μ) (step : (a : A) → P a → Q a) where
  pub All-mono : (xs : List A) → All P xs → All Q xs
  All-mono [] h = tt
  All-mono (x ∷ xs) (p, h) = (step x p, All-mono xs h)

module _ {ℓ} {A : Type ℓ} where
  pub length-take : (n : ℕ) (xs : List A) → length (take n xs) + (length xs - n) ≡ length xs
  length-take zero xs = omega arith
  length-take (suc n) [] = omega arith
  length-take (suc n) (x ∷ xs) = omega (arith, length-take n xs)

  pub last_none : (xs : List A) → last xs ≡ none → xs ≡ []
  last_none [] e = refl
  last_none (x ∷ []) e = cc
  last_none (x ∷ y ∷ ys) e = let h = last_none (y ∷ ys) e in cc

  -- What the length of a slice says of where it ends.
  pub length-slice :
      (i n : ℕ) (xs : List A) → length (slice i n xs) + (length xs - (i + n)) ≡ length xs - i
  length-slice i n xs = omega (arith, length-take n (drop i xs), length-drop i xs)

  pub last-cons : (x y : A) (ys : List A) → last ys ≡ some y → last (x ∷ ys) ≡ some y
  last-cons x y [] e = cc
  last-cons x y (z ∷ ys) e = e

  -- The last entry of a slice is the last entry up to there.
  pub last-slice :
      (i n : ℕ) (xs : List A) (x : A)
      → last (slice i n xs) ≡ some x
      → last (take (i + n) xs) ≡ some x
  last-slice zero n xs x e = let z : 0 + n ≡ n = omega arith in rw z e
  last-slice (suc i) zero [] x e = cc
  last-slice (suc i) (suc n) [] x e = cc
  last-slice (suc i) n (y ∷ xs) x e =
      let z : suc i + n ≡ suc (i + n) = omega arith in
      rw z (last-cons y x (take (i + n) xs) (last-slice i n xs x e))

module _ {ℓ κ} {A : Type ℓ} (P : A → Type κ) where
  pub All-take : (n : ℕ) (xs : List A) → All P xs → All P (take n xs)
  All-take zero xs h = tt
  All-take (suc n) [] h = tt
  All-take (suc n) (x ∷ xs) (p, h) = (p, All-take n xs h)

  pub All-last : (xs : List A) (x : A) → All P xs → last xs ≡ some x → P x
  All-last [] x h e = cc
  All-last (y ∷ []) x (p, h) e = let same : y ≡ x = cc in subst P same p
  All-last (y ∷ z ∷ xs) x (p, h) e = All-last (z ∷ xs) x h e
