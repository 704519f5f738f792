-- ===== src/Paging/Sorted.antt =====
-- Lists of rows in a strict order: what comes after the last row of a part is the rest.
use ledger_light_admin.Base.{
  ℕ, zero, suc, Bool, true, false, some, List, [], ◌∷◌, take, drop, last, All, All-take, All-last,
  filter, filter-All, ◌≡◌, arith, refl,
}

-- `after x y`: the row `y` comes after the row `x`.
module _ {A : Type 0} (after : A → A → Bool) where
  unfoldable pub InOrder : List A → Type 0
  InOrder [] = Unit
  InOrder (x ∷ xs) =
      (after x x ≡ false)
      × All (λ y. after x y ≡ true) xs
      × All (λ y. after y x ≡ false) xs
      × InOrder xs

  filter_first :
      (p : A → Bool) (x : A) (xs : List A) → p x ≡ false → filter p (x ∷ xs) ≡ filter p xs
  unfolding filter
  filter_first p x xs e = rw e refl

  pub filter_after :
      (i : ℕ) (rows : List A) (r : A)
      → InOrder rows
      → last (take i rows) ≡ some r
      → filter (after r) rows ≡ drop i rows
  unfolding InOrder
  filter_after zero rows r ord e = cc
  filter_after (suc i) [] r ord e = cc
  filter_after (suc zero) (x ∷ xs) r (irr, later, before, ord) e =
      let same : x ≡ r = ground arith in
      rw (← same, filter_first (after x) x xs irr) (filter-All (after x) xs later)
  filter_after (suc (suc i)) (x ∷ []) r (irr, later, before, ord) e =
      let same : x ≡ r = ground arith in
      rw (← same, filter_first (after x) x [] irr) (filter-All (after x) [] tt)
  filter_after (suc (suc i)) (x ∷ y ∷ ys) r (irr, later, before, ord) e =
      let past =
        All-last (λ y. after y x ≡ false) (take (suc i) (y ∷ ys)) r
          (All-take (λ y. after y x ≡ false) (suc i) (y ∷ ys) before) e in
      rw (filter_first (after r) x (y ∷ ys) past) (filter_after (suc i) (y ∷ ys) r ord e)
