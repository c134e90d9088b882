-- ===== src/Sql/Ascending.antt =====
-- `ORDER BY` a key that no two rows share, and `WHERE key > ?` on the sorted rows.
use miden_usdcx.Prelude.{
  ℕ, ◌≡◌, ◌≢◌, refl, inl, inr, Bool, List, [], ◌∷◌, ◌++◌, arith, All, ltb, ◌<◌, if◌then◌else◌,
  Bool-cases,
}
use miden_usdcx.Sql.{select, insert_by, order_by}
use miden_usdcx.Sql.Order.{insert_by-All, order_by-All}
use miden_usdcx.Sql.Apart.{Apart, select-All_kept}

module _ {A : Type 0} (key : A → ℕ) where
  abbrev pub by_key : A → A → Bool
  by_key a b = ltb (key a) (key b)

  -- Strictly ascending.
  abbrev pub Ascending : List A → Type 0
  Ascending [] = Unit {0}
  Ascending (x ∷ xs) = All (λ y. key x < key y) xs × Ascending xs

  All-below :
      (r x : A) (xs : List A)
      → key r < key x
      → All (λ y. key x < key y) xs
      → All (λ y. key r < key y) xs
  All-below r x [] h a = tt
  All-below r x (y ∷ xs) h a = (omega arith, All-below r x xs h a.1)

  insert_by-Ascending :
      (r : A) (xs : List A)
      → All (λ x. key x ≢ key r) xs
      → Ascending xs
      → Ascending (insert_by by_key r xs)
  unfolding insert_by
  insert_by-Ascending r [] d a = (tt, tt)
  insert_by-Ascending r (x ∷ xs) d a = elim (Bool-cases (by_key x r)) [
    | inl e ↦ rw e (
      insert_by-All by_key (λ y. key x < key y) r xs (ground arith) a.0,
      insert_by-Ascending r xs d.1 a.1,
    )
    | inr e ↦ let h : key r < key x = ground (arith, d.0) in rw e ((h, All-below r x xs h a.0), a)
  ]

  pub order_by-Ascending : (rows : List A) → Apart key rows → Ascending (order_by by_key rows)
  unfolding order_by
  order_by-Ascending [] a = tt
  order_by-Ascending (r ∷ rows) a =
      insert_by-Ascending r (order_by by_key rows)
        (order_by-All by_key (λ x. key x ≢ key r) rows a.0) (order_by-Ascending rows a.1)

  -- A row that stands before every row of a list is inserted at its front.
  insert_by_front :
      (r : A) (xs : List A) → All (λ x. key r < key x) xs → insert_by by_key r xs ≡ r ∷ xs
  unfolding insert_by
  insert_by_front r [] a = refl
  insert_by_front r (x ∷ xs) a = ground arith

  select-insert_by :
      (p : A → Bool) (r : A) (xs : List A)
      → All (λ x. key x ≢ key r) xs
      → Ascending xs
      → select p (insert_by by_key r xs)
        ≡ (if p r then insert_by by_key r (select p xs) else select p xs)
  unfolding select insert_by
  select-insert_by p r [] d a = refl
  select-insert_by p r (x ∷ xs) d a = elim (Bool-cases (by_key x r)) [
    | inl e ↦ ground (arith, select-insert_by p r xs d.1 a.1)
    | inr e ↦
        let h : key r < key x = ground (arith, d.0) in
        ground (
          arith,
          insert_by_front r (select p xs)
              (select-All_kept key (λ y. key r < key y) p xs (All-below r x xs h a.0)),
        )
  ]

  -- Selecting before sorting and after it is the same.
  pub order_by-select :
      (p : A → Bool) (rows : List A)
      → Apart key rows
      → order_by by_key (select p rows) ≡ select p (order_by by_key rows)
  unfolding select order_by
  order_by-select p [] a = refl
  order_by-select p (r ∷ rows) a = ground (
    arith,
    order_by-select p rows a.1,
    select-insert_by p r (order_by by_key rows) (order_by-All by_key (λ x. key x ≢ key r) rows a.0)
        (order_by-Ascending rows a.1),
  )

  abbrev pub is_above : ℕ → A → Bool
  is_above k x = ltb k (key x)

  select_above : (k : ℕ) (xs : List A) → All (λ y. k < key y) xs → select (is_above k) xs ≡ xs
  unfolding select
  select_above k [] a = refl
  select_above k (x ∷ xs) a = ground (arith, select_above k xs a.1)

  above_later :
      (x y : A) (before later : List A)
      → All (λ z. key x < key z) (before ++ y ∷ later)
      → key x < key y
  above_later x y [] later a = a.0
  above_later x y (z ∷ before) later a = above_later x y before later a.1

  -- What comes after a row of sorted rows is what is above its key.
  pub select_after :
      (before : List A) (x : A) (later : List A)
      → Ascending (before ++ x ∷ later)
      → select (is_above (key x)) (before ++ x ∷ later) ≡ later
  unfolding select
  select_after [] x later a = ground (arith, select_above (key x) later a.0)
  select_after (y ∷ before) x later a =
      ground (arith, above_later y x before later a.0, select_after before x later a.1)
