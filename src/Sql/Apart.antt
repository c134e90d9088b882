-- ===== src/Sql/Apart.antt =====
-- Rows with different keys, through a query: what an `ORDER BY` and a `WHERE` return of a table with
-- a key has no two rows with the same one.
use miden_usdcx.Prelude.{
  ℕ, ◌≡◌, ◌≢◌, inl, inr, sym, Bool, none, List, [], ◌∷◌, arith, All, Bool-cases, ◌==◌,
}
use miden_usdcx.Sql.{find, select, insert_by, order_by}
use miden_usdcx.Sql.Laws.{Unique}
use miden_usdcx.Sql.Order.{order_by-All, insert_by-All}

module _ {A : Type 0} (key : A → ℕ) where
  -- No element has this key.
  abbrev pub Without : ℕ → List A → Type 0
  Without k rs = All (λ r. key r ≢ k) rs

  abbrev pub Apart : List A → Type 0
  Apart [] = Unit
  Apart (r ∷ rs) = Without (key r) rs × Apart rs

  Without-find : (k : ℕ) (rs : List A) → find key k rs ≡ none → Without k rs
  unfolding find
  Without-find k [] h = tt
  Without-find k (r ∷ rs) h = elim (Bool-cases (key r == k)) [
    | inl e ↦ absurd (ground arith)
    | inr e ↦ (λ p. ground arith, Without-find k rs (ground arith))
  ]

  pub Unique-Apart : (rs : List A) → Unique key rs → Apart rs
  Unique-Apart [] u = tt
  Unique-Apart (r ∷ rs) u = (Without-find (key r) rs u.0, Unique-Apart rs u.1)

  pub select-All_kept :
      (P : A → Type 0) (p : A → Bool) (rs : List A) → All P rs → All P (select p rs)
  unfolding select
  select-All_kept P p [] a = tt
  select-All_kept P p (r ∷ rs) a = elim (Bool-cases (p r)) [
    | inl e ↦ rw e (a.0, select-All_kept P p rs a.1)
    | inr e ↦ rw e (select-All_kept P p rs a.1)
  ]

  pub select-Apart : (p : A → Bool) (rs : List A) → Apart rs → Apart (select p rs)
  unfolding select
  select-Apart p [] a = tt
  select-Apart p (r ∷ rs) a = elim (Bool-cases (p r)) [
    | inl e ↦ rw e (select-All_kept (λ x. key x ≢ key r) p rs a.0, select-Apart p rs a.1)
    | inr e ↦ rw e (select-Apart p rs a.1)
  ]

  flip : (k : ℕ) (x : A) → key x ≢ k → k ≢ key x
  flip k x h p = h (sym p)

  insert_by-Apart :
      (before : A → A → Bool) (r : A) (rs : List A)
      → Without (key r) rs
      → Apart rs
      → Apart (insert_by before r rs)
  unfolding insert_by
  insert_by-Apart before r [] new a = (tt, tt)
  insert_by-Apart before r (x ∷ xs) new a = elim (Bool-cases (before x r)) [
    | inl e ↦ rw e (
      insert_by-All before (λ y. key y ≢ key x) r xs (flip (key r) x new.0) a.0,
      insert_by-Apart before r xs new.1 a.1,
    )
    | inr e ↦ rw e (new, a)
  ]

  pub order_by-Apart : (before : A → A → Bool) (rs : List A) → Apart rs → Apart (order_by before rs)
  unfolding order_by
  order_by-Apart before [] a = tt
  order_by-Apart before (r ∷ rs) a =
      insert_by-Apart before r (order_by before rs)
        (order_by-All before (λ x. key x ≢ key r) rs a.0) (order_by-Apart before rs a.1)
