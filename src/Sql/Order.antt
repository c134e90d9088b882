-- ===== src/Sql/Order.antt =====
-- `ORDER BY … LIMIT 1`: no row stands before the first one of the sorted rows.
use miden_usdcx.Prelude.{
  ◌≡◌, inl, inr, Bool, true, false, List, [], ◌∷◌, All, Bool-cases, subst, sym, refl,
}
use miden_usdcx.Sql.{select, insert_by, order_by}

module _ {A : Type 0} (before : A → A → Bool) where
  -- No row of the list stands before this one.
  abbrev pub IsLeast : A → List A → Type 0
  IsLeast x rs = All (λ r. before r x ≡ false) rs

  -- The first row of a sorted list is least among the rows it was sorted from.
  abbrev pub LeadsFrom : List A → List A → Type 0
  LeadsFrom [] rs = rs ≡ []
  LeadsFrom (x ∷ xs) rs = IsLeast x rs

  pub insert_by-All :
      (P : A → Type 0) (r : A) (rs : List A) → P r → All P rs → All P (insert_by before r rs)
  unfolding insert_by
  insert_by-All P r [] p a = (p, tt)
  insert_by-All P r (x ∷ xs) p a = elim (Bool-cases (before x r)) [
    | inl e ↦ rw e (a.0, insert_by-All P r xs p a.1)
    | inr e ↦ rw e (p, a)
  ]

  pub order_by-All : (P : A → Type 0) (rs : List A) → All P rs → All P (order_by before rs)
  unfolding order_by
  order_by-All P [] a = tt
  order_by-All P (r ∷ rs) a = insert_by-All P r (order_by before rs) a.0 (order_by-All P rs a.1)

pub select-All : {A : Type 0} (p : A → Bool) (rs : List A) → All (λ r. p r ≡ true) (select p rs)
unfolding select
select-All p [] = tt
select-All p (r ∷ rs) = elim (Bool-cases (p r)) [
  | inl e ↦ rw e (e, select-All p rs)
  | inr e ↦ rw e (select-All p rs)
]

module _ {A : Type 0} (before : A → A → Bool)
    (asymmetric : (a b : A) → before a b ≡ true → before b a ≡ false)
    (not_after : (a b c : A) → before b c ≡ false → before a b ≡ false → before a c ≡ false) where
  weaken : (x y : A) (rs : List A) → before y x ≡ false → IsLeast before y rs → IsLeast before x rs
  weaken x y [] h a = tt
  weaken x y (r ∷ rs) h a = (not_after r y x h a.0, weaken x y rs h a.1)

  itself : (a : A) → before a a ≡ false
  itself a = elim (Bool-cases (before a a)) [ inl e ↦ asymmetric a a e | inr e ↦ e ]

  insert_LeadsFrom :
      (r : A) (sorted rs : List A)
      → LeadsFrom before sorted rs
      → LeadsFrom before (insert_by before r sorted) (r ∷ rs)
  unfolding insert_by
  insert_LeadsFrom r [] rs h = (itself r, subst (IsLeast before r) (sym h) tt)
  insert_LeadsFrom r (x ∷ xs) rs h = elim (Bool-cases (before x r)) [
    | inl e ↦ rw e (asymmetric x r e, h)
    | inr e ↦ rw e (itself r, weaken r x rs e h)
  ]

  pub order_by-LeadsFrom : (rs : List A) → LeadsFrom before (order_by before rs) rs
  unfolding order_by
  order_by-LeadsFrom [] = refl
  order_by-LeadsFrom (r ∷ rs) = insert_LeadsFrom r (order_by before rs) rs (order_by-LeadsFrom rs)
