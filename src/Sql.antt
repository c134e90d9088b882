-- ===== src/Sql.antt =====
-- The SQL of crates/xusdc-light-attester/src/store.rs as functions on a table, a list of rows with a
-- key column: one function for each form of statement that the store uses.
pub mod Laws
pub mod Order
pub mod Apart
pub mod Ascending
use miden_usdcx.Prelude.{
  ℕ, suc, ◌+◌, not, Bool, true, false, ◌&&◌, Option, none, some, List, [], ◌∷◌, ◌++◌, if◌then◌else◌,
  ◌==◌, length,
}

-- No further condition.
abbrev pub anything : {A : Type 0} → A → Bool
anything _ = true

module _ {A : Type 0} (key : A → ℕ) where
  -- The first row under a key.
  unfoldable pub find : ℕ → List A → Option A
  find k [] = none
  find k (r ∷ rs) = if key r == k then some r else find k rs

  -- `UPDATE … WHERE key = k AND cond`.
  unfoldable pub update : ℕ → (A → Bool) → (A → A) → List A → List A
  update k cond f [] = []
  update k cond f (r ∷ rs) = (if key r == k && cond r then f r else r) ∷ update k cond f rs

  -- `DELETE … WHERE key = k AND cond`.
  unfoldable pub delete : ℕ → (A → Bool) → List A → List A
  delete k cond [] = []
  delete k cond (r ∷ rs) =
      let rest = delete k cond rs in if key r == k && cond r then rest else r ∷ rest

  -- The number of rows that such a statement changes, which `execute` returns.
  unfoldable pub changed : ℕ → (A → Bool) → List A → ℕ
  changed k cond [] = 0
  changed k cond (r ∷ rs) =
      let rest = changed k cond rs in if key r == k && cond r then suc rest else rest

-- `SELECT … WHERE p`.
unfoldable pub select : {A : Type 0} → (A → Bool) → List A → List A
select p [] = []
select p (r ∷ rs) = let rest = select p rs in if p r then r ∷ rest else rest

-- `SELECT COUNT(*) … WHERE p`.
unfoldable pub count : {A : Type 0} → (A → Bool) → List A → ℕ
count p [] = 0
count p (r ∷ rs) = let rest = count p rs in if p r then suc rest else rest

-- `ORDER BY`: an insertion sort, which keeps rows that compare equal in their order.
unfoldable pub insert_by : {A : Type 0} → (A → A → Bool) → A → List A → List A
insert_by before r [] = r ∷ []
insert_by before r (x ∷ xs) =
    let rest = insert_by before r xs in if before x r then x ∷ rest else r ∷ x ∷ xs

unfoldable pub order_by : {A : Type 0} → (A → A → Bool) → List A → List A
order_by before [] = []
order_by before (r ∷ rs) = insert_by before r (order_by before rs)

-- `SELECT EXISTS (SELECT 1 … WHERE key = k AND cond)`.
unfoldable pub exists : {A : Type 0} → (A → ℕ) → ℕ → (A → Bool) → List A → Bool
unfolding changed
exists key k cond rs = not (changed key k cond rs == 0)
