-- ===== src/Store/Listing/Unfinished.antt =====
-- The unfinished work that `progress` of crates/xusdc-light-attester/src/store.rs reports.
use mathlib.Core.List.{Memᴰ}
use mathlib.Core.List.Memᴰ.{head, tail}
use miden_usdcx.Prelude.{
  ℕ, ◌≡◌, ◌≤◌, refl, subst, inl, inr, Bool, true, false, ◌⊎◌, Option, none, some, List, [], ◌∷◌,
  arith, All, min, leb, Bool-cases, Option-cases,
}
use miden_usdcx.Sql.{select, count}
use miden_usdcx.Store.{Store, BurnRow}
use miden_usdcx.Store.Listing.{is_unfinished, oldest, progress}

-- The block that consumed a burn, 0 for a burn that is not consumed.
abbrev pub consumed_block : BurnRow → ℕ
consumed_block b = elim b.consumption_block [ none ↦ 0 | some block ↦ block ]

-- A row of a table that satisfies the condition is this one, and none of them was consumed earlier.
abbrev pub LeadsIn : (BurnRow → Bool) → List BurnRow → ℕ → Type 0
LeadsIn p rows n =
    ((b : BurnRow) × Memᴰ b rows × (p b ≡ true) × (b.consumption_block ≡ some n))
    × All (λ b. n ≤ consumed_block b) (select p rows)

-- The oldest of the burns that satisfy the condition, if there is one.
abbrev pub IsOldest : (BurnRow → Bool) → List BurnRow → Option ℕ → Type 0
IsOldest p rows none = count p rows ≡ 0
IsOldest p rows (some n) = LeadsIn p rows n

le_of : (a b : ℕ) → leb a b ≡ true → a ≤ b
le_of a b h = ground arith

module _ (p : BurnRow → Bool)
    (consumed : (b : BurnRow) → p b ≡ true → (block : ℕ) × (b.consumption_block ≡ some block)) where
  lower :
      (n m : ℕ) (rows : List BurnRow)
      → n ≤ m
      → All (λ b. m ≤ consumed_block b) rows
      → All (λ b. n ≤ consumed_block b) rows
  lower n m [] h a = tt
  lower n m (b ∷ rows) h a = (omega arith, lower n m rows h a.1)

  none_selected : (rows : List BurnRow) → count p rows ≡ 0 → select p rows ≡ []
  unfolding count select
  none_selected [] h = refl
  none_selected (b ∷ rows) h = ground (arith, none_selected rows)

  skipped :
      (b : BurnRow) (rows : List BurnRow) (o : Option ℕ)
      → p b ≡ false
      → IsOldest p rows o
      → IsOldest p (b ∷ rows) o
  unfolding count select
  skipped b rows none e h = ground arith
  skipped b rows (some n) e ((x, m, f, g), a) = ((x, tail m, f, g), rw e a)

  abbrev earlier : ℕ → Option ℕ → ℕ
  earlier block none = block
  earlier block (some other) = min block other

  joined :
      (b : BurnRow) (rows : List BurnRow) (block : ℕ) (o : Option ℕ)
      → p b ≡ true
      → b.consumption_block ≡ some block
      → IsOldest p rows o
      → LeadsIn p (b ∷ rows) (earlier block o)
  unfolding select
  joined b rows block none e f h =
      ((b, head refl, e, f), rw (e, none_selected rows h) (ground arith, tt))
  joined b rows block (some n) e f ((x, m, g, k), a) = elim (Bool-cases (leb block n)) [
    | inl le ↦
        let q : min block n ≡ block = omega (arith, le_of block n le) in
        rw (q, e)
          ((b, head refl, e, f), (ground arith, lower block n (select p rows) (le_of block n le) a))
    | inr gt ↦
        let q : min block n ≡ n = ground arith in rw (q, e) ((x, tail m, g, k), (ground arith, a))
  ]

  oldest-IsOldest : (rows : List BurnRow) → IsOldest p rows (oldest (select p rows))
  unfolding oldest select count
  oldest-IsOldest [] = refl
  oldest-IsOldest (b ∷ rows) =
      let h = oldest-IsOldest rows in
      elim (Bool-cases (p b)) [
        | inr e ↦ rw e (skipped b rows (oldest (select p rows)) e h)
        | inl e ↦
            let (block, f) = consumed b e in
            let j = joined b rows block (oldest (select p rows)) e f h in
            let q : oldest (b ∷ select p rows) ≡ some (earlier block (oldest (select p rows))) =
              elim (Option-cases (oldest (select p rows))) [
                | inl g ↦ ground arith
                | inr (n, g) ↦ ground arith
              ] in
            rw (e, q) j
      ]

-- The oldest unfinished burn is reported exactly if there are unfinished burns: it is the block
-- that consumed one of them, and no other of them was consumed in an earlier block.
pub progress-IsOldest :
    (s : Store)
    → ((progress s).oldest_unfinished_burn ≡ none × ((progress s).burns_unfinished ≡ 0))
      ⊎ ((n : ℕ) × ((progress s).oldest_unfinished_burn ≡ some n)
          × LeadsIn (is_unfinished s) s.burns n)
unfolding progress
progress-IsOldest s =
    let h = oldest-IsOldest (is_unfinished s) (λ b e. consumed b e) s.burns in
    elim (Option-cases (oldest (select (is_unfinished s) s.burns))) [
      | inl e ↦ inl (e, subst (IsOldest (is_unfinished s) s.burns) e h)
      | inr (n, e) ↦ inr (n, e, subst (IsOldest (is_unfinished s) s.burns) e h)
    ]
  where
    consumed :
        (b : BurnRow) → is_unfinished s b ≡ true → (block : ℕ) × (b.consumption_block ≡ some block)
    consumed b e = elim (Option-cases b.consumption_block) [
      | inl f ↦ absurd (ground arith)
      | inr (block, f) ↦ (block, f)
    ]
