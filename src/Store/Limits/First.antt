-- ===== src/Store/Limits/First.antt =====
-- `first_limit_wait` of crates/xusdc-light-attester/src/store.rs: the waiting burn of the store that no
-- other waiting burn stands before.
use mathlib.Core.List.{Memᴰ}
use mathlib.Core.List.Memᴰ.{head, tail}
use miden_usdcx.Prelude.{
  ◌≡◌, refl, inl, inr, Bool, true, false, Option, none, some, List, [], ◌∷◌, arith, All,
  Option-cases, Bool-cases, subst, if◌then◌else◌,
}
use miden_usdcx.Sql.{select, order_by}
use miden_usdcx.Sql.Apart.{select-All_kept}
use miden_usdcx.Sql.Order.{LeadsFrom, order_by-LeadsFrom, order_by-All, select-All}
use miden_usdcx.Store.{Store, BurnRow, burn_key}
use miden_usdcx.Store.Limits.{
  LimitWait, as_wait, first_limit_wait, burn_before, withdrawn_before, is_waiting,
}

asymmetric : (a b : BurnRow) → burn_before a b ≡ true → burn_before b a ≡ false
asymmetric a b h = ground arith

not_after :
    (a b c : BurnRow) → burn_before b c ≡ false → burn_before a b ≡ false → burn_before a c ≡ false
not_after a b c h g = ground arith

-- A waiting burn does not stand before this wait.
abbrev pub StandsBehind : LimitWait → BurnRow → Type 0
StandsBehind wait b =
    is_waiting b ≡ true
    → withdrawn_before b.creation_block b.note_id wait.creation_block wait.note_id ≡ false

selected_behind :
    (x : BurnRow) (rs : List BurnRow)
    → All (λ r. burn_before r x ≡ false) (select is_waiting rs)
    → All (λ b. is_waiting b ≡ true → burn_before b x ≡ false) rs
unfolding select
selected_behind x [] a = tt
selected_behind x (r ∷ rs) a =
    let rest = select is_waiting rs in
    let chosen =
      λ (c : Bool). All (λ (b : BurnRow). burn_before b x ≡ false) (if c then r ∷ rest else rest) in
    elim (Bool-cases (is_waiting r)) [
      | inl e ↦ let p : chosen true = subst chosen e a in (λ _. p.0, selected_behind x rs p.1)
      | inr e ↦
          let p : chosen false = subst chosen e a in (λ h. ground arith, selected_behind x rs p)
    ]

selected_none : (rs : List BurnRow) → select is_waiting rs ≡ [] → All (λ b. is_waiting b ≡ false) rs
unfolding select
selected_none [] h = tt
selected_none (r ∷ rs) h = elim (Bool-cases (is_waiting r)) [
  | inl e ↦ absurd (ground arith)
  | inr e ↦ (e, selected_none rs (ground arith))
]

each_row : {A : Type 0} (P : A → Type 0) (rs : List A) → ((r : A) → Memᴰ r rs → P r) → All P rs
each_row P [] f = tt
each_row P (r ∷ rs) f = (f r (head refl), each_row P rs (λ x m. f x (tail m)))

-- The wait is that of a burn of the store: its note ID, its creation block, and its saved retry time.
abbrev pub IsWaitOf : List BurnRow → LimitWait → Type 0
IsWaitOf burns wait =
    (b : BurnRow) × Memᴰ b burns
    × (b.note_id ≡ wait.note_id)
    × (b.creation_block ≡ wait.creation_block)
    × (b.withdrawal_limit_retry_at ≡ some wait.retry_at)

-- What a first wait is to the store's burns.
abbrev pub IsFirst : Store → Option LimitWait → Type 0
IsFirst s none = All (λ b. is_waiting b ≡ false) s.burns
IsFirst s (some wait) = IsWaitOf s.burns wait × All (StandsBehind wait) s.burns

as_wait-IsFirst :
    (s : Store) (sorted : List BurnRow)
    → LeadsFrom burn_before sorted (select is_waiting s.burns)
    → All (λ b. is_waiting b ≡ true) sorted
    → All (λ b. Memᴰ b s.burns) sorted
    → IsFirst s (as_wait sorted)
unfolding as_wait
as_wait-IsFirst s [] none_waits waiting rows = selected_none s.burns none_waits
as_wait-IsFirst s (x ∷ xs) leads waiting rows = elim (Option-cases x.withdrawal_limit_retry_at) [
  | inl e ↦ absurd (ground arith)
  | inr (t, e) ↦ rw e ((x, rows.0, refl, refl, e), selected_behind x s.burns leads)
]

-- The first wait is that of a burn of the store that waits: its note ID, its creation block and its
-- saved retry time; and no waiting burn stands before it in the order of withdrawal. If there is no
-- first wait, no burn waits.
pub first_limit_wait-IsFirst : (s : Store) → IsFirst s (first_limit_wait s)
unfolding first_limit_wait
first_limit_wait-IsFirst s =
    let waiting = select is_waiting s.burns in
    as_wait-IsFirst s (order_by burn_before waiting)
      (order_by-LeadsFrom burn_before asymmetric not_after waiting)
      (order_by-All burn_before (λ b. is_waiting b ≡ true) waiting (select-All is_waiting s.burns))
      (order_by-All burn_before (λ b. Memᴰ b s.burns) waiting
        (select-All_kept burn_key (λ b. Memᴰ b s.burns) is_waiting s.burns
          (each_row (λ b. Memᴰ b s.burns) s.burns (λ b m. m))))
