-- ===== src/Attester/Queue.antt =====
-- The queue behind Circle's withdrawal limit: what `limit_allows` of
-- crates/xusdc-light-attester/src/attester.rs lets through.
use miden_usdcx.Prelude.{
  ℕ, ◌≤◌, ◌/◌, ◌≡◌, ◌⊎◌, inl, inr, true, false, some, List, [], ◌∷◌, All, arith, ok, Option-cases,
  Bool-cases, Result-cases, ◌==◌, subst,
}
use miden_usdcx.Config.{Config, WithdrawalLimit, nanos_per_second, retry_at}
use miden_usdcx.Store.{Store, BurnRow}
use miden_usdcx.Store.Limits.{
  LimitWait, is_waiting, withdrawn_before, burn_creation_block, first_limit_wait,
  advance_limit_retry,
}
use miden_usdcx.Store.Limits.First.{IsFirst, IsWaitOf, StandsBehind, first_limit_wait-IsFirst}
use miden_usdcx.Attester.{Clock}
use miden_usdcx.Attester.Limit.{limit_allows, first_may_go, move_retry}

-- The burn stands before every waiting one.
abbrev pub LeadsQueue : ℕ → ℕ → List BurnRow → Type 0
LeadsQueue block k burns =
    All (λ b. is_waiting b ≡ true → withdrawn_before block k b.creation_block b.note_id ≡ true)
      burns

leads_wait :
    (block k : ℕ) (wait : LimitWait) (burns : List BurnRow)
    → withdrawn_before block k wait.creation_block wait.note_id ≡ true
    → All (StandsBehind wait) burns
    → LeadsQueue block k burns
leads_wait block k wait [] h a = tt
leads_wait block k wait (b ∷ bs) h a =
    (λ waits. let behind = a.0 waits in ground arith, leads_wait block k wait bs h a.1)

-- The next retry after this time under the configured limit.
abbrev pub NextRetry : Config → ℕ → ℕ → Type 0
NextRetry config since later =
    (policy : WithdrawalLimit) × (config.withdrawal_limit ≡ some policy)
    × (retry_at policy (some since) ≡ ok later)

-- Why a burn may go. In the last case `wait` is the wait of a row of the store.
abbrev pub MayGo : Config → Store → Clock → ℕ → Store → Type 0
MayGo config s clock k t =
    ((t ≡ s) × All (λ b. is_waiting b ≡ false) s.burns)
    ⊎ (((block : ℕ) × (burn_creation_block s k ≡ ok block) × (t ≡ s) × LeadsQueue block k s.burns)
        ⊎ ((wait : LimitWait) × (since : ℕ) × (later : ℕ) × (wait.note_id ≡ k)
            × IsWaitOf s.burns wait
            × All (StandsBehind wait) s.burns
            × (clock.since_epoch ≡ some since)
            × (wait.retry_at ≤ since / nanos_per_second)
            × NextRetry config since later
            × (advance_limit_retry s k later ≡ ok t)))

first_may_go_lem :
    (config : Config) (s t : Store) (clock : Clock) (wait : LimitWait)
    → first_may_go config s clock wait ≡ ok (true, t)
    → (since : ℕ) × (later : ℕ) × (clock.since_epoch ≡ some since)
      × (wait.retry_at ≤ since / nanos_per_second)
      × NextRetry config since later
      × (advance_limit_retry s wait.note_id later ≡ ok t)
unfolding first_may_go move_retry
first_may_go_lem config s t clock wait h = elim (Option-cases clock.since_epoch) [
  | inl e ↦ absurd (ground arith)
  | inr (since, e) ↦ elim (Option-cases config.withdrawal_limit) [
    | inl f ↦ absurd (ground arith)
    | inr (policy, f) ↦ elim (Result-cases (retry_at policy (some since))) [
      | inr (x, g) ↦ absurd (ground arith)
      | inl (later, g) ↦ (since, later, e, ground arith, (policy, f, g), ground arith)
    ]
  ]
]

-- A burn that the limit lets go is one of three. No burn waits, and the store is as it was. Or
-- the burn stands before every waiting burn, by creation block and note ID, and the store is as
-- it was. Or it is itself a waiting burn of the store that no waiting burn stands before, the clock has
-- reached the retry time that the store has saved for it, and the store differs by its retry,
-- moved to the next one under the configured limit.
pub limit_allows_lem :
    (config : Config) (s t : Store) (clock : Clock) (k : ℕ)
    → limit_allows config s clock k ≡ ok (true, t)
    → MayGo config s clock k t
unfolding limit_allows
limit_allows_lem config s t clock k h = elim (Option-cases (first_limit_wait s)) [
  | inl e ↦ inl (ground arith, subst (IsFirst s) e (first_limit_wait-IsFirst s))
  | inr (wait, e) ↦
      let first = subst (IsFirst s) e (first_limit_wait-IsFirst s) in
      elim (Bool-cases (wait.note_id == k)) [
        | inr other ↦ elim (Result-cases (burn_creation_block s k)) [
          | inr (x, f) ↦ absurd (ground arith)
          | inl (block, f) ↦
              inr (
                inl
                  (block, f, ground arith, leads_wait block k wait s.burns (ground arith) first.1))
        ]
        | inl mine ↦
            let (since, later, now, ready, following, moved) =
              first_may_go_lem config s t clock wait (ground arith) in
            inr (
              inr (
                wait,
                since,
                later,
                ground arith,
                first.0,
                first.1,
                now,
                ready,
                following,
                subst (λ j. advance_limit_retry s j later ≡ ok t) (ground arith) moved,
              ))
      ]
]

-- A burn that has to wait leaves the store as it was.
pub limit_allows-refused :
    (config : Config) (s t : Store) (clock : Clock) (k : ℕ)
    → limit_allows config s clock k ≡ ok (false, t)
    → s ≡ t
unfolding limit_allows first_may_go move_retry
limit_allows-refused config s t clock k h = ground arith
