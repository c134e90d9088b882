-- ===== src/Relayer/Node/Wait.antt =====
-- The wait for a transaction of crates/xreserve-deposit-relayer/src/miden.rs ends.
use mathlib.Core.List.{Memᴰ}
use mathlib.Core.List.Memᴰ.{head, tail}
use miden_usdcx.Prelude.{
  ℕ, suc, ◌+◌, ◌≤◌, ◌<◌, ◌≡◌, refl, inl, inr, true, Option, some, List, [], ◌∷◌, arith, All, length,
  Bool-cases, Option-cases, Result-cases, Result, ok, err, subst, ap, ◌∙◌,
}
use miden_usdcx.Relayer.{Failure}
use miden_usdcx.Relayer.Node.{
  client_failure, retry_sync, failed_syncs_before_giving_up, TransactionStatus, committed,
  discarded, pending, Inclusion, included, inclusion, Seen, Poll, read_poll, await_inclusion,
}

-- The chain has reached the block at which the transaction expires, as far as the poll sees it.
abbrev pub IsLate : Poll → Type 0
IsLate poll = (seen : Seen) → poll.seen ≡ some seen → seen.expiration_block ≤ seen.chain_tip

-- A poll in which the transaction is in this block.
abbrev pub IsIncluded : List Poll → ℕ → Type 0
IsIncluded polls block =
    (poll : Poll) × Memᴰ poll polls
    × ((seen : Seen) × (poll.seen ≡ some seen) × (seen.status ≡ committed block))

-- The wait is over, with a block only if the transaction is in it.
abbrev pub Settles : List Poll → Option (Result Failure ℕ) → Type 0
Settles polls end =
    (result : Result Failure ℕ) × (end ≡ some result)
    × ((block : ℕ) → result ≡ ok block → IsIncluded polls block)

included_in :
    (poll : Poll) (polls : List Poll) (end : Option (Result Failure ℕ))
    → Settles polls end
    → Settles (poll ∷ polls) end
included_in poll polls end (result, e, each) =
    (result, e, λ block h. let (p, m, seen) = each block h in (p, tail m, seen))

late_inclusion :
    (seen : Seen) (i : Inclusion)
    → seen.expiration_block ≤ seen.chain_tip
    → inclusion seen.status seen.chain_tip seen.expiration_block ≡ ok i
    → (block : ℕ) × (i ≡ included block) × (seen.status ≡ committed block)
unfolding inclusion
late_inclusion seen i late h = statuses seen.status h
  where
    statuses :
        (status : TransactionStatus)
        → inclusion status seen.chain_tip seen.expiration_block ≡ ok i
        → (block : ℕ) × (i ≡ included block) × (status ≡ committed block)
    statuses (committed block) h = (block, cc, refl)
    statuses discarded h = absurd cc
    statuses pending h = absurd (ground arith)

late_poll :
    (poll : Poll) (i : Inclusion)
    → IsLate poll
    → read_poll poll ≡ ok i
    → (block : ℕ) × (i ≡ included block)
      × ((seen : Seen) × (poll.seen ≡ some seen) × (seen.status ≡ committed block))
unfolding read_poll
late_poll poll i late h = elim (Option-cases poll.seen) [
  | inl e ↦ absurd (ground arith)
  | inr (seen, e) ↦
      let p : inclusion seen.status seen.chain_tip seen.expiration_block ≡ ok i = ground arith in
      let (block, q, c) = late_inclusion seen i (late seen e) p in (block, q, (seen, e, c))
]

retried :
    (failure : Failure) (failed_syncs : ℕ)
    → retry_sync failure failed_syncs ≡ true
    → failed_syncs < failed_syncs_before_giving_up
unfolding retry_sync
retried failure failed_syncs h = ground arith

-- If the chain has reached the transaction's expiration whenever a poll sees it, the wait is over
-- within three polls, less the syncs that have failed in a row so far, whether syncs fail or not, and
-- it returns a block only if a poll saw the transaction committed in it.
pub await_inclusion-Settles :
    (failed_syncs : ℕ) (polls : List Poll)
    → failed_syncs < failed_syncs_before_giving_up
    → All IsLate polls
    → failed_syncs_before_giving_up ≤ failed_syncs + length polls
    → Settles polls (await_inclusion failed_syncs polls)
unfolding await_inclusion late_poll
await_inclusion-Settles failed [] few late enough = absurd (omega arith)
await_inclusion-Settles failed (poll ∷ polls) few late enough = elim (Result-cases poll.sync) [
  | inr (e, q) ↦ elim (Bool-cases (retry_sync (client_failure "node_sync" e) (suc failed))) [
    | inl r ↦
        let end : await_inclusion (suc failed) polls ≡ await_inclusion failed (poll ∷ polls) =
          rw (q, r, await_inclusion) refl in
        subst (Settles (poll ∷ polls)) end (
          included_in poll polls (await_inclusion (suc failed) polls) (
            await_inclusion-Settles (suc failed) polls
              (retried (client_failure "node_sync" e) (suc failed) r) late.1
              (omega (arith, enough))))
    | inr r ↦
        let end : some (err (client_failure "node_sync" e))
            ≡ await_inclusion failed (poll ∷ polls) =
          rw (q, r, await_inclusion) refl in
        subst (Settles (poll ∷ polls)) end
          (err (client_failure "node_sync" e), refl, λ block h. absurd cc)
  ]
  | inl (u, q) ↦ elim (Result-cases (read_poll poll)) [
    | inr (e, r) ↦
        let end : some (err e) ≡ await_inclusion failed (poll ∷ polls) =
          rw (q, r, await_inclusion) refl in
        subst (Settles (poll ∷ polls)) end (err e, refl, λ block h. absurd cc)
    | inl (i, r) ↦
        let (block, p, (seen, e, c)) = late_poll poll i late.0 r in
        let end : some (ok block) ≡ await_inclusion failed (poll ∷ polls) =
          rw (q, r, p, await_inclusion) refl in
        subst (Settles (poll ∷ polls)) end (
          ok block,
          refl,
          λ b h. (poll, head refl, (seen, e, let same : block ≡ b = cc in c ∙ ap committed same)),
        )
  ]
]
