-- ===== src/Attester/Limit.antt =====
-- `limit_allows` and `wait_for_withdrawal_limit` of crates/xusdc-light-attester/src/attester.rs.
use miden_usdcx.Prelude.{
  ℕ, ◌/◌, Bool, true, false, Option, none, some, Bytes, ◌==◌, ltb, if◌then◌else◌, Result, ok, ok_or,
  map_err, ◌>>=◌,
}
use miden_usdcx.Circle.{Wire, is_withdrawal_limit}
use miden_usdcx.Config.{Config, WithdrawalLimit, before_epoch, retry_at, nanos_per_second}
use miden_usdcx.Submission.{SavedSubmission, SubmissionAttempt}
use miden_usdcx.Store.{Store}
use miden_usdcx.Store.Limits.{
  LimitWait, withdrawn_before, burn_creation_block, first_limit_wait, advance_limit_retry,
  record_limit_rejection,
}
use miden_usdcx.Attester.{Clock, FatalError, store_failed, clock_failed, settings_missing}

-- The next retry is saved before the burn is tried, so a restart cannot try it again at once.
unfoldable pub move_retry : Config → Store → ℕ → ℕ → Result FatalError (Bool × Store)
move_retry config s since k = do
  policy ← ok_or config.withdrawal_limit settings_missing
  later ← map_err clock_failed (retry_at policy (some since))
  moved ← map_err store_failed (advance_limit_retry s k later)
  ok (true, moved)

-- The first waiting burn itself may go once it is due.
unfoldable pub first_may_go : Config → Store → Clock → LimitWait → Result FatalError (Bool × Store)
first_may_go config s clock wait = do
  since ← ok_or clock.since_epoch (clock_failed before_epoch)
  if ltb (since / nanos_per_second) wait.retry_at
      then ok (false, s)
      else move_retry config s since wait.note_id

-- A waiting burn blocks every later one.
unfoldable pub limit_allows : Config → Store → Clock → ℕ → Result FatalError (Bool × Store)
unfolding first_may_go
limit_allows config s clock k = elim (first_limit_wait s) [
  | none ↦ ok (true, s)
  | some wait ↦
      if wait.note_id == k
      then first_may_go config s clock wait
      else map_err store_failed (burn_creation_block s k) >>= λ block.
          ok (withdrawn_before block k wait.creation_block wait.note_id, s)
]

-- The configured limit, if the reply is its rejection.
abbrev pub rejecting_policy : Wire → Config → ℕ → Bytes → Option WithdrawalLimit
rejecting_policy w config status body = elim config.withdrawal_limit [
  | none ↦ none
  | some policy ↦
      if is_withdrawal_limit w status body policy.message_prefix then some policy else none
]

-- Whether the reply was a limit rejection, which is then recorded.
unfoldable pub wait_for_withdrawal_limit :
    Wire
    → Config
    → Store
    → Clock
    → ℕ
    → ℕ
    → Bytes
    → Option (SavedSubmission × SubmissionAttempt)
    → Result FatalError (Bool × Store)
wait_for_withdrawal_limit w config s clock k status body submission =
    elim (rejecting_policy w config status body) [
      | none ↦ ok (false, s)
      | some policy ↦ map_err clock_failed (retry_at policy clock.since_epoch) >>= λ retry.
          map_err store_failed (record_limit_rejection s clock.unixepoch k retry body submission)
          >>= λ waiting. ok (true, waiting)
    ]
