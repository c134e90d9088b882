-- ===== src/Store/Submissions.antt =====
-- `save_submission`, `update_submission_outcome` and `select_submissions` of
-- crates/xusdc-light-attester/src/store.rs.
use miden_usdcx.Prelude.{
  ℕ, Bool, true, false, ◌&&◌, Option, none, some, List, [], ◌∷◌, ◌++◌, ◌==◌, leb, is_some,
  if◌then◌else◌, Result, ok, err, ensure, ◌>>◌, ◌>>=◌,
}
use miden_usdcx.Circle.{Wire}
use miden_usdcx.Submission.{
  SavedSubmission, SubmissionStatus, submitting, submitted, expired, status_eq,
}
use miden_usdcx.Sql.{anything, find, update, changed, select, order_by, exists}
use miden_usdcx.Store.{
  Store, StoreError, invalid, conflict, BurnRow, authorized, outcome, burn_key, submission_key,
}
use miden_usdcx.Store.History.{record_event, repeats_latest_outcome, circle_status}
use miden_usdcx.Store.Rows.{validate_submission, validate_submission_outcome}

-- The row of a new authorization: nothing of an earlier one is left.
abbrev pub fresh : SavedSubmission → SavedSubmission
fresh r = record r {
  status = submitting;
  withdrawal_id = none;
  hold_reason = none;
  last_http_status = none;
  last_response = none;
  last_error = none;
}

abbrev pub is_replaceable : SavedSubmission → Bool
is_replaceable old = status_eq old.status expired && is_some old.withdrawal_id

-- The insert, which can replace only an expired withdrawal.
unfoldable pub authorize :
    SavedSubmission → List SavedSubmission → Result StoreError (List SavedSubmission)
authorize r rows = elim (find submission_key r.note_id rows) [
  | none ↦ ok (rows ++ fresh r ∷ [])
  | some old ↦
      if changed submission_key r.note_id is_replaceable rows == 1
      then ok (update submission_key r.note_id is_replaceable (λ _. fresh r) rows)
      else err conflict
]

abbrev pub take_outcome : SavedSubmission → SavedSubmission → SavedSubmission
take_outcome r old = record old {
  status = r.status;
  withdrawal_id = r.withdrawal_id;
  hold_reason = r.hold_reason;
  last_http_status = r.last_http_status;
  last_response = r.last_response;
  last_error = r.last_error;
}

-- The statuses that end a wait for Circle's withdrawal limit.
abbrev pub ends_limit_wait : SubmissionStatus → Bool
ends_limit_wait submitting = false
ends_limit_wait expired = false
ends_limit_wait _ = true

abbrev pub clear_retry : BurnRow → BurnRow
clear_retry b = record b { withdrawal_limit_retry_at = none }

abbrev pub before_note : SavedSubmission → SavedSubmission → Bool
before_note a b = leb a.note_id b.note_id

abbrev is_consumed : BurnRow → Bool
is_consumed b = is_some b.consumption_block

abbrev pub matches_filter : {A B : Type 0} → (A → B → Bool) → Option A → B → Bool
matches_filter test none b = true
matches_filter test (some a) b = test a b

module _ (w : Wire) where
  -- Saves a signed request before it is sent, and records it in the burn's history.
  unfoldable pub save_submission : Store → ℕ → SavedSubmission → Result StoreError Store
  save_submission s now r = do
    validate_submission w r
    rows ← authorize r s.submissions
    record_event (record s { submissions = rows }) now r.note_id authorized none

  -- The row of history for an outcome that differs from the latest one.
  unfoldable pub record_outcome : Store → ℕ → SavedSubmission → Result StoreError Store
  record_outcome s now r =
      let status = circle_status w r.last_response in
      if repeats_latest_outcome s r status
      then ok s
      else record_event s now r.note_id outcome status

  unfoldable pub end_limit_wait : Store → SavedSubmission → Store
  end_limit_wait s r =
      if ends_limit_wait r.status
      then record s { burns = update burn_key r.note_id anything clear_retry s.burns }
      else s

  unfoldable pub update_submission_outcome : Store → ℕ → SavedSubmission → Result StoreError Store
  update_submission_outcome s now r = do
    validate_submission_outcome w r
    ensure (changed submission_key r.note_id anything s.submissions == 1) conflict
    recorded ←
        record_outcome
          (record s {
            submissions = update submission_key r.note_id anything (take_outcome r) s.submissions;
          })
          now r
    ok (end_limit_wait recorded r)

  -- Every selected row must pass the checks, and belong to a consumed burn.
  unfoldable pub check_rows :
      Store → List SavedSubmission → Result StoreError (List SavedSubmission)
  check_rows s [] = ok []
  check_rows s (r ∷ rs) = do
    validate_submission w r
    ensure (exists burn_key r.note_id is_consumed s.burns) invalid
    rest ← check_rows s rs
    ok (r ∷ rest)

  unfoldable pub select_submissions :
      Store → Option ℕ → Option SubmissionStatus → Result StoreError (List SavedSubmission)
  unfolding check_rows
  select_submissions s note_id status = check_rows s (
      order_by before_note (
        select
          (λ r.
            matches_filter (λ k (r : SavedSubmission). r.note_id == k) note_id r
            && matches_filter (λ t (r : SavedSubmission). status_eq r.status t) status r)
          s.submissions))

  abbrev last_row : List SavedSubmission → Option SavedSubmission
  last_row [] = none
  last_row (r ∷ rs) = elim (last_row rs) [ none ↦ some r | some q ↦ some q ]

  -- `select_submissions(…).pop()`
  unfoldable pub submission : Store → ℕ → Result StoreError (Option SavedSubmission)
  unfolding select_submissions
  submission s k = do rows ← select_submissions s (some k) none; ok (last_row rows)

  unfoldable pub submissions_to_recover : Store → Result StoreError (List SavedSubmission)
  unfolding select_submissions
  submissions_to_recover s = select_submissions s none (some submitting)

  unfoldable pub submissions_to_poll : Store → Result StoreError (List SavedSubmission)
  unfolding select_submissions
  submissions_to_poll s = select_submissions s none (some submitted)
