-- ===== src/Store/Limits.antt =====
-- Waits for Circle's withdrawal limit: `burn_creation_block`, `first_limit_wait`,
-- `advance_limit_retry` and `record_limit_rejection` of crates/xusdc-light-attester/src/store.rs.
pub mod First
use miden_usdcx.Prelude.{
  ℕ, Bool, ◌&&◌, ◌||◌, Option, none, some, List, [], ◌∷◌, Bytes, ◌==◌, ltb, is_some, is_none,
  str_eq, bytes_eq, Result, ok, err, ensure, ◌>>◌, ◌>>=◌,
}
use miden_usdcx.Submission.{
  SavedSubmission, SubmissionAttempt, first, recovery, submitting, status_eq,
}
use miden_usdcx.Sql.{update, delete, changed, select, order_by}
use miden_usdcx.Store.{
  Store, StoreError, conflict, query_failed, BurnRow, Event, withdrawal_limit, burn_key,
  submission_key, burn_at,
}
use miden_usdcx.Store.History.{next_seq, add_event}

pub record LimitWait : Type 0 where
  pub note_id : ℕ
  pub creation_block : ℕ
  pub retry_at : ℕ

-- A missing row is SQLite's "no rows returned".
unfoldable pub burn_creation_block : Store → ℕ → Result StoreError ℕ
burn_creation_block s k = elim (burn_at s k) [
  | none ↦ err query_failed
  | some b ↦ ok b.creation_block
]

-- The order in which burns are withdrawn: `(creation_block, note_id)`, which the note's bytes
-- compare as their number does.
abbrev pub withdrawn_before : ℕ → ℕ → ℕ → ℕ → Bool
withdrawn_before block note block' note' = ltb block block' || (block == block' && ltb note note')

abbrev pub burn_before : BurnRow → BurnRow → Bool
burn_before a b = withdrawn_before a.creation_block a.note_id b.creation_block b.note_id

abbrev pub is_waiting : BurnRow → Bool
is_waiting b = is_some b.withdrawal_limit_retry_at

unfoldable pub as_wait : List BurnRow → Option LimitWait
as_wait [] = none
as_wait (b ∷ bs) = elim b.withdrawal_limit_retry_at [
  | none ↦ none
  | some t ↦ some (record { note_id = b.note_id; creation_block = b.creation_block; retry_at = t })
]

-- The waiting burn that every later burn queues behind.
unfoldable pub first_limit_wait : Store → Option LimitWait
unfolding as_wait
first_limit_wait s = as_wait (order_by burn_before (select is_waiting s.burns))

abbrev pub set_retry : ℕ → BurnRow → BurnRow
set_retry t b = record b { withdrawal_limit_retry_at = some t }

-- Moves a waiting burn's next retry.
unfoldable pub advance_limit_retry : Store → ℕ → ℕ → Result StoreError Store
advance_limit_retry s k retry_at = do
  ensure (changed burn_key k is_waiting s.burns == 1) conflict
  ok (record s { burns = update burn_key k is_waiting (set_retry retry_at) s.burns })

-- A limit rejection is recorded for a consumed burn that is not held.
abbrev pub may_wait : BurnRow → Bool
may_wait b = is_some b.consumption_block && is_none b.hold_reason

-- The row is still the request that was sent, with no ID from Circle.
abbrev pub is_request : SavedSubmission → SavedSubmission → Bool
is_request sent r =
    status_eq r.status submitting
    && (is_none r.withdrawal_id
        && (str_eq r.endpoint sent.endpoint
            && (bytes_eq r.body sent.body && r.transfer_spec_hash == sent.transfer_spec_hash)))

abbrev pub note_limit : Bytes → SavedSubmission → SavedSubmission
note_limit response r = record r {
  last_http_status = some 400;
  last_response = some response;
  last_error = some "Circle withdrawal limit";
}

-- A rejected first send deletes its request; a rejected resend keeps it.
unfoldable pub reject_rows :
    ℕ → Bytes → SavedSubmission → SubmissionAttempt → List SavedSubmission → List SavedSubmission
reject_rows k response sent first rows = delete submission_key k (is_request sent) rows
reject_rows k response sent recovery rows =
    update submission_key k (is_request sent) (note_limit response) rows

unfoldable pub reject_request :
    Store → ℕ → Bytes → Option (SavedSubmission × SubmissionAttempt) → Result StoreError Store
reject_request s k response none = ok s
reject_request s k response (some (sent, attempt)) = do
  ensure (sent.note_id == k) conflict
  ensure (changed submission_key k (is_request sent) s.submissions == 1) conflict
  ok (record s { submissions = reject_rows k response sent attempt s.submissions })

unfoldable pub limit_event : ℕ → ℕ → ℕ → Bytes → Event
limit_event seq now k response = record {
  seq = seq;
  note_id = k;
  recorded_at = now;
  kind = withdrawal_limit;
  status = none;
  withdrawal_id = none;
  body = none;
  transfer_spec_hash = none;
  http_status = some 400;
  response = some response;
  error = none;
  endpoint = none;
  hold_reason = none;
  burn_hold_reason = none;
  circle_status = none;
}

-- The burn waits until `retry_at`, and its history keeps Circle's reply.
unfoldable pub record_limit_rejection :
    Store
    → ℕ
    → ℕ
    → ℕ
    → Bytes
    → Option (SavedSubmission × SubmissionAttempt)
    → Result StoreError Store
record_limit_rejection s now k retry_at response submission = do
  ensure (changed burn_key k may_wait s.burns == 1) conflict
  rejected ←
      reject_request (record s { burns = update burn_key k may_wait (set_retry retry_at) s.burns })
        k response submission
  ok (add_event rejected (limit_event (next_seq rejected.events) now k response))
