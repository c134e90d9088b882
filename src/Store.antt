-- ===== src/Store.antt =====
-- crates/xusdc-light-attester/src/store.rs and migrations/: the tables of the attester's database.
-- A transaction is a function from a store to a result with the next store: an error is a rollback.
pub mod History
pub mod Rows
pub mod Submissions
pub mod Holds
pub mod Limits
pub mod Scan
pub mod Sound
pub mod Steps
pub mod Reads
pub mod Open
pub mod Listing
use miden_usdcx.Prelude.{ℕ, String, Bool, true, false, Option, List, Bytes, Result, ok, err, ◌==◌}
use miden_usdcx.Submission.{SubmissionStatus, HoldReason, SavedSubmission}
use miden_usdcx.Sql.{find}

-- The context that an `anyhow` error of the store carries.
pub data StoreError : Type 0 where
  invalid conflict query_failed cannot_upgrade newer_version anchor_differs : StoreError

pub data BurnHoldReason : Type 0 where
  prepare_rejected too_small_to_forward : BurnHoldReason

-- A row of `burns`. The CHECK constraints of the table are tested where a row is written.
pub record BurnRow : Type 0 where
  pub note_id : ℕ
  pub nullifier : ℕ
  pub note : Bytes
  pub creation_block : ℕ
  pub consumption_block : Option ℕ
  pub hold_reason : Option BurnHoldReason
  pub withdrawal_limit_retry_at : Option ℕ

pub data EventKind : Type 0 where
  authorized outcome burn_held burn_released operator_release withdrawal_limit : EventKind

-- A row of `submission_events`.
pub record Event : Type 0 where
  pub seq : ℕ
  pub note_id : ℕ
  pub recorded_at : ℕ
  pub kind : EventKind
  pub status : Option SubmissionStatus
  pub withdrawal_id : Option String
  pub body : Option Bytes
  pub transfer_spec_hash : Option ℕ
  pub http_status : Option ℕ
  pub response : Option Bytes
  pub error : Option String
  pub endpoint : Option String
  pub hold_reason : Option HoldReason
  pub burn_hold_reason : Option BurnHoldReason
  pub circle_status : Option String

-- What the code reads of the chain library's block header.
pub record BlockHeader : Type 0 where
  pub block_num : ℕ
  pub commitment : ℕ
  pub timestamp : ℕ

-- The four tables; `attester_state` has one row. A `submissions` row has the columns of
-- `SavedSubmission`.
pub record Store : Type 0 where
  pub faucet_account_id : ℕ
  pub anchor_block : ℕ
  pub anchor_commitment : ℕ
  pub checkpoint : Option BlockHeader
  pub burns : List BurnRow
  pub submissions : List SavedSubmission
  pub events : List Event

abbrev pub burn_key : BurnRow → ℕ
burn_key b = b.note_id

abbrev pub submission_key : SavedSubmission → ℕ
submission_key r = r.note_id

abbrev pub burn_at : Store → ℕ → Option BurnRow
burn_at s k = find burn_key k s.burns

abbrev pub submission_at : Store → ℕ → Option SavedSubmission
submission_at s k = find submission_key k s.submissions

abbrev pub kind_code : EventKind → ℕ
kind_code authorized = 0
kind_code outcome = 1
kind_code burn_held = 2
kind_code burn_released = 3
kind_code operator_release = 4
kind_code withdrawal_limit = 5

abbrev pub kind_eq : EventKind → EventKind → Bool
kind_eq a b = kind_code a == kind_code b
