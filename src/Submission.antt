-- ===== src/Submission.antt =====
-- crates/xusdc-light-attester/src/submission.rs: a saved signed request, and how Circle's replies
-- change it.
pub mod Id
pub mod Reply
use miden_usdcx.Prelude.{ℕ, String, Bool, true, false, Option, none, some, Bytes, ◌==◌, ◌&&◌}

pub data SubmissionStatus : Type 0 where
  submitting submitted finalized expired failed held : SubmissionStatus

abbrev pub status_code : SubmissionStatus → ℕ
status_code submitting = 0
status_code submitted = 1
status_code finalized = 2
status_code expired = 3
status_code failed = 4
status_code held = 5

-- `==` of the derived `PartialEq`, and of the stored names.
abbrev pub status_eq : SubmissionStatus → SubmissionStatus → Bool
status_eq a b = status_code a == status_code b

pub data HoldReason : Type 0 where
  http_rejected : HoldReason

-- Whether a POST is a signed request's first send or a resend after an unknown outcome.
pub data SubmissionAttempt : Type 0 where
  first recovery : SubmissionAttempt

pub record SavedSubmission : Type 0 where
  pub note_id : ℕ
  pub endpoint : String
  pub body : Bytes
  pub transfer_spec_hash : ℕ
  pub status : SubmissionStatus
  pub withdrawal_id : Option String
  pub hold_reason : Option HoldReason
  pub last_http_status : Option ℕ
  pub last_response : Option Bytes
  pub last_error : Option String
