-- ===== src/Attester.antt =====
-- crates/xusdc-light-attester/src/attester.rs and the attester's part of submission.rs: one
-- submission taken a step further with Circle. Circle's answers are a parameter, the clock is an
-- argument, and the store and the cycle's rate limit are passed along.
pub mod Discover
pub mod Limit
pub mod Advance
pub mod Queue
pub mod Loop
pub mod Withdraw
pub mod Authorized
pub mod Attempt
pub mod Commands
pub mod Keeps
pub mod Refinement
pub mod Works
pub mod Sound
pub mod Submit
pub mod Cycle
pub mod Start
use miden_usdcx.Prelude.{ℕ, Bool, Option, String, Result}
use miden_usdcx.Circle.{CircleError, RawResponse}
use miden_usdcx.Config.{ClockError}
use miden_usdcx.Submission.{SavedSubmission}
use miden_usdcx.Store.{Store, StoreError}

-- What the code calls of Circle's client, and the text of an error.
pub record Client : Type 0 where
  pub post_submission : SavedSubmission → Result CircleError RawResponse
  pub get_withdrawal : SavedSubmission → String → Result CircleError RawResponse
  pub error_text : CircleError → String

-- The time of one attempt: nanoseconds since the epoch, `none` before it, and SQLite's
-- `unixepoch()`.
pub record Clock : Type 0 where
  pub since_epoch : Option ℕ
  pub unixepoch : ℕ

-- The `anyhow` errors behind `SubmitError::Store`: all of them end the cycle.
pub data FatalError : Type 0 where
  store_failed : StoreError → FatalError
  clock_failed : ClockError → FatalError
  settings_missing : FatalError

-- Where an attempt leaves the store and the cycle. What was committed stays, errors included.
pub record Done : Type 0 where
  pub store : Store
  pub rate_limited : Bool
  pub result : Result FatalError (Unit {0})
