-- ===== src/Attester/Withdraw.antt =====
-- One burn taken from Circle's quote to a saved request: `attempt_withdrawal`, `withdraw` and
-- `burn_hold` of crates/xusdc-light-attester/src/attester.rs, `submit_signed_withdrawal` of
-- submission.rs, and `sign` and `submission` of verify.rs.
use miden_usdcx.Prelude.{
  ℕ, Bool, true, false, ◌||◌, Option, none, some, List, Bytes, String, ◌==◌, if◌then◌else◌, Result,
  ok, err, ok_or, map_err, ◌>>=◌,
}
use miden_usdcx.Circle.{Wire, CircleError, unexpected_prepare_status, is_rate_limited}
use miden_usdcx.Circle.Status
use miden_usdcx.Burn.{DiscoveredBurn}
use miden_usdcx.Config.{Config, forwarding_max_fee}
use miden_usdcx.Submission.{SavedSubmission, submitting, first}
use miden_usdcx.Verify.Types.{
  Libraries, PrepareBatch, VerifiedWithdrawal, VerifyError, unsupported_destination,
  too_small_to_forward,
}
use miden_usdcx.Verify.{verify}
use miden_usdcx.Store.{Store, BurnHoldReason, prepare_rejected}
use miden_usdcx.Store.Submissions.{save_submission, submission}
use miden_usdcx.Store.Holds.{hold_burn}
use miden_usdcx.Attester.{Client, Clock, Done, FatalError, store_failed}
use miden_usdcx.Attester.Limit.{wait_for_withdrawal_limit}
use miden_usdcx.Attester.Advance.{advance_submission}

-- What the code calls of Circle's client for a new burn, of the two signers, of the JSON encoder
-- and of the URL library.
pub record Desk : Type 0 where
  pub prepare_withdrawal : DiscoveredBurn → ℕ → Result CircleError (List PrepareBatch)
  pub first_signature : ℕ → Option Bytes
  pub second_signature : ℕ → Option Bytes
  pub request_body : VerifiedWithdrawal → Bytes → Bytes → Option Bytes
  pub submission_endpoint : Result CircleError String

pub data SubmitError : Type 0 where
  invalid_request : CircleError → SubmitError
  fatal : FatalError → SubmitError
  encoding : SubmitError
  prepare : CircleError → SubmitError
  verification : VerifyError → SubmitError
  signing : SubmitError

-- The request that is saved before it is sent.
abbrev pub new_submission : VerifiedWithdrawal → String → Bytes → SavedSubmission
new_submission v endpoint body = record {
  note_id = v.note_id;
  endpoint = endpoint;
  body = body;
  transfer_spec_hash = v.transfer_spec_hash;
  status = submitting;
  withdrawal_id = none;
  hold_reason = none;
  last_http_status = none;
  last_response = none;
  last_error = none;
}

-- Where an attempt on a burn leaves the store and the cycle.
pub record Attempt : Type 0 where
  pub store : Store
  pub rate_limited : Bool
  pub result : Result SubmitError (Unit {0})

abbrev pub stopped : Store → Bool → SubmitError → Attempt
stopped s limited e = record { store = s; rate_limited = limited; result = err e }

abbrev pub of_done : Done → Attempt
of_done d = record {
  store = d.store;
  rate_limited = d.rate_limited;
  result = map_err fatal d.result;
}

abbrev pub note_limited : Bool → Result CircleError (List PrepareBatch) → Bool
note_limited limited (ok batches) = limited
note_limited limited (err e) = limited || is_rate_limited e

module _ (l : Libraries) (config : Config) (desk : Desk) where
  -- The quote, checked, signed by both signers and encoded as a request. It writes nothing.
  unfoldable pub authorize_request :
      DiscoveredBurn → Result CircleError (List PrepareBatch) → Result SubmitError SavedSubmission
  authorize_request burn prepared = do
    batches ← map_err prepare prepared
    verified ← map_err verification (verify l batches burn config)
    one ← ok_or (desk.first_signature verified.digest) signing
    two ← ok_or (desk.second_signature verified.digest) signing
    endpoint ← map_err invalid_request desk.submission_endpoint
    body ← ok_or (desk.request_body verified one two) encoding
    ok (new_submission verified endpoint body)

module _ (w : Wire) (config : Config) (client : Client) (clock : Clock) where
  -- `submit_signed_withdrawal`: saved first, then sent. The earlier row is only read for the log.
  unfoldable pub submit_saved : Store → Bool → SavedSubmission → Attempt
  submit_saved s limited saved = elim (submission w s saved.note_id) [
    | err e ↦ stopped s limited (fatal (store_failed e))
    | ok previous ↦ elim (save_submission w s clock.unixepoch saved) [
      | err e ↦ stopped s limited (fatal (store_failed e))
      | ok next ↦ of_done (advance_submission w config client clock next limited saved first)
    ]
  ]

  abbrev pub submit_authorized : Store → Bool → Result SubmitError SavedSubmission → Attempt
  submit_authorized s limited (ok saved) = submit_saved s limited saved
  submit_authorized s limited (err e) = stopped s limited e

module _ (w : Wire) (l : Libraries) (config : Config) (desk : Desk) (client : Client)
    (clock : Clock) where
  unfoldable pub withdraw : Store → Bool → DiscoveredBurn → Attempt
  unfolding submit_saved
  withdraw s limited burn = elim (forwarding_max_fee config burn.items.dest_domain) [
    | none ↦ stopped s limited (verification unsupported_destination)
    | some fee ↦
        let prepared = desk.prepare_withdrawal burn fee in
        submit_authorized w config client clock s (note_limited limited prepared)
          (authorize_request l config desk burn prepared)
  ]

-- `SubmitError::is_fatal`
unfoldable pub is_fatal : SubmitError → Bool
is_fatal (fatal e) = true
is_fatal _ = false

-- Circle's answer, if it answered the prepare with an error status.
unfoldable pub prepare_answer : SubmitError → Option (ℕ × Bytes)
prepare_answer (prepare (unexpected_prepare_status status body)) = some (status, body)
prepare_answer _ = none

-- The hold that a failure before submission puts on its burn, with its evidence.
unfoldable pub burn_hold : SubmitError → Option (BurnHoldReason × Option (ℕ × Bytes))
burn_hold (prepare (unexpected_prepare_status status body)) =
    if status == Status.bad_request then some (prepare_rejected, some (status, body)) else none
burn_hold (verification too_small_to_forward) = some (BurnHoldReason.too_small_to_forward, none)
burn_hold _ = none

module _ (w : Wire) (config : Config) (clock : Clock) where
  -- The hold is written; the failure is returned either way.
  unfoldable pub put_on_hold : Store → Bool → ℕ → SubmitError → Attempt
  unfolding burn_hold
  put_on_hold s limited k error = elim (burn_hold error) [
    | none ↦ stopped s limited error
    | some (reason, response) ↦ elim (hold_burn s clock.unixepoch k reason response) [
      | err e ↦ stopped s limited (fatal (store_failed e))
      | ok next ↦ stopped next limited error
    ]
  ]

  -- A limit rejection of a prepare makes the burn wait instead.
  unfoldable pub wait_or_hold : Store → Bool → ℕ → SubmitError → ℕ × Bytes → Attempt
  unfolding put_on_hold
  wait_or_hold s limited k error (status, body) =
      elim (wait_for_withdrawal_limit w config s clock k status body none) [
        | err e ↦ stopped s limited (fatal e)
        | ok (true, waiting) ↦ record { store = waiting; rate_limited = limited; result = ok tt }
        | ok (false, same) ↦ put_on_hold same limited k error
      ]

  unfoldable pub settle_failure : Store → Bool → ℕ → SubmitError → Attempt
  unfolding is_fatal prepare_answer put_on_hold wait_or_hold
  settle_failure s limited k error = elim (is_fatal error) [
    | true ↦ stopped s limited error
    | false ↦ elim (prepare_answer error) [
      | none ↦ put_on_hold s limited k error
      | some answer ↦ wait_or_hold s limited k error answer
    ]
  ]

module _ (w : Wire) (l : Libraries) (config : Config) (desk : Desk) (client : Client)
    (clock : Clock) where
  abbrev pub settle_attempt : ℕ → Attempt → Result SubmitError (Unit {0}) → Attempt
  settle_attempt k a (ok u) = a
  settle_attempt k a (err e) = settle_failure w config clock a.store a.rate_limited k e

  unfoldable pub attempt_withdrawal : Store → Bool → DiscoveredBurn → Attempt
  unfolding settle_failure
  attempt_withdrawal s limited burn =
      let a = withdraw w l config desk client clock s limited burn in
      settle_attempt burn.note.id a a.result
