-- ===== src/Attester/Advance.antt =====
-- `advance_submission`, `send_saved_request` and `save_outcome` of
-- crates/xusdc-light-attester/src/submission.rs.
use miden_usdcx.Prelude.{
  Bool, true, false, ◌||◌, Option, none, some, ◌==◌, if◌then◌else◌, Result, ok, err,
}
use miden_usdcx.Telemetry.{FailureClass}
use miden_usdcx.Circle.{Wire, CircleError, rate_limited, RawResponse, failure, is_rate_limited}
use miden_usdcx.Circle.Status
use miden_usdcx.Config.{Config}
use miden_usdcx.Submission.{SavedSubmission, SubmissionAttempt}
use miden_usdcx.Submission.Reply.{read_response, read_conflict}
use miden_usdcx.Store.{Store}
use miden_usdcx.Store.Submissions.{update_submission_outcome}
use miden_usdcx.Attester.{Client, Clock, Done, FatalError, store_failed}
use miden_usdcx.Attester.Limit.{wait_for_withdrawal_limit}

-- What a send leaves: the request with the reply noted on it, the cycle's rate limit, and the reply.
pub record Sent : Type 0 where
  pub saved : SavedSubmission
  pub rate_limited : Bool
  pub response : Result FailureClass RawResponse

abbrev pub answered : SavedSubmission → Bool → RawResponse → Sent
answered saved limited response = record {
  saved = record saved {
    last_http_status = some response.status;
    last_response = some response.body;
    last_error = none;
  };
  rate_limited = limited;
  response = ok response;
}

module _ (client : Client) where
  -- A POST, or a GET once Circle's ID is known.
  abbrev ask : SavedSubmission → Result CircleError RawResponse
  ask saved = elim saved.withdrawal_id [
    | none ↦ client.post_submission saved
    | some id ↦ client.get_withdrawal saved id
  ]

  -- A lost reply says nothing of what Circle did.
  abbrev lost : SavedSubmission → Bool → CircleError → Sent
  lost saved limited error = record {
    saved = record saved {
      last_http_status = none;
      last_response = none;
      last_error = some (client.error_text error);
    };
    rate_limited = limited || is_rate_limited error;
    response = err (failure error);
  }

  abbrev take_reply : SavedSubmission → Bool → Result CircleError RawResponse → Sent
  take_reply saved limited (ok response) = answered saved limited response
  take_reply saved limited (err (rate_limited (some body))) =
      answered saved true (record { status = Status.too_many_requests; body = body })
  take_reply saved limited (err error) = lost saved limited error

  unfoldable pub send_saved_request : SavedSubmission → Bool → Sent
  send_saved_request saved limited = take_reply saved limited (ask saved)

module _ (w : Wire) (config : Config) (client : Client) (clock : Clock) where
  -- The map of logged mismatches, which only mutes repeated log lines, is left out.
  abbrev pub save_outcome : Store → Bool → SavedSubmission → Done
  save_outcome s limited saved = elim (update_submission_outcome w s clock.unixepoch saved) [
    | ok next ↦ record { store = next; rate_limited = limited; result = ok tt }
    | err e ↦ record { store = s; rate_limited = limited; result = err (store_failed e) }
  ]

  -- The last reply is read, and the outcome saved.
  unfoldable pub finish : Store → Sent → Done
  finish s sent = elim sent.response [
    | ok response ↦ save_outcome s sent.rate_limited (read_response w sent.saved response).0
    | err class ↦ save_outcome s sent.rate_limited sent.saved
  ]

  -- The ID of a conflict, once it is saved, is checked with a GET.
  unfoldable pub check_named : Done → SavedSubmission → Result FatalError (Unit {0}) → Done
  unfolding finish
  check_named done named (err e) = done
  check_named done named (ok u) =
      finish done.store (send_saved_request client named done.rate_limited)

  unfoldable pub after_conflict : Done → SavedSubmission → Option FailureClass → Done
  unfolding check_named
  after_conflict done named (some failed) = done
  after_conflict done named none = check_named done named done.result

  -- A 409 to a POST: its ID is saved before it is checked.
  unfoldable pub settle_conflict : Store → Sent → Done
  unfolding after_conflict
  settle_conflict s sent =
      let (named, class) = read_conflict w sent.saved in
      after_conflict (save_outcome s sent.rate_limited named) named class

  abbrev is_conflict : RawResponse → Bool
  is_conflict response = response.status == Status.conflict

  -- The reply to a POST, once it is not a limit rejection.
  abbrev pub settle : Store → Sent → RawResponse → Done
  settle s sent response = if is_conflict response then settle_conflict s sent else finish s sent

  -- A reply to a POST may be a limit rejection.
  unfoldable pub settle_post : Store → Sent → RawResponse → SubmissionAttempt → Done
  unfolding finish settle_conflict
  settle_post s sent response attempt =
      elim (wait_for_withdrawal_limit w config s clock sent.saved.note_id response.status
        response.body (some (sent.saved, attempt))) [
          | err e ↦ record { store = s; rate_limited = sent.rate_limited; result = err e }
          | ok (true, waiting) ↦ record {
            store = waiting;
            rate_limited = sent.rate_limited;
            result = ok tt;
          }
          | ok (false, same) ↦ settle same sent response
        ]

  abbrev pub settle_sent : Store → Sent → SubmissionAttempt → Done
  settle_sent s sent attempt = elim sent.saved.withdrawal_id [
    | some id ↦ finish s sent
    | none ↦ elim sent.response [
      | err class ↦ finish s sent
      | ok response ↦ settle_post s sent response attempt
    ]
  ]

  unfoldable pub advance_submission : Store → Bool → SavedSubmission → SubmissionAttempt → Done
  unfolding finish settle_post
  advance_submission s limited saved attempt =
      if limited
      then record { store = s; rate_limited = limited; result = ok tt }
      else settle_sent s (send_saved_request client saved limited) attempt
