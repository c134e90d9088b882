-- ===== src/Submission/Reply.antt =====
-- `read_conflict`, `read_response` and `hold` of crates/xusdc-light-attester/src/submission.rs.
pub mod Laws
use Prim.Native.String.{◌++◌}
use miden_usdcx.Prelude.{
  ℕ, String, Bool, true, false, not, ◌&&◌, ◌||◌, Option, none, some, List, [], ◌∷◌, Bytes, ◌==◌,
  str_eq, option_eq, if◌then◌else◌, is_some, Result, ok, err,
}
use miden_usdcx.Telemetry.{FailureClass, integrity, actionable, transient}
use miden_usdcx.Circle.Status
use miden_usdcx.Circle.{Wire, RawResponse, WithdrawalResponse, WithdrawalConflict}
use miden_usdcx.Submission.{
  SavedSubmission, submitted, finalized, expired, failed, held, HoldReason, http_rejected,
}
use miden_usdcx.Submission.Id.{codes, is_well_formed_id, same_letters}

module _ (w : Wire) where
  unfoldable pub matches_note : SavedSubmission → String → Bool
  matches_note s id = same_letters (codes id) (codes (w.note_hex s.note_id))

  abbrev fail_with : SavedSubmission → String → FailureClass → SavedSubmission × Option FailureClass
  fail_with s message class = (record s { last_error = some message }, some class)

  unfoldable pub hold : SavedSubmission → HoldReason → String → SavedSubmission
  hold s reason message = record s {
    status = held;
    hold_reason = some reason;
    last_error = some message;
  }

  -- Circle's withdrawal ID in a 409 reply, unless it is missing or blank.
  unfoldable pub usable_id : Option String → Option String
  usable_id none = none
  usable_id (some id) = if w.is_blank id then none else some id

  unfoldable pub names_another : SavedSubmission → Option String → Bool
  unfolding matches_note
  names_another s none = false
  names_another s (some id) = not (matches_note s id)

  abbrev no_conflict_id : SavedSubmission → SavedSubmission × Option FailureClass
  no_conflict_id s =
      fail_with s "conflict has no withdrawal ID yet" (transient "conflict_without_id")

  unfoldable pub take_conflict_id :
      SavedSubmission → Option String → SavedSubmission × Option FailureClass
  take_conflict_id s none = no_conflict_id s
  take_conflict_id s (some id) =
      if is_well_formed_id id
      then (record s { withdrawal_id = some id }, none)
      else fail_with s "conflict names a malformed withdrawal ID"
          (integrity "malformed_withdrawal_id")

  unfoldable pub reply_conflict : Option Bytes → Option WithdrawalConflict
  reply_conflict none = none
  reply_conflict (some body) = elim (w.conflict_response body) [
    | none ↦ none
    | some response ↦ response.conflict
  ]

  -- `none` for the failure is `Ok(())`.
  unfoldable pub read_conflict : SavedSubmission → SavedSubmission × Option FailureClass
  unfolding reply_conflict names_another usable_id take_conflict_id
  read_conflict s = elim (reply_conflict s.last_response) [
    | none ↦ no_conflict_id s
    | some conflict ↦
        if names_another s conflict.burn_note_id
        then fail_with s "conflict names another burn note" (integrity "wrong_burn")
        else take_conflict_id s (usable_id conflict.withdrawal_id)
  ]

  -- A reply that does not have the status that its request expects.
  unfoldable pub read_unexpected : SavedSubmission → ℕ → SavedSubmission × Option FailureClass
  unfolding hold
  read_unexpected s status =
      if not (is_some s.withdrawal_id) && status == Status.bad_request
      then (
        hold s http_rejected "HTTP response needs operator review",
        some (actionable "withdrawal_held"),
      )
      else fail_with s ("Circle returned HTTP " ++ w.status_text status) (
          if status == Status.too_many_requests
          then transient "rate_limited"
          else transient "unexpected_status")

  -- The withdrawals of the reply: a lookup is answered with one, a POST with a list.
  unfoldable pub read_list :
      Option (List WithdrawalResponse) → Result FailureClass (Option WithdrawalResponse)
  read_list none = ok none
  read_list (some []) = ok none
  read_list (some (r ∷ [])) = ok (some r)
  read_list (some (r ∷ q ∷ rs)) = err (integrity "extra_withdrawals")

  unfoldable pub read_withdrawal : Bool → Bytes → Result FailureClass (Option WithdrawalResponse)
  unfolding read_list
  read_withdrawal true body = ok (w.withdrawal body)
  read_withdrawal false body = read_list (w.withdrawals body)

  unfoldable pub one_hash : SavedSubmission → List String → Bool
  one_hash s (h ∷ []) = option_eq ◌==◌ (w.b256 h) (some s.transfer_spec_hash)
  one_hash s _ = false

  unfoldable pub keeps_id : SavedSubmission → String → Bool
  keeps_id s id = elim s.withdrawal_id [ none ↦ true | some known ↦ str_eq known id ]

  -- The reply identifies the saved withdrawal.
  unfoldable pub identifies : SavedSubmission → WithdrawalResponse → Bool
  unfolding matches_note one_hash keeps_id
  identifies s r =
      is_well_formed_id r.withdrawal_id
      && (matches_note s r.burn_note_id
          && (one_hash s r.transfer_spec_hashes && keeps_id s r.withdrawal_id))

  -- Circle's status of an identified withdrawal.
  unfoldable pub read_status :
      SavedSubmission → String → Option String → SavedSubmission × Option FailureClass
  read_status s status reason =
      if str_eq status "created" || (str_eq status "verified" || str_eq status "confirmed")
      then (record s { status = submitted }, none)
      else if str_eq status "finalized"
      then (record s { status = finalized }, none)
      else if str_eq status "expired"
      then (record s { status = expired }, none)
      else if str_eq status "failed"
      then (
        record s { status = failed; last_error = reason },
        some (actionable "withdrawal_failed"),
      )
      else fail_with s "Circle returned an unknown withdrawal status" (transient "unknown_status")

  unfoldable pub read_identified :
      SavedSubmission → WithdrawalResponse → SavedSubmission × Option FailureClass
  read_identified s r =
      if identifies s r
      then read_status (record s { withdrawal_id = some r.withdrawal_id }) r.status r.failure_reason
      else fail_with s "response does not identify the saved withdrawal"
          (integrity "wrong_withdrawal")

  unfoldable pub read_found :
      SavedSubmission
      → Result FailureClass (Option WithdrawalResponse)
      → SavedSubmission × Option FailureClass
  read_found s (err class) = fail_with s "response contains extra withdrawals" class
  read_found s (ok none) =
      fail_with s "Circle returned an incomplete or malformed response"
        (transient "invalid_response")
  read_found s (ok (some r)) = read_identified s r

  unfoldable pub read_expected : SavedSubmission → Bytes → SavedSubmission × Option FailureClass
  read_expected s body = read_found s (read_withdrawal (is_some s.withdrawal_id) body)

  -- A lookup expects 200, a POST 201.
  abbrev expected_status : SavedSubmission → ℕ
  expected_status s = if is_some s.withdrawal_id then Status.ok else Status.created

  unfoldable pub read_response :
      SavedSubmission → RawResponse → SavedSubmission × Option FailureClass
  read_response s response =
      if response.status == expected_status s
      then read_expected s response.body
      else read_unexpected s response.status
