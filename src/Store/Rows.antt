-- ===== src/Store/Rows.antt =====
-- `validate_submission` and `validate_submission_outcome` of
-- crates/xusdc-light-attester/src/store.rs, with `validate_saved_request` of verify.rs: the checks
-- that a saved request passes whenever it is written or read.
use miden_usdcx.Prelude.{
  ℕ, String, Bool, true, false, not, ◌&&◌, ◌||◌, Option, none, some, str_eq, is_some, Result,
  ensure, ◌>>◌, ok, ◌≡◌, arith,
}
use miden_usdcx.Circle.{Wire}
use miden_usdcx.Submission.{SavedSubmission, SubmissionStatus, submitting, held, status_eq}
use miden_usdcx.Submission.Id.{is_well_formed_id}
use miden_usdcx.Store.{StoreError, invalid}

-- The statuses that only an accepted withdrawal has.
abbrev pub needs_id : SubmissionStatus → Bool
needs_id submitting = false
needs_id held = false
needs_id _ = true

abbrev pub well_formed_if_known : Option String → Bool
well_formed_if_known none = true
well_formed_if_known (some id) = is_well_formed_id id

abbrev bool_eq : Bool → Bool → Bool
bool_eq true b = b
bool_eq false b = not b

module _ (w : Wire) where
  status_valid_if_known : Option ℕ → Bool
  status_valid_if_known none = true
  status_valid_if_known (some code) = w.status_is_valid code

  unfoldable pub outcome_is_valid : SavedSubmission → Bool
  unfolding status_valid_if_known
  outcome_is_valid r =
      bool_eq (status_eq r.status held) (is_some r.hold_reason)
      && (well_formed_if_known r.withdrawal_id
          && ((not (needs_id r.status) || is_some r.withdrawal_id)
              && status_valid_if_known r.last_http_status))

  unfoldable pub validate_submission_outcome : SavedSubmission → Result StoreError (Unit {0})
  validate_submission_outcome r = ensure (outcome_is_valid r) invalid

  -- The saved body has one batch, which names the note.
  unfoldable pub validate_saved_request : SavedSubmission → Bool
  validate_saved_request r = elim (w.saved_request r.body) [
    | none ↦ false
    | some burn_note_id ↦ str_eq burn_note_id (w.note_hex r.note_id)
  ]

  unfoldable pub request_is_valid : SavedSubmission → Bool
  unfolding validate_saved_request
  request_is_valid r =
      str_eq (w.scheme r.endpoint) "https"
      && (w.has_host r.endpoint
          && (str_eq (w.path r.endpoint) "/v1/withdraw" && validate_saved_request r))

  unfoldable pub validate_submission : SavedSubmission → Result StoreError (Unit {0})
  validate_submission r = do ensure (request_is_valid r) invalid; validate_submission_outcome r

  pub validate_submission_outcome_lem :
      (r : SavedSubmission) (u : Unit {0})
      → validate_submission_outcome r ≡ ok u
      → outcome_is_valid r ≡ true
  unfolding validate_submission_outcome
  validate_submission_outcome_lem r u h = ground arith

  pub validate_submission_lem :
      (r : SavedSubmission) (u : Unit {0})
      → validate_submission r ≡ ok u
      → (outcome_is_valid r ≡ true) × (request_is_valid r ≡ true)
  unfolding validate_submission validate_submission_outcome
  validate_submission_lem r u h = ground arith
