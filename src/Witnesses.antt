-- ===== src/Witnesses.antt =====
-- Concrete cases of the theorems on the store and on Circle's replies, with the runs they use.
pub mod Data
pub mod Quote
pub mod Cycle
pub mod Reads
pub mod Discover
pub mod Start
pub mod Listing
pub mod ProgressFile
pub mod Relayer
use miden_usdcx.Prelude.{
  ◌≡◌, refl, ◌≢◌, arith, true, false, ok, err, ℕ, some, none, [], ◌∷◌, ◌++◌, ◌⊎◌, ◌↔◌, List, Bytes,
  Option, bytes_eq,
}
use miden_usdcx.Prelude.Int.{ℤ, pos, is_positive, to_ℕ}
use miden_usdcx.Circle.{Wire, RawResponse}
use miden_usdcx.Submission.{SavedSubmission, SubmissionAttempt, first, recovery, submitted}
use miden_usdcx.Submission.Id.{is_well_formed_id}
use miden_usdcx.Submission.Reply.{read_response, read_conflict, identifies}
use miden_usdcx.Submission.Reply.Laws.{
  Keeps, SameRequest, has_good_id, read_response-Keeps, read_response-outcome_is_valid,
  read_response-status, read_conflict-valid, StatusChange,
}
use miden_usdcx.Sql.{find, changed, update, delete, exists, anything, select, order_by, insert_by}
use miden_usdcx.Store.{
  Store, Event, BurnRow, burn_at, submission_at, conflict, too_small_to_forward,
}
use miden_usdcx.Store.History.{
  record_event, next_seq, max_seq, snapshot, keeps_request, repeats_latest_outcome, latest_outcome,
}
use miden_usdcx.Store.History.Requests.{IsRecorded}
use miden_usdcx.Store.History.Growth.{Ascends}
use miden_usdcx.Store.Rows.{
  outcome_is_valid, request_is_valid, validate_submission, validate_submission_outcome,
  validate_saved_request,
}
use miden_usdcx.Store.Submissions.{
  authorize, save_submission, update_submission_outcome, record_outcome, end_limit_wait,
}
use miden_usdcx.Store.Holds.{
  Released, ReleaseSelection, release_checked, release_hold, release_burn, release_withdrawal,
  revision, hold_burn, hold_event,
}
use miden_usdcx.Store.Limits.{
  record_limit_rejection, reject_request, reject_rows, limit_event, first_limit_wait,
}
use miden_usdcx.Store.Scan.{
  save_scan_progress, insert_all, insert_burn, insert_candidate, insert_row, records_are_valid,
  row_of,
}
use miden_usdcx.Store.Sound.{IsSound}
use miden_usdcx.Store.Sound.Submissions.{
  Authorized, save_submission_lem, update_submission_outcome-IsSound,
}
use miden_usdcx.Store.Sound.Exclusive.{IsTaken, save_submission_succeeds}
use miden_usdcx.Store.Limits.First.{IsFirst, first_limit_wait-IsFirst}
use miden_usdcx.Store.Sound.Holds.{Releases, release_hold_lem, release_checked_lem}
use miden_usdcx.Store.Sound.Limits.{no_accepted, record_limit_rejection-IsSound}
use miden_usdcx.Store.Sound.Scan.{save_scan_progress-IsSound}
use miden_usdcx.Store.Steps.{Reach, here, next, saves, limits, Reach-IsSound, Reach-history}
use miden_usdcx.Store.Steps.Requests.{Reach-IsRecorded}
use Data.{circle_id, wire, codec, request, burn_row, with_burn, value_or, burn, block}

with_burn-IsSound : IsSound wire with_burn
unfolding find
with_burn-IsSound = record {
  burn_keys = (refl, tt);
  nullifiers = (refl, tt);
  submission_keys = tt;
  notes = λ k. ground arith;
}

-- A burn is signed for.
abbrev saved : Store
saved = value_or with_burn (save_submission wire with_burn 1000 request)

saves_run : save_submission wire with_burn 1000 request ≡ ok saved
unfolding save_submission authorize validate_submission validate_submission_outcome outcome_is_valid
    request_is_valid validate_saved_request record_event find
saves_run = refl

burn_run : burn_at with_burn 5 ≡ some burn_row
unfolding find
burn_run = refl

abbrev signs : Reach wire codec with_burn saved
signs = next here (saves 1000 request burn_row saves_run burn_run refl)

saved-IsSound : IsSound wire saved
saved-IsSound = Reach-IsSound refl signs with_burn-IsSound

Reach-IsSound_example : IsSound wire saved
Reach-IsSound_example = Reach-IsSound refl signs with_burn-IsSound

with_burn-IsRecorded : IsRecorded with_burn
unfolding find
with_burn-IsRecorded k = refl

Reach-IsRecorded_example : IsRecorded saved
Reach-IsRecorded_example = Reach-IsRecorded refl signs with_burn-IsSound with_burn-IsRecorded

Reach-history_example : ((new : List Event) × (saved.events ≡ [] ++ new)) × Ascends saved.events
Reach-history_example = Reach-history signs tt

save_submission_lem_example :
    (outcome_is_valid wire request ≡ true)
    × (request_is_valid wire request ≡ true)
    × (saved.burns ≡ with_burn.burns)
    × Authorized request with_burn.submissions saved.submissions
save_submission_lem_example = save_submission_lem wire with_burn saved 1000 request tt saves_run

-- Circle accepts it.
abbrev accepted : RawResponse
accepted = record { status = 201; body = 2 ∷ [] }

read_response-Keeps_example : Keeps request (read_response wire request accepted).0
read_response-Keeps_example = read_response-Keeps wire request accepted

request_is_valid_run : outcome_is_valid wire request ≡ true
unfolding outcome_is_valid
request_is_valid_run = refl

read_response-outcome_is_valid_example :
    outcome_is_valid wire (read_response wire request accepted).0 ≡ true
read_response-outcome_is_valid_example =
    read_response-outcome_is_valid wire request accepted refl request_is_valid_run

read_response-status_example :
    StatusChange wire request accepted (read_response wire request accepted)
read_response-status_example = read_response-status wire request accepted

read_conflict-valid_example :
    SameRequest (read_conflict wire request).0 request
    × ((read_conflict wire request).0.status ≡ request.status)
    × (outcome_is_valid wire (read_conflict wire request).0 ≡ true)
    × ((read_conflict wire request).1 ≡ none
        → has_good_id (read_conflict wire request).0.withdrawal_id ≡ true)
read_conflict-valid_example = read_conflict-valid wire request request_is_valid_run

-- The answer is stored.
abbrev answer : SavedSubmission
answer = record request {
  status = submitted;
  withdrawal_id = some circle_id;
  last_http_status = some 201;
}

abbrev answered_store : Store
answered_store = value_or saved (update_submission_outcome wire saved 1001 answer)

answered_run : update_submission_outcome wire saved 1001 answer ≡ ok answered_store
unfolding update_submission_outcome is_well_formed_id changed save_submission validate_submission
    request_is_valid validate_submission_outcome outcome_is_valid authorize find record_event
    record_outcome repeats_latest_outcome latest_outcome snapshot
answered_run = refl

-- The burn is held, and released at its revision.
abbrev held_store : Store
held_store = value_or with_burn (hold_burn with_burn 1000 5 too_small_to_forward none)

abbrev selection : ReleaseSelection
selection = record { note_id = 5; expected_event_seq = pos 1; circle_not_accepted = false }

abbrev released : Store × Released
released =
    value_or (held_store, record { burns = 0; withdrawals = 0 })
      (release_checked held_store 1001 selection)

release_run : release_checked held_store 1001 selection ≡ ok released
unfolding release_checked revision max_seq hold_burn changed hold_event next_seq release_hold exists
    update release_burn record_event find
release_run = refl

release_checked_lem_example :
    (revision held_store 5 ≡ some 1)
    × (true ≡ true)
    × (release_hold held_store 1001 5 false ≡ ok released)
release_checked_lem_example = release_checked_lem held_store 1001 selection released release_run

release_hold_lem_example : Releases held_store 5 false released
release_hold_lem_example =
    release_hold_lem held_store 1001 5 false released
      (release_checked_lem held_store 1001 selection released release_run).2

-- Circle's limit is reached by the first send.
abbrev limited : Store
limited = value_or saved (record_limit_rejection saved 1001 5 2000 (9 ∷ []) (some (request, first)))

limit_run : record_limit_rejection saved 1001 5 2000 (9 ∷ []) (some (request, first)) ≡ ok limited
unfolding record_limit_rejection changed save_submission validate_submission request_is_valid
    validate_submission_outcome outcome_is_valid authorize find record_event reject_request bytes_eq
limit_run = refl

free_run : no_accepted (submission_at saved 5) ≡ true
unfolding save_submission validate_submission request_is_valid validate_submission_outcome
    outcome_is_valid authorize find record_event
free_run = refl

-- A scan saves the burn in an empty store.
abbrev empty_store : Store
empty_store = record with_burn { burns = [] }

empty_store-IsSound : IsSound wire empty_store
unfolding find
empty_store-IsSound = record {
  burn_keys = tt;
  nullifiers = tt;
  submission_keys = tt;
  notes = λ k. refl;
}

abbrev scanned : Store
scanned = value_or empty_store (save_scan_progress codec empty_store [] (burn ∷ []) block)

scan_run : save_scan_progress codec empty_store [] (burn ∷ []) block ≡ ok scanned
unfolding save_scan_progress records_are_valid insert_all insert_burn find changed insert_row row_of
scan_run = refl

-- The saved request is live, so the burn cannot be signed for again.
save_submission_succeeds_example :
    ((t : Store) × (save_submission wire saved 1001 request ≡ ok t)) ↔ IsTaken wire saved request
save_submission_succeeds_example =
    save_submission_succeeds wire saved 1001 request saved-IsSound.submission_keys

-- One of two burns waits.
abbrev waiting_store : Store
waiting_store = record with_burn {
  burns = record burn_row { withdrawal_limit_retry_at = some 9 } ∷ [];
}

first_limit_wait-IsFirst_example : IsFirst waiting_store (first_limit_wait waiting_store)
first_limit_wait-IsFirst_example = first_limit_wait-IsFirst waiting_store
