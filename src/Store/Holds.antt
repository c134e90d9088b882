-- ===== src/Store/Holds.antt =====
-- `hold_burn`, `release_hold`, `release_holds` and `release_checked` of
-- crates/xusdc-light-attester/src/store.rs: the holds that wait for an operator.
use miden_usdcx.Prelude.{
  ℕ, ◌+◌, Bool, true, not, ◌&&◌, ◌||◌, Option, none, some, List, [], ◌∷◌, Bytes, ◌==◌, is_some,
  is_none, if◌then◌else◌, Result, ok, err, ensure, map_err, ◌>>◌, ◌>>=◌,
}
use miden_usdcx.Prelude.Int.{ℤ, is_positive, to_ℕ}
use miden_usdcx.Submission.{SavedSubmission, held, status_eq}
use miden_usdcx.Sql.{anything, update, delete, changed, exists}
use miden_usdcx.Store.{
  Store, StoreError, invalid, conflict, BurnRow, BurnHoldReason, Event, burn_held, burn_released,
  operator_release, burn_key, submission_key,
}
use miden_usdcx.Store.History.{record_event, next_seq, max_seq, add_event}

pub data ReleaseError : Type 0 where
  invalid_selection hold_changed circle_check : ReleaseError
  not_held : ℕ → ReleaseError
  store_failed : StoreError → ReleaseError

pub record ReleaseSelection : Type 0 where
  pub note_id : ℕ
  pub expected_event_seq : ℤ
  pub circle_not_accepted : Bool

-- How many burns and withdrawals a call released.
pub record Released : Type 0 where
  pub burns : ℕ
  pub withdrawals : ℕ

abbrev pub put_hold : BurnHoldReason → BurnRow → BurnRow
put_hold reason b = record b { hold_reason = some reason; withdrawal_limit_retry_at = none }

abbrev pub clear_hold : BurnRow → BurnRow
clear_hold b = record b { hold_reason = none }

abbrev pub burn_is_held : BurnRow → Bool
burn_is_held b = is_some b.hold_reason

-- A held withdrawal that Circle gave no ID; its reason is the only one there is.
abbrev pub withdrawal_is_releasable : SavedSubmission → Bool
withdrawal_is_releasable r =
    status_eq r.status held && (is_some r.hold_reason && is_none r.withdrawal_id)

-- The row that a hold writes, with Circle's answer if one caused the hold.
unfoldable pub hold_event : ℕ → ℕ → ℕ → BurnHoldReason → Option (ℕ × Bytes) → Event
hold_event seq now k reason response = record {
  seq = seq;
  note_id = k;
  recorded_at = now;
  kind = burn_held;
  status = none;
  withdrawal_id = none;
  body = none;
  transfer_spec_hash = none;
  http_status = (elim response [ none ↦ none | some (status, body) ↦ some status ]);
  response = (elim response [ none ↦ none | some (status, body) ↦ some body ]);
  error = none;
  endpoint = none;
  hold_reason = none;
  burn_hold_reason = some reason;
  circle_status = none;
}

unfoldable pub hold_burn :
    Store → ℕ → ℕ → BurnHoldReason → Option (ℕ × Bytes) → Result StoreError Store
hold_burn s now k reason response = do
  ensure (changed burn_key k anything s.burns == 1) conflict
  ok (
      add_event (record s { burns = update burn_key k anything (put_hold reason) s.burns })
        (hold_event (next_seq s.events) now k reason response))

unfoldable pub release_burn : Store → ℕ → ℕ → Result ReleaseError (Store × Released)
release_burn s now k = do
  recorded ← map_err store_failed (record_event s now k burn_released none)
  ok (
    record recorded { burns = update burn_key k anything clear_hold recorded.burns },
    record { burns = changed burn_key k anything recorded.burns; withdrawals = 0 },
  )

unfoldable pub release_withdrawal : Store → ℕ → ℕ → Bool → Result ReleaseError (Store × Released)
release_withdrawal s now k circle_not_accepted = do
  ensure circle_not_accepted circle_check
  recorded ← map_err store_failed (record_event s now k operator_release none)
  ensure (changed submission_key k anything recorded.submissions == 1) (store_failed conflict)
  ok (
    record recorded { submissions = delete submission_key k anything recorded.submissions },
    record { burns = 0; withdrawals = 1 },
  )

unfoldable pub release_hold : Store → ℕ → ℕ → Bool → Result ReleaseError (Store × Released)
release_hold s now k circle_not_accepted =
    if exists burn_key k burn_is_held s.burns
    then release_burn s now k
    else if exists submission_key k withdrawal_is_releasable s.submissions
    then release_withdrawal s now k circle_not_accepted
    else err (not_held k)

-- `BTreeSet`: the notes in the order of `NoteId`, each once.
unfoldable pub set_insert : (ℕ → ℕ → Bool) → ℕ → List ℕ → List ℕ
set_insert before k [] = k ∷ []
set_insert before k (j ∷ js) =
    let rest = set_insert before k js in
    if k == j then j ∷ js else if before k j then k ∷ j ∷ js else j ∷ rest

unfoldable pub btree_set : (ℕ → ℕ → Bool) → List ℕ → List ℕ
unfolding set_insert
btree_set before [] = []
btree_set before (k ∷ ks) = set_insert before k (btree_set before ks)

-- The loop of `release_holds`: the first failure rolls the transaction back.
unfoldable pub release_each : Store → ℕ → List ℕ → Released → Result ReleaseError (Store × Released)
release_each s now [] total = ok (s, total)
release_each s now (k ∷ ks) total = elim (release_hold s now k true) [
  | err e ↦ err e
  | ok (next, one) ↦ release_each next now ks (record {
    burns = total.burns + one.burns;
    withdrawals = total.withdrawals + one.withdrawals;
  })
]

unfoldable pub release_holds :
    (ℕ → ℕ → Bool) → Store → ℕ → List ℕ → Result ReleaseError (Store × Released)
release_holds before s now ks =
    release_each s now (btree_set before ks) (record { burns = 0; withdrawals = 0 })

abbrev of_note : ℕ → Event → Bool
of_note k e = e.note_id == k

-- `SELECT MAX(seq) … WHERE note_id = k`
unfoldable pub revision : Store → ℕ → Option ℕ
revision s k = max_seq (of_note k) s.events

-- A hold without history: holding a note writes a row, so the store is damaged.
unfoldable pub has_hold : Store → ℕ → Bool
has_hold s k =
    exists burn_key k burn_is_held s.burns
    || exists submission_key k (λ r. status_eq r.status held) s.submissions

unfoldable pub release_checked :
    Store → ℕ → ReleaseSelection → Result ReleaseError (Store × Released)
release_checked s now selection =
    let k = selection.note_id in
    if not (is_positive selection.expected_event_seq)
    then err invalid_selection
    else elim (revision s k) [
      | none ↦ if has_hold s k then err (store_failed invalid) else err (not_held k)
      | some seq ↦
          if seq == to_ℕ selection.expected_event_seq
          then release_hold s now k selection.circle_not_accepted
          else err hold_changed
    ]
