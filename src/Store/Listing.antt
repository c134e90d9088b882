-- ===== src/Store/Listing.antt =====
-- What operators see: `holds_page` of crates/xusdc-light-attester/src/store.rs with its page in
-- `handle_admin` of attester.rs, and `progress`. The texts of an entry are shown from the columns
-- kept here: its kind and reason, and Circle's message in its answer.
pub mod Entries
pub mod Pages
pub mod Unfinished
use miden_usdcx.Prelude.{
  ℕ, ◌+◌, Bool, true, false, not, ◌&&◌, ◌||◌, Option, none, some, List, [], ◌∷◌, ◌++◌, map, Bytes,
  ◌==◌, ltb, min, is_none, is_some, length, take, if◌then◌else◌, Result, ok, err, ensure, ok_or,
  ◌>>◌, ◌>>=◌,
}
use miden_usdcx.Submission.{
  SavedSubmission, HoldReason, held, failed, submitting, submitted, finalized, status_eq,
}
use miden_usdcx.Sql.{find, select, count, order_by}
use miden_usdcx.Sql.Ascending.{by_key, is_above}
use miden_usdcx.Store.{
  Store, StoreError, invalid, BurnRow, BurnHoldReason, Event, burn_held, kind_eq, submission_at,
}
use miden_usdcx.Store.History.{max_seq}
use miden_usdcx.Store.Holds.{revision, burn_is_held}
use miden_usdcx.Store.Limits.{is_waiting}
use miden_usdcx.Store.Reads.{last}

-- A held burn or a held withdrawal, with its reason.
pub data HeldBy : Type 0 where
  burn_hold : BurnHoldReason → HeldBy
  withdrawal_hold : Option HoldReason → HeldBy

-- A row of the union that `holds_page` selects from.
pub record HeldRow : Type 0 where
  pub note_id : ℕ
  pub held_by : HeldBy
  pub http_status : Option ℕ
  pub response : Option Bytes

pub record HoldEntry : Type 0 where
  pub row : HeldRow
  pub event_seq : ℕ

abbrev pub row_note : HeldRow → ℕ
row_note row = row.note_id

abbrev pub entry_note_id : HoldEntry → ℕ
entry_note_id entry = entry.row.note_id

abbrev seq_of : Event → ℕ
seq_of e = e.seq

-- The joined row of history: the latest one that held the burn.
unfoldable pub latest_hold : Store → ℕ → Option Event
latest_hold s k = elim (max_seq (λ e. e.note_id == k && kind_eq e.kind burn_held) s.events) [
  | none ↦ none
  | some seq ↦ find seq_of seq s.events
]

-- Circle's answer, unless the row has an old snapshot of a submission.
unfoldable pub held_burn : ℕ → BurnHoldReason → Option Event → HeldRow
held_burn k reason none = record {
  note_id = k;
  held_by = burn_hold reason;
  http_status = none;
  response = none;
}
held_burn k reason (some e) = record {
  note_id = k;
  held_by = burn_hold reason;
  http_status = if is_none e.status then e.http_status else none;
  response = if is_none e.status then e.response else none;
}

unfoldable pub held_burns : Store → List BurnRow → List HeldRow
unfolding held_burn latest_hold
held_burns s [] = []
held_burns s (b ∷ rows) =
    let rest = held_burns s rows in
    elim b.hold_reason [
      | none ↦ rest
      | some reason ↦ held_burn b.note_id reason (latest_hold s b.note_id) ∷ rest
    ]

abbrev held_withdrawal : SavedSubmission → HeldRow
held_withdrawal r = record {
  note_id = r.note_id;
  held_by = withdrawal_hold r.hold_reason;
  http_status = r.last_http_status;
  response = r.last_response;
}

unfoldable pub held_rows : Store → List HeldRow
unfolding held_burns
held_rows s =
    held_burns s s.burns
    ++ map held_withdrawal (select (λ r. status_eq r.status held) s.submissions)

-- `?1 IS NULL OR note_id > ?1`
abbrev pub is_after : Option ℕ → HeldRow → Bool
is_after none row = true
is_after (some k) row = is_above row_note k row

-- `HOLDS_PAGE`
abbrev pub holds_per_page : ℕ
holds_per_page = 100

unfoldable pub read_hold : Store → HeldRow → Result StoreError HoldEntry
read_hold s row = do
  seq ← ok_or (revision s row.note_id) invalid
  ensure (ltb 0 seq) invalid
  ok (record { row = row; event_seq = seq })

unfoldable pub read_holds : Store → List HeldRow → Result StoreError (List HoldEntry)
unfolding read_hold
read_holds s [] = ok []
read_holds s (row ∷ rows) = do entry ← read_hold s row; rest ← read_holds s rows; ok (entry ∷ rest)

unfoldable pub holds_page : Store → Option ℕ → Result StoreError (List HoldEntry)
unfolding read_holds held_rows
holds_page s after =
    read_holds s (
      take (holds_per_page + 1)
        (order_by (by_key row_note) (select (is_after after) (held_rows s))))

-- The page also names the configured faucet and anchor.
pub record HoldsPage : Type 0 where
  pub holds : List HoldEntry
  pub next_after : Option ℕ

abbrev note_after : Option HoldEntry → Option ℕ
note_after none = none
note_after (some entry) = some (entry_note_id entry)

-- One hold past the page means another page follows; the last hold shown is its cursor.
unfoldable pub page_of : List HoldEntry → HoldsPage
page_of holds =
    let shown = take holds_per_page holds in
    if ltb holds_per_page (length holds)
    then record { holds = shown; next_after = note_after (last shown) }
    else record { holds = holds; next_after = none }

-- The answer to `Operation::List`.
unfoldable pub list_holds : Store → Option ℕ → Result StoreError HoldsPage
unfolding holds_page page_of
list_holds s after = do holds ← holds_page s after; ok (page_of holds)

-- The work that is not finished, as the alerts count it.
pub record Progress : Type 0 where
  pub burns_held : ℕ
  pub withdrawals_held : ℕ
  pub withdrawals_failed : ℕ
  pub withdrawals_pending : ℕ
  pub burns_unfinished : ℕ
  pub oldest_unfinished_burn : Option ℕ
  pub withdrawal_limit_waiting : ℕ

abbrev pub is_unfinished : Store → BurnRow → Bool
is_unfinished s b =
    is_some b.consumption_block
    && (is_none b.hold_reason && (elim (submission_at s b.note_id) [
      | none ↦ true
      | some r ↦
          not
            (status_eq r.status held || (status_eq r.status failed || status_eq r.status finalized))
    ]))

-- `MIN(consumption_block)`
unfoldable pub oldest : List BurnRow → Option ℕ
oldest [] = none
oldest (b ∷ rows) =
    let rest = oldest rows in
    elim b.consumption_block [
      | none ↦ rest
      | some block ↦ elim rest [ none ↦ some block | some other ↦ some (min block other) ]
    ]

unfoldable pub progress : Store → Progress
unfolding oldest
progress s = record {
  burns_held = count burn_is_held s.burns;
  withdrawals_held = count (λ r. status_eq r.status held) s.submissions;
  withdrawals_failed = count (λ r. status_eq r.status failed) s.submissions;
  withdrawals_pending =
      count (λ r. status_eq r.status submitting || status_eq r.status submitted) s.submissions;
  burns_unfinished = count (is_unfinished s) s.burns;
  oldest_unfinished_burn = oldest (select (is_unfinished s) s.burns);
  withdrawal_limit_waiting = count is_waiting s.burns;
}
