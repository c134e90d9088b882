-- ===== src/Store/History.antt =====
-- `record_event`, `repeats_latest_outcome` and `circle_status` of
-- crates/xusdc-light-attester/src/store.rs: the history table, which only grows.
pub mod Laws
pub mod Growth
pub mod Requests
use miden_usdcx.Prelude.{
  ℕ, suc, String, Bool, true, false, ◌&&◌, Option, none, some, List, [], ◌∷◌, ◌++◌, Bytes, ◌==◌,
  ltb, str_eq, option_eq, if◌then◌else◌, any, max, Result, ok, err,
}
use miden_usdcx.Circle.{Wire}
use miden_usdcx.Circle.Value.{Json, get, get_first, as_str}
use miden_usdcx.Submission.{SavedSubmission, status_eq}
use miden_usdcx.Store.{
  Store, StoreError, conflict, BurnRow, Event, EventKind, authorized, outcome, kind_eq, burn_at,
  submission_at,
}

-- `SELECT MAX(seq) … WHERE p`
unfoldable pub max_seq : (Event → Bool) → List Event → Option ℕ
max_seq p [] = none
max_seq p (e ∷ es) =
    let rest = max_seq p es in
    if p e then (elim rest [ none ↦ some e.seq | some m ↦ some (max e.seq m) ]) else rest

abbrev pub or_zero : Option ℕ → ℕ
or_zero none = 0
or_zero (some n) = n

-- AUTOINCREMENT: one more than every number used. No row is ever removed.
unfoldable pub next_seq : List Event → ℕ
unfolding max_seq
next_seq es = suc (or_zero (max_seq (λ e. true) es))

-- `EventKind::keeps_request`
unfoldable pub keeps_request : EventKind → Bool
keeps_request authorized = true
keeps_request _ = false

abbrev when_kept : {A : Type 0} → Bool → A → Option A
when_kept true a = some a
when_kept false a = none

-- The columns that a row takes from the burn and its submission.
unfoldable pub snapshot :
    ℕ → ℕ → EventKind → Option String → BurnRow → Option SavedSubmission → Event
unfolding keeps_request
snapshot seq now kind circle_status b none = record {
  seq = seq;
  note_id = b.note_id;
  recorded_at = now;
  kind = kind;
  status = none;
  withdrawal_id = none;
  body = none;
  transfer_spec_hash = none;
  http_status = none;
  response = none;
  error = none;
  endpoint = none;
  hold_reason = none;
  burn_hold_reason = b.hold_reason;
  circle_status = circle_status;
}
snapshot seq now kind circle_status b (some r) = record {
  seq = seq;
  note_id = b.note_id;
  recorded_at = now;
  kind = kind;
  status = some r.status;
  withdrawal_id = r.withdrawal_id;
  body = when_kept (keeps_request kind) r.body;
  transfer_spec_hash = some r.transfer_spec_hash;
  http_status = r.last_http_status;
  response = r.last_response;
  error = r.last_error;
  endpoint = when_kept (keeps_request kind) r.endpoint;
  hold_reason = r.hold_reason;
  burn_hold_reason = b.hold_reason;
  circle_status = circle_status;
}

abbrev pub add_event : Store → Event → Store
add_event s e = record s { events = s.events ++ e ∷ [] }

-- Appends one row, recording the burn as it now stands. The burn must be one the store knows.
unfoldable pub record_event : Store → ℕ → ℕ → EventKind → Option String → Result StoreError Store
record_event s now k kind circle_status = elim (burn_at s k) [
  | none ↦ err conflict
  | some b ↦
      ok (add_event s (snapshot (next_seq s.events) now kind circle_status b (submission_at s k)))
]

-- The status that Circle reports in a reply, which is a withdrawal or a list of one.
unfoldable pub circle_status : Wire → Option Bytes → Option String
circle_status w none = none
circle_status w (some body) = elim (w.value body) [
  | none ↦ none
  | some reply ↦
      let withdrawal : Json = elim (get_first reply) [ none ↦ reply | some v ↦ v ] in
      elim (get "status" withdrawal) [ none ↦ none | some status ↦ as_str status ]
]

abbrev of_note : ℕ → EventKind → Event → Bool
of_note k kind e = e.note_id == k && kind_eq e.kind kind

-- The number of the latest outcome since the latest authorization.
unfoldable pub latest_outcome : ℕ → List Event → Option ℕ
unfolding max_seq
latest_outcome k es =
    let since = or_zero (max_seq (of_note k authorized) es) in
    max_seq (λ e. of_note k outcome e && ltb since e.seq) es

-- The row records the same status, withdrawal ID, HTTP status, error and Circle status.
unfoldable pub same_outcome : SavedSubmission → Option String → Event → Bool
same_outcome r status e =
    option_eq status_eq e.status (some r.status)
    && (option_eq str_eq e.withdrawal_id r.withdrawal_id
        && (option_eq ◌==◌ e.http_status r.last_http_status
            && (option_eq str_eq e.error r.last_error && option_eq str_eq e.circle_status status)))

unfoldable pub repeats_latest_outcome : Store → SavedSubmission → Option String → Bool
repeats_latest_outcome s r status = elim (latest_outcome r.note_id s.events) [
  | none ↦ false
  | some m ↦ any (λ e. e.seq == m && same_outcome r status e) s.events
]
