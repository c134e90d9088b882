-- ===== src/Circle.antt =====
-- crates/xusdc-light-attester/src/circle.rs: what Circle's xReserve API answers. The HTTP client,
-- the JSON decoder and the hex and URL parsers are libraries: `Wire` holds what the code calls of
-- them.
pub mod Value
pub mod Status
pub mod Cap
use Prim.Native.String.{[], ◌∷◌}
use text.Mathlib.Text.{starts_with}
use miden_usdcx.Prelude.{
  ℕ, zero, suc, ◌+◌, String, Bool, true, false, ◌&&◌, Option, none, some, List, Bytes, ◌==◌, leb,
  ltb, if◌then◌else◌, length, ◌++◌, ◌>>=◌, Result, ok, err,
}
use miden_usdcx.Telemetry.{FailureClass, actionable, transient}
use Value.{Json, index, as_str}
use Status

pub record RawResponse : Type 0 where
  pub status : ℕ
  pub body : Bytes

pub record WithdrawalResponse : Type 0 where
  pub withdrawal_id : String
  pub burn_note_id : String
  pub status : String
  pub transfer_spec_hashes : List String
  pub failure_reason : Option String

pub record WithdrawalConflict : Type 0 where
  pub withdrawal_id : Option String
  pub burn_note_id : Option String

pub record ConflictResponse : Type 0 where
  pub conflict : Option WithdrawalConflict

-- The library calls behind the wire formats: `serde_json::from_slice` at each type that the code
-- reads, `B256::from_str`, `NoteId::to_hex`, the parts of a `Url`, and `StatusCode`.
pub record Wire : Type 0 where
  pub value : Bytes → Option Json
  pub withdrawal : Bytes → Option WithdrawalResponse
  pub withdrawals : Bytes → Option (List WithdrawalResponse)
  pub conflict_response : Bytes → Option ConflictResponse
  -- The `burnTxId` of a saved request with exactly one batch.
  pub saved_request : Bytes → Option String
  pub b256 : String → Option ℕ
  pub note_hex : ℕ → String
  pub scheme : String → String
  pub has_host : String → Bool
  pub path : String → String
  pub status_is_valid : ℕ → Bool
  -- `to_string` of a status code
  pub status_text : ℕ → String
  -- `str::trim` leaves nothing
  pub is_blank : String → Bool

-- The nested `read_error` is kept as a text: nothing but a log reads it.
pub data CircleError : Type 0 where
  unavailable : CircleError
  transport : String → CircleError
  unexpected_status : ℕ → CircleError
  unexpected_prepare_status : ℕ → Bytes → CircleError
  invalid_response : CircleError
  body_too_large : CircleError
  invalid_url : CircleError
  rate_limited : Option Bytes → CircleError

-- A request that cannot be built needs an operator; every other failure is retried.
unfoldable pub failure : CircleError → FailureClass
failure invalid_url = actionable "invalid_url"
failure (rate_limited body) = transient "rate_limited"
failure unavailable = transient "circle_unavailable"
failure (transport e) = transient "circle_unavailable"
failure (unexpected_status s) = transient "unexpected_status"
failure (unexpected_prepare_status s b) = transient "unexpected_status"
failure invalid_response = transient "invalid_response"
failure body_too_large = transient "invalid_response"

abbrev pub is_rate_limited : CircleError → Bool
is_rate_limited (rate_limited body) = true
is_rate_limited _ = false

-- `reply["message"].as_str()` of a reply that is JSON.
unfoldable pub message : Wire → Bytes → Option String
message w body = elim (w.value body) [ none ↦ none | some reply ↦ as_str (index "message" reply) ]

-- A 400 whose message starts with the configured prefix.
unfoldable pub is_withdrawal_limit : Wire → ℕ → Bytes → String → Bool
unfolding message
is_withdrawal_limit w status body prefix =
    status == Status.bad_request
    && (elim (message w body) [ none ↦ false | some m ↦ starts_with m prefix ])

abbrev pub max_logged_message_chars : ℕ
max_logged_message_chars = 200

unfoldable pub take_chars : ℕ → String → String
take_chars zero s = []
take_chars (suc n) [] = []
take_chars (suc n) (c ∷ s) = c ∷ take_chars n s

unfoldable pub circle_message : Wire → Bytes → Option String
unfolding message take_chars
circle_message w body = elim (message w body) [
  | none ↦ none
  | some m ↦ some (take_chars max_logged_message_chars m)
]

abbrev pub max_response_body_bytes : ℕ
max_response_body_bytes = 1048576

-- The chunks of a reply: a chunk that could not be read ends it with its error.
pub data Chunks : Type 0 where
  end : Chunks
  chunk : Bytes → Chunks → Chunks
  broken : String → Chunks

-- The loop of `read_reply`: stop once the total passes the cap.
unfoldable pub read_chunks : Bytes → Chunks → Result CircleError Bytes
read_chunks body end = ok body
read_chunks body (chunk c cs) =
    let rest = read_chunks (body ++ c) cs in
    if ltb max_response_body_bytes (length body + length c) then err body_too_large else rest
read_chunks body (broken e) = err (transport e)

unfoldable pub read_reply : ℕ → Chunks → Result CircleError RawResponse
unfolding read_chunks
read_reply status chunks = elim (read_chunks (List.[]) chunks) [
  | ok body ↦
      if status == Status.too_many_requests
      then err (rate_limited (some body))
      else ok (record { status = status; body = body })
  | err e ↦ if status == Status.too_many_requests then err (rate_limited none) else err e
]

-- A 200 must decode as a prepared withdrawal, by `decode`; any other status keeps Circle's answer.
unfoldable pub read_prepared :
    {P : Type 0} → (Bytes → Option P) → RawResponse → Result CircleError P
read_prepared decode r =
    if r.status == Status.ok
    then (elim (decode r.body) [ none ↦ err invalid_response | some p ↦ ok p ])
    else err (unexpected_prepare_status r.status r.body)
