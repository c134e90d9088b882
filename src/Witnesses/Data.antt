-- ===== src/Witnesses/Data.antt =====
-- Concrete libraries, requests and stores for the witnesses and tests.
use miden_usdcx.Prelude.{
  true, ◌&&◌, none, some, [], ◌∷◌, String, str_eq, bytes_eq, leb, ltb, if◌then◌else◌, Result, ok,
  err,
}
use miden_usdcx.Circle.{Wire, WithdrawalResponse}
use miden_usdcx.Burn.{PublicNote, NoteCodec, DiscoveredBurn}
use miden_usdcx.Submission.{SavedSubmission, submitting, expired}
use miden_usdcx.Store.{Store, BurnRow, BlockHeader}

abbrev pub circle_id : String
circle_id = "123e4567-e89b-12d3-a456-426614174000"

abbrev pub accepted_reply : WithdrawalResponse
accepted_reply = record {
  withdrawal_id = circle_id;
  burn_note_id = "0x05";
  status = "created";
  transfer_spec_hashes = "0x07" ∷ [];
  failure_reason = none;
}

-- The body [1] is one withdrawal, [2] a list of it; anything else is not JSON.
abbrev pub wire : Wire
wire = record {
  value = λ body. none;
  withdrawal = λ body. if bytes_eq body (1 ∷ []) then some accepted_reply else none;
  withdrawals = λ body. if bytes_eq body (2 ∷ []) then some (accepted_reply ∷ []) else none;
  conflict_response = λ body. none;
  saved_request = λ body. some "0x05";
  b256 = λ text. if str_eq text "0x07" then some 7 else none;
  note_hex = λ note. "0x05";
  scheme = λ url. "https";
  has_host = λ url. true;
  path = λ url. "/v1/withdraw";
  status_is_valid = λ code. leb 100 code && ltb code 1000;
  status_text = λ code. "status";
  is_blank = λ text. str_eq text "";
}

abbrev pub request : SavedSubmission
request = record {
  note_id = 5;
  endpoint = "https://circle/v1/withdraw";
  body = 1 ∷ 2 ∷ [];
  transfer_spec_hash = 7;
  status = submitting;
  withdrawal_id = none;
  hold_reason = none;
  last_http_status = none;
  last_response = none;
  last_error = none;
}

abbrev pub expired_request : SavedSubmission
expired_request = record request { status = expired; withdrawal_id = some circle_id }

abbrev pub burn_row : BurnRow
burn_row = record {
  note_id = 5;
  nullifier = 50;
  note = 5 ∷ [];
  creation_block = 1;
  consumption_block = some 3;
  hold_reason = none;
  withdrawal_limit_retry_at = none;
}

abbrev pub with_burn : Store
with_burn = record {
  faucet_account_id = 9;
  anchor_block = 0;
  anchor_commitment = 0;
  checkpoint = none;
  burns = burn_row ∷ [];
  submissions = [];
  events = [];
}

abbrev pub note : PublicNote
note = record {
  id = 5;
  nullifier = 50;
  sender = 4;
  script_root = 6;
  num_attachments = 2;
  routing = some (some 9);
  withdrawal = some (some (record { dest_domain = 0; dest_recipient = 77 }));
  assets = record { is_fungible = true; faucet_id = 9; elements = 1 ∷ []; amount = 1000 } ∷ [];
  storage = 1 ∷ [];
}

abbrev pub codec : NoteCodec
codec = record {
  to_bytes = λ n. n.id ∷ [];
  read_from_bytes = λ bytes. if bytes_eq bytes (5 ∷ []) then some note else none;
  burn_script_root = 6;
}

abbrev pub burn : DiscoveredBurn
burn = record {
  note = note;
  creation_block = 1;
  consumption_block = 3;
  items = record { dest_domain = 0; dest_recipient = 77 };
  amount = 1000;
}

abbrev pub block : BlockHeader
block = record { block_num = 4; commitment = 0; timestamp = 100 }

-- The value of a successful result.
abbrev pub value_or {ℓ} : {E : Type 0} {A : Type ℓ} → A → Result E A → A
value_or other (ok a) = a
value_or other (err e) = other
