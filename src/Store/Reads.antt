-- ===== src/Store/Reads.antt =====
-- What the attester reads of its scan: `checkpoint`, `note_known`, `load_candidates`,
-- `candidate_by_nullifier`, `load_burns`, `burns_ready_for_withdrawal`, `decode_note` and
-- `decode_block_number` of crates/xusdc-light-attester/src/store.rs.
pub mod Readable
pub mod RoundTrip
pub mod Ready
use miden_usdcx.Prelude.{
  ℕ, ◌-◌, Bool, true, false, not, ◌&&◌, ◌||◌, Option, none, some, List, [], ◌∷◌, Bytes, bytes_eq,
  ◌==◌, leb, ltb, min, is_none, is_some, if◌then◌else◌, Result, ok, err, ensure, ok_or, map_err,
  ◌>>◌, ◌>>=◌,
}
use miden_usdcx.Burn.{
  PublicNote, NoteCodec, BurnCandidate, DiscoveredBurn, InvalidBurnCandidate, new_candidate,
  new_discovered,
}
use miden_usdcx.Submission.{SavedSubmission, expired, status_eq}
use miden_usdcx.Sql.{exists, select, order_by, anything}
use miden_usdcx.Store.{Store, StoreError, invalid, BurnRow, BlockHeader, burn_key, submission_key}
use miden_usdcx.Store.Limits.{burn_before}
use miden_usdcx.Store.Scan.{is_candidate}

-- `u32::MAX`
abbrev pub max_block : ℕ
max_block = 4294967295

unfoldable pub decode_block_number : ℕ → Result StoreError ℕ
decode_block_number value = do ensure (leb value max_block) invalid; ok value

abbrev pub not_a_burn : InvalidBurnCandidate → StoreError
not_a_burn _ = invalid

unfoldable pub note_known : Store → ℕ → Bool
note_known s k = exists burn_key k anything s.burns

abbrev pub has_nullifier : ℕ → BurnRow → Bool
has_nullifier n b = is_candidate b && b.nullifier == n

-- `Vec::pop`
unfoldable pub last : {A : Type 0} → List A → Option A
last [] = none
last (x ∷ []) = some x
last (x ∷ y ∷ rest) = last (y ∷ rest)

-- A loop that pushes one decoded row after another, and stops at the first that does not decode.
unfoldable pub decode_all :
    {A : Type 0} → (BurnRow → Result StoreError A) → List BurnRow → Result StoreError (List A)
decode_all decode [] = ok []
decode_all decode (row ∷ rows) = do
  value ← decode row
  rest ← decode_all decode rows
  ok (value ∷ rest)

-- Work that no request holds, and that is not held itself; an expired request counts as none.
abbrev pub is_unsubmitted : Store → BurnRow → Bool
is_unsubmitted s b =
    is_none b.hold_reason
    && not (exists submission_key b.note_id (λ r. not (status_eq r.status expired)) s.submissions)

abbrev pub is_discovered : Bool → Store → BurnRow → Bool
is_discovered include_submitted s b =
    is_some b.consumption_block && (include_submitted || is_unsubmitted s b)

unfoldable pub consumed_by : ℕ → List DiscoveredBurn → List DiscoveredBurn
consumed_by block burns = select (λ b. leb b.consumption_block block) burns

module _ (codec : NoteCodec) where
  -- The saved bytes are the note's own, and the row's keys are the note's.
  unfoldable pub decode_note : Bytes → ℕ → ℕ → Result StoreError PublicNote
  decode_note bytes note_id nullifier = do
    note ← ok_or (codec.read_from_bytes bytes) invalid
    ensure (bytes_eq (codec.to_bytes note) bytes) invalid
    ensure (note.id == note_id && note.nullifier == nullifier) invalid
    ok note

  -- A row of `load_candidates`.
  unfoldable pub decode_candidate : ℕ → BurnRow → Result StoreError BurnCandidate
  unfolding decode_note decode_block_number
  decode_candidate faucet row = do
    note ← decode_note row.note row.note_id row.nullifier
    creation_block ← decode_block_number row.creation_block
    map_err not_a_burn (new_candidate codec note creation_block faucet)

  -- A row of `load_burns`, whose query takes only rows with a consumption block.
  unfoldable pub decode_burn : ℕ → BurnRow → Result StoreError DiscoveredBurn
  unfolding decode_note decode_block_number
  decode_burn faucet row = do
    note ← decode_note row.note row.note_id row.nullifier
    consumption ← ok_or row.consumption_block invalid
    creation_block ← decode_block_number row.creation_block
    consumption_block ← decode_block_number consumption
    map_err not_a_burn (new_discovered codec note creation_block consumption_block faucet)

  -- A further condition of the query is a filter on the rows without a consumption block.
  unfoldable pub load_candidates :
      Store → ℕ → (BurnRow → Bool) → Result StoreError (List BurnCandidate)
  unfolding decode_candidate
  load_candidates s faucet filter =
      decode_all (decode_candidate faucet)
        (order_by burn_before (select (λ b. is_candidate b && filter b) s.burns))

  unfoldable pub load_burns : Store → ℕ → Bool → Result StoreError (List DiscoveredBurn)
  unfolding decode_burn
  load_burns s faucet include_submitted =
      decode_all (decode_burn faucet)
        (order_by burn_before (select (is_discovered include_submitted s) s.burns))

  unfoldable pub candidate_by_nullifier : Store → ℕ → ℕ → Result StoreError (Option BurnCandidate)
  unfolding load_candidates
  candidate_by_nullifier s faucet nullifier = do
    candidates ← load_candidates s faucet (λ b. b.nullifier == nullifier)
    ok (last candidates)

  -- The depth is measured from the verified header, not from the node's reported tip; `checked_sub`
  -- fails on a chain shorter than the depth.
  unfoldable pub burns_ready_for_withdrawal :
      Store → ℕ → ℕ → ℕ → Result StoreError (List DiscoveredBurn)
  unfolding load_burns consumed_by
  burns_ready_for_withdrawal s faucet proof_lag_block minimum_depth_blocks = elim s.checkpoint [
    | none ↦ ok []
    | some checkpoint ↦ if ltb checkpoint.block_num minimum_depth_blocks then ok [] else (do
      burns ← load_burns s faucet false
      ok (consumed_by (min proof_lag_block (checkpoint.block_num - minimum_depth_blocks)) burns))
  ]
