-- ===== src/Store/Scan.antt =====
-- Saving a scanned block: `save_scan_progress`, `insert_candidate`, `insert_burn` and
-- `validate_discovery_records` of crates/xusdc-light-attester/src/store.rs. Block numbers are `u32`
-- in the source, so the range checks of the table always pass.
use miden_usdcx.Prelude.{
  ℕ, Bool, true, not, ◌||◌, Option, none, some, List, [], ◌∷◌, ◌++◌, ◌==◌, ltb, leb, any, is_none,
  if◌then◌else◌, Result, ok, err, ensure, ◌>>◌, ◌>>=◌,
}
use miden_usdcx.Burn.{BurnCandidate, DiscoveredBurn, NoteCodec, PublicNote}
use miden_usdcx.Sql.{find, update, changed}
use miden_usdcx.Store.{Store, StoreError, conflict, query_failed, BurnRow, BlockHeader, burn_key}

abbrev pub nullifier_key : BurnRow → ℕ
nullifier_key b = b.nullifier

-- Nothing saved with a block can come from a later one, and a burn is consumed after it is created.
unfoldable pub records_are_valid : List BurnCandidate → List DiscoveredBurn → ℕ → Bool
records_are_valid candidates burns block = not (
    any (λ c. ltb block c.creation_block) candidates
    || any (λ b. leb b.consumption_block b.creation_block || ltb block b.consumption_block) burns)

-- An insert, under the PRIMARY KEY and UNIQUE columns and the CHECK on the blocks.
unfoldable pub insert_row : BurnRow → List BurnRow → Result StoreError (List BurnRow)
insert_row row rows = do
  ensure (elim row.consumption_block [ none ↦ true | some c ↦ ltb row.creation_block c ])
      query_failed
  ensure (is_none (find burn_key row.note_id rows)) conflict
  ensure (is_none (find nullifier_key row.nullifier rows)) conflict
  ok (rows ++ row ∷ [])

abbrev pub is_candidate : BurnRow → Bool
is_candidate b = is_none b.consumption_block

abbrev pub consumed_at : ℕ → BurnRow → BurnRow
consumed_at block b = record b { consumption_block = some block }

-- The CHECK on the row that a promotion would write.
abbrev pub may_be_consumed : ℕ → Option BurnRow → Bool
may_be_consumed block none = true
may_be_consumed block (some b) = not (is_candidate b) || ltb b.creation_block block

unfoldable pub insert_all :
    {A : Type 0}
    → (List BurnRow → A → Result StoreError (List BurnRow))
    → List BurnRow
    → List A
    → Result StoreError (List BurnRow)
insert_all insert rows [] = ok rows
insert_all insert rows (a ∷ rest) = elim (insert rows a) [
  | err e ↦ err e
  | ok next ↦ insert_all insert next rest
]

module _ (codec : NoteCodec) where
  unfoldable pub row_of : PublicNote → ℕ → Option ℕ → BurnRow
  row_of note creation_block consumption_block = record {
    note_id = note.id;
    nullifier = note.nullifier;
    note = codec.to_bytes note;
    creation_block = creation_block;
    consumption_block = consumption_block;
    hold_reason = none;
    withdrawal_limit_retry_at = none;
  }

  -- A note already recorded, as a candidate or as a burn, clashes with the table's keys.
  unfoldable pub insert_candidate : List BurnRow → BurnCandidate → Result StoreError (List BurnRow)
  insert_candidate rows c = insert_row (row_of c.note c.creation_block none) rows

  -- Promotion turns the saved candidate into the burn in place; any other burn is inserted.
  unfoldable pub insert_burn : List BurnRow → DiscoveredBurn → Result StoreError (List BurnRow)
  insert_burn rows burn =
      let k = burn.note.id in
      let block = burn.consumption_block in
      if not (may_be_consumed block (find burn_key k rows))
      then err query_failed
      else if changed burn_key k is_candidate rows == 1
      then ok (update burn_key k is_candidate (consumed_at block) rows)
      else insert_row (row_of burn.note burn.creation_block (some block)) rows

  -- One block's evidence and its verified header commit as one unit.
  unfoldable pub save_scan_progress :
      Store → List BurnCandidate → List DiscoveredBurn → BlockHeader → Result StoreError Store
  save_scan_progress s candidates burns checkpoint = do
    ensure (records_are_valid candidates burns checkpoint.block_num) conflict
    with_candidates ← insert_all insert_candidate s.burns candidates
    with_burns ← insert_all insert_burn with_candidates burns
    ok (record s { burns = with_burns; checkpoint = some checkpoint })
