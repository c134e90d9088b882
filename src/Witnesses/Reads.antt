-- ===== src/Witnesses/Reads.antt =====
-- Concrete cases of the theorems on the queries over `burns`.
use miden_usdcx.Prelude.{◌≡◌, refl, some, List, [], ◌∷◌, ok, All, bytes_eq}
use miden_usdcx.Burn.{BurnCandidate, into_discovered, new_candidate, new_discovered, asset_amount}
use miden_usdcx.Sql.{find, select, order_by, insert_by, changed, update, exists}
use miden_usdcx.Store.{Store, BurnRow, burn_key}
use miden_usdcx.Store.Scan.{insert_candidate, insert_burn, insert_row, row_of}
use miden_usdcx.Store.Reads.{
  decode_all, decode_note, decode_block_number, decode_burn, load_burns, burns_ready_for_withdrawal,
  consumed_by, candidate_by_nullifier,
}
use miden_usdcx.Store.Reads.Readable.{IsRecognised}
use miden_usdcx.Store.Reads.RoundTrip.{insert_candidate-roundtrip, insert_burn-roundtrip}
use miden_usdcx.Store.Reads.Ready.{IsDue, burns_ready_for_withdrawal-IsDue}
use miden_usdcx.Witnesses.Data.{note, codec, burn, block, with_burn, value_or}

abbrev candidate : BurnCandidate
candidate = record {
  note = note;
  creation_block = 1;
  items = record { dest_domain = 0; dest_recipient = 77 };
  amount = 1000;
}

recognised : IsRecognised codec 9 candidate
unfolding new_candidate asset_amount bytes_eq
recognised = record { decodes = refl; recognised = refl; in_range = refl }

abbrev saved_rows : List BurnRow
saved_rows = value_or [] (insert_candidate codec [] candidate)

saved_run : insert_candidate codec [] candidate ≡ ok saved_rows
unfolding insert_candidate insert_row find row_of
saved_run = refl

abbrev empty_store : Store
empty_store = record with_burn { burns = [] }

insert_candidate-roundtrip_example :
    candidate_by_nullifier codec (record empty_store { burns = saved_rows }) 9 50
    ≡ ok (some candidate)
insert_candidate-roundtrip_example =
    insert_candidate-roundtrip codec empty_store 9 candidate saved_rows recognised saved_run

abbrev consumed_rows : List BurnRow
consumed_rows = value_or [] (insert_burn codec saved_rows (into_discovered candidate 3))

consumed_run : insert_burn codec saved_rows (into_discovered candidate 3) ≡ ok consumed_rows
unfolding insert_candidate insert_burn insert_row find row_of changed update
consumed_run = refl

insert_burn-roundtrip_example :
    (row : BurnRow) × (find burn_key 5 consumed_rows ≡ some row)
    × (decode_burn codec 9 row ≡ ok (into_discovered candidate 3))
insert_burn-roundtrip_example =
    insert_burn-roundtrip codec 9 3 candidate [] saved_rows consumed_rows recognised refl tt
      saved_run consumed_run

-- The burn of block 3, two blocks below a verified header at 5.
abbrev deep_store : Store
deep_store = record with_burn { checkpoint = some (record block { block_num = 5 }) }

ready_run : burns_ready_for_withdrawal codec deep_store 9 4 2 ≡ ok (burn ∷ [])
unfolding burns_ready_for_withdrawal load_burns decode_all decode_burn decode_note
    decode_block_number consumed_by select order_by insert_by exists changed new_discovered
    new_candidate asset_amount bytes_eq
ready_run = refl

burns_ready_for_withdrawal-IsDue_example : All (IsDue deep_store 4 2) (burn ∷ [])
unfolding find
burns_ready_for_withdrawal-IsDue_example =
    burns_ready_for_withdrawal-IsDue codec deep_store 9 tt 4 2 (burn ∷ []) (refl, tt) ready_run
