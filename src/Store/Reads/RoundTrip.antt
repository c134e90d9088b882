-- ===== src/Store/Reads/RoundTrip.antt =====
-- What `save_scan_progress` of crates/xusdc-light-attester/src/store.rs writes, read back.
use miden_usdcx.Prelude.{ℕ, ◌≡◌, refl, subst, true, none, some, List, [], ◌∷◌, ◌++◌, arith, leb, ok}
use miden_usdcx.Burn.{NoteCodec, BurnCandidate, into_discovered}
use miden_usdcx.Sql.{find, select, order_by, insert_by, update, changed}
use miden_usdcx.Sql.Laws.{Unique, find-append, find-update, changed-hits, append-Unique}
use miden_usdcx.Store.{Store, BurnRow, burn_key}
use miden_usdcx.Store.Scan.{row_of, is_candidate, insert_candidate, insert_burn, consumed_at}
use miden_usdcx.Store.Sound.{nullifier_key}
use miden_usdcx.Store.Sound.Scan.{insert_row_lem}
use miden_usdcx.Store.Reads.{
  max_block, decode_all, decode_candidate, decode_burn, load_candidates, candidate_by_nullifier,
  last, has_nullifier,
}
use miden_usdcx.Store.Reads.Readable.{IsRecognised, row_of-decode, decode_burn_lem}

-- A nullifier that no row has selects no row.
select_unmatched :
    (n : ℕ) (rows : List BurnRow)
    → find nullifier_key n rows ≡ none
    → select (has_nullifier n) rows ≡ []
unfolding find select
select_unmatched n [] h = refl
select_unmatched n (b ∷ rows) h = ground (arith, select_unmatched n rows)

select_new :
    (row : BurnRow) (rows : List BurnRow)
    → find nullifier_key row.nullifier rows ≡ none
    → is_candidate row ≡ true
    → select (has_nullifier row.nullifier) (rows ++ row ∷ []) ≡ row ∷ []
unfolding find select
select_new row [] h c = ground arith
select_new row (b ∷ rows) h c = ground (arith, select_new row rows)

-- One row under the nullifier is the row that is found.
one_candidate :
    (codec : NoteCodec) (s : Store) (faucet n : ℕ) (row : BurnRow) (c : BurnCandidate)
    → select (has_nullifier n) s.burns ≡ row ∷ []
    → decode_candidate codec faucet row ≡ ok c
    → candidate_by_nullifier codec s faucet n ≡ ok (some c)
unfolding candidate_by_nullifier load_candidates order_by insert_by decode_all last
one_candidate codec s faucet n row c h e = rw (h, e) refl

-- A recognised candidate whose note's bytes decode to it, once saved, is found under its
-- nullifier, and it is the candidate that was saved: its note, its block, its items and its
-- amount.
pub insert_candidate-roundtrip :
    (codec : NoteCodec) (s : Store) (faucet : ℕ) (c : BurnCandidate) (next : List BurnRow)
    → IsRecognised codec faucet c
    → insert_candidate codec s.burns c ≡ ok next
    → candidate_by_nullifier codec (record s { burns = next }) faucet c.note.nullifier ≡ ok (some c)
unfolding insert_candidate row_of
insert_candidate-roundtrip codec s faucet c next known h =
    let row = row_of codec c.note c.creation_block none in
    let l = insert_row_lem row s.burns next h in
    one_candidate codec (record s { burns = next }) faucet c.note.nullifier row c
      (subst (λ rows. select (has_nullifier c.note.nullifier) rows ≡ row ∷ []) l.3
        (select_new row s.burns l.2 refl))
      (row_of-decode codec faucet c none known)

-- In a table with at most one row per note, a recognised candidate whose note's bytes decode to
-- it, once saved and then promoted at a block whose number fits 32 bits, has a row that is read
-- as the burn that the candidate makes.
pub insert_burn-roundtrip :
    (codec : NoteCodec) (faucet block : ℕ) (c : BurnCandidate) (rows mid next : List BurnRow)
    → IsRecognised codec faucet c
    → leb block max_block ≡ true
    → Unique burn_key rows
    → insert_candidate codec rows c ≡ ok mid
    → insert_burn codec mid (into_discovered c block) ≡ ok next
    → (row : BurnRow) × (find burn_key c.note.id next ≡ some row)
      × (decode_burn codec faucet row ≡ ok (into_discovered c block))
unfolding insert_candidate insert_burn row_of
insert_burn-roundtrip codec faucet block c rows mid next known small keys h g =
    let k = c.note.id in
    let row = row_of codec c.note c.creation_block none in
    let l = insert_row_lem row rows mid h in
    let found : find burn_key k mid ≡ some row =
      subst (λ all. find burn_key k all ≡ some row) l.3
        (ground (arith, find-append burn_key k rows row)) in
    let unique : Unique burn_key mid =
      subst (Unique burn_key) l.3 (append-Unique burn_key rows row l.1 keys) in
    let one : changed burn_key k is_candidate mid ≡ 1 =
      ground (arith, changed-hits burn_key k is_candidate mid unique) in
    let p : update burn_key k is_candidate (consumed_at block) mid ≡ next = ground arith in
    (
      consumed_at block row,
      subst (λ all. find burn_key k all ≡ some (consumed_at block row)) p
          (ground
            (arith, find-update burn_key k k is_candidate (consumed_at block) mid (λ b q. q))),
      decode_burn_lem codec faucet (consumed_at block row) c block
          (row_of-decode codec faucet c (some block) known) refl small,
    )
