-- ===== src/Store/Reads/Readable.antt =====
-- The rows of `burns` that `load_candidates` and `load_burns` of
-- crates/xusdc-light-attester/src/store.rs can decode.
use miden_usdcx.Prelude.{
  ℕ, ◌≡◌, refl, inl, inr, Bool, true, ◌&&◌, Option, some, List, [], ◌∷◌, arith, All, leb, is_some,
  bytes_eq_refl, Result, ok, Bool-cases, Option-cases,
}
use miden_usdcx.Burn.{
  NoteCodec, BurnCandidate, DiscoveredBurn, into_discovered, new_candidate, new_discovered,
}
use miden_usdcx.Sql.{select, order_by}
use miden_usdcx.Sql.Order.{order_by-All}
use miden_usdcx.Store.{Store, StoreError, BurnRow}
use miden_usdcx.Store.Limits.{burn_before}
use miden_usdcx.Store.Scan.{row_of, is_candidate}
use miden_usdcx.Store.Reads.{
  max_block, decode_all, decode_note, decode_block_number, decode_candidate, decode_burn,
  load_candidates, load_burns, is_discovered,
}

-- Notes that the scan has recognised: the note's bytes decode to it, it makes this candidate, and
-- its block number is a `u32`.
pub record IsRecognised (codec : NoteCodec) (faucet : ℕ) (c : BurnCandidate) : Type 0 where
  pub decodes : codec.read_from_bytes (codec.to_bytes c.note) ≡ some c.note
  pub recognised : new_candidate codec c.note c.creation_block faucet ≡ ok c
  pub in_range : leb c.creation_block max_block ≡ true

module _ (codec : NoteCodec) (faucet : ℕ) where
  -- A row that decodes: as a candidate, and in every range that a burn's number has.
  pub record Decodes (b : BurnRow) : Type 0 where
    pub value : BurnCandidate
    pub candidate : decode_candidate codec faucet b ≡ ok value
    pub consumption : (block : ℕ) → b.consumption_block ≡ some block → leb block max_block ≡ true

  abbrev pub IsReadable : List BurnRow → Type 0
  IsReadable rows = All Decodes rows

  -- A row made of a recognised note decodes to the candidate that it was made of.
  pub row_of-decode :
      (c : BurnCandidate) (consumed : Option ℕ)
      → IsRecognised codec faucet c
      → decode_candidate codec faucet (row_of codec c.note c.creation_block consumed) ≡ ok c
  unfolding decode_candidate decode_note decode_block_number row_of
  row_of-decode c consumed h =
      ground (arith, h.decodes, h.recognised, h.in_range, bytes_eq_refl (codec.to_bytes c.note))

  -- The burn's row decodes to the candidate's burn.
  pub decode_burn_lem :
      (b : BurnRow) (c : BurnCandidate) (block : ℕ)
      → decode_candidate codec faucet b ≡ ok c
      → b.consumption_block ≡ some block
      → leb block max_block ≡ true
      → decode_burn codec faucet b ≡ ok (into_discovered c block)
  unfolding decode_candidate decode_burn decode_block_number new_discovered
  decode_burn_lem b c block h e r = ground arith

  -- A query over readable rows decodes every row that it selects.
  decode_each :
      {A : Type 0} (decode : BurnRow → Result StoreError A) (rows : List BurnRow)
      → All (λ b. (value : A) × (decode b ≡ ok value)) rows
      → (values : List A) × (decode_all decode rows ≡ ok values)
  unfolding decode_all
  decode_each decode [] a = ([], refl)
  decode_each decode (b ∷ rows) a =
      let (value, e) = a.0 in
      let (values, f) = decode_each decode rows a.1 in (value ∷ values, ground arith)

  select-Decodes :
      (p : BurnRow → Bool) (rows : List BurnRow)
      → IsReadable rows
      → All (λ b. Decodes b × (p b ≡ true)) (select p rows)
  unfolding select
  select-Decodes p [] a = tt
  select-Decodes p (b ∷ rows) a = elim (Bool-cases (p b)) [
    | inl e ↦ rw e ((a.0, e), select-Decodes p rows a.1)
    | inr e ↦ rw e (select-Decodes p rows a.1)
  ]

  All-map :
      {P Q : BurnRow → Type 0} (f : (b : BurnRow) → P b → Q b) (rows : List BurnRow)
      → All P rows
      → All Q rows
  All-map f [] a = tt
  All-map f (b ∷ rows) a = (f b a.0, All-map f rows a.1)

  readable-burn :
      (p : BurnRow → Bool)
      → ((b : BurnRow) → p b ≡ true → is_some b.consumption_block ≡ true)
      → (b : BurnRow) → Decodes b × (p b ≡ true)
      → (value : DiscoveredBurn) × (decode_burn codec faucet b ≡ ok value)
  readable-burn p consumed b (d, e) = elim (Option-cases b.consumption_block) [
    | inl f ↦ absurd (ground (arith, consumed b e))
    | inr (block, f) ↦ (
      into_discovered d.value block,
      decode_burn_lem b d.value block d.candidate f (d.consumption block f),
    )
  ]

  -- If every row of the store decodes, loading the candidates succeeds.
  pub load_candidates_lem :
      (s : Store) (filter : BurnRow → Bool)
      → IsReadable s.burns
      → (found : List BurnCandidate) × (load_candidates codec s faucet filter ≡ ok found)
  unfolding load_candidates
  load_candidates_lem s filter a =
      let p = λ (b : BurnRow). is_candidate b && filter b in
      decode_each (decode_candidate codec faucet) (order_by burn_before (select p s.burns)) (
        order_by-All burn_before _ (select p s.burns) (
          All-map (λ b d. (d.0.value, d.0.candidate)) (select p s.burns)
            (select-Decodes p s.burns a)))

  -- And so does loading the burns.
  pub load_burns_lem :
      (s : Store) (all_burns : Bool)
      → IsReadable s.burns
      → (found : List DiscoveredBurn) × (load_burns codec s faucet all_burns ≡ ok found)
  unfolding load_burns
  load_burns_lem s all_burns a =
      let q = is_discovered all_burns s in
      decode_each (decode_burn codec faucet) (order_by burn_before (select q s.burns)) (
        order_by-All burn_before _ (select q s.burns) (
          All-map (readable-burn q (λ b e. ground arith)) (select q s.burns)
            (select-Decodes q s.burns a)))
