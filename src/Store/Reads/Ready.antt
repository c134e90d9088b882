-- ===== src/Store/Reads/Ready.antt =====
-- `burns_ready_for_withdrawal` of crates/xusdc-light-attester/src/store.rs returns burns that may be
-- withdrawn, and nothing else.
use miden_usdcx.Prelude.{
  ℕ, ◌≡◌, refl, sym, subst, inl, inr, Bool, true, false, not, Option, none, some, List, [], ◌∷◌,
  arith, All, leb, min, ◌≤◌, ◌+◌, ◌-◌, Result, ok, Result-cases, Bool-cases, Option-cases,
  >>=-eq-ok, ltb,
}
use miden_usdcx.Burn.{
  NoteCodec, BurnCandidate, DiscoveredBurn, PublicNote, new_candidate, new_discovered,
}
use miden_usdcx.Submission.{expired, status_eq, SavedSubmission}
use miden_usdcx.Sql.{find, select, order_by, exists, changed}
use miden_usdcx.Sql.Laws.{Unique, find-select, changed-hits, hits}
use miden_usdcx.Sql.Order.{order_by-All}
use miden_usdcx.Store.{
  Store, StoreError, BlockHeader, BurnRow, burn_key, submission_key, burn_at, submission_at,
}
use miden_usdcx.Store.Limits.{burn_before}
use miden_usdcx.Store.Reads.{
  decode_all, decode_note, decode_block_number, decode_burn, load_burns, is_discovered,
  burns_ready_for_withdrawal, consumed_by,
}

abbrev pub is_free : Option SavedSubmission → Bool
is_free none = true
is_free (some r) = status_eq r.status expired

-- A burn that may be withdrawn now: the store has it as consumed and not held, the request it may
-- have had has expired, the node's proofs cover the block that consumed it, and that block is as
-- deep below the verified header as the settings ask.
pub record IsDue (s : Store) (lag depth : ℕ) (burn : DiscoveredBurn) : Type 0 where
  pub row : BurnRow
  pub found : burn_at s burn.note.id ≡ some row
  pub consumed : row.consumption_block ≡ some burn.consumption_block
  pub not_held : row.hold_reason ≡ none
  pub free : is_free (submission_at s burn.note.id) ≡ true
  pub proven : burn.consumption_block ≤ lag
  pub header : BlockHeader
  pub verified : s.checkpoint ≡ some header
  pub deep : burn.consumption_block + depth ≤ header.block_num

-- A candidate keeps the note and the block that it was made of.
pub new_candidate_lem :
    (codec : NoteCodec) (note : PublicNote) (block faucet : ℕ) (c : BurnCandidate)
    → new_candidate codec note block faucet ≡ ok c
    → (c.note ≡ note) × (c.creation_block ≡ block)
unfolding new_candidate
new_candidate_lem codec note block faucet c h = ground arith

decode_note_lem :
    (codec : NoteCodec) (b : BurnRow) (note : PublicNote)
    → decode_note codec b.note b.note_id b.nullifier ≡ ok note
    → note.id ≡ b.note_id
unfolding decode_note
decode_note_lem codec b note h = ground arith

-- What a decoded row says of its burn.
pub decode_burn-fields :
    (codec : NoteCodec) (faucet : ℕ) (b : BurnRow) (burn : DiscoveredBurn)
    → decode_burn codec faucet b ≡ ok burn
    → (burn.note.id ≡ b.note_id) × (b.consumption_block ≡ some burn.consumption_block)
unfolding decode_burn decode_block_number new_discovered
decode_burn-fields codec faucet b burn h =
    let (note, e, h1) = >>=-eq-ok (decode_note codec b.note b.note_id b.nullifier) _ h in
    let same = decode_note_lem codec b note e in
    elim (Option-cases b.consumption_block) [
      | inl f ↦ absurd (ground arith)
      | inr (block, f) ↦ elim (Result-cases (new_candidate codec note b.creation_block faucet)) [
        | inr (x, g) ↦ absurd (ground arith)
        | inl (c, g) ↦ ground (arith, new_candidate_lem codec note b.creation_block faucet c g)
      ]
    ]

-- What holds of every decoded value, from what holds of every row.
pub decode_all-All :
    {A : Type 0} (decode : BurnRow → Result StoreError A) (P : BurnRow → Type 0) (Q : A → Type 0)
    → ((b : BurnRow) (value : A) → P b → decode b ≡ ok value → Q value)
    → (rows : List BurnRow) (values : List A) → decode_all decode rows ≡ ok values
    → All P rows
    → All Q values
unfolding decode_all
decode_all-All decode P Q each [] values h a =
    let p : [] ≡ values = ground arith in subst (All Q) p tt
decode_all-All decode P Q each (b ∷ rows) values h a =
    let (value, e, h1) = >>=-eq-ok (decode b) _ h in
    let (rest, f, h2) = >>=-eq-ok (decode_all decode rows) _ h1 in
    let p : value ∷ rest ≡ values = ground arith in
    subst (All Q) p (each b value a.0 e, decode_all-All decode P Q each rows rest f a.1)

-- Loaded and not submitted, whatever its depth.
record IsFresh (s : Store) (burn : DiscoveredBurn) : Type 0 where
  row : BurnRow
  found : burn_at s burn.note.id ≡ some row
  consumed : row.consumption_block ≡ some burn.consumption_block
  not_held : row.hold_reason ≡ none
  free : is_free (submission_at s burn.note.id) ≡ true

is_free_lem :
    (r : Option SavedSubmission)
    → hits (λ r. not (status_eq r.status expired)) r ≡ 0
    → is_free r ≡ true
is_free_lem none h = refl
is_free_lem (some r) h = ground arith

module _ (codec : NoteCodec) (s : Store) (faucet : ℕ)
    (requests : Unique submission_key s.submissions) where
  row-IsFresh :
      (b : BurnRow) (burn : DiscoveredBurn)
      → (is_discovered false s b ≡ true) × (find burn_key b.note_id s.burns ≡ some b)
      → decode_burn codec faucet b ≡ ok burn
      → IsFresh s burn
  unfolding exists
  row-IsFresh b burn (d, f) h =
      let (same, consumed) = decode_burn-fields codec faucet b burn h in
      let changes : changed submission_key b.note_id (λ r. not (status_eq r.status expired))
            s.submissions
          ≡ 0 =
        ground arith in
      record {
        row = b;
        found = subst (λ k. find burn_key k s.burns ≡ some b) (sym same) f;
        consumed = consumed;
        not_held = ground arith;
        free =
            subst (λ k. is_free (submission_at s k) ≡ true) (sym same)
              (is_free_lem (submission_at s b.note_id) (
                ground (
                  arith,
                  changed-hits submission_key b.note_id (λ r. not (status_eq r.status expired))
                      s.submissions requests,
                )));
      }

  load_burns-IsFresh :
      (burns : List DiscoveredBurn)
      → Unique burn_key s.burns
      → load_burns codec s faucet false ≡ ok burns
      → All (IsFresh s) burns
  unfolding load_burns
  load_burns-IsFresh burns keys h =
      let chosen = select (is_discovered false s) s.burns in
      let P = λ (b : BurnRow).
        (is_discovered false s b ≡ true) × (find burn_key b.note_id s.burns ≡ some b) in
      decode_all-All (decode_burn codec faucet) P (IsFresh s) row-IsFresh
        (order_by burn_before chosen) burns h
        (order_by-All burn_before P chosen
          (find-select burn_key (is_discovered false s) s.burns keys))

  deep_enough :
      (lag depth : ℕ) (header : BlockHeader) (burns : List DiscoveredBurn)
      → s.checkpoint ≡ some header
      → ltb header.block_num depth ≡ false
      → All (IsFresh s) burns
      → All (IsDue s lag depth) (consumed_by (min lag (header.block_num - depth)) burns)
  unfolding consumed_by select
  deep_enough lag depth header [] e f a = tt
  deep_enough lag depth header (b ∷ burns) e f a =
      elim (Bool-cases (leb b.consumption_block (min lag (header.block_num - depth)))) [
        | inl g ↦ rw g (
          record {
            row = a.0.row;
            found = a.0.found;
            consumed = a.0.consumed;
            not_held = a.0.not_held;
            free = a.0.free;
            proven = ground arith;
            header = header;
            verified = e;
            deep = ground arith;
          },
          deep_enough lag depth header burns e f a.1,
        )
        | inr g ↦ rw g (deep_enough lag depth header burns e f a.1)
      ]

  -- In a store whose keys are unique, every burn that the query returns is ready: consumed, not
  -- held, without a request that has not expired, covered by the node's proofs, and as deep below
  -- the verified header as the settings ask.
  pub burns_ready_for_withdrawal-IsDue :
      (lag depth : ℕ) (burns : List DiscoveredBurn)
      → Unique burn_key s.burns
      → burns_ready_for_withdrawal codec s faucet lag depth ≡ ok burns
      → All (IsDue s lag depth) burns
  unfolding burns_ready_for_withdrawal
  burns_ready_for_withdrawal-IsDue lag depth burns keys h = elim (Option-cases s.checkpoint) [
    | inl e ↦ let p : [] ≡ burns = ground arith in subst (All (IsDue s lag depth)) p tt
    | inr (header, e) ↦ elim (Bool-cases (ltb header.block_num depth)) [
      | inl f ↦ let p : [] ≡ burns = ground arith in subst (All (IsDue s lag depth)) p tt
      | inr f ↦ elim (Result-cases (load_burns codec s faucet false)) [
        | inr (x, g) ↦ absurd (ground arith)
        | inl (all_burns, g) ↦
            let p : consumed_by (min lag (header.block_num - depth)) all_burns ≡ burns =
              ground arith in
            subst (All (IsDue s lag depth)) p
              (deep_enough lag depth header all_burns e f (load_burns-IsFresh all_burns keys g))
      ]
    ]
  ]
