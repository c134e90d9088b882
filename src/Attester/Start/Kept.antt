-- ===== src/Attester/Start/Kept.antt =====
-- The scan of crates/xusdc-light-attester/src/attester.rs leaves a store that `validate_store`
-- accepts, if the node sends blocks whose numbers fit and whose notes decode.
use mathlib.Core.List.{Memᴰ}
use mathlib.Core.List.Memᴰ.{head, tail}
use miden_usdcx.Prelude.{
  ℕ, ◌≡◌, refl, sym, ◌∙◌, ap, subst, inl, inr, true, false, some, List, [], ◌∷◌, arith, All, leb,
  ok, Option-cases, bytes_eq, bytes_eq_sound, >>=-eq-ok, ◌==◌,
}
use miden_usdcx.Burn.{
  NoteCodec, PublicNote, BurnCandidate, DiscoveredBurn, new_candidate, into_discovered,
}
use miden_usdcx.Store.{Store, BurnRow}
use miden_usdcx.Store.Reads.{
  max_block, decode_note, decode_block_number, decode_candidate, decode_all, load_candidates,
  candidate_by_nullifier, last,
}
use miden_usdcx.Store.Reads.Readable.{IsRecognised}
use miden_usdcx.Store.Open.{TrustedAnchor, is_below}
use miden_usdcx.Store.Open.Opens.{Opens}
use miden_usdcx.Store.Open.Scans.{IsConsumed, save_scan_progress-Opens}
use miden_usdcx.Attester.Discover.{SignedBlock, public_note, find_burns_in_block, save_block}
use miden_usdcx.Attester.Discover.Found.{find_burns_in_block_lem}

-- A block whose number is a `u32` and whose public notes' bytes decode to them.
pub record IsSendable (codec : NoteCodec) (block : SignedBlock) : Type 0 where
  pub in_range : leb block.header.block_num max_block ≡ true
  pub decodes :
      (note : PublicNote)
      → Memᴰ (public_note note) block.output_notes
      → codec.read_from_bytes (codec.to_bytes note) ≡ some note

All-of-Mem : {A : Type 0} (P : A → Type 0) (xs : List A) → ((a : A) → Memᴰ a xs → P a) → All P xs
All-of-Mem P [] f = tt
All-of-Mem P (x ∷ xs) f = (f x (head refl), All-of-Mem P xs (λ a m. f a (tail m)))

module _ (codec : NoteCodec) (faucet : ℕ) where
  -- A candidate holds the note and the block that it was made of.
  new_candidate-columns :
      (note : PublicNote) (block : ℕ) (c : BurnCandidate)
      → new_candidate codec note block faucet ≡ ok c
      → (c.note ≡ note) × (c.creation_block ≡ block)
  unfolding new_candidate
  new_candidate-columns note block c h = ground arith

  made-IsRecognised :
      (note : PublicNote) (block : ℕ) (c : BurnCandidate)
      → new_candidate codec note block faucet ≡ ok c
      → codec.read_from_bytes (codec.to_bytes note) ≡ some note
      → leb block max_block ≡ true
      → IsRecognised codec faucet c
  made-IsRecognised note block c h d r =
      let (p, q) = new_candidate-columns note block c h in
      record {
        decodes = subst (λ n. codec.read_from_bytes (codec.to_bytes n) ≡ some n) (sym p) d;
        recognised =
            subst (λ n. new_candidate codec n c.creation_block faucet ≡ ok c) (sym p)
              (subst (λ b. new_candidate codec note b faucet ≡ ok c) (sym q) h);
        in_range = subst (λ b. leb b max_block ≡ true) (sym q) r;
      }

  -- A saved row that decodes gives a recognised candidate.
  decode_candidate-IsRecognised :
      (b : BurnRow) (c : BurnCandidate)
      → decode_candidate codec faucet b ≡ ok c
      → IsRecognised codec faucet c
  unfolding decode_candidate decode_note decode_block_number
  decode_candidate-IsRecognised b c h = elim (Option-cases (codec.read_from_bytes b.note)) [
    | inl e ↦ absurd (ground arith)
    | inr (note, e) ↦
        let same : bytes_eq (codec.to_bytes note) b.note ≡ true = ground arith in
        made-IsRecognised note b.creation_block c (ground arith)
          (subst (λ bytes. codec.read_from_bytes bytes ≡ some note)
            (sym (bytes_eq_sound (codec.to_bytes note) b.note same)) e)
          (ground arith)
  ]

  decoded-IsRecognised :
      (rows : List BurnRow) (found : List BurnCandidate)
      → decode_all (decode_candidate codec faucet) rows ≡ ok found
      → All (IsRecognised codec faucet) found
  unfolding decode_all
  decoded-IsRecognised [] found h =
      let p : [] ≡ found = ground arith in subst (All (IsRecognised codec faucet)) p tt
  decoded-IsRecognised (b ∷ rows) found h =
      let (c, e, h1) = >>=-eq-ok (decode_candidate codec faucet b) _ h in
      let (rest, f, h2) = >>=-eq-ok (decode_all (decode_candidate codec faucet) rows) _ h1 in
      let p : c ∷ rest ≡ found = ground arith in
      subst (All (IsRecognised codec faucet)) p
        (decode_candidate-IsRecognised b c e, decoded-IsRecognised rows rest f)

  last_of-All :
      {A : Type 0} (P : A → Type 0) (xs : List A) (x : A) → last xs ≡ some x → All P xs → P x
  unfolding last
  last_of-All P [] x h a = absurd cc
  last_of-All P (y ∷ []) x h a = let p : y ≡ x = ground arith in subst P p a.0
  last_of-All P (y ∷ z ∷ xs) x h a = last_of-All P (z ∷ xs) x h a.1

  found-IsRecognised :
      (s : Store) (n : ℕ) (c : BurnCandidate)
      → candidate_by_nullifier codec s faucet n ≡ ok (some c)
      → IsRecognised codec faucet c
  unfolding candidate_by_nullifier load_candidates
  found-IsRecognised s n c h =
      let (found, e, h1) = >>=-eq-ok (load_candidates codec s faucet (λ b. b.nullifier == n)) _ h in
      let p : last found ≡ some c = ground arith in
      last_of-All (IsRecognised codec faucet) found c p (decoded-IsRecognised _ found e)

  -- What is found in such a block may be saved.
  pub save_block-Opens :
      (anchor : TrustedAnchor) (s t : Store) (block : SignedBlock)
      → save_block codec faucet s block ≡ ok t
      → IsSendable codec block
      → is_below anchor.block_num (some block.header) ≡ false
      → Opens codec faucet anchor s
      → Opens codec faucet anchor t
  unfolding save_block
  save_block-Opens anchor s t block h sendable above o =
      let n = block.header.block_num in
      let ((candidates, burns), e, h1) = >>=-eq-ok (find_burns_in_block codec faucet block s) _ h in
      let (published, burned) = find_burns_in_block_lem codec faucet block s candidates burns e in
      save_scan_progress-Opens codec faucet anchor s t candidates burns block.header h1
        (All-of-Mem (IsRecognised codec faucet) candidates (λ c m.
          let (note, at, made, new) = (published c).0 m in
          made-IsRecognised note n c made (sendable.decodes note at) sendable.in_range))
        (All-of-Mem (IsConsumed codec faucet) burns (λ d m.
          let (transaction, at, mine, (k, input, (c, found, same))) = (burned d).0 m in
          let spent_at : d.consumption_block ≡ n =
            ap (λ (x : DiscoveredBurn). x.consumption_block) same in
          record {
            candidate = c;
            recognised = found-IsRecognised s k c found;
            in_range = subst (λ b. leb b max_block ≡ true) (sym spent_at) sendable.in_range;
            burn_is = same ∙ ap (into_discovered c) (sym spent_at);
          }))
        above o
