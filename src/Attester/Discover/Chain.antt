-- ===== src/Attester/Discover/Chain.antt =====
-- The scan of crates/xusdc-light-attester/src/attester.rs only ever moves the checkpoint to a child
-- that the libraries validated against it.
use miden_usdcx.Prelude.{
  ℕ, zero, suc, ◌-◌, ◌+◌, ◌≤◌, ◌≡◌, refl, sym, ap, ◌∙◌, subst, inl, inr, true, none, some, arith,
  ltb, ok, err, Result-cases, Bool-cases, >>=-eq-ok, map_err, ◌==◌,
}
use miden_usdcx.Circle.{Wire}
use miden_usdcx.Burn.{NoteCodec}
use miden_usdcx.Store.{Store, BlockHeader}
use miden_usdcx.Store.Scan.{save_scan_progress}
use miden_usdcx.Store.Steps.{Reach, here, scans}
use miden_usdcx.Attester.Sound.{one, Reach-trans}
use miden_usdcx.Attester.Loop.{Commands, admin_checkpoint}
use miden_usdcx.Attester.Refinement.{admin_checkpoint-Reach}
use miden_usdcx.Attester.Discover.{
  ChainReader, SignedBlock, Discovery, chain, store, Scanned, ScanLimits, fetch_and_verify_block,
  find_burns_in_block, save_block, scan_block, scan_blocks, discover_from, discover_burns,
}
use miden_usdcx.Attester.Discover.Checkpoint.{admin_checkpoint-checkpoint}

-- From one header to another by blocks of the node, each the next one's number and validated
-- against the one before it.
pub data Extends (reader : ChainReader) (from : BlockHeader) : BlockHeader → Type 0 where
  begin : Extends reader from from
  child :
      {to : BlockHeader} (block : SignedBlock)
      → Extends reader from to
      → reader.block_by_number (suc to.block_num) ≡ ok block
      → block.header.block_num ≡ suc to.block_num
      → reader.validates block to ≡ true
      → Extends reader from block.header

pub Extends-trans :
    {reader : ChainReader} {a b c : BlockHeader}
    → Extends reader a b
    → Extends reader b c
    → Extends reader a c
Extends-trans e begin = e
Extends-trans e (child block d f g h) = child block (Extends-trans e d) f g h

pub save_block-checkpoint :
    (codec : NoteCodec) (faucet : ℕ) (s t : Store) (block : SignedBlock)
    → save_block codec faucet s block ≡ ok t
    → t.checkpoint ≡ some block.header
unfolding save_block save_scan_progress
save_block-checkpoint codec faucet s t block h = ground arith

-- A saved block is the next checkpoint, by one step of the store.
pub save_block_lem :
    {w : Wire} (codec : NoteCodec) (faucet : ℕ) (s t : Store) (block : SignedBlock)
    → save_block codec faucet s block ≡ ok t
    → Reach w codec s t × (t.checkpoint ≡ some block.header)
unfolding save_block save_scan_progress
save_block_lem {w = w} codec faucet s t block h =
    let (found, e, h1) = >>=-eq-ok (find_burns_in_block codec faucet block s) _ h in
    (one (scans found.0 found.1 block.header h1), save_block-checkpoint codec faucet s t block h)

fetch_lem :
    (reader : ChainReader) (block_num : ℕ) (last : BlockHeader) (block : SignedBlock)
    → fetch_and_verify_block reader block_num last ≡ ok block
    → (reader.block_by_number block_num ≡ ok block)
      × (block.header.block_num ≡ block_num)
      × (reader.validates block last ≡ true)
unfolding fetch_and_verify_block
fetch_lem reader block_num last block h = ground arith

-- A scanned block is the one the node returned, valid after the last one, and was saved.
pub scan_block_lem :
    (codec : NoteCodec) (faucet : ℕ) (reader : ChainReader) (commands : ℕ → Commands) (s : Store)
    (n : ℕ) (last : BlockHeader) (block : SignedBlock) (t : Store)
    → scan_block codec faucet reader commands s n last ≡ ok (block, t)
    → (reader.block_by_number n ≡ ok block)
      × (block.header.block_num ≡ n)
      × (reader.validates block last ≡ true)
      × (save_block codec faucet s block ≡ ok t)
unfolding scan_block
scan_block_lem codec faucet reader commands s n last block t h =
    let (fetched, e, h1) = >>=-eq-ok (fetch_and_verify_block reader n last) _ h in
    let (saved, f, h2) = >>=-eq-ok (map_err store (save_block codec faucet s fetched)) _ h1 in
    let same : fetched ≡ block = ground arith in
    let kept : saved ≡ t = ground arith in
    let (answer, number, valid) =
      fetch_lem reader n last block
        (subst (λ b. fetch_and_verify_block reader n last ≡ ok b) same e) in
    (answer, number, valid, ground arith)

-- Where some blocks of a scan end, from the last verified header.
pub record Ends (w : Wire) (codec : NoteCodec) (reader : ChainReader) (left : ℕ) (s : Store)
    (last : BlockHeader) (end : Scanned) : Type 0 where
  pub header : BlockHeader
  pub reached : Reach w codec s end.store
  pub at : end.store.checkpoint ≡ some header
  pub extends : Extends reader last header
  pub complete : end.result ≡ ok tt → header.block_num ≡ last.block_num + left

module _ (w : Wire) (codec : NoteCodec) (faucet : ℕ) (reader : ChainReader)
    (commands : ℕ → Commands) where
  scan_blocks_lem :
      (left : ℕ) (s : Store) (last : BlockHeader)
      → s.checkpoint ≡ some last
      → Ends w codec reader left s last
          (scan_blocks codec faucet reader commands left s (suc last.block_num) last)
  unfolding scan_blocks
  scan_blocks_lem zero s last h = record {
    header = last;
    reached = here;
    at = h;
    extends = begin;
    complete = λ _. omega arith;
  }
  scan_blocks_lem (suc left) s last h =
      let waiting = commands (suc last.block_num) in
      let now = admin_checkpoint s waiting in
      let admin : Reach w codec s now = admin_checkpoint-Reach w s waiting in
      elim (Result-cases (scan_block codec faucet reader commands now (suc last.block_num) last)) [
        | inr (x, e) ↦
            rw (e, scan_blocks)
              (record {
                header = last;
                reached = admin;
                at = admin_checkpoint-checkpoint s waiting ∙ h;
                extends = begin;
                complete = λ q. ground arith;
              })
        | inl ((block, t), e) ↦
            let (answer, number, valid, saved) =
              scan_block_lem codec faucet reader commands now (suc last.block_num) last block t e in
            let (step, at) = save_block_lem {w = w} codec faucet now t block saved in
            let follows = child block begin answer number valid in
            let rest : Ends w codec reader left t block.header (
                scan_blocks codec faucet reader commands left t (suc (suc last.block_num))
                  block.header) =
              subst
                (λ n.
                  Ends w codec reader left t block.header
                    (scan_blocks codec faucet reader commands left t (suc n) block.header))
                number (scan_blocks_lem left t block.header at) in
            rw (e, scan_blocks)
              (record {
                header = rest.header;
                reached = Reach-trans (Reach-trans admin step) rest.reached;
                at = rest.at;
                extends = Extends-trans follows rest.extends;
                complete = λ q. omega (arith, rest.complete q, number);
              })
      ]

  -- What a discovery that starts at a checkpoint leaves.
  pub record Discovers (s : Store) (checkpoint : BlockHeader) (end : Discovery) : Type 0 where
    pub header : BlockHeader
    pub reached : Reach w codec s end.store
    pub at : end.store.checkpoint ≡ some header
    pub extends : Extends reader checkpoint header
    pub complete :
        (lag : ℕ) (limits : ScanLimits)
        → end.result ≡ ok lag
        → reader.scan_limits ≡ ok limits
        → limits.latest_committed_block ≤ header.block_num

  unmoved :
      (s : Store) (checkpoint : BlockHeader) (end : Discovery)
      → s.checkpoint ≡ some checkpoint
      → end.store ≡ s
      → ((lag : ℕ) (limits : ScanLimits)
          → end.result ≡ ok lag
          → reader.scan_limits ≡ ok limits
          → limits.latest_committed_block ≤ checkpoint.block_num)
      → Discovers s checkpoint end
  unmoved s checkpoint end h same complete = record {
    header = checkpoint;
    reached = subst (Reach w codec s) (sym same) here;
    at = ap (λ (t : Store). t.checkpoint) same ∙ h;
    extends = begin;
    complete = complete;
  }

  discover_from-Discovers :
      (anchor : ℕ) (s : Store) (checkpoint : BlockHeader) (limits : ScanLimits)
      → s.checkpoint ≡ some checkpoint
      → reader.scan_limits ≡ ok limits
      → Discovers s checkpoint
          (discover_from codec faucet reader commands anchor s checkpoint limits)
  unfolding discover_from
  discover_from-Discovers anchor s checkpoint limits h e =
      let tip = limits.latest_committed_block in
      elim (Bool-cases (ltb tip checkpoint.block_num)) [
        | inl behind ↦
            rw (behind, discover_from) (unmoved s checkpoint _ h refl (λ lag l q f. ground arith))
        | inr f ↦ elim (Bool-cases (tip == checkpoint.block_num)) [
          | inl level ↦
              rw (f, level, discover_from)
                (unmoved s checkpoint _ h refl (λ lag l q g. ground arith))
          | inr g ↦
              let left = tip - checkpoint.block_num in
              let end = scan_blocks_lem left s checkpoint h in
              rw (f, g, discover_from)
                (record {
                  header = end.header;
                  reached = end.reached;
                  at = end.at;
                  extends = end.extends;
                  complete = λ lag l q k. ground (arith, end.complete);
                })
        ]
      ]

  -- From a store with a checkpoint, a discovery moves the store by its own steps, and leaves the
  -- checkpoint at a header that the node's blocks lead to, each validated against the one before
  -- it, also when it fails part way. If it succeeds, the checkpoint is no lower than the node's tip.
  pub discover_burns-Discovers :
      (anchor : ℕ) (s : Store) (checkpoint : BlockHeader)
      → s.checkpoint ≡ some checkpoint
      → Discovers s checkpoint (discover_burns codec faucet reader commands anchor s)
  unfolding discover_burns
  discover_burns-Discovers anchor s checkpoint h =
      let found = discover_burns codec faucet reader commands anchor s in
      elim (Result-cases reader.scan_limits) [
        | inr (x, e) ↦
            let p : record { store = s; node_tip = none; result = err (chain x) } ≡ found =
              ground arith in
            subst (Discovers s checkpoint) p
              (unmoved s checkpoint _ h refl (λ lag l q f. ground arith))
        | inl (limits, e) ↦
            let p : discover_from codec faucet reader commands anchor s checkpoint limits ≡ found =
              ground arith in
            subst (Discovers s checkpoint) p
              (discover_from-Discovers anchor s checkpoint limits h e)
      ]
