-- ===== src/Attester/Discover/Diverged.antt =====
-- When the scan of crates/xusdc-light-attester/src/attester.rs reports that the node is on another chain.
use mathlib.Core.Option.{some-injective}
use miden_usdcx.Prelude.{
  ℕ, zero, suc, ◌-◌, ◌+◌, ◌<◌, ◌≢◌, ◌≡◌, ◌⊎◌, ◌↔◌, refl, sym, ap, ◌∙◌, subst, inl, inr, false, some,
  arith, ltb, Result, ok, err, ◌>>◌, Result-cases, Bool-cases, ◌==◌,
}
use miden_usdcx.Burn.{NoteCodec}
use miden_usdcx.Store.{Store, BlockHeader}
use miden_usdcx.Attester.Loop.{Commands, admin_checkpoint}
use miden_usdcx.Attester.Discover.{
  ChainReader, SignedBlock, Discovery, DiscoverError, chain_diverged, Scanned, ScanLimits,
  fetch_and_verify_block, check_checkpoint, scan_block, scan_blocks, discover_from, discover_burns,
}
use miden_usdcx.Attester.Discover.Checkpoint.{admin_checkpoint-checkpoint}
use miden_usdcx.Attester.Discover.Chain.{
  Extends, begin, child, Extends-trans, scan_block_lem, save_block-checkpoint,
}

-- The node's block behind this header is not its child.
abbrev pub IsBroken : ChainReader → BlockHeader → Type 0
IsBroken reader header =
    (block : SignedBlock) × (reader.block_by_number (suc header.block_num) ≡ ok block)
    × ((block.header.block_num ≢ suc header.block_num) ⊎ (reader.validates block header ≡ false))

-- What shows that the node's chain is not the checkpoint's: the node is behind a checkpoint that
-- is not the pinned anchor; or at its height with another block; or ahead, and the block behind the
-- header that the discovery got to, by valid blocks, is not that header's child.
abbrev pub Diverged : ChainReader → ℕ → BlockHeader → ScanLimits → Discovery → Type 0
Diverged reader anchor checkpoint limits end =
    ((limits.latest_committed_block < checkpoint.block_num) × (checkpoint.block_num ≢ anchor))
    ⊎ ((limits.latest_committed_block ≡ checkpoint.block_num)
        × ((block : SignedBlock) × (reader.block_by_number checkpoint.block_num ≡ ok block)
            × (block.header.commitment ≢ checkpoint.commitment)))
    ⊎ ((header : BlockHeader) × (end.store.checkpoint ≡ some header)
        × Extends reader checkpoint header
        × (header.block_num < limits.latest_committed_block)
        × (checkpoint.block_num < limits.latest_committed_block)
        × IsBroken reader header)

module _ (codec : NoteCodec) (faucet : ℕ) (reader : ChainReader) where
  module _ (commands : ℕ → Commands) where
    scan_block-IsBroken :
        (s : Store) (header : BlockHeader)
        → scan_block codec faucet reader commands s (suc header.block_num) header
          ≡ err chain_diverged
        → IsBroken reader header
    unfolding scan_block fetch_and_verify_block
    scan_block-IsBroken s header h =
        elim (Result-cases (reader.block_by_number (suc header.block_num))) [
          | inr (x, e) ↦ absurd (ground arith)
          | inl (block, e) ↦ elim (Bool-cases (block.header.block_num == suc header.block_num)) [
            | inr other ↦ (block, e, inl (λ q. ground arith))
            | inl same ↦ (block, e, inr (ground arith))
          ]
        ]

    IsBroken-scan_block :
        (s : Store) (header : BlockHeader)
        → IsBroken reader header
        → scan_block codec faucet reader commands s (suc header.block_num) header
          ≡ err chain_diverged
    unfolding scan_block fetch_and_verify_block
    IsBroken-scan_block s header (block, e, inl other) = ground arith
    IsBroken-scan_block s header (block, e, inr invalid) = ground arith

    -- Where some blocks of a scan stop: at the last of them, or before one that fails.
    record Stops (left : ℕ) (last : BlockHeader) (end : Scanned) : Type 0 where
      pub header : BlockHeader
      pub at : end.store.checkpoint ≡ some header
      pub extends : Extends reader last header
      pub why :
          ((end.result ≡ ok tt) × (header.block_num ≡ last.block_num + left))
          ⊎ ((header.block_num < last.block_num + left)
              × ((now : Store) × (e : DiscoverError) × (end.result ≡ err e)
                  × (scan_block codec faucet reader commands now (suc header.block_num) header
                      ≡ err e)))

    scan_blocks-Stops :
        (left : ℕ) (s : Store) (last : BlockHeader)
        → s.checkpoint ≡ some last
        → Stops left last
            (scan_blocks codec faucet reader commands left s (suc last.block_num) last)
    unfolding scan_blocks
    scan_blocks-Stops zero s last h = record {
      header = last;
      at = h;
      extends = begin;
      why = inl (refl, omega arith);
    }
    scan_blocks-Stops (suc left) s last h =
        let now = admin_checkpoint s (commands (suc last.block_num)) in
        elim (Result-cases
          (scan_block codec faucet reader commands now (suc last.block_num) last)) [
            | inr (x, e) ↦
                rw (e, scan_blocks)
                  (record {
                    header = last;
                    at = admin_checkpoint-checkpoint s (commands (suc last.block_num)) ∙ h;
                    extends = begin;
                    why = inr (omega arith, (now, x, refl, e));
                  })
            | inl ((block, t), e) ↦
                let (answer, number, valid, saved) =
                  scan_block_lem codec faucet reader commands now (suc last.block_num) last block t
                    e in
                let rest : Stops left block.header (
                    scan_blocks codec faucet reader commands left t (suc (suc last.block_num))
                      block.header) =
                  subst
                    (λ n.
                      Stops left block.header
                        (scan_blocks codec faucet reader commands left t (suc n) block.header))
                    number
                    (scan_blocks-Stops left t block.header
                      (save_block-checkpoint codec faucet now t block saved)) in
                rw (e, scan_blocks)
                  (record {
                    header = rest.header;
                    at = rest.at;
                    extends = Extends-trans (child block begin answer number valid) rest.extends;
                    why = elim rest.why [
                      | inl (done, top) ↦ inl (done, omega (arith, number, top))
                      | inr (short, failed) ↦ inr (omega (arith, number, short), failed)
                    ];
                  })
          ]

  module _ (commands : ℕ → Commands) (anchor : ℕ) (s : Store) (checkpoint : BlockHeader)
      (limits : ScanLimits) where
    abbrev from : Discovery
    from = discover_from codec faucet reader commands anchor s checkpoint limits

    abbrev scanned : Scanned
    scanned =
        scan_blocks codec faucet reader commands
          (limits.latest_committed_block - checkpoint.block_num) s (suc checkpoint.block_num)
          checkpoint

    ahead-from :
        checkpoint.block_num < limits.latest_committed_block
        → (from.store ≡ scanned.store)
          × ((from.result ≡ err chain_diverged) ↔ (scanned.result ≡ err chain_diverged))
    unfolding discover_from
    ahead-from ahead =
        let f : ltb limits.latest_committed_block checkpoint.block_num ≡ false = ground arith in
        let g : (limits.latest_committed_block == checkpoint.block_num) ≡ false = ground arith in
        rw (f, g, discover_from) (refl, kept _)
      where
        kept :
            (r : Result DiscoverError (Unit {0}))
            → ((r >> ok limits.proof_lag_block) ≡ err chain_diverged) ↔ (r ≡ err chain_diverged)
        kept (ok u) = (λ h. absurd cc, λ h. absurd cc)
        kept (err e) = (λ h. cc, λ h. cc)

    stopped :
        s.checkpoint ≡ some checkpoint
        → Stops commands (limits.latest_committed_block - checkpoint.block_num) checkpoint scanned
    stopped h =
        scan_blocks-Stops commands (limits.latest_committed_block - checkpoint.block_num) s
          checkpoint h

    ahead-Diverged :
        s.checkpoint ≡ some checkpoint
        → checkpoint.block_num < limits.latest_committed_block
        → from.result ≡ err chain_diverged
        → Diverged reader anchor checkpoint limits from
    ahead-Diverged h ahead q =
        let (kept, result) = ahead-from ahead in
        let end = stopped h in
        elim end.why [
          | inl (done, top) ↦ absurd (let r = result.0 q in cc)
          | inr (short, (now, e, failed, scan)) ↦
              let r = result.0 q in
              inr (
                inr (
                  end.header,
                  ap (λ (t : Store). t.checkpoint) kept ∙ end.at,
                  end.extends,
                  omega (arith, ahead, short),
                  ahead,
                  scan_block-IsBroken commands now end.header cc,
                ))
        ]

    Diverged-from :
        s.checkpoint ≡ some checkpoint
        → Diverged reader anchor checkpoint limits from
        → from.result ≡ err chain_diverged
    unfolding discover_from check_checkpoint
    Diverged-from h (inl (behind, other)) = ground arith
    Diverged-from h (inr (inl (level, (block, answer, other)))) = ground arith
    Diverged-from h (inr (inr (header, at, extends, short, ahead, broken))) =
        let (kept, result) = ahead-from ahead in
        let end = stopped h in
        let same : end.header ≡ header =
          some-injective _ _ (sym end.at ∙ sym (ap (λ (t : Store). t.checkpoint) kept) ∙ at) in
        elim end.why [
          | inl (done, top) ↦
              let n = ap (λ (b : BlockHeader). b.block_num) same in
              absurd (omega (arith, ahead, short, top, n))
          | inr (stop, (now, e, failed, scan)) ↦
              let b =
                IsBroken-scan_block commands now end.header
                  (subst (IsBroken reader) (sym same) broken) in
              result.1 cc
        ]

    from-Diverged :
        s.checkpoint ≡ some checkpoint
        → from.result ≡ err chain_diverged
        → Diverged reader anchor checkpoint limits from
    unfolding discover_from check_checkpoint
    from-Diverged h q = elim (Bool-cases (ltb limits.latest_committed_block checkpoint.block_num)) [
      | inl behind ↦ inl (ground arith, λ e. ground arith)
      | inr f ↦ elim (Bool-cases (limits.latest_committed_block == checkpoint.block_num)) [
        | inr g ↦ ahead-Diverged h (ground arith) q
        | inl level ↦ elim (Result-cases (reader.block_by_number checkpoint.block_num)) [
          | inr (x, e) ↦ absurd (ground arith)
          | inl (block, e) ↦ inr (inl (ground arith, (block, e, λ c. ground arith)))
        ]
      ]
    ]

  -- A discovery that reads the node's limits reports a diverged chain exactly when the node's answers
  -- show one: the node is behind a checkpoint that is not the pinned anchor; or it is at the
  -- checkpoint's height with another block; or it is ahead, and behind the header that the
  -- discovery got to by validated blocks, which is the new checkpoint, comes a block below the tip
  -- that does not have the next number or does not validate against that header.
  pub discover_burns-Diverged :
      (commands : ℕ → Commands) (anchor : ℕ) (s : Store) (checkpoint : BlockHeader)
      (limits : ScanLimits)
      → s.checkpoint ≡ some checkpoint
      → reader.scan_limits ≡ ok limits
      → ((discover_burns codec faucet reader commands anchor s).result ≡ err chain_diverged)
        ↔ Diverged reader anchor checkpoint limits
            (discover_burns codec faucet reader commands anchor s)
  unfolding discover_burns
  discover_burns-Diverged commands anchor s checkpoint limits h e =
      let p : from commands anchor s checkpoint limits
          ≡ discover_burns codec faucet reader commands anchor s =
        ground arith in
      subst (λ d. (d.result ≡ err chain_diverged) ↔ Diverged reader anchor checkpoint limits d) p
        (
          from-Diverged commands anchor s checkpoint limits h,
          Diverged-from commands anchor s checkpoint limits h,
        )
