-- ===== src/Attester/Start/Scan.antt =====
-- A discovery of crates/xusdc-light-attester/src/attester.rs leaves a store that `validate_store`
-- accepts.
use miden_usdcx.Prelude.{
  ℕ, zero, suc, ◌-◌, ◌≡◌, subst, inl, inr, true, false, some, arith, ltb, ok, Bool-cases,
  Result-cases, Option-cases, ◌==◌,
}
use miden_usdcx.Circle.{Wire}
use miden_usdcx.Burn.{NoteCodec}
use miden_usdcx.Store.{Store, BlockHeader}
use miden_usdcx.Store.Sound.{IsSound}
use miden_usdcx.Store.Steps.{Reach-IsSound}
use miden_usdcx.Store.Steps.Works.{Works, Works-Reach}
use miden_usdcx.Store.Open.{TrustedAnchor, is_below}
use miden_usdcx.Store.Open.Opens.{Opens}
use miden_usdcx.Store.Open.Works.{Works-Opens}
use miden_usdcx.Attester.Loop.{Commands, admin_checkpoint}
use miden_usdcx.Attester.Commands.{admin_checkpoint-Works}
use miden_usdcx.Attester.Discover.{
  ChainReader, SignedBlock, ScanLimits, save_block, scan_block, scan_blocks, discover_from,
  discover_burns,
}
use miden_usdcx.Attester.Discover.Chain.{scan_block_lem, save_block_lem}
use miden_usdcx.Attester.Cycle.Sound.{Keeps}
use miden_usdcx.Attester.Start.Kept.{IsSendable, save_block-Opens}

-- A well-formed store that a start accepts.
abbrev pub IsReady : Wire → NoteCodec → ℕ → TrustedAnchor → Store → Type 0
IsReady w codec faucet anchor s = IsSound w s × Opens codec faucet anchor s

-- Every block that the node returns can be saved.
abbrev pub Sends : NoteCodec → ChainReader → Type 0
Sends codec reader =
    (n : ℕ) (block : SignedBlock) → reader.block_by_number n ≡ ok block → IsSendable codec block

module _ (w : Wire) (codec : NoteCodec) (faucet : ℕ) (anchor : TrustedAnchor)
    (known : w.status_is_valid 400 ≡ true) where
  pub Works-IsReady :
      {k : ℕ} {s t : Store}
      → Works w codec k s t
      → IsReady w codec faucet anchor s
      → IsReady w codec faucet anchor t
  Works-IsReady r p =
      (Reach-IsSound known (Works-Reach r) p.0, Works-Opens faucet anchor known r p.0 p.1)

  pub IsReady-Keeps : Keeps w codec (IsReady w codec faucet anchor)
  IsReady-Keeps = record { sound = λ t p. p.0; keep = λ t u k r p. Works-IsReady r p }

  pub save_block-IsReady :
      (s t : Store) (block : SignedBlock)
      → save_block codec faucet s block ≡ ok t
      → IsSendable codec block
      → is_below anchor.block_num (some block.header) ≡ false
      → IsReady w codec faucet anchor s
      → IsReady w codec faucet anchor t
  save_block-IsReady s t block h sendable above p = (
    Reach-IsSound known (save_block_lem {w = w} codec faucet s t block h).0 p.0,
    save_block-Opens codec faucet anchor s t block h sendable above p.1,
  )

  module _ (reader : ChainReader) (commands : ℕ → Commands) (sends : Sends codec reader) where
    scan_blocks-IsReady :
        (left : ℕ) (s : Store) (last : BlockHeader)
        → s.checkpoint ≡ some last
        → IsReady w codec faucet anchor s
        → IsReady w codec faucet anchor
            (scan_blocks codec faucet reader commands left s (suc last.block_num) last).store
    unfolding scan_blocks
    scan_blocks-IsReady zero s last at p = p
    scan_blocks-IsReady (suc left) s last at p =
        let n = suc last.block_num in
        let now = admin_checkpoint s (commands n) in
        let q = Works-IsReady (admin_checkpoint-Works zero w s (commands n)) p in
        elim (Result-cases (scan_block codec faucet reader commands now n last)) [
          | inr (x, e) ↦ rw (e, scan_blocks) q
          | inl ((block, t), e) ↦
              let (answer, number, valid, saved) =
                scan_block_lem codec faucet reader commands now n last block t e in
              let above : is_below anchor.block_num (some block.header) ≡ false = ground (
                arith,
                number,
                subst (λ c. is_below anchor.block_num c ≡ false) at (p.1).not_below,
              ) in
              let ready = save_block-IsReady now t block saved (sends n block answer) above q in
              rw (e, scan_blocks)
                (subst
                  (λ m.
                    IsReady w codec faucet anchor
                      (scan_blocks codec faucet reader commands left t (suc m) block.header).store)
                  number
                  (scan_blocks-IsReady left t block.header
                    (save_block_lem {w = w} codec faucet now t block saved).1 ready))
        ]

    discover_from-IsReady :
        (anchor_block : ℕ) (s : Store) (checkpoint : BlockHeader) (limits : ScanLimits)
        → s.checkpoint ≡ some checkpoint
        → IsReady w codec faucet anchor s
        → IsReady w codec faucet anchor
            (discover_from codec faucet reader commands anchor_block s checkpoint limits).store
    unfolding discover_from
    discover_from-IsReady anchor_block s checkpoint limits at p =
        let tip = limits.latest_committed_block in
        elim (Bool-cases (ltb tip checkpoint.block_num)) [
          | inl e ↦ rw (e, discover_from) p
          | inr e ↦ elim (Bool-cases (tip == checkpoint.block_num)) [
            | inl f ↦ rw (e, f, discover_from) p
            | inr f ↦
                rw (e, f, discover_from)
                  (scan_blocks-IsReady (tip - checkpoint.block_num) s checkpoint at p)
          ]
        ]

    -- Discovery keeps the store one that a start accepts.
    pub discover_burns-IsReady :
        (anchor_block : ℕ) (s : Store)
        → IsReady w codec faucet anchor s
        → IsReady w codec faucet anchor
            (discover_burns codec faucet reader commands anchor_block s).store
    unfolding discover_burns
    discover_burns-IsReady anchor_block s p = elim (Option-cases s.checkpoint) [
      | inl e ↦ rw (e, discover_burns) p
      | inr (checkpoint, e) ↦ elim (Result-cases reader.scan_limits) [
        | inr (x, f) ↦ rw (e, f, discover_burns) p
        | inl (limits, f) ↦
            rw (e, f, discover_burns) (discover_from-IsReady anchor_block s checkpoint limits e p)
      ]
    ]
