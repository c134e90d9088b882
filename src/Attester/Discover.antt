-- ===== src/Attester/Discover.antt =====
-- The scan of the chain: `discover_burns`, `save_block`, `fetch_and_verify_block`, `check_checkpoint`
-- and `find_burns_in_block` of crates/xusdc-light-attester/src/attester.rs. The node's answers are a
-- parameter, with the libraries' validation of a block against its parent.
pub mod Checkpoint
pub mod Chain
pub mod Diverged
pub mod Found
use miden_usdcx.Prelude.{
  ℕ, zero, suc, ◌-◌, ◌+◌, Bool, true, false, not, Option, none, some, List, [], ◌∷◌, ◌++◌, ◌==◌,
  ltb, if◌then◌else◌, ◌&&◌, Result, ok, err, ensure, ok_or, map_err, ◌>>◌, ◌>>=◌,
}
use miden_usdcx.Telemetry.{FailureClass, transient, integrity, actionable}
use miden_usdcx.Burn.{
  PublicNote, NoteCodec, BurnCandidate, DiscoveredBurn, new_candidate, into_discovered,
}
use miden_usdcx.Store.{Store, StoreError, invalid, BlockHeader}
use miden_usdcx.Store.Scan.{save_scan_progress}
use miden_usdcx.Store.Reads.{note_known, candidate_by_nullifier}
use miden_usdcx.Attester.Loop.{Commands, admin_checkpoint}

pub data ChainError : Type 0 where
  unavailable rpc : ChainError

pub data DiscoverError : Type 0 where
  chain : ChainError → DiscoverError
  chain_diverged : DiscoverError
  store : StoreError → DiscoverError

-- A failed chain read is retried next cycle, a diverged chain is never trusted again, and a store
-- failure needs an operator.
unfoldable pub discover_failure : DiscoverError → FailureClass
discover_failure (chain e) = transient "chain_read"
discover_failure chain_diverged = integrity "chain_diverged"
discover_failure (store e) = actionable "store"

pub data OutputNote : Type 0 where
  public_note : PublicNote → OutputNote
  private_note : OutputNote

-- What the code reads of a transaction's header.
pub record Transaction : Type 0 where
  pub account_id : ℕ
  pub input_nullifiers : List ℕ

-- What the code reads of a block: the notes of its batches in order, and its transactions.
pub record SignedBlock : Type 0 where
  pub header : BlockHeader
  pub output_notes : List OutputNote
  pub transactions : List Transaction

pub record ScanLimits : Type 0 where
  pub proof_lag_block : ℕ
  pub latest_committed_block : ℕ

-- `ChainReader`, with `block.validate(Some(parent)).is_ok()` of the protocol's library.
pub record ChainReader : Type 0 where
  pub scan_limits : Result ChainError ScanLimits
  pub block_by_number : ℕ → Result ChainError SignedBlock
  pub validates : SignedBlock → BlockHeader → Bool

-- Where a scan leaves the store and the attester. The saved blocks stay, errors included.
pub record Discovery : Type 0 where
  pub store : Store
  pub node_tip : Option ℕ
  pub result : Result DiscoverError ℕ

module _ (codec : NoteCodec) (faucet : ℕ) where
  -- The candidates among a block's output notes: public, an xUSDC burn, and not known yet.
  unfoldable pub find_candidates : Store → ℕ → List OutputNote → List BurnCandidate
  find_candidates s block [] = []
  find_candidates s block (private_note ∷ notes) = find_candidates s block notes
  find_candidates s block (public_note note ∷ notes) =
      let rest = find_candidates s block notes in
      elim (new_candidate codec note block faucet) [
        | err e ↦ rest
        | ok candidate ↦ if note_known s candidate.note.id then rest else candidate ∷ rest
      ]

  -- The saved candidates that a transaction's inputs consume.
  unfoldable pub find_consumed : Store → ℕ → List ℕ → Result StoreError (List DiscoveredBurn)
  find_consumed s block [] = ok []
  find_consumed s block (nullifier ∷ rest) = do
    candidate ← candidate_by_nullifier codec s faucet nullifier
    burns ← find_consumed s block rest
    ok (elim candidate [ none ↦ burns | some c ↦ into_discovered c block ∷ burns ])

  -- Only the faucet's transactions consume burns.
  unfoldable pub find_burned :
      Store → ℕ → List Transaction → Result StoreError (List DiscoveredBurn)
  unfolding find_consumed
  find_burned s block [] = ok []
  find_burned s block (transaction ∷ rest) = do
    found ←
        (if transaction.account_id == faucet
          then find_consumed s block transaction.input_nullifiers
          else ok [])
    burns ← find_burned s block rest
    ok (found ++ burns)

  unfoldable pub find_burns_in_block :
      SignedBlock → Store → Result StoreError (List BurnCandidate × List DiscoveredBurn)
  unfolding find_candidates find_burned
  find_burns_in_block block s = do
    burns ← find_burned s block.header.block_num block.transactions
    ok (find_candidates s block.header.block_num block.output_notes, burns)

  unfoldable pub save_block : Store → SignedBlock → Result StoreError Store
  unfolding find_burns_in_block
  save_block s block = do
    found ← find_burns_in_block block s
    save_scan_progress codec s found.0 found.1 block.header

-- The block that the node returns must be the requested one, and a child of the last one verified.
unfoldable pub fetch_and_verify_block :
    ChainReader → ℕ → BlockHeader → Result DiscoverError SignedBlock
fetch_and_verify_block reader block_num last_verified = do
  block ← map_err chain (reader.block_by_number block_num)
  ensure (block.header.block_num == block_num && reader.validates block last_verified)
      chain_diverged
  ok block

-- The node's block at the checkpoint's height must be the checkpoint's.
unfoldable pub check_checkpoint : ChainReader → BlockHeader → Result DiscoverError (Unit {0})
check_checkpoint reader checkpoint = do
  block ← map_err chain (reader.block_by_number checkpoint.block_num)
  ensure (block.header.commitment == checkpoint.commitment) chain_diverged

-- What a number of blocks leaves.
pub record Scanned : Type 0 where
  pub store : Store
  pub result : Result DiscoverError (Unit {0})

-- `commands` are the admin commands that are handled before each block.
module _ (codec : NoteCodec) (faucet : ℕ) (reader : ChainReader) (commands : ℕ → Commands) where
  -- One pass of the loop's body.
  unfoldable pub scan_block : Store → ℕ → BlockHeader → Result DiscoverError (SignedBlock × Store)
  unfolding fetch_and_verify_block save_block
  scan_block s block_num last_verified = do
    block ← fetch_and_verify_block reader block_num last_verified
    saved ← map_err store (save_block codec faucet s block)
    ok (block, saved)

  -- So many blocks, from `block_num` on.
  unfoldable pub scan_blocks : ℕ → Store → ℕ → BlockHeader → Scanned
  unfolding scan_block
  scan_blocks zero s block_num last_verified = record { store = s; result = ok tt }
  scan_blocks (suc left) s block_num last_verified =
      let now = admin_checkpoint s (commands block_num) in
      elim (scan_block now block_num last_verified) [
        | err e ↦ record { store = now; result = err e }
        | ok (block, saved) ↦ scan_blocks left saved (suc block_num) block.header
      ]

  abbrev after_scan : ScanLimits → Scanned → Discovery
  after_scan limits scanned = record {
    store = scanned.store;
    node_tip = some limits.latest_committed_block;
    result = scanned.result >> ok limits.proof_lag_block;
  }

  -- With the checkpoint and the node's limits read. A node short of the pinned anchor has not caught
  -- up yet; one behind a block authenticated since is no longer on that chain.
  unfoldable pub discover_from : ℕ → Store → BlockHeader → ScanLimits → Discovery
  unfolding scan_blocks check_checkpoint
  discover_from anchor_block s checkpoint limits =
      let tip = limits.latest_committed_block in
      if ltb tip checkpoint.block_num
      then after_scan limits (record {
        store = s;
        result = if checkpoint.block_num == anchor_block then ok tt else err chain_diverged;
      })
      else if tip == checkpoint.block_num
      then after_scan limits (record { store = s; result = check_checkpoint reader checkpoint })
      else after_scan limits
          (scan_blocks (tip - checkpoint.block_num) s (suc checkpoint.block_num) checkpoint)

  unfoldable pub discover_burns : ℕ → Store → Discovery
  unfolding discover_from
  discover_burns anchor_block s = elim s.checkpoint [
    | none ↦ record { store = s; node_tip = none; result = err (store invalid) }
    | some checkpoint ↦ elim reader.scan_limits [
      | err e ↦ record { store = s; node_tip = none; result = err (chain e) }
      | ok limits ↦ discover_from anchor_block s checkpoint limits
    ]
  ]
