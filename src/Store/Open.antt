-- ===== src/Store/Open.antt =====
-- Opening the store: `open_or_create`, `open_existing` and `validate_store` of
-- crates/xusdc-light-attester/src/store.rs. The file, its lock, SQLite's own checks and the
-- migrations are left out: a saved store is the tables at the current version.
pub mod Opens
pub mod Works
pub mod Scans
use miden_usdcx.Prelude.{
  ℕ, Bool, true, false, not, ◌&&◌, ◌||◌, Option, none, some, List, ◌==◌, ltb, any, all, Result, ok,
  err, ensure, ◌>>◌, ◌>>=◌,
}
use miden_usdcx.Burn.{NoteCodec}
use miden_usdcx.Sql.{exists}
use miden_usdcx.Store.{
  Store, StoreError, invalid, query_failed, anchor_differs, BurnRow, BlockHeader, submission_key,
}
use miden_usdcx.Store.Rows.{well_formed_if_known}
use miden_usdcx.Store.Submissions.{ends_limit_wait}
use miden_usdcx.Store.Limits.{is_waiting, may_wait}
use miden_usdcx.Store.Reads.{decode_block_number, load_candidates, load_burns}
use miden_usdcx.Store.Steps.{initialize_store}

-- The block that the operator pinned.
pub record TrustedAnchor : Type 0 where
  pub block_num : ℕ
  pub commitment : ℕ

-- The rows that the first query looks for: a burn that waits for the withdrawal limit and is not
-- consumed, is held, or has a request that ends the wait.
abbrev pub waits_wrongly : Store → BurnRow → Bool
waits_wrongly s b =
    is_waiting b
    && (not (may_wait b)
        || exists submission_key b.note_id (λ r. ends_limit_wait r.status) s.submissions)

abbrev pub is_below : ℕ → Option BlockHeader → Bool
is_below anchor none = false
is_below anchor (some checkpoint) = ltb checkpoint.block_num anchor

module _ (codec : NoteCodec) (faucet : ℕ) (anchor : TrustedAnchor) where
  unfoldable pub validate_store : Store → Result StoreError (Unit {0})
  validate_store s = do
    ensure (not (any (waits_wrongly s) s.burns)) invalid
    ensure (all (λ r. well_formed_if_known r.withdrawal_id) s.submissions) invalid
    ensure (s.faucet_account_id == faucet) invalid
    stored_block ← decode_block_number s.anchor_block
    ensure (stored_block == anchor.block_num && s.anchor_commitment == anchor.commitment)
        anchor_differs
    candidates ← load_candidates codec s faucet (λ b. true)
    burns ← load_burns codec s faucet true
    ensure (not (is_below anchor.block_num s.checkpoint)) invalid

  -- `none` is a path at which there is no store, which is not created here.
  unfoldable pub open_existing : Option Store → Result StoreError Store
  unfolding validate_store
  open_existing none = err query_failed
  open_existing (some saved) = do validate_store saved; ok saved

  unfoldable pub open_or_create : Option Store → Result StoreError Store
  unfolding open_existing initialize_store
  open_or_create none = ok (initialize_store faucet anchor.block_num anchor.commitment)
  open_or_create (some saved) = open_existing (some saved)
