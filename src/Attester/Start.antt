-- ===== src/Attester/Start.antt =====
-- `start` of crates/xusdc-light-attester/src/attester.rs: the checks before the store is opened, the
-- opening, and the first checkpoint; and `release_holds`, the offline command. What the services answer is a parameter.
pub mod Kept
pub mod Scan
pub mod Lives
pub mod Checks
use miden_usdcx.Prelude.{
  ℕ, Bool, true, false, not, ◌&&◌, ◌||◌, Option, none, some, List, [], ◌∷◌, ◌==◌, is_some, is_none,
  if◌then◌else◌, Result, ok, err, ensure, map_err, ◌>>◌, ◌>>=◌,
}
use miden_usdcx.Circle.{Wire, CircleError}
use miden_usdcx.Burn.{NoteCodec}
use miden_usdcx.Config.{Config}
use miden_usdcx.Signer.{Providers, SignerPair, KeysError, check_expected}
use miden_usdcx.Verify.Types.{Libraries}
use miden_usdcx.Store.{Store, StoreError}
use miden_usdcx.Store.Limits.{first_limit_wait}
use miden_usdcx.Store.Holds.{ReleaseError, Released, store_failed, release_holds}
use miden_usdcx.Store.Open.{TrustedAnchor, open_existing, open_or_create}
use miden_usdcx.Attester.Discover.{
  ChainReader, ChainError, DiscoverError, SignedBlock, check_checkpoint, save_block,
}
use miden_usdcx.Attester.Cycle.{Pass, run}

-- The context that the error of `start` carries.
pub data StartError : Type 0 where
  node_unreachable : ChainError → StartError
  faucet_unchecked : ChainError → StartError
  no_faucet : StartError
  anchor_unavailable : ChainError → StartError
  other_anchor : StartError
  keys_refused : KeysError → StartError
  circle_unreachable : CircleError → StartError
  store_refused : StoreError → StartError
  limit_settings_missing : StartError
  checkpoint_refused : DiscoverError → StartError
  anchor_unsaved : StoreError → StartError

-- What the services answer while the attester starts; `is_consistent` is `block.validate(None)` of
-- the protocol's library.
pub record Services (S : Type 0) : Type 0 where
  pub node_connection : Result ChainError (Unit {0})
  pub account_exists : ℕ → Result ChainError Bool
  pub reader : ChainReader
  pub is_consistent : SignedBlock → Bool
  pub providers : Providers S
  pub signers : SignerPair S
  pub circle_connection : Result CircleError (Unit {0})

-- What a start leaves at the store's path, and whether it succeeded.
pub record Started : Type 0 where
  pub saved : Option Store
  pub result : Result StartError (Unit {0})

abbrev pub anchor_of : Config → TrustedAnchor
anchor_of config = record {
  block_num = config.trusted_anchor_block;
  commitment = config.trusted_anchor_commitment;
}

module _ (codec : NoteCodec) (config : Config) where
  -- A pinned block is checked before a store is created, and is the anchor's.
  unfoldable pub is_pinned : {S : Type 0} → Services S → SignedBlock → Bool
  is_pinned services block =
      block.header.block_num == config.trusted_anchor_block
      && (block.header.commitment == config.trusted_anchor_commitment
          && services.is_consistent block)

  unfoldable pub check_services : {S : Type 0} → Services S → Result StartError SignedBlock
  unfolding is_pinned
  check_services services = do
    map_err node_unreachable services.node_connection
    account_exists ← map_err faucet_unchecked (services.account_exists config.faucet_account_id)
    ensure account_exists no_faucet
    block ← map_err anchor_unavailable (services.reader.block_by_number config.trusted_anchor_block)
    ensure (is_pinned services block) other_anchor
    map_err keys_refused
        (check_expected services.providers config.expected_signing_public_keys_hex services.signers)
    map_err circle_unreachable services.circle_connection
    ok block

  -- A new store's first checkpoint is the pinned block; a saved checkpoint must still be the node's.
  unfoldable pub first_checkpoint : ChainReader → SignedBlock → Store → Started
  first_checkpoint reader block s = elim s.checkpoint [
    | some checkpoint ↦ record {
      saved = some s;
      result = map_err checkpoint_refused (check_checkpoint reader checkpoint);
    }
    | none ↦ elim (save_block codec config.faucet_account_id s block) [
      | err e ↦ record { saved = some s; result = err (anchor_unsaved e) }
      | ok t ↦ record { saved = some t; result = ok tt }
    ]
  ]

  -- Withdrawals that wait for Circle's limit need the limit's settings.
  abbrev pub has_limit_settings : Store → Bool
  has_limit_settings s = is_some config.withdrawal_limit || is_none (first_limit_wait s)

  unfoldable pub start : {S : Type 0} → Services S → Option Store → Started
  unfolding check_services first_checkpoint
  start services saved = elim (check_services services) [
    | err e ↦ record { saved = saved; result = err e }
    | ok block ↦ elim (open_or_create codec config.faucet_account_id (anchor_of config) saved) [
      | err e ↦ record { saved = saved; result = err (store_refused e) }
      | ok s ↦
          if has_limit_settings s
          then first_checkpoint services.reader block s
          else record { saved = some s; result = err limit_settings_missing }
    ]
  ]

-- What the offline command `release-holds` is given: the store's faucet and anchor, SQLite's
-- `unixepoch()` and the notes.
pub record Maintenance : Type 0 where
  pub faucet_account_id : ℕ
  pub trusted_anchor : TrustedAnchor
  pub unixepoch : ℕ
  pub note_ids : List ℕ

-- `before` is the order of `NoteId`.
unfoldable pub release_offline :
    NoteCodec → (ℕ → ℕ → Bool) → Maintenance → Option Store → Result ReleaseError (Store × Released)
release_offline codec before command saved = do
  s ←
      map_err store_failed
        (open_existing codec command.faucet_account_id command.trusted_anchor saved)
  release_holds before s command.unixepoch command.note_ids

-- One use of the store's path: a start, with a run if the start succeeded, or an offline command.
pub data Life (S : Type 0) : Type 0 where
  serves : Services S → List Pass → Life S
  maintains : Maintenance → Life S

module _ (w : Wire) (l : Libraries) (codec : NoteCodec) (before : ℕ → ℕ → Bool)
    (config : Config) where
  abbrev pub after_start : List Pass → Started → Option Store
  after_start passes started = elim started.result [
    | err e ↦ started.saved
    | ok _ ↦ elim started.saved [
      | none ↦ none
      | some s ↦ some (run w l codec config s config.poll_interval [] passes).store
    ]
  ]

  abbrev pub after_release : Option Store → Result ReleaseError (Store × Released) → Option Store
  after_release saved (err e) = saved
  after_release saved (ok (next, released)) = some next

  -- What is at the store's path after one life, and after a number of them.
  unfoldable pub after_life : {S : Type 0} → Option Store → Life S → Option Store
  unfolding start release_offline
  after_life saved (serves services passes) = after_start passes (start codec config services saved)
  after_life saved (maintains command) =
      after_release saved (release_offline codec before command saved)

  unfoldable pub live : {S : Type 0} → Option Store → List (Life S) → Option Store
  unfolding after_life
  live saved [] = saved
  live saved (life ∷ rest) = live (after_life saved life) rest
