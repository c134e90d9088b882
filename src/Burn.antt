-- ===== src/Burn.antt =====
-- crates/xusdc-light-attester/src/burn.rs: a public note that the configured faucet can consume as
-- an xUSDC burn. The note itself is a value of the Miden libraries: `PublicNote` holds what the code
-- reads of one, with the libraries' decoders already applied to its attachments.
use miden_usdcx.Prelude.{
  ℕ, String, Bool, not, ◌||◌, Option, List, [], ◌∷◌, Bytes, bytes_eq, ◌==◌, if◌then◌else◌, Result,
  ok, err, ensure, ok_or, ◌>>◌, ◌>>=◌,
}

-- `XReserveBurnItems`: the destination of the withdrawal.
pub record BurnItems : Type 0 where
  pub dest_domain : ℕ
  pub dest_recipient : ℕ

pub record Asset : Type 0 where
  pub is_fungible : Bool
  pub faucet_id : ℕ
  pub elements : List ℕ
  pub amount : ℕ

-- `PublicOutputNote`. An attachment that is missing is `none`, one that its decoder refuses is
-- `some none`.
pub record PublicNote : Type 0 where
  pub id : ℕ
  pub nullifier : ℕ
  pub sender : ℕ
  pub script_root : ℕ
  pub num_attachments : ℕ
  pub routing : Option (Option ℕ)
  pub withdrawal : Option (Option BurnItems)
  pub assets : List Asset
  pub storage : List ℕ

-- The libraries' serialisation of a note, and `XReserveBurnNote::script_root()`.
pub record NoteCodec : Type 0 where
  pub to_bytes : PublicNote → Bytes
  pub read_from_bytes : Bytes → Option PublicNote
  pub burn_script_root : ℕ

pub record BurnCandidate : Type 0 where
  pub note : PublicNote
  pub creation_block : ℕ
  pub items : BurnItems
  pub amount : ℕ

pub record DiscoveredBurn : Type 0 where
  pub note : PublicNote
  pub creation_block : ℕ
  pub consumption_block : ℕ
  pub items : BurnItems
  pub amount : ℕ

-- The reason is a text that only a log shows.
pub data InvalidBurnCandidate : Type 0 where
  because : String → InvalidBurnCandidate

-- One fungible amount of the faucet's token, which the storage repeats.
unfoldable pub asset_amount : List Asset → List ℕ → ℕ → Result InvalidBurnCandidate ℕ
asset_amount (asset ∷ []) storage faucet =
    if not asset.is_fungible
      || (not (asset.faucet_id == faucet) || not (bytes_eq storage asset.elements))
    then err (because "asset or storage is not one fungible amount of the faucet's token")
    else ok asset.amount
asset_amount _ storage faucet = err (because "expected exactly one asset")

abbrev pub into_discovered : BurnCandidate → ℕ → DiscoveredBurn
into_discovered c consumption_block = record {
  note = c.note;
  creation_block = c.creation_block;
  consumption_block = consumption_block;
  items = c.items;
  amount = c.amount;
}

module _ (codec : NoteCodec) where
  -- `BurnCandidate::new`
  unfoldable pub new_candidate : PublicNote → ℕ → ℕ → Result InvalidBurnCandidate BurnCandidate
  unfolding asset_amount
  new_candidate note creation_block faucet = do
    ensure (note.script_root == codec.burn_script_root)
        (because "script root is not the burn script")
    ensure (note.num_attachments == 2) (because "expected exactly two attachments")
    routing ← ok_or note.routing (because "routing attachment is missing")
    withdrawal ← ok_or note.withdrawal (because "withdrawal attachment is missing")
    target ← ok_or routing (because "routing attachment is malformed")
    ensure (target == faucet) (because "routing target is not the faucet")
    items ← ok_or withdrawal (because "withdrawal attachment is malformed")
    amount ← asset_amount note.assets note.storage faucet
    ok (record { note = note; creation_block = creation_block; items = items; amount = amount })

  -- `DiscoveredBurn::new`
  unfoldable pub new_discovered :
      PublicNote → ℕ → ℕ → ℕ → Result InvalidBurnCandidate DiscoveredBurn
  new_discovered note creation_block consumption_block faucet = do
    candidate ← new_candidate note creation_block faucet
    ok (into_discovered candidate consumption_block)
