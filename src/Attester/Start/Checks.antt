-- ===== src/Attester/Start/Checks.antt =====
-- What `start` of crates/xusdc-light-attester/src/attester.rs has checked before it writes, and
-- before it succeeds.
use miden_usdcx.Prelude.{
  ◌≡◌, ◌⊎◌, ap, ◌∙◌, refl, subst, sym, inl, inr, true, Option, none, some, arith, ok, Bool-cases,
  Result-cases, Option-cases,
}
use miden_usdcx.Burn.{NoteCodec}
use miden_usdcx.Config.{Config}
use miden_usdcx.Signer.{check_expected}
use miden_usdcx.Store.{Store, BlockHeader}
use miden_usdcx.Store.Open.{open_existing, validate_store, open_or_create}
use miden_usdcx.Attester.Discover.{SignedBlock, save_block, check_checkpoint}
use miden_usdcx.Attester.Discover.Chain.{save_block-checkpoint}
use miden_usdcx.Attester.Start.{
  Services, Started, anchor_of, is_pinned, check_services, first_checkpoint, has_limit_settings,
  start,
}
use miden_usdcx.Attester.Start.Lives.{check_services_lem}

module _ {S : Type 0} (codec : NoteCodec) (config : Config) (services : Services S) where
  -- The node has the pinned block, and the signers are the configured ones.
  abbrev pub IsPinned : SignedBlock → Type 0
  IsPinned block =
      (services.reader.block_by_number config.trusted_anchor_block ≡ ok block)
      × (is_pinned codec config services block ≡ true)
      × (check_expected services.providers config.expected_signing_public_keys_hex services.signers
          ≡ ok tt)

  -- The store has a checkpoint, which the node has too.
  abbrev pub HasCheckpoint : Store → Type 0
  HasCheckpoint s =
      (checkpoint : BlockHeader) × (block : SignedBlock) × (s.checkpoint ≡ some checkpoint)
      × (services.reader.block_by_number checkpoint.block_num ≡ ok block)
      × (block.header.commitment ≡ checkpoint.commitment)

  -- The store passes the checks, and the limit's settings are there if a withdrawal waits for it.
  abbrev pub IsAccepted : Store → Type 0
  IsAccepted s =
      (validate_store codec config.faucet_account_id (anchor_of config) s ≡ ok tt)
      × (has_limit_settings codec config s ≡ true)

  abbrev pub IsAcceptedIfSaved : Option Store → Type 0
  IsAcceptedIfSaved none = Unit {0}
  IsAcceptedIfSaved (some s) = IsAccepted s

  check_checkpoint_lem :
      (checkpoint : BlockHeader)
      → check_checkpoint services.reader checkpoint ≡ ok tt
      → (block : SignedBlock) × (services.reader.block_by_number checkpoint.block_num ≡ ok block)
        × (block.header.commitment ≡ checkpoint.commitment)
  unfolding check_checkpoint
  check_checkpoint_lem checkpoint h =
      elim (Result-cases (services.reader.block_by_number checkpoint.block_num)) [
        | inr (x, e) ↦ absurd (ground arith)
        | inl (block, e) ↦ (block, e, ground arith)
      ]

  first_checkpoint_lem :
      (block : SignedBlock) (s : Store)
      → IsPinned block
      → (first_checkpoint codec config services.reader block s).result ≡ ok tt
      → (t : Store) × ((first_checkpoint codec config services.reader block s).saved ≡ some t)
        × HasCheckpoint t
  unfolding first_checkpoint is_pinned
  first_checkpoint_lem block s pinned h =
      let number : block.header.block_num ≡ config.trusted_anchor_block =
        ground (arith, pinned.1) in
      elim (Option-cases s.checkpoint) [
        | inr (checkpoint, e) ↦ elim (Result-cases (check_checkpoint services.reader checkpoint)) [
          | inr (x, f) ↦ absurd (ground arith)
          | inl (u, f) ↦
              let (b, answer, same) = check_checkpoint_lem checkpoint f in
              (s, ground arith, (checkpoint, b, e, answer, same))
        ]
        | inl e ↦ elim (Result-cases (save_block codec config.faucet_account_id s block)) [
          | inr (x, f) ↦ absurd (ground arith)
          | inl (t, f) ↦ (
            t,
            ground arith,
            (
              block.header,
              block,
              save_block-checkpoint codec config.faucet_account_id s t block f,
              subst (λ n. services.reader.block_by_number n ≡ ok block) (sym number) pinned.0,
              refl,
            ),
          )
        ]
      ]

  opened-IsAccepted :
      (saved : Option Store) (s : Store)
      → open_or_create codec config.faucet_account_id (anchor_of config) saved ≡ ok s
      → has_limit_settings codec config s ≡ true
      → IsAcceptedIfSaved saved
  unfolding open_or_create open_existing
  opened-IsAccepted none s h g = tt
  opened-IsAccepted (some t) s h g =
      let same : s ≡ t = ground arith in
      (ground arith, subst (λ x. has_limit_settings codec config x ≡ true) same g)

  -- A start writes at the store's path only if the node has the pinned block, which is consistent,
  -- and the signers are the configured ones.
  pub start-IsPinned :
      (saved : Option Store)
      → ((start codec config services saved).saved ≡ saved)
        ⊎ ((block : SignedBlock) × IsPinned block)
  unfolding start
  start-IsPinned saved = elim (Result-cases (check_services codec config services)) [
    | inr (x, e) ↦ inl (rw (e, start) refl)
    | inl (block, e) ↦ inr (block, check_services_lem codec config services block e)
  ]

  -- If a start succeeds, the node has the pinned block, which is consistent, the signers are the
  -- configured ones, and the store at the path has a checkpoint at whose height the node has a
  -- block with its commitment. A store that was there before passes the checks, and if a
  -- withdrawal waits in it for Circle's limit, the limit's settings are there.
  pub start_succeeds :
      (saved : Option Store)
      → (start codec config services saved).result ≡ ok tt
      → ((block : SignedBlock) × IsPinned block)
        × ((s : Store) × ((start codec config services saved).saved ≡ some s) × HasCheckpoint s)
        × IsAcceptedIfSaved saved
  unfolding start
  start_succeeds saved h = elim (Result-cases (check_services codec config services)) [
    | inr (x, e) ↦ absurd (ground arith)
    | inl (block, e) ↦
        let pinned = check_services_lem codec config services block e in
        elim (Result-cases
          (open_or_create codec config.faucet_account_id (anchor_of config) saved)) [
            | inr (x, f) ↦ absurd (ground arith)
            | inl (s, f) ↦ elim (Bool-cases (has_limit_settings codec config s)) [
              | inr g ↦ absurd (ground arith)
              | inl g ↦
                  let p : first_checkpoint codec config services.reader block s
                      ≡ start codec config services saved =
                    rw (e, f, g, start) refl in
                  (
                    (block, pinned),
                    subst (λ (x : Started). (t : Store) × (x.saved ≡ some t) × HasCheckpoint t) p
                        (first_checkpoint_lem block s pinned
                          (ap (λ (x : Started). x.result) p ∙ h)),
                    opened-IsAccepted saved s f g,
                  )
            ]
          ]
  ]
