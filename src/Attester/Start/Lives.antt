-- ===== src/Attester/Start/Lives.antt =====
-- Any number of starts and runs of crates/xusdc-light-attester/src/attester.rs on one store path.
use miden_usdcx.Prelude.{
  ℕ, Bool, ◌≡◌, refl, ap, ◌∙◌, ◌⊎◌, subst, inl, inr, true, false, Option, none, some, List, [], ◌∷◌,
  arith, All, leb, Result, ok, err, Bool-cases, Result-cases, Option-cases,
}
use miden_usdcx.Circle.{Wire}
use miden_usdcx.Burn.{NoteCodec}
use miden_usdcx.Config.{Config}
use miden_usdcx.Signer.{check_expected}
use miden_usdcx.Verify.Types.{Libraries}
use miden_usdcx.Store.{Store}
use miden_usdcx.Store.Sound.{IsSound}
use miden_usdcx.Store.Steps.{initialize_store, initialize_store-IsSound}
use miden_usdcx.Store.Reads.{max_block}
use miden_usdcx.Store.Holds.{release_holds}
use miden_usdcx.Store.Open.Works.{release_holds-Opens}
use miden_usdcx.Store.Open.{open_existing, validate_store, is_below, open_or_create}
use miden_usdcx.Store.Open.Opens.{Opens-validate_store}
use miden_usdcx.Attester.Discover.{SignedBlock, save_block}
use miden_usdcx.Attester.Cycle.{Pass}
use miden_usdcx.Attester.Cycle.Run.{KeptBy, run_keeps}
use miden_usdcx.Attester.Start.{
  Services, StartError, Life, anchor_of, is_pinned, check_services, first_checkpoint,
  has_limit_settings, start, serves, maintains, Maintenance, release_offline, after_start,
  after_release, after_life, live,
}
use miden_usdcx.Attester.Start.Scan.{
  IsReady, Sends, IsReady-Keeps, save_block-IsReady, discover_burns-IsReady,
}

-- The pinned block that the services gave, if they all passed.
pub check_services_lem :
    {S : Type 0} (codec : NoteCodec) (config : Config) (services : Services S) (block : SignedBlock)
    → check_services codec config services ≡ ok block
    → (services.reader.block_by_number config.trusted_anchor_block ≡ ok block)
      × (is_pinned codec config services block ≡ true)
      × (check_expected services.providers config.expected_signing_public_keys_hex services.signers
          ≡ ok tt)
unfolding check_services
check_services_lem codec config services block h = ground arith

module _ (w : Wire) (l : Libraries) (codec : NoteCodec) (before : ℕ → ℕ → Bool) (config : Config)
    (known : w.status_is_valid 400 ≡ true)
    (small : leb config.trusted_anchor_block max_block ≡ true) where
  -- A store that the next start accepts.
  abbrev Ready : Store → Type 0
  Ready s = IsReady w codec config.faucet_account_id (anchor_of config) s

  abbrev ReadyIfSaved : Option Store → Type 0
  ReadyIfSaved none = Unit {0}
  ReadyIfSaved (some s) = Ready s

  initialize_store-Ready : Ready (
      initialize_store config.faucet_account_id config.trusted_anchor_block
        config.trusted_anchor_commitment)
  unfolding initialize_store
  initialize_store-Ready = (
    initialize_store-IsSound w config.faucet_account_id config.trusted_anchor_block
        config.trusted_anchor_commitment,
    record {
      faucet_is = refl;
      anchor_is = (refl, refl);
      anchor_small = small;
      readable = tt;
      not_below = refl;
    },
  )

  open_or_create-Ready :
      (saved : Option Store) (s : Store)
      → open_or_create codec config.faucet_account_id (anchor_of config) saved ≡ ok s
      → ReadyIfSaved saved
      → Ready s
  unfolding open_or_create open_existing
  open_or_create-Ready none s h p =
      let q : initialize_store config.faucet_account_id config.trusted_anchor_block
            config.trusted_anchor_commitment
          ≡ s =
        ground arith in
      subst Ready q initialize_store-Ready
  open_or_create-Ready (some t) s h p = let q : t ≡ s = ground arith in subst Ready q p

  reopened :
      (s : Store)
      → Ready s
      → open_or_create codec config.faucet_account_id (anchor_of config) (some s) ≡ ok s
  unfolding open_or_create open_existing
  reopened s p =
      let e =
        Opens-validate_store {w = w} codec config.faucet_account_id (anchor_of config) s p.0 p.1 in
      ground (arith, e)

  first_checkpoint-ReadyIfSaved :
      {S : Type 0} (services : Services S) (block : SignedBlock) (s : Store)
      → Sends codec services.reader
      → check_services codec config services ≡ ok block
      → Ready s
      → ReadyIfSaved (first_checkpoint codec config services.reader block s).saved
  unfolding first_checkpoint is_pinned
  first_checkpoint-ReadyIfSaved services block s sends h p =
      let (answer, pinned, keys) = check_services_lem codec config services block h in
      let above : is_below config.trusted_anchor_block (some block.header) ≡ false = ground arith in
      elim (Option-cases s.checkpoint) [
        | inr (checkpoint, e) ↦ rw (e, first_checkpoint) p
        | inl e ↦ elim (Result-cases (save_block codec config.faucet_account_id s block)) [
          | inr (x, f) ↦ rw (e, f, first_checkpoint) p
          | inl (t, f) ↦
              rw (e, f, first_checkpoint)
                (save_block-IsReady w codec config.faucet_account_id (anchor_of config) known s t
                  block f (sends config.trusted_anchor_block block answer) above p)
        ]
      ]

  start-ReadyIfSaved :
      {S : Type 0} (services : Services S) (saved : Option Store)
      → Sends codec services.reader
      → ReadyIfSaved saved
      → ReadyIfSaved (start codec config services saved).saved
  unfolding start
  start-ReadyIfSaved services saved sends p =
      elim (Result-cases (check_services codec config services)) [
        | inr (x, e) ↦ rw (e, start) p
        | inl (block, e) ↦
            elim (Result-cases
              (open_or_create codec config.faucet_account_id (anchor_of config) saved)) [
                | inr (x, f) ↦ rw (e, f, start) p
                | inl (s, f) ↦
                    let ready = open_or_create-Ready saved s f p in
                    elim (Bool-cases (has_limit_settings codec config s)) [
                      | inr g ↦ rw (e, f, g, start) ready
                      | inl g ↦
                          rw (e, f, g, start)
                            (first_checkpoint-ReadyIfSaved services block s sends e ready)
                    ]
              ]
      ]

  -- Every node of a life sends blocks that can be saved.
  abbrev pub AllSend : {S : Type 0} → Life S → Type 0
  AllSend (serves services passes) =
      Sends codec services.reader × All (λ (pass : Pass). Sends codec pass.world.reader) passes
  AllSend (maintains command) = Unit {0}

  each_pass :
      (passes : List Pass)
      → All (λ (pass : Pass). Sends codec pass.world.reader) passes
      → All (λ (pass : Pass). KeptBy codec w l config known Ready pass.world) passes
  each_pass [] a = tt
  each_pass (pass ∷ passes) a = (
    λ s p.
        discover_burns-IsReady w codec config.faucet_account_id (anchor_of config) known
          pass.world.reader pass.world.block_commands a.0 config.trusted_anchor_block s p,
    each_pass passes a.1,
  )

  after_start-ReadyIfSaved :
      (passes : List Pass) (result : Result StartError (Unit {0})) (left : Option Store)
      → All (λ (pass : Pass). Sends codec pass.world.reader) passes
      → ReadyIfSaved left
      → ReadyIfSaved
          (after_start w l codec before config passes (record { saved = left; result = result }))
  after_start-ReadyIfSaved passes (err e) left sends r = r
  after_start-ReadyIfSaved passes (ok u) none sends r = tt
  after_start-ReadyIfSaved passes (ok u) (some s) sends r =
      run_keeps codec w l config known Ready passes s config.poll_interval []
        (IsReady-Keeps w codec config.faucet_account_id (anchor_of config) known)
        (each_pass passes sends) r

  after_release-ReadyIfSaved :
      (saved : Option Store) (command : Maintenance)
      → ReadyIfSaved saved
      → ReadyIfSaved
          (after_release w l codec before config saved (release_offline codec before command saved))
  unfolding release_offline open_existing
  after_release-ReadyIfSaved none command p = tt
  after_release-ReadyIfSaved (some s) command p =
      elim (Result-cases (release_offline codec before command (some s))) [
        | inr (x, e) ↦ rw e p
        | inl ((next, released), e) ↦
            let h : release_holds before s command.unixepoch command.note_ids
                ≡ ok (next, released) =
              elim (Result-cases
                (validate_store codec command.faucet_account_id command.trusted_anchor s)) [
                  | inl (u, f) ↦ ground arith
                  | inr (x, f) ↦ absurd (ground arith)
                ] in
            rw e (
              release_holds-Opens {w = w} codec config.faucet_account_id (anchor_of config) s before
                command.unixepoch command.note_ids (next, released) h p)
      ]

  live-ReadyIfSaved :
      {S : Type 0} (saved : Option Store) (lives : List (Life S))
      → All AllSend lives
      → ReadyIfSaved saved
      → ReadyIfSaved (live w l codec before config saved lives)
  unfolding live after_life
  live-ReadyIfSaved saved [] sends p = p
  live-ReadyIfSaved saved (serves services passes ∷ lives) sends p =
      let started = start codec config services saved in
      live-ReadyIfSaved (after_start w l codec before config passes started) lives sends.1 (
        after_start-ReadyIfSaved passes started.result started.saved sends.0.1
          (start-ReadyIfSaved services saved sends.0.0 p))
  live-ReadyIfSaved saved (maintains command ∷ lives) sends p =
      live-ReadyIfSaved
        (after_release w l codec before config saved (release_offline codec before command saved))
        lives sends.1 (after_release-ReadyIfSaved saved command p)

  -- The attester never leaves a store that it would refuse: after any number of starts and runs with
  -- one configuration, and of offline releases between them, on a path that held no store, the next
  -- start's opening succeeds. It gives a well-formed store, the one at the path if there is one. The nodes must return blocks whose
  -- numbers fit 32 bits and whose public notes' bytes decode to them, the pinned block's number
  -- must fit 32 bits, and status 400 must be a valid HTTP status.
  pub live_opens :
      {S : Type 0} (lives : List (Life S))
      → All AllSend lives
      → (let left = live w l codec before config none lives in
          (s : Store) × (open_or_create codec config.faucet_account_id (anchor_of config) left
            ≡ ok s)
          × ((left ≡ none) ⊎ (left ≡ some s))
          × IsSound w s)
  unfolding open_or_create open_existing
  live_opens lives sends =
      let left = live w l codec before config none lives in
      let ready = live-ReadyIfSaved none lives sends tt in
      elim (Option-cases left) [
        | inl e ↦ (
          initialize_store config.faucet_account_id config.trusted_anchor_block
              config.trusted_anchor_commitment,
          ap (open_or_create codec config.faucet_account_id (anchor_of config)) e,
          inl e,
          initialize_store-Ready.0,
        )
        | inr (s, e) ↦
            let p : Ready s = subst ReadyIfSaved e ready in
            (
              s,
              ap (open_or_create codec config.faucet_account_id (anchor_of config)) e
                  ∙ reopened s p,
              inr e,
              p.0,
            )
      ]
