-- ===== src/Attester/Cycle.antt =====
-- A cycle of crates/xusdc-light-attester/src/attester.rs: `discovery_outcome`, `cycle`,
-- `finish_cycle` and `run`, with the pause between cycles. The spans and the progress that
-- they carry are left out.
pub mod Pending
pub mod Run
pub mod Fresh
pub mod Sound
pub mod Pause
use miden_usdcx.Prelude.{
  ℕ, ◌*◌, ◌-◌, ◌^◌, min, max, Bool, true, false, Option, none, some, List, [], ◌∷◌, map, length,
  if◌then◌else◌, Result, ok, err, map_err, ◌>>=◌,
}
use miden_usdcx.Circle.{Wire}
use miden_usdcx.Burn.{NoteCodec, DiscoveredBurn}
use miden_usdcx.Config.{Config, nanos_per_second}
use miden_usdcx.Submission.{SavedSubmission}
use miden_usdcx.Verify.Types.{Libraries}
use miden_usdcx.Store.{Store, StoreError}
use miden_usdcx.Store.Submissions.{submissions_to_recover, submissions_to_poll}
use miden_usdcx.Store.Reads.{burns_ready_for_withdrawal}
use miden_usdcx.Attester.{Client, Clock, Done, FatalError, store_failed}
use miden_usdcx.Attester.Limit.{limit_allows}
use miden_usdcx.Attester.Loop.{
  Commands, Turn, admin_checkpoint, advance_submissions, handle_commands,
}
use miden_usdcx.Attester.Withdraw.{Desk, SubmitError, fatal, is_fatal, Attempt, attempt_withdrawal}
use miden_usdcx.Attester.Discover.{
  ChainReader, DiscoverError, chain, chain_diverged, store, discover_burns,
}
use miden_usdcx.Attester.Submit.{BurnTurn, Submits, submit_withdrawals}

-- A chain read failure lets recovery and polling go on without new burns; anything else stops the
-- cycle.
unfoldable pub discovery_outcome :
    Result DiscoverError ℕ → Result DiscoverError (Option ℕ × Result DiscoverError (Unit {0}))
discovery_outcome (ok proof_lag_block) = ok (some proof_lag_block, ok tt)
discovery_outcome (err (chain e)) = ok (none, err (chain e))
discovery_outcome (err e) = err e

-- Why a cycle stopped.
pub data CycleFailure : Type 0 where
  discovery_stopped : DiscoverError → CycleFailure
  store_stopped : StoreError → CycleFailure
  recovery_stopped polling_stopped : FatalError → CycleFailure
  submission_stopped : SubmitError → CycleFailure

pub record CycleReport : Type 0 where
  pub discover : Result DiscoverError (Unit {0})
  pub submit : Result SubmitError (Unit {0})

-- Everything around one cycle: the node, and what surrounds each step.
pub record World : Type 0 where
  pub reader : ChainReader
  pub block_commands : ℕ → Commands
  pub recover_turn : SavedSubmission → Turn
  pub burn_turn : DiscoveredBurn → BurnTurn
  pub poll_turn : SavedSubmission → Turn

pub record Cycled : Type 0 where
  pub store : Store
  pub rate_limited : Bool
  pub result : Result CycleFailure CycleReport

abbrev pub with_turns : {A B : Type 0} → (A → B) → List A → List (A × B)
with_turns turn items = map (λ a. (a, turn a)) items

abbrev pub stops : Store → Bool → CycleFailure → Cycled
stops s limited e = record { store = s; rate_limited = limited; result = err e }

-- What one cycle works on, read before anything changes a status.
pub record Snapshot : Type 0 where
  pub to_recover : List SavedSubmission
  pub to_poll : List SavedSubmission
  pub fresh_burns : List DiscoveredBurn

module _ (w : Wire) (l : Libraries) (codec : NoteCodec) (config : Config) where
  -- The burns that reached the configured depth; none if the chain could not be read.
  unfoldable pub ready_burns : Store → Option ℕ → Result StoreError (List DiscoveredBurn)
  ready_burns s none = ok []
  ready_burns s (some proof_lag_block) =
      burns_ready_for_withdrawal codec s config.faucet_account_id proof_lag_block
        config.minimum_finality_depth_blocks

  unfoldable pub snapshot_work : Store → Option ℕ → Result StoreError Snapshot
  unfolding ready_burns
  snapshot_work s proof_lag_block = do
    recover ← submissions_to_recover w s
    poll ← submissions_to_poll w s
    burns ← ready_burns s proof_lag_block
    ok (record { to_recover = recover; to_poll = poll; fresh_burns = burns })

  abbrev polled : Result DiscoverError (Unit {0}) → Result SubmitError (Unit {0}) → Done → Cycled
  polled discover submit done = record {
    store = done.store;
    rate_limited = done.rate_limited;
    result = elim done.result [
      | err e ↦ err (polling_stopped e)
      | ok _ ↦ ok (record { discover = discover; submit = submit })
    ];
  }

  abbrev after_submit :
      World → List SavedSubmission → Result DiscoverError (Unit {0}) → Submits → Cycled
  after_submit world to_poll discover sent = elim sent.result [
    | err e ↦ stops sent.store sent.rate_limited (submission_stopped e)
    | ok submit ↦ polled discover submit (
        advance_submissions w config sent.store sent.rate_limited
          (with_turns world.poll_turn to_poll))
  ]

  abbrev after_recovery : World → Snapshot → Result DiscoverError (Unit {0}) → Done → Cycled
  after_recovery world work discover done = elim done.result [
    | err e ↦ stops done.store done.rate_limited (recovery_stopped e)
    | ok _ ↦ after_submit world work.to_poll discover (
        submit_withdrawals w l config done.store done.rate_limited none
          (with_turns world.burn_turn work.fresh_burns))
  ]

  -- Recovery, submission and polling of what a snapshot took.
  unfoldable pub work_through :
      World → Store → Bool → Snapshot → Result DiscoverError (Unit {0}) → Cycled
  work_through world s limited work discover =
      after_recovery world work discover
        (advance_submissions w config s limited (with_turns world.recover_turn work.to_recover))

  unfoldable pub after_discovery :
      World → Store → Bool → Option ℕ × Result DiscoverError (Unit {0}) → Cycled
  unfolding snapshot_work work_through
  after_discovery world s limited (proof_lag_block, discover) =
      elim (snapshot_work s proof_lag_block) [
        | err e ↦ stops s limited (store_stopped e)
        | ok work ↦ work_through world s limited work discover
      ]

  unfoldable pub cycle : World → Store → Bool → Cycled
  unfolding discovery_outcome after_discovery
  cycle world s limited =
      let found =
        discover_burns codec config.faucet_account_id world.reader world.block_commands
          config.trusted_anchor_block s in
      elim (discovery_outcome found.result) [
        | err e ↦ stops found.store limited (discovery_stopped e)
        | ok outcome ↦ after_discovery world found.store limited outcome
      ]

-- Only a diverged chain ends the run.
unfoldable pub finish_cycle : Result CycleFailure CycleReport → Result DiscoverError (Unit {0})
finish_cycle (err (discovery_stopped chain_diverged)) = err chain_diverged
finish_cycle _ = ok tt

-- `MAX_RATE_LIMITED_PAUSE`, and `Duration::MAX`, in nanoseconds.
abbrev pub max_rate_limited_pause : ℕ
max_rate_limited_pause = 60 * nanos_per_second

abbrev pub max_duration : ℕ
max_duration = 2 ^ 64 * nanos_per_second - 1

-- The pause doubles while Circle answers 429, up to a limit that is never below the poll interval.
unfoldable pub next_pause : ℕ → Bool → ℕ → ℕ
next_pause poll_interval rate_limited pause =
    if rate_limited
    then max (min (min (pause * 2) max_duration) max_rate_limited_pause) poll_interval
    else poll_interval

-- One pass of the loop in `run`: the commands before the cycle, the cycle, and the commands that are
-- handled as they arrive during the pause.
pub record Pass : Type 0 where
  pub before : Commands
  pub world : World
  pub during_pause : Commands

-- Where a run stands: the store, the pauses taken, latest first, and the error that ended it.
pub record Ran : Type 0 where
  pub store : Store
  pub pauses : List ℕ
  pub result : Result DiscoverError (Unit {0})

module _ (w : Wire) (l : Libraries) (codec : NoteCodec) (config : Config) where
  -- The passes until shutdown.
  unfoldable pub run : Store → ℕ → List ℕ → List Pass → Ran
  unfolding finish_cycle next_pause
  run s pause pauses [] = record { store = s; pauses = pauses; result = ok tt }
  run s pause pauses (pass ∷ rest) =
      let done = cycle w l codec config pass.world (admin_checkpoint s pass.before) false in
      elim (finish_cycle done.result) [
        | err e ↦ record { store = done.store; pauses = pauses; result = err e }
        | ok _ ↦
            let pause' = next_pause config.poll_interval done.rate_limited pause in
            run (handle_commands (length pass.during_pause) done.store pass.during_pause) pause'
              (pause' ∷ pauses) rest
      ]
