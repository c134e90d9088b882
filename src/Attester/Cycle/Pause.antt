-- ===== src/Attester/Cycle/Pause.antt =====
-- How a run of crates/xusdc-light-attester/src/attester.rs paces itself, and what ends it.
use miden_usdcx.Prelude.{
  ℕ, ◌≤◌, max, ◌≡◌, ◌↔◌, refl, sym, ap, ◌∙◌, inl, inr, Bool, true, false, Option, List, [], ◌∷◌,
  arith, All, ok, err, Result-cases, Result, length,
}
use miden_usdcx.Circle.{Wire}
use miden_usdcx.Burn.{NoteCodec}
use miden_usdcx.Config.{Config}
use miden_usdcx.Verify.Types.{Libraries}
use miden_usdcx.Store.{Store}
use miden_usdcx.Attester.Loop.{admin_checkpoint, handle_commands}
use miden_usdcx.Attester.Discover.{DiscoverError, chain_diverged, chain, Discovery, discover_burns}
use miden_usdcx.Attester.Cycle.{
  World, Pass, CycleFailure, CycleReport, discovery_stopped, next_pause, max_rate_limited_pause,
  finish_cycle, cycle, Cycled, run, discovery_outcome, after_discovery, work_through,
}

-- A pause between the poll interval and the longer of that and a minute.
abbrev pub IsPause : ℕ → ℕ → Type 0
IsPause poll pause = (poll ≤ pause) × (pause ≤ max poll max_rate_limited_pause)

next_pause-IsPause :
    (poll : ℕ) (limited : Bool) (pause : ℕ) → IsPause poll (next_pause poll limited pause)
unfolding next_pause
next_pause-IsPause poll true pause = (omega arith, omega arith)
next_pause-IsPause poll false pause = (omega arith, omega arith)

module _ (w : Wire) (l : Libraries) (codec : NoteCodec) (config : Config) where
  -- Whatever happens in a run's cycles, if every pause so far is at least the poll interval and
  -- at most the longer of the poll interval and a minute, so is every pause that the run adds.
  pub run-IsPause :
      (s : Store) (pause : ℕ) (pauses : List ℕ) (passes : List Pass)
      → All (IsPause config.poll_interval) pauses
      → All (IsPause config.poll_interval) (run w l codec config s pause pauses passes).pauses
  unfolding run
  run-IsPause s pause pauses [] a = a
  run-IsPause s pause pauses (pass ∷ rest) a =
      let done = cycle w l codec config pass.world (admin_checkpoint s pass.before) false in
      let pause' = next_pause config.poll_interval done.rate_limited pause in
      elim (Result-cases (finish_cycle done.result)) [
        | inr (x, e) ↦ rw (e, run) a
        | inl (u, e) ↦
            rw (e, run)
              (run-IsPause (handle_commands (length pass.during_pause) done.store pass.during_pause)
                pause' (pause' ∷ pauses) rest
                (next_pause-IsPause config.poll_interval done.rate_limited pause, a))
      ]

  -- The discovery that starts a cycle.
  abbrev pub discovery_of : World → Store → Discovery
  discovery_of world s =
      discover_burns codec config.faucet_account_id world.reader world.block_commands
        config.trusted_anchor_block s

  finish_cycle_lem :
      (outcome : Result CycleFailure CycleReport) (e : DiscoverError)
      → finish_cycle outcome ≡ err e
      → (outcome ≡ err (discovery_stopped chain_diverged)) × (e ≡ chain_diverged)
  unfolding finish_cycle
  finish_cycle_lem (ok report) e h = cc
  finish_cycle_lem (err (discovery_stopped chain_diverged)) e h = (refl, ground arith)
  finish_cycle_lem (err (discovery_stopped (chain x))) e h = cc
  finish_cycle_lem (err (discovery_stopped (DiscoverError.store x))) e h = cc
  finish_cycle_lem (err (CycleFailure.store_stopped x)) e h = cc
  finish_cycle_lem (err (CycleFailure.recovery_stopped x)) e h = cc
  finish_cycle_lem (err (CycleFailure.polling_stopped x)) e h = cc
  finish_cycle_lem (err (CycleFailure.submission_stopped x)) e h = cc

  later_failure :
      (world : World) (s : Store) (limited : Bool)
      (outcome : Option ℕ × Result DiscoverError (Unit {0})) (x : DiscoverError)
      → (after_discovery w l codec config world s limited outcome).result
        ≡ err (discovery_stopped x)
      → ⊥
  unfolding after_discovery work_through
  later_failure world s limited (lag, discover) x h = ground arith

  outcome_lem :
      (r : Result DiscoverError ℕ)
      → discovery_outcome r ≡ err chain_diverged
      → r ≡ err chain_diverged
  unfolding discovery_outcome
  outcome_lem (ok lag) h = cc
  outcome_lem (err (chain x)) h = cc
  outcome_lem (err chain_diverged) h = refl
  outcome_lem (err (DiscoverError.store x)) h = cc

  cycle_stopped :
      (world : World) (s : Store) (limited : Bool) (x : DiscoverError)
      → discovery_outcome (discovery_of world s).result ≡ err x
      → cycle w l codec config world s limited ≡ record {
        store = (discovery_of world s).store;
        rate_limited = limited;
        result = err (discovery_stopped x);
      }
  unfolding cycle
  cycle_stopped world s limited x h = rw (h, cycle) refl

  cycle_went_on :
      (world : World) (s : Store) (limited : Bool) (o : Option ℕ × Result DiscoverError (Unit {0}))
      → discovery_outcome (discovery_of world s).result ≡ ok o
      → cycle w l codec config world s limited
        ≡ after_discovery w l codec config world (discovery_of world s).store limited o
  unfolding cycle
  cycle_went_on world s limited o h = rw (h, cycle) refl

  finished : finish_cycle (err (discovery_stopped chain_diverged)) ≡ err chain_diverged
  unfolding finish_cycle
  finished = refl

  -- A cycle ends the run exactly when its discovery found that the chain diverged; the cycle then
  -- stops there, with the store as that discovery left it.
  pub cycle-diverged :
      (world : World) (s : Store) (limited : Bool) (e : DiscoverError)
      → (finish_cycle (cycle w l codec config world s limited).result ≡ err e) ↔ (
          ((discovery_of world s).result ≡ err chain_diverged)
          × (e ≡ chain_diverged)
          × (cycle w l codec config world s limited ≡ record {
            store = (discovery_of world s).store;
            rate_limited = limited;
            result = err (discovery_stopped chain_diverged);
          }))
  cycle-diverged world s limited e = (
    λ h.
        let (failed, same) = finish_cycle_lem (cycle w l codec config world s limited).result e h in
        elim (Result-cases (discovery_outcome (discovery_of world s).result)) [
          | inl (o, q) ↦ absurd (
              later_failure world (discovery_of world s).store limited o chain_diverged
                (ap (λ (c : Cycled). c.result) (sym (cycle_went_on world s limited o q)) ∙ failed))
          | inr (x, q) ↦
              let stopped = cycle_stopped world s limited x q in
              let agree : err (discovery_stopped x) ≡ err (discovery_stopped chain_diverged) =
                ap (λ (c : Cycled). c.result) (sym stopped) ∙ failed in
              let y : x ≡ chain_diverged = cc in
              let diverged = q ∙ ap err y in
              (
                outcome_lem (discovery_of world s).result diverged,
                same,
                cycle_stopped world s limited chain_diverged diverged,
              )
        ],
    λ h. let (diverged, same, stopped) = h in rw (stopped, same) (finished),
  )
