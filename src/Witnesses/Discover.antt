-- ===== src/Witnesses/Discover.antt =====
-- Concrete cases of the theorems on the scan of the chain and on the cycles.
use miden_usdcx.Prelude.{ℕ, ◌≡◌, ◌↔◌, refl, false, some, [], ◌∷◌, ok, err, All, arith, ◌==◌, suc}
use mathlib.Core.List.{Memᴰ}
use miden_usdcx.Prelude.{bytes_eq}
use miden_usdcx.Burn.{BurnCandidate, DiscoveredBurn, new_candidate, asset_amount}
use miden_usdcx.Sql.{find, exists}
use miden_usdcx.Store.{Store}
use miden_usdcx.Store.Reads.{note_known}
use miden_usdcx.Store.Sound.{IsSound}
use miden_usdcx.Store.Steps.{Reach}
use miden_usdcx.Attester.Loop.{Commands}
use miden_usdcx.Attester.Discover.{
  ChainReader, SignedBlock, public_note, find_burns_in_block, find_candidates, find_burned,
  discover_burns, chain_diverged,
}
use miden_usdcx.Attester.Discover.Chain.{Discovers, discover_burns-Discovers}
use miden_usdcx.Attester.Discover.Diverged.{Diverged, discover_burns-Diverged}
use miden_usdcx.Attester.Discover.Found.{IsPublished, IsBurned, find_burns_in_block_lem}
use miden_usdcx.Attester.Cycle.{World, Pass, cycle, run, finish_cycle, discovery_stopped}
use miden_usdcx.Attester.Submit.{BurnTurn}
use miden_usdcx.Attester.Cycle.Run.{run-Reach}
use miden_usdcx.Attester.Cycle.Pause.{IsPause, run-IsPause, cycle-diverged, discovery_of}
use miden_usdcx.Witnesses.Data.{note, wire, codec, block, with_burn}
use miden_usdcx.Witnesses.Quote.{libraries, config}
use miden_usdcx.Witnesses.Cycle.{desk, client, clock, turn}

abbrev pub empty_store : Store
empty_store = record with_burn { burns = []; checkpoint = some block }

-- The block after the checkpoint publishes the burn's note.
abbrev pub next_block : SignedBlock
next_block = record {
  header = record { block_num = 5; commitment = 1; timestamp = 110 };
  output_notes = public_note note ∷ [];
  transactions = [];
}

abbrev reader : ChainReader
reader = record {
  scan_limits = ok (record { proof_lag_block = 5; latest_committed_block = 5 });
  block_by_number = λ n. ok next_block;
  validates = λ child parent. child.header.block_num == suc parent.block_num;
}

abbrev pub no_commands : ℕ → Commands
no_commands n = []

abbrev candidate : BurnCandidate
candidate = record {
  note = note;
  creation_block = 5;
  items = record { dest_domain = 0; dest_recipient = 77 };
  amount = 1000;
}

found_run : find_burns_in_block codec 9 next_block empty_store ≡ ok (candidate ∷ [], [])
unfolding find_burns_in_block find_burned find_candidates new_candidate asset_amount note_known
    exists bytes_eq
found_run = refl

find_burns_in_block_lem_example :
    ((c : BurnCandidate)
      → Memᴰ c (candidate ∷ []) ↔ IsPublished codec 9 empty_store 5 next_block.output_notes c)
    × ((d : DiscoveredBurn) → Memᴰ d [] ↔ IsBurned codec 9 empty_store 5 next_block.transactions d)
find_burns_in_block_lem_example =
    find_burns_in_block_lem codec 9 next_block empty_store (candidate ∷ []) [] found_run

discover_burns-Discovers_example :
    Discovers wire codec 9 reader no_commands empty_store block
      (discover_burns codec 9 reader no_commands 0 empty_store)
discover_burns-Discovers_example =
    discover_burns-Discovers wire codec 9 reader no_commands 0 empty_store block refl

-- A node that is one block behind.
abbrev behind : ChainReader
behind = record reader {
  scan_limits = ok (record { proof_lag_block = 3; latest_committed_block = 3 });
}

discover_burns-Diverged_example :
    ((discover_burns codec 9 behind no_commands 0 empty_store).result ≡ err chain_diverged)
    ↔ Diverged behind 0 block
        (record { proof_lag_block = 3; latest_committed_block = 3 })
        (discover_burns codec 9 behind no_commands 0 empty_store)
discover_burns-Diverged_example =
    discover_burns-Diverged codec 9 behind no_commands 0 empty_store block
      (record { proof_lag_block = 3; latest_committed_block = 3 }) refl refl

abbrev burn_turn : BurnTurn
burn_turn = record { commands = []; desk = desk; client = client; clock = clock }

-- A store with the burn, and a checkpoint deep enough to withdraw it.
abbrev deep_store : Store
deep_store = record with_burn { checkpoint = some (record block { block_num = 5 }) }

deep_store-IsSound : IsSound wire deep_store
unfolding find
deep_store-IsSound = record {
  burn_keys = (refl, tt);
  nullifiers = (refl, tt);
  submission_keys = tt;
  notes = λ k. ground arith;
}

abbrev pub world : World
world = record {
  reader = reader;
  block_commands = no_commands;
  recover_turn = λ saved. turn;
  burn_turn = λ found. burn_turn;
  poll_turn = λ saved. turn;
}

abbrev pass : Pass
pass = record { before = []; world = world; during_pause = [] }

run-Reach_example :
    Reach wire codec deep_store
      (run wire libraries codec config deep_store 1000000000 [] (pass ∷ pass ∷ [])).store
run-Reach_example =
    run-Reach codec wire libraries config refl (pass ∷ pass ∷ []) deep_store 1000000000 []
      deep_store-IsSound

run-IsPause_example :
    All
      (IsPause 1000000000)
      (run wire libraries codec config deep_store 1000000000 [] (pass ∷ pass ∷ [])).pauses
run-IsPause_example =
    run-IsPause wire libraries codec config deep_store 1000000000 [] (pass ∷ pass ∷ []) tt

-- A world whose node is behind.
abbrev behind_world : World
behind_world = record world { reader = behind }

cycle-diverged_example :
    (finish_cycle (cycle wire libraries codec config behind_world deep_store false).result
      ≡ err chain_diverged)
    ↔ (((discovery_of wire libraries codec config behind_world deep_store).result
          ≡ err chain_diverged)
        × (chain_diverged ≡ chain_diverged)
        × (cycle wire libraries codec config behind_world deep_store false ≡ record {
          store = (discovery_of wire libraries codec config behind_world deep_store).store;
          rate_limited = false;
          result = err (discovery_stopped chain_diverged);
        }))
cycle-diverged_example =
    cycle-diverged wire libraries codec config behind_world deep_store false chain_diverged
