-- ===== src/Attester/Loop.antt =====
-- `advance_submissions` of crates/xusdc-light-attester/src/submission.rs, with `admin_checkpoint` and
-- `handle_admin` of attester.rs between its steps.
use miden_usdcx.Prelude.{
  ℕ, zero, suc, Bool, true, false, none, some, List, [], ◌∷◌, Result, ok, err,
}
use miden_usdcx.Circle.{Wire}
use miden_usdcx.Config.{Config}
use miden_usdcx.Submission.{SavedSubmission, recovery}
use miden_usdcx.Store.{Store}
use miden_usdcx.Store.Holds.{ReleaseSelection, release_checked}
use miden_usdcx.Attester.{Client, Clock, Done, FatalError}
use miden_usdcx.Attester.Limit.{limit_allows}
use miden_usdcx.Attester.Advance.{advance_submission}

abbrev pub admin_commands_per_checkpoint : ℕ
admin_commands_per_checkpoint = 8

-- The release commands that are queued at one checkpoint, each with the second it is handled at. A
-- listing changes nothing, and an abandoned command is skipped: neither is here.
abbrev pub Commands : Type 0
Commands = List (ℕ × ReleaseSelection)

unfoldable pub handle_admin : Store → ℕ → ReleaseSelection → Store
handle_admin s now selection = elim (release_checked s now selection) [
  | ok (next, released) ↦ next
  | err e ↦ s
]

-- At most so many commands are handled.
unfoldable pub handle_commands : ℕ → Store → Commands → Store
unfolding handle_admin
handle_commands zero s commands = s
handle_commands (suc left) s [] = s
handle_commands (suc left) s ((now, selection) ∷ rest) =
    handle_commands left (handle_admin s now selection) rest

unfoldable pub admin_checkpoint : Store → Commands → Store
unfolding handle_commands
admin_checkpoint s commands = handle_commands admin_commands_per_checkpoint s commands

-- What surrounds one submission's turn in the loop: the commands that came in before it, Circle's
-- answers and the time.
pub record Turn : Type 0 where
  pub commands : Commands
  pub client : Client
  pub clock : Clock

module _ (w : Wire) (config : Config) where
  -- Whether a submission may be tried: one with an ID is only looked up, which no limit stops.
  unfoldable pub may_advance : Store → Clock → SavedSubmission → Result FatalError (Bool × Store)
  may_advance s clock saved = elim saved.withdrawal_id [
    | some id ↦ ok (true, s)
    | none ↦ limit_allows config s clock saved.note_id
  ]

  unfoldable pub advance_submissions : Store → Bool → List (SavedSubmission × Turn) → Done
  unfolding admin_checkpoint may_advance
  advance_submissions s limited [] = record { store = s; rate_limited = limited; result = ok tt }
  advance_submissions s limited ((saved, turn) ∷ rest) =
      let now = admin_checkpoint s turn.commands in
      elim limited [
        | true ↦ record { store = now; rate_limited = true; result = ok tt }
        | false ↦ elim (may_advance now turn.clock saved) [
          | err e ↦ record { store = now; rate_limited = false; result = err e }
          | ok (false, same) ↦ advance_submissions same false rest
          | ok (true, moved) ↦
              let done =
                advance_submission w config turn.client turn.clock moved false saved recovery in
              elim done.result [
                | err e ↦ done
                | ok _ ↦ advance_submissions done.store done.rate_limited rest
              ]
        ]
      ]
