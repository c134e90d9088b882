-- ===== src/Attester/Commands.antt =====
-- The admin commands that crates/xusdc-light-attester/src/attester.rs handles between its steps, and
-- the wait for Circle's limit, are work on no note in particular.
use miden_usdcx.Prelude.{
  ℕ, zero, suc, ◌≡◌, subst, inl, inr, Bool, [], ◌∷◌, arith, ok, Option-cases, Result-cases,
}
use miden_usdcx.Circle.{Wire}
use miden_usdcx.Burn.{NoteCodec}
use miden_usdcx.Config.{Config}
use miden_usdcx.Submission.{SavedSubmission}
use miden_usdcx.Store.{Store}
use miden_usdcx.Store.Holds.{ReleaseSelection, release_checked}
use miden_usdcx.Store.Steps.{releases_checked}
use miden_usdcx.Store.Steps.Works.{Works, still, Works-trans}
use miden_usdcx.Attester.Works.{one_work, limit_allows-Works}
use miden_usdcx.Attester.Loop.{
  Commands, Turn, handle_admin, handle_commands, admin_checkpoint, admin_commands_per_checkpoint,
  may_advance,
}

module _ {codec : NoteCodec} (k : ℕ) (w : Wire) where
  handle_admin-Works :
      (s : Store) (now : ℕ) (selection : ReleaseSelection)
      → Works w codec k s (handle_admin s now selection)
  unfolding handle_admin
  handle_admin-Works s now selection = elim (Result-cases (release_checked s now selection)) [
    | inl ((next, released), e) ↦
        rw (e, handle_admin) (one_work (releases_checked now selection released e) tt)
    | inr (x, e) ↦ rw (e, handle_admin) still
  ]

  -- Admin commands are work on no note in particular.
  pub handle_commands-Works :
      (left : ℕ) (s : Store) (commands : Commands)
      → Works w codec k s (handle_commands left s commands)
  unfolding handle_commands
  handle_commands-Works zero s commands = still
  handle_commands-Works (suc left) s [] = still
  handle_commands-Works (suc left) s ((now, selection) ∷ rest) =
      Works-trans (handle_admin-Works s now selection)
        (handle_commands-Works left (handle_admin s now selection) rest)

  pub admin_checkpoint-Works :
      (s : Store) (commands : Commands) → Works w codec k s (admin_checkpoint s commands)
  unfolding admin_checkpoint
  admin_checkpoint-Works s commands = handle_commands-Works admin_commands_per_checkpoint s commands

  pub may_advance-Works :
      (config : Config) (s : Store) (turn : Turn) (saved : SavedSubmission) (p : Bool × Store)
      → may_advance w config s turn.clock saved ≡ ok p
      → Works w codec k s p.1
  unfolding may_advance
  may_advance-Works config s turn saved p h = elim (Option-cases saved.withdrawal_id) [
    | inr (id, e) ↦ let q : s ≡ p.1 = ground arith in subst (Works w codec k s) q still
    | inl e ↦ limit_allows-Works {k = k} w config s turn.clock saved.note_id p (ground arith)
  ]
