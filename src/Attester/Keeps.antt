-- ===== src/Attester/Keeps.antt =====
-- What the loop over saved requests of crates/xusdc-light-attester/src/submission.rs keeps: a property
-- that is kept by work on the loop's notes, and by work on no note in particular.
use miden_usdcx.Prelude.{ℕ, inl, inr, Bool, true, false, List, [], ◌∷◌, All, Result-cases, refl}
use miden_usdcx.Circle.{Wire}
use miden_usdcx.Burn.{NoteCodec}
use miden_usdcx.Config.{Config}
use miden_usdcx.Submission.{SavedSubmission, recovery}
use miden_usdcx.Sql.Laws.{Unique}
use miden_usdcx.Store.{Store, submission_key}
use miden_usdcx.Store.Steps.Works.{Works}
use miden_usdcx.Attester.Advance.{advance_submission}
use miden_usdcx.Attester.Works.{advance_submission-Works}
use miden_usdcx.Attester.Commands.{admin_checkpoint-Works, may_advance-Works}
use miden_usdcx.Attester.Loop.{Turn, admin_checkpoint, may_advance, advance_submissions}

module _ (codec : NoteCodec) (w : Wire) (config : Config) (P : Store → Type 0) (OnNote : ℕ → Type 0)
    (idle : ℕ) (may_idle : OnNote idle)
    (unique : (s : Store) → P s → Unique submission_key s.submissions)
    (keep : (s t : Store) (k : ℕ) → OnNote k → Works w codec k s t → P s → P t) where
  pub advance_submissions_keeps :
      (s : Store) (limited : Bool) (items : List (SavedSubmission × Turn))
      → All (λ i. OnNote i.0.note_id) items
      → P s
      → P (advance_submissions w config s limited items).store
  unfolding advance_submissions
  advance_submissions_keeps s limited [] on p = p
  advance_submissions_keeps s true ((saved, turn) ∷ rest) on p =
      keep s (admin_checkpoint s turn.commands) idle may_idle
        (admin_checkpoint-Works idle w s turn.commands) p
  advance_submissions_keeps s false ((saved, turn) ∷ rest) on p =
      let now = admin_checkpoint s turn.commands in
      let p1 = keep s now idle may_idle (admin_checkpoint-Works idle w s turn.commands) p in
      elim (Result-cases (may_advance w config now turn.clock saved)) [
        | inr (x, e) ↦ rw (e, advance_submissions) p1
        | inl ((false, same), e) ↦
            rw (e, advance_submissions)
              (advance_submissions_keeps same false rest on.1 (
                keep now same idle may_idle
                  (may_advance-Works idle w config now turn saved (false, same) e) p1))
        | inl ((true, moved), e) ↦
            let p2 =
              keep now moved idle may_idle
                (may_advance-Works idle w config now turn saved (true, moved) e) p1 in
            let done =
              advance_submission w config turn.client turn.clock moved false saved recovery in
            let p3 =
              keep moved done.store saved.note_id on.0
                (advance_submission-Works saved.note_id w config turn.client turn.clock moved false
                  saved recovery refl (unique moved p2))
                p2 in
            elim (Result-cases done.result) [
              | inr (x, f) ↦ rw (e, f, advance_submissions) p3
              | inl (x, f) ↦
                  rw (e, f, advance_submissions)
                    (advance_submissions_keeps done.store done.rate_limited rest on.1 p3)
            ]
      ]
