-- ===== src/Attester/Sound.antt =====
-- The attester moves the store by the store's own steps only: `advance_submission` of
-- crates/xusdc-light-attester/src/submission.rs and `limit_allows` of attester.rs.
use miden_usdcx.Prelude.{ℕ, ◌≡◌, refl, Bool, ok}
use miden_usdcx.Circle.{Wire}
use miden_usdcx.Burn.{NoteCodec}
use miden_usdcx.Config.{Config}
use miden_usdcx.Submission.{SavedSubmission, SubmissionAttempt}
use miden_usdcx.Sql.Laws.{Unique}
use miden_usdcx.Store.{Store, submission_key}
use miden_usdcx.Store.Steps.Works.{Works-Reach}
use miden_usdcx.Attester.Works.{limit_allows-Works, advance_submission-Works}
use miden_usdcx.Store.Steps.{Step, Reach, here, next}
use miden_usdcx.Attester.{Client, Clock}
use miden_usdcx.Attester.Limit.{limit_allows}
use miden_usdcx.Attester.Advance.{advance_submission}

pub one : {w : Wire} {codec : NoteCodec} {s t : Store} → Step w codec s t → Reach w codec s t
one st = next here st

pub Reach-trans :
    {w : Wire} {codec : NoteCodec} {s t u : Store}
    → Reach w codec s t
    → Reach w codec t u
    → Reach w codec s u
Reach-trans r here = r
Reach-trans r (next q st) = next (Reach-trans r q) st

-- Asking whether the limit lets a burn go moves the store by at most one step, the move of a retry.
pub limit_allows-Reach :
    {codec : NoteCodec} (w : Wire) (config : Config) (s : Store) (clock : Clock) (k : ℕ)
    (p : Bool × Store)
    → limit_allows config s clock k ≡ ok p
    → Reach w codec s p.1
limit_allows-Reach w config s clock k p h =
    Works-Reach (limit_allows-Works {k = k} w config s clock k p h)

module _ {codec : NoteCodec} (w : Wire) (config : Config) (client : Client) (clock : Clock) where
  -- In a store with at most one row per note, taking a saved request one step further with Circle
  -- moves the store by steps of the store's relation only, whatever Circle answers, also when the
  -- attempt ends in an error.
  pub advance_submission-Reach :
      (s : Store) (limited : Bool) (saved : SavedSubmission) (attempt : SubmissionAttempt)
      → Unique submission_key s.submissions
      → Reach w codec s (advance_submission w config client clock s limited saved attempt).store
  advance_submission-Reach s limited saved attempt u =
      Works-Reach (
        advance_submission-Works saved.note_id w config client clock s limited saved attempt refl u)
