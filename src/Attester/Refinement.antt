-- ===== src/Attester/Refinement.antt =====
-- The recovery and polling loops of crates/xusdc-light-attester/src/submission.rs implement the
-- store's step relation, operators' commands included.
use miden_usdcx.Prelude.{ℕ, zero, ◌≡◌, Bool, true, List, [], ◌∷◌, All}
use miden_usdcx.Circle.{Wire}
use miden_usdcx.Burn.{NoteCodec}
use miden_usdcx.Config.{Config}
use miden_usdcx.Submission.{SavedSubmission}
use miden_usdcx.Store.{Store}
use miden_usdcx.Store.Sound.{IsSound}
use miden_usdcx.Store.Steps.{Reach, here, Reach-IsSound}
use miden_usdcx.Attester.Sound.{Reach-trans}
use miden_usdcx.Store.Steps.Works.{Works, Works-Reach}
use miden_usdcx.Attester.Commands.{admin_checkpoint-Works}
use miden_usdcx.Attester.Keeps.{advance_submissions_keeps}
use miden_usdcx.Attester.Loop.{Commands, Turn, admin_checkpoint, advance_submissions}

-- A well-formed store that is reached from another.
abbrev pub Reached : Wire → NoteCodec → Store → Store → Type 0
Reached w codec s t = Reach w codec s t × IsSound w t

pub Works-Reached :
    {w : Wire} {codec : NoteCodec} {s t u : Store} {k : ℕ}
    → w.status_is_valid 400 ≡ true
    → Works w codec k t u
    → Reached w codec s t
    → Reached w codec s u
Works-Reached known r p = (Reach-trans p.0 (Works-Reach r), Reach-IsSound known (Works-Reach r) p.1)

pub notes_free :
    (items : List (SavedSubmission × Turn)) → All {A = SavedSubmission × Turn} (λ i. Unit {0}) items
notes_free [] = tt
notes_free (i ∷ items) = (tt, notes_free items)

module _ {codec : NoteCodec} (w : Wire) where
  pub admin_checkpoint-Reach :
      (s : Store) (commands : Commands) → Reach w codec s (admin_checkpoint s commands)
  admin_checkpoint-Reach s commands = Works-Reach (admin_checkpoint-Works zero w s commands)

  module _ (config : Config) where
    -- From a well-formed store, the loop over saved submissions moves the store by steps of the
    -- store's relation only, whatever Circle answers in each turn, whichever releases operators
    -- ask for in between, and also when the loop ends in an error. Status 400 must be a valid
    -- HTTP status.
    pub advance_submissions-Reach :
        (s : Store) (limited : Bool) (items : List (SavedSubmission × Turn))
        → w.status_is_valid 400 ≡ true
        → IsSound w s
        → Reach w codec s (advance_submissions w config s limited items).store
    advance_submissions-Reach s limited items known v =
        (advance_submissions_keeps codec w config (Reached w codec s) (λ k. Unit) zero tt
          (λ t p. p.1.submission_keys) (λ t u k on r p. Works-Reached known r p) s limited items
          (notes_free items) (here, v)).0
