-- ===== src/Attester/Cycle/Pending.antt =====
-- Which burns stay pending while a cycle of crates/xusdc-light-attester/src/attester.rs works on
-- other notes.
use miden_usdcx.Prelude.{ℕ, suc, ◌≡◌, ◌≢◌, Bool, true, List, arith, All}
use miden_usdcx.Circle.{Wire}
use miden_usdcx.Burn.{NoteCodec}
use miden_usdcx.Config.{Config}
use miden_usdcx.Submission.{SavedSubmission}
use miden_usdcx.Store.{Store}
use miden_usdcx.Store.Sound.{IsSound}
use miden_usdcx.Store.Steps.{Reach-IsSound}
use miden_usdcx.Store.Steps.Works.{Works, Works-Reach, Works-IsPending, IsPending}
use miden_usdcx.Attester.Keeps.{advance_submissions_keeps}
use miden_usdcx.Attester.Loop.{Turn, advance_submissions}

-- A well-formed store in which the burn is pending.
abbrev pub Good : Wire → ℕ → Store → Type 0
Good w j s = IsSound w s × IsPending s j

-- Work on nothing in particular is work on some other note.
pub elsewhere : (j : ℕ) → j ≢ suc j
elsewhere j p = omega arith

module _ (codec : NoteCodec) (w : Wire) (config : Config) (known : w.status_is_valid 400 ≡ true)
    (j : ℕ) where
  pub Works-Good : {s t : Store} (k : ℕ) → j ≢ k → Works w codec k s t → Good w j s → Good w j t
  Works-Good k other r g =
      (Reach-IsSound known (Works-Reach r) g.0, Works-IsPending j known other r g.0 g.1)

  -- The loop over other notes' saved submissions leaves a pending burn pending.
  pub advance_submissions-Good :
      (s : Store) (limited : Bool) (items : List (SavedSubmission × Turn))
      → All (λ i. j ≢ i.0.note_id) items
      → Good w j s
      → Good w j (advance_submissions w config s limited items).store
  advance_submissions-Good =
      advance_submissions_keeps codec w config (Good w j) (λ k. j ≢ k) (suc j) (elsewhere j)
        (λ s g. g.0.submission_keys) (λ s t k other r g. Works-Good k other r g)
