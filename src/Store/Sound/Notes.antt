-- ===== src/Store/Sound/Notes.antt =====
-- An operation on one note changes the rows of that note, and no other.
use miden_usdcx.Prelude.{ℕ, ◌≡◌, Bool, true, false, Option, ◌==◌, if◌then◌else◌, arith}
use miden_usdcx.Circle.{Wire}
use miden_usdcx.Submission.{SavedSubmission}
use miden_usdcx.Store.{Store, BurnRow, burn_at, submission_at}
use miden_usdcx.Store.Sound.{note_ok}

note_ok-if :
    (w : Wire) (c : Bool) (b b' : Option BurnRow) (r r' : Option SavedSubmission)
    → note_ok w b r ≡ true
    → note_ok w b' r' ≡ true
    → note_ok w (if c then b' else b) (if c then r' else r) ≡ true
note_ok-if w true b b' r r' old new = new
note_ok-if w false b b' r r' old new = old

-- The other notes keep their rows, so they stay well formed.
pub notes_after :
    (w : Wire) (s t : Store) (k : ℕ) (b' : Option BurnRow) (r' : Option SavedSubmission)
    → ((j : ℕ) → burn_at t j ≡ (if j == k then b' else burn_at s j))
    → ((j : ℕ) → submission_at t j ≡ (if j == k then r' else submission_at s j))
    → note_ok w b' r' ≡ true
    → ((j : ℕ) → note_ok w (burn_at s j) (submission_at s j) ≡ true)
    → (j : ℕ) → note_ok w (burn_at t j) (submission_at t j) ≡ true
notes_after w s t k b' r' burn submission new old j =
    rw (burn j, submission j) (note_ok-if w (j == k) _ b' _ r' (old j) new)

-- A table that an operation leaves alone.
pub unchanged {ℓ} : {A : Type ℓ} (f : ℕ → A) (k j : ℕ) → f j ≡ (if j == k then f k else f j)
unchanged f k j = ground arith
