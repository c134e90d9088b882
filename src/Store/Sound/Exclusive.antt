-- ===== src/Store/Sound/Exclusive.antt =====
-- One live request per burn: which requests `save_submission` of
-- crates/xusdc-light-attester/src/store.rs takes.
use miden_usdcx.Prelude.{
  ℕ, ◌≡◌, ◌↔◌, inl, inr, true, some, List, [], ◌∷◌, ◌++◌, arith, ok, Option-cases, Result-cases,
  >>=-eq-ok,
}
use miden_usdcx.Circle.{Wire}
use miden_usdcx.Submission.{SavedSubmission}
use miden_usdcx.Sql.{update}
use miden_usdcx.Sql.Laws.{Unique, changed-hits}
use miden_usdcx.Store.{Store, BurnRow, submission_key, submission_at, burn_at}
use miden_usdcx.Store.Rows.{
  validate_submission, outcome_is_valid, request_is_valid, validate_submission_outcome,
}
use miden_usdcx.Store.History.{record_event}
use miden_usdcx.Store.Submissions.{is_replaceable, fresh, authorize, save_submission}
use miden_usdcx.Store.Sound.Submissions.{is_free, save_submission_lem}

-- The request passes the checks on its outcome and on its endpoint and body, its burn is known, and its
-- note has no request or an expired one with an ID.
abbrev pub IsTaken : Wire → Store → SavedSubmission → Type 0
IsTaken w s r =
    (outcome_is_valid w r ≡ true)
    × (request_is_valid w r ≡ true)
    × (is_free (submission_at s r.note_id) ≡ true)
    × ((b : BurnRow) × (burn_at s r.note_id ≡ some b))

free_row :
    (s : Store) (r : SavedSubmission)
    → Unique submission_key s.submissions
    → is_free (submission_at s r.note_id) ≡ true
    → (rows : List SavedSubmission) × (authorize r s.submissions ≡ ok rows)
unfolding authorize
free_row s r u h = elim (Option-cases (submission_at s r.note_id)) [
  | inl e ↦ (s.submissions ++ fresh r ∷ [], ground arith)
  | inr (old, e) ↦ (
    update submission_key r.note_id is_replaceable (λ _. fresh r) s.submissions,
    ground (arith, changed-hits submission_key r.note_id is_replaceable s.submissions u),
  )
]

taken_saves :
    (w : Wire) (s : Store) (now : ℕ) (r : SavedSubmission)
    → Unique submission_key s.submissions
    → IsTaken w s r
    → (t : Store) × (save_submission w s now r ≡ ok t)
unfolding save_submission validate_submission validate_submission_outcome record_event
taken_saves w s now r u (v, q, free, (b, known)) =
    let (rows, e) = free_row s r u free in
    elim (Result-cases (save_submission w s now r)) [
      | inl (t, saved) ↦ (t, saved)
      | inr (x, refused) ↦ absurd (ground arith)
    ]

saves_known :
    (w : Wire) (s t : Store) (now : ℕ) (r : SavedSubmission)
    → save_submission w s now r ≡ ok t
    → (b : BurnRow) × (burn_at s r.note_id ≡ some b)
unfolding save_submission record_event
saves_known w s t now r h =
    let (v, hv, h1) = >>=-eq-ok (validate_submission w r) _ h in
    let (rows, hr, h2) = >>=-eq-ok (authorize r s.submissions) _ h1 in
    elim (Option-cases (burn_at s r.note_id)) [
      | inl e ↦ absurd (ground arith)
      | inr (b, e) ↦ (b, e)
    ]

-- In a store with at most one row per note, a request is saved exactly when it passes the checks on
-- its outcome and on its endpoint and body, its burn is known, and its note has no request or an
-- expired one with an ID.
pub save_submission_succeeds :
    (w : Wire) (s : Store) (now : ℕ) (r : SavedSubmission)
    → Unique submission_key s.submissions
    → ((t : Store) × (save_submission w s now r ≡ ok t)) ↔ IsTaken w s r
save_submission_succeeds w s now r u = (
  λ saved.
      let (t, h) = saved in
      let (v, q, kept, auth) = save_submission_lem w s t now r u h in
      (v, q, auth.1, saves_known w s t now r h),
  taken_saves w s now r u,
)
