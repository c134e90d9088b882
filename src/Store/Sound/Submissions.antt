-- ===== src/Store/Sound/Submissions.antt =====
-- `save_submission` and `update_submission_outcome` keep the store well formed.
use miden_usdcx.Prelude.{
  ℕ, ◌≡◌, refl, Bool, true, false, Option, none, some, List, [], ◌∷◌, ◌++◌, subst, arith, is_some,
  ok, err, Option-cases, ◌⊎◌, inl, inr, ◌==◌, if◌then◌else◌, >>=-eq-ok,
}
use miden_usdcx.Circle.{Wire}
use miden_usdcx.Submission.{SavedSubmission}
use miden_usdcx.Sql.{anything, find, update, changed}
use miden_usdcx.Sql.Laws.{
  Unique, find-append, append-Unique, find-update, update-Unique, update-Unique_other, changed-hits,
  updated,
}
use miden_usdcx.Store.{
  Store, BurnRow, Event, outcome, authorized, conflict, burn_key, submission_key, burn_at,
  submission_at,
}
use miden_usdcx.Store.History.{circle_status, add_event}
use miden_usdcx.Store.History.Laws.{record_event_result}
use miden_usdcx.Store.Rows.{
  outcome_is_valid, request_is_valid, validate_submission, validate_submission_lem,
  validate_submission_outcome,
}
use miden_usdcx.Store.Submissions.{
  fresh, is_replaceable, authorize, save_submission, update_submission_outcome, take_outcome,
  clear_retry, ends_limit_wait, record_outcome, end_limit_wait,
}
use miden_usdcx.Store.Sound.{IsSound, note_ok, nullifier_key}
use miden_usdcx.Store.Sound.Notes.{notes_after}

-- A new authorization takes the place of none or of an expired withdrawal.
abbrev pub is_free : Option SavedSubmission → Bool
is_free none = true
is_free (some old) = is_replaceable old

abbrev pub Authorized : SavedSubmission → List SavedSubmission → List SavedSubmission → Type 0
Authorized r rows next =
    Unique submission_key next
    × (is_free (find submission_key r.note_id rows) ≡ true)
    × ((j : ℕ)
        → find submission_key j next
          ≡ (if j == r.note_id then some (fresh r) else find submission_key j rows))

inserted :
    (r : SavedSubmission) (rows : List SavedSubmission)
    → Unique submission_key rows
    → find submission_key r.note_id rows ≡ none
    → Authorized r rows (rows ++ fresh r ∷ [])
inserted r rows u e = (
  append-Unique submission_key rows (fresh r) e u,
  rw e,
  λ j. ground (arith, find-append submission_key j rows (fresh r)),
)

replaced :
    (r old : SavedSubmission) (rows : List SavedSubmission)
    → Unique submission_key rows
    → find submission_key r.note_id rows ≡ some old
    → is_replaceable old ≡ true
    → Authorized r rows (update submission_key r.note_id is_replaceable (λ _. fresh r) rows)
replaced r old rows u e h = (
  update-Unique submission_key r.note_id is_replaceable (λ _. fresh r) rows (λ x p. refl) u,
  rw e h,
  λ j. ground (
    arith,
    find-update submission_key j r.note_id is_replaceable (λ _. fresh r) rows (λ x p. refl),
  ),
)

pub authorize_lem :
    (r : SavedSubmission) (rows next : List SavedSubmission)
    → Unique submission_key rows
    → authorize r rows ≡ ok next
    → Authorized r rows next
unfolding authorize
authorize_lem r rows next u h = elim (Option-cases (find submission_key r.note_id rows)) [
  | inl e ↦
      let p : rows ++ fresh r ∷ [] ≡ next = ground arith in
      subst (Authorized r rows) p (inserted r rows u e)
  | inr (old, e) ↦
      let c = changed-hits submission_key r.note_id is_replaceable rows u in
      let p : update submission_key r.note_id is_replaceable (λ _. fresh r) rows ≡ next =
        ground arith in
      subst (Authorized r rows) p (replaced r old rows u e (ground arith))
]

-- When a request is saved in a store with at most one row per note, the request passed the checks
-- on its outcome and on its endpoint and body, the burns are unchanged, the note had no request
-- or an expired one with an ID, its row is now the fresh request, every other row is as it was,
-- and there is still at most one row per note.
pub save_submission_lem :
    (w : Wire) (s t : Store) (now : ℕ) (r : SavedSubmission)
    → Unique submission_key s.submissions
    → save_submission w s now r ≡ ok t
    → (outcome_is_valid w r ≡ true)
      × (request_is_valid w r ≡ true)
      × (t.burns ≡ s.burns)
      × Authorized r s.submissions t.submissions
unfolding save_submission
save_submission_lem w s t now r u h =
    let (v, hv, h1) = >>=-eq-ok (validate_submission w r) _ h in
    let (rows, hr, h2) = >>=-eq-ok (authorize r s.submissions) _ h1 in
    let valid = validate_submission_lem w r v hv in
    let e = record_event_result (record s { submissions = rows }) now r.note_id authorized none in
    let hs : rows ≡ t.submissions = ground arith in
    (
      valid.0,
      valid.1,
      ground arith,
      subst (Authorized r s.submissions) hs (authorize_lem r s.submissions rows u hr),
    )

fresh_lem :
    (w : Wire) (r : SavedSubmission)
    → (outcome_is_valid w (fresh r) ≡ true) × (request_is_valid w (fresh r) ≡ request_is_valid w r)
unfolding outcome_is_valid request_is_valid
fresh_lem w r = (refl, refl)

-- Saving a signed request for a consumed burn keeps the store well formed.
pub save_submission-IsSound :
    {w : Wire} {s t : Store} (now : ℕ) (r : SavedSubmission) (b : BurnRow)
    → save_submission w s now r ≡ ok t
    → burn_at s r.note_id ≡ some b
    → is_some b.consumption_block ≡ true
    → IsSound w s
    → IsSound w t
save_submission-IsSound {w} {s} {t} now r b h hb hc v =
    let l = save_submission_lem w s t now r v.submission_keys h in
    record {
      burn_keys = rw (l.2) v.burn_keys;
      nullifiers = rw (l.2) v.nullifiers;
      submission_keys = l.3.0;
      notes = λ k. rw (l.2) (ground (arith, l.3.2 k, v.notes k, fresh_lem w r, l.3.1));
    }

taken_lem :
    (w : Wire) (r old : SavedSubmission)
    → (outcome_is_valid w (take_outcome r old) ≡ outcome_is_valid w r)
      × (request_is_valid w (take_outcome r old) ≡ request_is_valid w old)
unfolding outcome_is_valid request_is_valid
taken_lem w r old = (refl, refl)

-- The store after an outcome, note by note.
abbrev pub Recorded : Wire → Store → SavedSubmission → Store → Type 0
Recorded w s r t =
    (t.burns ≡ (
      if ends_limit_wait r.status
      then update burn_key r.note_id anything clear_retry s.burns
      else s.burns))
    × (t.submissions ≡ update submission_key r.note_id anything (take_outcome r) s.submissions)

pub record_outcome_result :
    (w : Wire) (s : Store) (now : ℕ) (r : SavedSubmission)
    → (record_outcome w s now r ≡ err conflict)
      ⊎ (record_outcome w s now r ≡ ok s)
      ⊎ ((e : Event) × (record_outcome w s now r ≡ ok (add_event s e)))
unfolding record_outcome
record_outcome_result w s now r =
    ground (arith, record_event_result s now r.note_id outcome (circle_status w r.last_response))

pub update_submission_outcome_lem :
    (w : Wire) (s t : Store) (now : ℕ) (r : SavedSubmission)
    → update_submission_outcome w s now r ≡ ok t
    → (outcome_is_valid w r ≡ true)
      × (changed submission_key r.note_id anything s.submissions ≡ 1)
      × Recorded w s r t
unfolding update_submission_outcome end_limit_wait validate_submission_outcome
update_submission_outcome_lem w s t now r h = ground (
  arith,
  record_outcome_result w
      (record s {
        submissions = update submission_key r.note_id anything (take_outcome r) s.submissions;
      })
      now r,
)

cleared : Bool → Option BurnRow → Option BurnRow
cleared ends b = if ends then updated anything clear_retry b else b

abbrev pub cleared_table : Bool → ℕ → List BurnRow → List BurnRow
cleared_table ends k burns = if ends then update burn_key k anything clear_retry burns else burns

cleared-Unique :
    (key : BurnRow → ℕ) (ends : Bool) (k : ℕ) (burns : List BurnRow)
    → ((b : BurnRow) → key (clear_retry b) ≡ key b)
    → Unique key burns
    → Unique key (cleared_table ends k burns)
cleared-Unique key true k burns same u =
    update-Unique_other burn_key key k anything clear_retry same burns u
cleared-Unique key false k burns same u = u

find-cleared :
    (ends : Bool) (k j : ℕ) (burns : List BurnRow)
    → find burn_key j (cleared_table ends k burns)
      ≡ (if j == k then cleared ends (find burn_key k burns) else find burn_key j burns)
unfolding cleared
find-cleared true k j burns =
    ground (arith, find-update burn_key j k anything clear_retry burns (λ b p. p))
find-cleared false k j burns = ground arith

pub find-taken :
    (r : SavedSubmission) (j : ℕ) (rows : List SavedSubmission)
    → find submission_key j (update submission_key r.note_id anything (take_outcome r) rows) ≡ (
        if j == r.note_id
        then updated anything (take_outcome r) (find submission_key r.note_id rows)
        else find submission_key j rows)
find-taken r j rows =
    ground (arith, find-update submission_key j r.note_id anything (take_outcome r) rows (λ b p. p))

taken-note_ok :
    (w : Wire) (r : SavedSubmission) (b : Option BurnRow) (old : Option SavedSubmission)
    → outcome_is_valid w r ≡ true
    → note_ok w b old ≡ true
    → note_ok w (cleared (ends_limit_wait r.status) b) (updated anything (take_outcome r) old)
      ≡ true
unfolding cleared
taken-note_ok w r none none v h = ground arith
taken-note_ok w r none (some old) v h = ground arith
taken-note_ok w r (some b) none v h = ground arith
taken-note_ok w r (some b) (some old) v h = ground (arith, taken_lem w r old)

-- Saving the outcome of a request keeps a well-formed store well formed, whatever its status.
pub update_submission_outcome-IsSound :
    {w : Wire} {s t : Store} (now : ℕ) (r : SavedSubmission)
    → update_submission_outcome w s now r ≡ ok t
    → IsSound w s
    → IsSound w t
update_submission_outcome-IsSound {w} {s} {t} now r h v =
    let l = update_submission_outcome_lem w s t now r h in
    record {
      burn_keys = rw (l.2.0) (
          cleared-Unique burn_key (ends_limit_wait r.status) r.note_id s.burns (λ b. refl)
            v.burn_keys);
      nullifiers = rw (l.2.0) (
          cleared-Unique nullifier_key (ends_limit_wait r.status) r.note_id s.burns (λ b. refl)
            v.nullifiers);
      submission_keys = rw (l.2.1) (
          update-Unique submission_key r.note_id anything (take_outcome r) s.submissions (λ x p. p)
            v.submission_keys);
      notes =
          notes_after w s t r.note_id (cleared (ends_limit_wait r.status) (burn_at s r.note_id))
            (updated anything (take_outcome r) (submission_at s r.note_id))
            (λ j. rw (l.2.0) (find-cleared (ends_limit_wait r.status) r.note_id j s.burns))
            (λ j. rw (l.2.1) (find-taken r j s.submissions))
            (taken-note_ok w r _ _ l.0 (v.notes r.note_id)) v.notes;
    }
