-- ===== src/Store/Sound/Limits.antt =====
-- Waiting for Circle's withdrawal limit keeps the store well formed.
use miden_usdcx.Prelude.{
  ℕ, ◌≡◌, refl, Bool, true, not, Option, none, some, List, Bytes, arith, ok, ◌==◌, if◌then◌else◌,
  subst, sym, ◌∙◌, >>=-eq-ok, ensure,
}
use miden_usdcx.Circle.{Wire}
use miden_usdcx.Submission.{SavedSubmission, SubmissionAttempt, first, recovery}
use miden_usdcx.Sql.{find, update, changed}
use miden_usdcx.Sql.Laws.{
  Unique, find-update, update-Unique, update-Unique_other, find-delete, delete-Unique, updated,
  kept, hits, changed-hits,
}
use miden_usdcx.Store.{
  Store, Event, BurnRow, conflict, burn_key, submission_key, burn_at, submission_at,
}
use miden_usdcx.Store.History.{add_event, next_seq}
use miden_usdcx.Store.Rows.{outcome_is_valid, request_is_valid}
use miden_usdcx.Store.Submissions.{ends_limit_wait}
use miden_usdcx.Store.Limits.{
  set_retry, is_waiting, may_wait, is_request, note_limit, reject_rows, reject_request,
  advance_limit_retry, record_limit_rejection, limit_event,
}
use miden_usdcx.Store.Sound.{IsSound, note_ok, nullifier_key}
use miden_usdcx.Store.Sound.Notes.{notes_after, unchanged}

-- A wait set on one burn, under a condition.
abbrev pub waiting_table : ℕ → (BurnRow → Bool) → ℕ → List BurnRow → List BurnRow
waiting_table k cond t burns = update burn_key k cond (set_retry t) burns

find-waiting :
    (k j : ℕ) (cond : BurnRow → Bool) (t : ℕ) (burns : List BurnRow)
    → find burn_key j (waiting_table k cond t burns) ≡ (
        if j == k
        then updated cond (set_retry t) (find burn_key k burns)
        else find burn_key j burns)
find-waiting k j cond t burns =
    ground (arith, find-update burn_key j k cond (set_retry t) burns (λ b p. p))

advance-note_ok :
    (w : Wire) (t : ℕ) (b : Option BurnRow) (r : Option SavedSubmission)
    → note_ok w b r ≡ true
    → note_ok w (updated is_waiting (set_retry t) b) r ≡ true
advance-note_ok w t none r h = h
advance-note_ok w t (some b) none h = ground arith
advance-note_ok w t (some b) (some r) h = ground arith

-- Moving a retry keeps the store well formed.
pub advance_limit_retry-IsSound :
    {w : Wire} {s t : Store} (k retry_at : ℕ)
    → advance_limit_retry s k retry_at ≡ ok t
    → IsSound w s
    → IsSound w t
unfolding advance_limit_retry
advance_limit_retry-IsSound {w} {s} {t} k retry_at h v =
    let moved = record s { burns = waiting_table k is_waiting retry_at s.burns } in
    let e : moved ≡ t = ground arith in
    let sound : IsSound w moved = record {
      burn_keys =
          update-Unique burn_key k is_waiting (set_retry retry_at) s.burns (λ b p. p) v.burn_keys;
      nullifiers =
          update-Unique_other burn_key nullifier_key k is_waiting (set_retry retry_at) (λ b. refl)
            s.burns v.nullifiers;
      submission_keys = v.submission_keys;
      notes =
          notes_after w s moved k (updated is_waiting (set_retry retry_at) (burn_at s k))
            (submission_at s k) (λ j. find-waiting k j is_waiting retry_at s.burns)
            (unchanged (submission_at s) k)
            (advance-note_ok w retry_at (burn_at s k) (submission_at s k) (v.notes k)) v.notes;
    } in
    subst (IsSound w) e sound

-- The submission of the note after its request was rejected.
unfoldable pub rejected :
    Bytes
    → Option (SavedSubmission × SubmissionAttempt)
    → Option SavedSubmission
    → Option SavedSubmission
rejected response none r = r
rejected response (some (sent, first)) r = kept (is_request sent) r
rejected response (some (sent, recovery)) r = updated (is_request sent) (note_limit response) r

-- A burn that a limit rejection may make wait: it has no submission that Circle may have accepted.
abbrev pub no_accepted : Option SavedSubmission → Bool
no_accepted none = true
no_accepted (some r) = not (ends_limit_wait r.status)

abbrev pub RejectsTo :
    Store → ℕ → Bytes → Option (SavedSubmission × SubmissionAttempt) → List SavedSubmission → Type 0
RejectsTo s k response sent rows =
    Unique submission_key rows
    × ((j : ℕ)
        → find submission_key j rows
          ≡ (if j == k then rejected response sent (submission_at s k) else submission_at s j))

reject_rows_lem :
    (s : Store) (k : ℕ) (response : Bytes) (sent : SavedSubmission) (attempt : SubmissionAttempt)
    → Unique submission_key s.submissions
    → RejectsTo s k response
        (some (sent, attempt))
        (reject_rows k response sent attempt s.submissions)
unfolding reject_rows rejected
reject_rows_lem s k response sent first u = (
  delete-Unique submission_key k (is_request sent) s.submissions u,
  λ j. ground (arith, find-delete submission_key j k (is_request sent) s.submissions u),
)
reject_rows_lem s k response sent recovery u = (
  update-Unique submission_key k (is_request sent) (note_limit response) s.submissions (λ b p. p) u,
  λ j. ground (
    arith,
    find-update submission_key j k (is_request sent) (note_limit response) s.submissions (λ b p. p),
  ),
)

-- The request that a rejection Answers is the one saved, or there is none that was accepted.
abbrev pub Answers : Option (SavedSubmission × SubmissionAttempt) → Option SavedSubmission → Type 0
Answers none r = no_accepted r ≡ true
Answers (some (sent, attempt)) r = hits (is_request sent) r ≡ 1

limited_lem :
    (w : Wire) (response : Bytes) (r : SavedSubmission)
    → w.status_is_valid 400 ≡ true
    → outcome_is_valid w r ≡ true
    → (outcome_is_valid w (note_limit response r) ≡ true)
      × (request_is_valid w (note_limit response r) ≡ request_is_valid w r)
unfolding outcome_is_valid request_is_valid
limited_lem w response r known v = (ground arith, refl)

limit-note_ok :
    (w : Wire) (t : ℕ) (response : Bytes) (sent : Option (SavedSubmission × SubmissionAttempt))
    (b : Option BurnRow) (r : Option SavedSubmission)
    → w.status_is_valid 400 ≡ true
    → note_ok w b r ≡ true
    → hits may_wait b ≡ 1
    → Answers sent r
    → note_ok w (updated may_wait (set_retry t) b) (rejected response sent r) ≡ true
unfolding rejected
limit-note_ok w t response none none r known v h a = ground arith
limit-note_ok w t response none (some b) none known v h a = ground arith
limit-note_ok w t response none (some b) (some r) known v h a = ground arith
limit-note_ok w t response (some (sent, first)) none r known v h a = ground arith
limit-note_ok w t response (some (sent, first)) (some b) none known v h a = ground arith
limit-note_ok w t response (some (sent, first)) (some b) (some r) known v h a = ground arith
limit-note_ok w t response (some (sent, recovery)) none r known v h a = ground arith
limit-note_ok w t response (some (sent, recovery)) (some b) none known v h a = ground arith
limit-note_ok w t response (some (sent, recovery)) (some b) (some r) known v h a =
    ground (arith, limited_lem w response r)

abbrev pub limit_burns : Store → ℕ → ℕ → Store
limit_burns s k t = record s { burns = waiting_table k may_wait t s.burns }

abbrev pub RequestRejected :
    Store → ℕ → Bytes → Option (SavedSubmission × SubmissionAttempt) → Store → Type 0
RequestRejected s k response sent t =
    (t.burns ≡ s.burns)
    × RejectsTo s k response sent t.submissions
    × (no_accepted (submission_at s k) ≡ true → Answers sent (submission_at s k))

pub reject_request_lem :
    (s t : Store) (k : ℕ) (response : Bytes) (sent : Option (SavedSubmission × SubmissionAttempt))
    → Unique submission_key s.submissions
    → reject_request s k response sent ≡ ok t
    → RequestRejected s k response sent t
unfolding reject_request rejected
reject_request_lem s t k response none u h =
    let p : s ≡ t = ground arith in
    subst (RequestRejected s k response none) p
      (refl, (u, unchanged (submission_at s) k), λ free. free)
reject_request_lem s t k response (some (sent, attempt)) u h =
    let p : record s { submissions = reject_rows k response sent attempt s.submissions } ≡ t =
      ground arith in
    let one : changed submission_key k (is_request sent) s.submissions ≡ 1 = ground arith in
    subst (RequestRejected s k response (some (sent, attempt))) p (
      refl,
      reject_rows_lem s k response sent attempt u,
      λ _. omega (arith, one, changed-hits submission_key k (is_request sent) s.submissions u),
    )

limited-IsSound :
    {w : Wire} {s : Store} (m : Store) (e : Event) (k t : ℕ) (response : Bytes)
    (sent : Option (SavedSubmission × SubmissionAttempt))
    → w.status_is_valid 400 ≡ true
    → no_accepted (submission_at s k) ≡ true
    → changed burn_key k may_wait s.burns ≡ 1
    → RequestRejected (limit_burns s k t) k response sent m
    → IsSound w s
    → IsSound w (add_event m e)
limited-IsSound {w} {s} m e k t response sent known free one rejects v = record {
  burn_keys =
      rw (rejects.0)
        (update-Unique burn_key k may_wait (set_retry t) s.burns (λ b p. p) v.burn_keys);
  nullifiers = rw (rejects.0) (
      update-Unique_other burn_key nullifier_key k may_wait (set_retry t) (λ b. refl) s.burns
        v.nullifiers);
  submission_keys = rejects.1.0;
  notes =
      notes_after w s (add_event m e) k (updated may_wait (set_retry t) (burn_at s k))
        (rejected response sent (submission_at s k))
        (λ j. rw (rejects.0) (find-waiting k j may_wait t s.burns)) rejects.1.1
        (limit-note_ok w t response sent (burn_at s k) (submission_at s k) known (v.notes k)
          (sym (changed-hits burn_key k may_wait s.burns v.burn_keys) ∙ one) (rejects.2 free))
        v.notes;
}

-- Recording a limit rejection keeps a store well formed, if status 400 is a valid HTTP status and
-- the burn has no request, or one that is being sent or has expired.
pub record_limit_rejection-IsSound :
    {w : Wire} {s t : Store} (now k retry_at : ℕ) (response : Bytes)
    (sent : Option (SavedSubmission × SubmissionAttempt))
    → w.status_is_valid 400 ≡ true
    → no_accepted (submission_at s k) ≡ true
    → record_limit_rejection s now k retry_at response sent ≡ ok t
    → IsSound w s
    → IsSound w t
unfolding record_limit_rejection
record_limit_rejection-IsSound {w} {s} {t} now k retry_at response sent known free h v =
    let (u, hu, h1) = >>=-eq-ok (ensure (changed burn_key k may_wait s.burns == 1) conflict) _ h in
    let (m, hm, h2) = >>=-eq-ok (reject_request (limit_burns s k retry_at) k response sent) _ h1 in
    let one : changed burn_key k may_wait s.burns ≡ 1 = ground arith in
    let p : add_event m (limit_event (next_seq m.events) now k response) ≡ t = ground arith in
    subst (IsSound w) p (
      limited-IsSound m (limit_event (next_seq m.events) now k response) k retry_at response sent
        known free one
        (reject_request_lem (limit_burns s k retry_at) m k response sent v.submission_keys hm) v)
