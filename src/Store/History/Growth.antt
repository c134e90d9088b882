-- ===== src/Store/History/Growth.antt =====
-- Every operation of crates/xusdc-light-attester/src/store.rs only adds rows to the history, each
-- under the next number.
use mathlib.Core.List.{append-nil, append_assoc}
use miden_usdcx.Prelude.{
  ℕ, ◌<◌, String, ◌≡◌, refl, ap, sym, ◌∙◌, subst, inl, inr, Bool, true, Option, none, some, List,
  [], ◌∷◌, ◌++◌, Bytes, arith, ok, All, >>=-eq-ok, Bool-cases, ensure, ◌==◌,
}
use miden_usdcx.Circle.{Wire}
use miden_usdcx.Submission.{SavedSubmission, SubmissionAttempt}
use miden_usdcx.Sql.{anything, update, changed, exists}
use miden_usdcx.Store.{
  Store, Event, EventKind, BurnHoldReason, BlockHeader, conflict, authorized, outcome,
  burn_released, operator_release, burn_key, submission_key,
}
use miden_usdcx.Store.History.{
  next_seq, max_seq, or_zero, record_event, circle_status, repeats_latest_outcome,
}
use miden_usdcx.Store.Rows.{validate_submission, validate_submission_outcome}
use miden_usdcx.Store.Submissions.{
  authorize, save_submission, update_submission_outcome, record_outcome, end_limit_wait,
  take_outcome,
}
use miden_usdcx.Store.Holds.{
  Released, hold_burn, hold_event, release_hold, release_burn, release_withdrawal, burn_is_held,
}
use miden_usdcx.Store.Limits.{
  record_limit_rejection, reject_request, limit_event, advance_limit_retry,
}
use miden_usdcx.Store.Scan.{save_scan_progress}
use miden_usdcx.Burn.{NoteCodec, BurnCandidate, DiscoveredBurn}
use miden_usdcx.Store.History.Laws.{record_event_result}

-- History grows row by row, each row under the next number.
pub data Grows (es : List Event) : List Event → Type 0 where
  same : Grows es es
  more :
      {fs : List Event} → Grows es fs → (e : Event) → e.seq ≡ next_seq fs → Grows es (fs ++ e ∷ [])

pub Grows-trans : {es fs gs : List Event} → Grows es fs → Grows fs gs → Grows es gs
Grows-trans g same = g
Grows-trans g (more h e n) = more (Grows-trans g h) e n

-- What was recorded stays, at the front.
pub Grows-prefix : {es fs : List Event} → Grows es fs → (new : List Event) × (fs ≡ es ++ new)
Grows-prefix {es} same = ([], sym (append-nil es))
Grows-prefix {es} (more g e n) =
    let (new, p) = Grows-prefix g in
    (new ++ e ∷ [], ap (λ fs. fs ++ e ∷ []) p ∙ append_assoc es new (e ∷ []))

-- The numbers of the rows rise.
abbrev pub Ascends : List Event → Type 0
Ascends [] = Unit {0}
Ascends (e ∷ es) = All (λ f. e.seq < f.seq) es × Ascends es

below_bound :
    (n : ℕ) (es : List Event) → or_zero (max_seq (λ e. true) es) < n → All (λ e. e.seq < n) es
unfolding max_seq
below_bound n [] h = tt
below_bound n (e ∷ es) h = (ground arith, below_bound n es (ground arith))

below-next_seq : (es : List Event) → All (λ e. e.seq < next_seq es) es
unfolding next_seq
below-next_seq es = below_bound (next_seq es) es (omega arith)

All-append_one :
    (P : Event → Type 0) (es : List Event) (e : Event) → All P es → P e → All P (es ++ e ∷ [])
All-append_one P [] e h p = (p, tt)
All-append_one P (x ∷ es) e h p = (h.0, All-append_one P es e h.1 p)

Ascends-append :
    (es : List Event) (e : Event)
    → Ascends es
    → All (λ f. f.seq < e.seq) es
    → Ascends (es ++ e ∷ [])
Ascends-append [] e a b = (tt, tt)
Ascends-append (x ∷ es) e a b =
    (All-append_one (λ f. x.seq < f.seq) es e a.0 b.0, Ascends-append es e a.1 b.1)

pub Grows-Ascends : {es fs : List Event} → Grows es fs → Ascends es → Ascends fs
Grows-Ascends same a = a
Grows-Ascends (more {fs} g e n) a =
    Ascends-append fs e (Grows-Ascends g a)
      (subst (λ m. All (λ f. f.seq < m) fs) (sym n) (below-next_seq fs))

pub Grows-by :
    (s t : Store) (e : Event)
    → e.seq ≡ next_seq s.events
    → s.events ++ e ∷ [] ≡ t.events
    → Grows s.events t.events
Grows-by s t e n p = subst (Grows s.events) p (more same e n)

pub Grows-not : (s t : Store) → s.events ≡ t.events → Grows s.events t.events
Grows-not s t p = subst (Grows s.events) p same

pub record_event-Grows :
    (s t : Store) (now k : ℕ) (kind : EventKind) (status : Option String)
    → record_event s now k kind status ≡ ok t
    → Grows s.events t.events
record_event-Grows s t now k kind status h = elim (record_event_result s now k kind status) [
  | inl e ↦ absurd (ground arith)
  | inr (e, p, n, q) ↦ Grows-by s t e n (ground arith)
]

-- What each operation adds.
pub save_submission-Grows :
    (w : Wire) (s t : Store) (now : ℕ) (r : SavedSubmission)
    → save_submission w s now r ≡ ok t
    → Grows s.events t.events
unfolding save_submission
save_submission-Grows w s t now r h =
    let (v, hv, h1) = >>=-eq-ok (validate_submission w r) _ h in
    let (rows, hr, h2) = >>=-eq-ok (authorize r s.submissions) _ h1 in
    record_event-Grows (record s { submissions = rows }) t now r.note_id authorized none h2

record_outcome-Grows :
    (w : Wire) (s t : Store) (now : ℕ) (r : SavedSubmission)
    → record_outcome w s now r ≡ ok t
    → Grows s.events t.events
unfolding record_outcome
record_outcome-Grows w s t now r h =
    elim (Bool-cases (repeats_latest_outcome s r (circle_status w r.last_response))) [
      | inl old ↦ Grows-not s t (ground arith)
      | inr new ↦
          record_event-Grows s t now r.note_id outcome (circle_status w r.last_response)
            (ground arith)
    ]

pub update_submission_outcome-Grows :
    (w : Wire) (s t : Store) (now : ℕ) (r : SavedSubmission)
    → update_submission_outcome w s now r ≡ ok t
    → Grows s.events t.events
unfolding update_submission_outcome record_outcome end_limit_wait
update_submission_outcome-Grows w s t now r h =
    let stored = record s {
      submissions = update submission_key r.note_id anything (take_outcome r) s.submissions;
    } in
    let (v, hv, h1) = >>=-eq-ok (validate_submission_outcome w r) _ h in
    let (u, hu, h2) =
      >>=-eq-ok (ensure (changed submission_key r.note_id anything s.submissions == 1) conflict) _
        h1 in
    let (m, hm, h3) = >>=-eq-ok (record_outcome w stored now r) _ h2 in
    let p : m.events ≡ t.events = ground arith in
    subst (Grows s.events) p (record_outcome-Grows w stored m now r hm)

pub hold_burn-Grows :
    (s t : Store) (now k : ℕ) (reason : BurnHoldReason) (response : Option (ℕ × Bytes))
    → hold_burn s now k reason response ≡ ok t
    → Grows s.events t.events
unfolding hold_burn hold_event
hold_burn-Grows s t now k reason response h =
    Grows-by s t (hold_event (next_seq s.events) now k reason response) refl (ground arith)

pub release_hold-Grows :
    (s : Store) (now k : ℕ) (confirmed : Bool) (p : Store × Released)
    → release_hold s now k confirmed ≡ ok p
    → Grows s.events p.0.events
unfolding release_hold release_burn release_withdrawal
release_hold-Grows s now k confirmed p h =
    elim (Bool-cases (exists burn_key k burn_is_held s.burns)) [
      | inl held ↦ elim (record_event_result s now k burn_released none) [
        | inl e ↦ absurd (ground arith)
        | inr (e, q, n, z) ↦ Grows-by s p.0 e n (ground arith)
      ]
      | inr free ↦ elim (record_event_result s now k operator_release none) [
        | inl e ↦ absurd (ground arith)
        | inr (e, q, n, z) ↦ Grows-by s p.0 e n (ground arith)
      ]
    ]

pub record_limit_rejection-Grows :
    (s t : Store) (now k retry_at : ℕ) (response : Bytes)
    (sent : Option (SavedSubmission × SubmissionAttempt))
    → record_limit_rejection s now k retry_at response sent ≡ ok t
    → Grows s.events t.events
unfolding record_limit_rejection reject_request limit_event
record_limit_rejection-Grows s t now k retry_at response none h =
    Grows-by s t (limit_event (next_seq s.events) now k response) refl (ground arith)
record_limit_rejection-Grows s t now k retry_at response (some (sent, attempt)) h =
    Grows-by s t (limit_event (next_seq s.events) now k response) refl (ground arith)

pub advance_limit_retry-Grows :
    (s t : Store) (k retry_at : ℕ)
    → advance_limit_retry s k retry_at ≡ ok t
    → Grows s.events t.events
unfolding advance_limit_retry
advance_limit_retry-Grows s t k retry_at h = Grows-not s t (ground arith)

pub save_scan_progress-Grows :
    (codec : NoteCodec) (s t : Store) (candidates : List BurnCandidate)
    (burns : List DiscoveredBurn) (checkpoint : BlockHeader)
    → save_scan_progress codec s candidates burns checkpoint ≡ ok t
    → Grows s.events t.events
unfolding save_scan_progress
save_scan_progress-Grows codec s t candidates burns checkpoint h = Grows-not s t (ground arith)
