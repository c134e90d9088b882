-- ===== src/Store/Steps/Requests.antt =====
-- Every write of crates/xusdc-light-attester/src/store.rs keeps each saved request in the history.
use miden_usdcx.Prelude.{
  ℕ, ◌≡◌, ◌∙◌, ap, Bool, true, Option, none, some, List, Bytes, arith, ok, ◌==◌, inl, inr,
  if◌then◌else◌, >>=-eq-ok, ensure,
}
use miden_usdcx.Circle.{Wire}
use miden_usdcx.Burn.{NoteCodec}
use miden_usdcx.Submission.{SavedSubmission, SubmissionAttempt, first, recovery}
use miden_usdcx.Sql.{anything, find, changed}
use miden_usdcx.Sql.Laws.{updated, kept, find-delete}
use miden_usdcx.Store.{Store, Event, conflict, burn_key, submission_key, submission_at}
use miden_usdcx.Store.History.Growth.{
  save_submission-Grows, update_submission_outcome-Grows, hold_burn-Grows, release_hold-Grows,
  record_limit_rejection-Grows, advance_limit_retry-Grows, save_scan_progress-Grows,
}
use miden_usdcx.Store.History.Requests.{
  row_is_recorded, IsRecorded, row_is_recorded-Grows, IsRecorded-after, IsRecorded-still,
  record_event-authorizes,
}
use miden_usdcx.Store.Rows.{validate_submission}
use miden_usdcx.Store.Submissions.{
  fresh, authorize, save_submission, update_submission_outcome, take_outcome,
}
use miden_usdcx.Store.Holds.{Released, hold_burn, release_hold, release_holds, btree_set}
use miden_usdcx.Store.Limits.{
  advance_limit_retry, record_limit_rejection, may_wait, reject_request, is_request,
}
use miden_usdcx.Store.Scan.{save_scan_progress}
use miden_usdcx.Store.Sound.{IsSound}
use miden_usdcx.Store.Sound.Submissions.{
  save_submission_lem, authorize_lem, update_submission_outcome_lem, find-taken,
}
use miden_usdcx.Store.Sound.Holds.{
  release_hold_lem, release_hold-IsSound, release_each_keeps, release_checked_lem,
}
use miden_usdcx.Store.Sound.Limits.{rejected, reject_request_lem, limit_burns}
use miden_usdcx.Store.Steps.{
  Step, Reach, here, next, saves, answered, holds, releases, releases_checked, moves_retry, limits,
  scans, Reach-IsSound,
}

save_submission-IsRecorded :
    (w : Wire) (s t : Store) (now : ℕ) (r : SavedSubmission)
    → save_submission w s now r ≡ ok t
    → IsSound w s
    → IsRecorded s
    → IsRecorded t
unfolding save_submission
save_submission-IsRecorded w s t now r h v old =
    let (u, hu, h1) = >>=-eq-ok (validate_submission w r) _ h in
    let (rows, hr, h2) = >>=-eq-ok (authorize r s.submissions) _ h1 in
    let table = authorize_lem r s.submissions rows v.submission_keys hr in
    let l = save_submission_lem w s t now r v.submission_keys h in
    IsRecorded-after s t r.note_id (some (fresh r)) (save_submission-Grows w s t now r h) (l.3.2)
      (record_event-authorizes (record s { submissions = rows }) t now (fresh r)
        (table.2 r.note_id ∙ if_self r.note_id) h2)
      old
  where
    if_self :
        (k : ℕ)
        → (if k == k then some (fresh r) else find submission_key k s.submissions) ≡ some (fresh r)
    if_self k = ground arith

taken_recorded :
    (es : List Event) (r : SavedSubmission) (old : Option SavedSubmission)
    → row_is_recorded es old ≡ true
    → row_is_recorded es (updated anything (take_outcome r) old) ≡ true
taken_recorded es r none h = h
taken_recorded es r (some old) h = h

update_submission_outcome-IsRecorded :
    (w : Wire) (s t : Store) (now : ℕ) (r : SavedSubmission)
    → update_submission_outcome w s now r ≡ ok t
    → IsRecorded s
    → IsRecorded t
update_submission_outcome-IsRecorded w s t now r h old =
    let l = update_submission_outcome_lem w s t now r h in
    let g = update_submission_outcome-Grows w s t now r h in
    IsRecorded-after s t r.note_id (updated anything (take_outcome r) (submission_at s r.note_id)) g
      (λ j. rw (l.2.1) (find-taken r j s.submissions))
      (taken_recorded t.events r (submission_at s r.note_id)
        (row_is_recorded-Grows (submission_at s r.note_id) g (old r.note_id)))
      old

hold_burn-IsRecorded :
    (s t : Store) (now k : ℕ) (reason : _) (response : Option (ℕ × Bytes))
    → hold_burn s now k reason response ≡ ok t
    → IsRecorded s
    → IsRecorded t
unfolding hold_burn
hold_burn-IsRecorded s t now k reason response h =
    IsRecorded-still s t (hold_burn-Grows s t now k reason response h) (ground arith)

kept_recorded :
    (es : List Event) (cond : SavedSubmission → Bool) (r : Option SavedSubmission)
    → row_is_recorded es r ≡ true
    → row_is_recorded es (kept cond r) ≡ true
kept_recorded es cond none h = h
kept_recorded es cond (some r) h = ground arith

release_hold-IsRecorded :
    (w : Wire) (s : Store) (now k : ℕ) (confirmed : Bool) (p : Store × Released)
    → release_hold s now k confirmed ≡ ok p
    → IsSound w s
    → IsRecorded s
    → IsRecorded p.0
release_hold-IsRecorded w s now k confirmed p h v old =
    let g = release_hold-Grows s now k confirmed p h in
    elim (release_hold_lem s now k confirmed p h) [
      | inl (e, held, q) ↦ IsRecorded-still s p.0 g (ap (λ (x : Store). x.submissions) q) old
      | inr (e, free, held, sure, q) ↦
          IsRecorded-after s p.0 k (kept anything (submission_at s k)) g
            (λ j. rw (← q) (
              ground
                (arith, find-delete submission_key j k anything s.submissions v.submission_keys)))
            (kept_recorded p.0.events anything (submission_at s k)
              (row_is_recorded-Grows (submission_at s k) g (old k)))
            old
    ]

abbrev Both : Wire → Store → Type 0
Both w s = IsSound w s × IsRecorded s

release_holds-IsRecorded :
    (w : Wire) (s : Store) (before : ℕ → ℕ → Bool) (now : ℕ) (ks : List ℕ) (p : Store × Released)
    → release_holds before s now ks ≡ ok p
    → Both w s
    → Both w p.0
unfolding release_holds
release_holds-IsRecorded w s before now ks p h =
    release_each_keeps (Both w) now
      (λ t k q e b. (
        release_hold-IsSound now k true q e b.0,
        release_hold-IsRecorded w t now k true q e b.0 b.1,
      ))
      s (btree_set before ks) (record { burns = 0; withdrawals = 0 }) p h

limited_recorded :
    (es : List Event) (response : Bytes) (sent : Option (SavedSubmission × SubmissionAttempt))
    (r : Option SavedSubmission)
    → row_is_recorded es r ≡ true
    → row_is_recorded es (rejected response sent r) ≡ true
unfolding rejected
limited_recorded es response none r h = h
limited_recorded es response (some (sent, first)) r h = kept_recorded es (is_request sent) r h
limited_recorded es response (some (sent, recovery)) none h = h
limited_recorded es response (some (sent, recovery)) (some r) h = ground arith

record_limit_rejection-IsRecorded :
    (w : Wire) (s t : Store) (now k retry_at : ℕ) (response : Bytes)
    (sent : Option (SavedSubmission × SubmissionAttempt))
    → record_limit_rejection s now k retry_at response sent ≡ ok t
    → IsSound w s
    → IsRecorded s
    → IsRecorded t
unfolding record_limit_rejection
record_limit_rejection-IsRecorded w s t now k retry_at response sent h v old =
    let g = record_limit_rejection-Grows s t now k retry_at response sent h in
    let (u, hu, h1) = >>=-eq-ok (ensure (changed burn_key k may_wait s.burns == 1) conflict) _ h in
    let (m, hm, h2) = >>=-eq-ok (reject_request (limit_burns s k retry_at) k response sent) _ h1 in
    let l = reject_request_lem (limit_burns s k retry_at) m k response sent v.submission_keys hm in
    let p : m.submissions ≡ t.submissions = ground arith in
    IsRecorded-after s t k (rejected response sent (submission_at s k)) g (λ j. rw (← p) (l.1.1 j))
      (limited_recorded t.events response sent (submission_at s k)
        (row_is_recorded-Grows (submission_at s k) g (old k)))
      old

advance_limit_retry-IsRecorded :
    (s t : Store) (k retry_at : ℕ)
    → advance_limit_retry s k retry_at ≡ ok t
    → IsRecorded s
    → IsRecorded t
unfolding advance_limit_retry
advance_limit_retry-IsRecorded s t k retry_at h =
    IsRecorded-still s t (advance_limit_retry-Grows s t k retry_at h) (ground arith)

save_scan_progress-IsRecorded :
    (codec : NoteCodec) (s t : Store) (candidates : _) (burns : _) (checkpoint : _)
    → save_scan_progress codec s candidates burns checkpoint ≡ ok t
    → IsRecorded s
    → IsRecorded t
unfolding save_scan_progress
save_scan_progress-IsRecorded codec s t candidates burns checkpoint h =
    IsRecorded-still s t (save_scan_progress-Grows codec s t candidates burns checkpoint h)
      (ground arith)

Step-IsRecorded :
    {w : Wire} {codec : NoteCodec} {s t : Store}
    → Step w codec s t
    → IsSound w s
    → IsRecorded s
    → IsRecorded t
Step-IsRecorded {w} {codec} {s} {t} (saves now r b h e c) v old =
    save_submission-IsRecorded w s t now r h v old
Step-IsRecorded {w} {codec} {s} {t} (answered now r h) v old =
    update_submission_outcome-IsRecorded w s t now r h old
Step-IsRecorded {w} {codec} {s} {t} (holds now k reason response h) v old =
    hold_burn-IsRecorded s t now k reason response h old
Step-IsRecorded {w} {codec} {s} {t} (releases before now ks n h) v old =
    (release_holds-IsRecorded w s before now ks (t, n) h (v, old)).1
Step-IsRecorded {w} {codec} {s} {t} (releases_checked now selection n h) v old =
    release_hold-IsRecorded w s now selection.note_id selection.circle_not_accepted (t, n)
      (release_checked_lem s now selection (t, n) h).2 v old
Step-IsRecorded {w} {codec} {s} {t} (moves_retry k retry_at h) v old =
    advance_limit_retry-IsRecorded s t k retry_at h old
Step-IsRecorded {w} {codec} {s} {t} (limits now k retry_at response sent free h) v old =
    record_limit_rejection-IsRecorded w s t now k retry_at response sent h v old
Step-IsRecorded {w} {codec} {s} {t} (scans candidates burns checkpoint h) v old =
    save_scan_progress-IsRecorded codec s t candidates burns checkpoint h old

-- After any sequence of writes on a well-formed store in which every saved request is recorded,
-- every saved request still has a row of history that authorizes it: same note, endpoint, body and
-- transfer hash. Status 400 must be a valid HTTP status.
pub Reach-IsRecorded :
    {w : Wire} {codec : NoteCodec} {s t : Store}
    → w.status_is_valid 400 ≡ true
    → Reach w codec s t
    → IsSound w s
    → IsRecorded s
    → IsRecorded t
Reach-IsRecorded known here v old = old
Reach-IsRecorded known (next r st) v old =
    Step-IsRecorded st (Reach-IsSound known r v) (Reach-IsRecorded known r v old)
