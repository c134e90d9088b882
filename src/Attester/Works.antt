-- ===== src/Attester/Works.antt =====
-- Taking a saved request one step further, `advance_submission` of
-- crates/xusdc-light-attester/src/submission.rs, is work on that request's note.
use miden_usdcx.Prelude.{
  ℕ, ◌≡◌, inl, inr, subst, sym, ◌∙◌, Bool, true, false, Option, none, some, arith, ok, err,
  Option-cases, Bool-cases, ◌==◌, Result-cases, Bytes, Result,
}
use miden_usdcx.Circle.{Wire, RawResponse}
use miden_usdcx.Circle.Status
use miden_usdcx.Telemetry.{FailureClass}
use miden_usdcx.Burn.{NoteCodec}
use miden_usdcx.Config.{Config, retry_at}
use miden_usdcx.Submission.{SavedSubmission, SubmissionAttempt}
use miden_usdcx.Submission.Reply.{read_response, read_conflict}
use miden_usdcx.Sql.Laws.{Unique, changed-hits}
use miden_usdcx.Store.{Store, submission_key, submission_at}
use miden_usdcx.Store.Submissions.{update_submission_outcome}
use miden_usdcx.Store.Limits.{record_limit_rejection, is_request, reject_request}
use miden_usdcx.Store.Sound.Limits.{no_accepted}
use miden_usdcx.Submission.Reply.Laws.{read_response-Keeps, read_conflict-note_id}
use miden_usdcx.Store.Steps.Works.{Works, still, work, Works-trans, Touches}
use miden_usdcx.Store.Steps.{Step, answered, limits, moves_retry}
use miden_usdcx.Attester.{Client, Clock, Done, FatalError}
use miden_usdcx.Attester.Limit.{limit_allows, wait_for_withdrawal_limit, rejecting_policy}
use miden_usdcx.Attester.Queue.{limit_allows_lem, limit_allows-refused}
use miden_usdcx.Attester.Advance.{
  Sent, save_outcome, finish, settle_conflict, check_named, after_conflict, settle_post, settle,
  settle_sent, send_saved_request, advance_submission,
}

pub one_work :
    {w : Wire} {codec : NoteCodec} {k : ℕ} {s t : Store} (st : Step w codec s t)
    → Touches k st
    → Works w codec k s t
one_work st touches = work still st touches

-- A limit rejection that the store takes answers a request that Circle did not accept.
rejected_is_free :
    (s t : Store) (now k retry : ℕ) (body : Bytes) (sent : SavedSubmission)
    (attempt : SubmissionAttempt)
    → Unique submission_key s.submissions
    → record_limit_rejection s now k retry body (some (sent, attempt)) ≡ ok t
    → no_accepted (submission_at s k) ≡ true
unfolding record_limit_rejection reject_request
rejected_is_free s t now k retry body sent attempt u h =
    ground (arith, changed-hits submission_key k (is_request sent) s.submissions u)

-- A send changes what is known of the reply, and no note's name.
send-note_id :
    (client : Client) (saved : SavedSubmission) (limited : Bool)
    → (send_saved_request client saved limited).saved.note_id ≡ saved.note_id
unfolding send_saved_request
send-note_id client saved limited = ground arith

wait_for_withdrawal_limit-Works :
    {codec : NoteCodec} {k : ℕ} (w : Wire) (config : Config) (s : Store) (clock : Clock)
    (status : ℕ) (body : Bytes) (sent : SavedSubmission) (attempt : SubmissionAttempt)
    (p : Bool × Store)
    → Unique submission_key s.submissions
    → wait_for_withdrawal_limit w config s clock sent.note_id status body (some (sent, attempt))
      ≡ ok p
    → Works w codec k s p.1
unfolding wait_for_withdrawal_limit
wait_for_withdrawal_limit-Works {codec} {k} w config s clock status body sent attempt p u h =
    elim (Option-cases (rejecting_policy w config status body)) [
      | inl e ↦ let q : s ≡ p.1 = ground arith in subst (Works w codec k s) q still
      | inr (policy, e) ↦ elim (Result-cases (retry_at policy clock.since_epoch)) [
        | inr (x, f) ↦ absurd (ground arith)
        | inl (retry, f) ↦
            elim (Result-cases (
              record_limit_rejection s clock.unixepoch sent.note_id retry body
                (some (sent, attempt)))) [
                  | inr (x, g) ↦ absurd (ground arith)
                  | inl (t, g) ↦
                      let q : t ≡ p.1 = ground arith in
                      subst (Works w codec k s) q (
                        one_work
                          (limits clock.unixepoch sent.note_id retry body (some (sent, attempt))
                            (rejected_is_free s t clock.unixepoch sent.note_id retry body sent
                              attempt u g)
                            g)
                          tt)
                ]
      ]
    ]

-- Asking whether the limit lets a burn go moves the store by at most one step, the move of a retry.
pub limit_allows-Works :
    {codec : NoteCodec} {k : ℕ} (w : Wire) (config : Config) (s : Store) (clock : Clock) (note : ℕ)
    (p : Bool × Store)
    → limit_allows config s clock note ≡ ok p
    → Works w codec k s p.1
limit_allows-Works {codec} {k} w config s clock note (false, t) h =
    let q : s ≡ t = limit_allows-refused config s t clock note h in
    subst (Works w codec k s) q still
limit_allows-Works {codec} {k} w config s clock note (true, t) h =
    elim (limit_allows_lem config s t clock note h) [
      | inl (q, idle) ↦ subst (Works w codec k s) (sym q) still
      | inr (inl (block, found, q, leads)) ↦ subst (Works w codec k s) (sym q) still
      | inr (inr (wait, since, later, mine, row, first, now, due, next_retry, moved)) ↦
          one_work (moves_retry note later moved) tt
    ]

module _ {codec : NoteCodec} (k : ℕ) (w : Wire) (config : Config) (client : Client)
    (clock : Clock) where
  save_outcome-Works :
      (s : Store) (limited : Bool) (saved : SavedSubmission)
      → saved.note_id ≡ k
      → Works w codec k s (save_outcome w config client clock s limited saved).store
  save_outcome-Works s limited saved mine =
      elim (Result-cases (update_submission_outcome w s clock.unixepoch saved)) [
        | inl (t, e) ↦ rw (e, save_outcome) (one_work (answered clock.unixepoch saved e) mine)
        | inr (x, e) ↦ rw (e, save_outcome) still
      ]

  finish-Works :
      (s : Store) (sent : Sent)
      → sent.saved.note_id ≡ k
      → Works w codec k s (finish w config client clock s sent).store
  unfolding finish
  finish-Works s sent mine = elim (Result-cases sent.response) [
    | inl (response, e) ↦ rw e (
        save_outcome-Works s sent.rate_limited (read_response w sent.saved response).0
          ((read_response-Keeps w sent.saved response).request.note_id ∙ mine))
    | inr (class, e) ↦ rw e (save_outcome-Works s sent.rate_limited sent.saved mine)
  ]

  check_named-Works :
      (s : Store) (done : Done) (named : SavedSubmission) (result : Result FatalError (Unit {0}))
      → named.note_id ≡ k
      → Works w codec k s done.store
      → Works w codec k s (check_named w config client clock done named result).store
  unfolding check_named
  check_named-Works s done named (err e) mine r = r
  check_named-Works s done named (ok u) mine r = Works-trans r (
      finish-Works done.store (send_saved_request client named done.rate_limited)
        (send-note_id client named done.rate_limited ∙ mine))

  after_conflict-Works :
      (s : Store) (done : Done) (named : SavedSubmission) (class : Option FailureClass)
      → named.note_id ≡ k
      → Works w codec k s done.store
      → Works w codec k s (after_conflict w config client clock done named class).store
  unfolding after_conflict
  after_conflict-Works s done named (some failed) mine r = r
  after_conflict-Works s done named none mine r = check_named-Works s done named done.result mine r

  settle_conflict-Works :
      (s : Store) (sent : Sent)
      → sent.saved.note_id ≡ k
      → Works w codec k s (settle_conflict w config client clock s sent).store
  unfolding settle_conflict
  settle_conflict-Works s sent mine =
      let (named, class) = read_conflict w sent.saved in
      let same = read_conflict-note_id w sent.saved ∙ mine in
      after_conflict-Works s (save_outcome w config client clock s sent.rate_limited named) named
        class same (save_outcome-Works s sent.rate_limited named same)

  settle-Works :
      (s : Store) (sent : Sent) (response : RawResponse)
      → sent.saved.note_id ≡ k
      → Works w codec k s (settle w config client clock s sent response).store
  settle-Works s sent response mine = elim (Bool-cases (response.status == Status.conflict)) [
    | inl e ↦ rw (e, settle) (settle_conflict-Works s sent mine)
    | inr e ↦ rw (e, settle) (finish-Works s sent mine)
  ]

  settle_post-Works :
      (s : Store) (sent : Sent) (response : RawResponse) (attempt : SubmissionAttempt)
      → sent.saved.note_id ≡ k
      → Unique submission_key s.submissions
      → Works w codec k s (settle_post w config client clock s sent response attempt).store
  unfolding settle_post
  settle_post-Works s sent response attempt mine u =
      elim (Result-cases (
        wait_for_withdrawal_limit w config s clock sent.saved.note_id response.status response.body
          (some (sent.saved, attempt)))) [
            | inr (x, e) ↦ rw (e, settle_post) still
            | inl ((true, t), e) ↦
                rw (e, settle_post)
                  (wait_for_withdrawal_limit-Works w config s clock response.status response.body
                    sent.saved attempt (true, t) u e)
            | inl ((false, t), e) ↦
                rw (e, settle_post)
                  (Works-trans
                    (wait_for_withdrawal_limit-Works w config s clock response.status response.body
                      sent.saved attempt (false, t) u e)
                    (settle-Works t sent response mine))
          ]

  settle_sent-Works :
      (s : Store) (sent : Sent) (attempt : SubmissionAttempt)
      → sent.saved.note_id ≡ k
      → Unique submission_key s.submissions
      → Works w codec k s (settle_sent w config client clock s sent attempt).store
  settle_sent-Works s sent attempt mine u = elim (Option-cases sent.saved.withdrawal_id) [
    | inr (id, e) ↦ rw (e, settle_sent) (finish-Works s sent mine)
    | inl e ↦ elim (Result-cases sent.response) [
      | inr (class, f) ↦ rw (e, f, settle_sent) (finish-Works s sent mine)
      | inl (response, f) ↦
          rw (e, f, settle_sent) (settle_post-Works s sent response attempt mine u)
    ]
  ]

  -- Taking a saved request one step further is work on its note.
  pub advance_submission-Works :
      (s : Store) (limited : Bool) (saved : SavedSubmission) (attempt : SubmissionAttempt)
      → saved.note_id ≡ k
      → Unique submission_key s.submissions
      → Works w codec k s (advance_submission w config client clock s limited saved attempt).store
  unfolding advance_submission
  advance_submission-Works s true saved attempt mine u = still
  advance_submission-Works s false saved attempt mine u =
      settle_sent-Works s (send_saved_request client saved false) attempt
        (send-note_id client saved false ∙ mine) u
