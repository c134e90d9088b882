-- ===== src/Store/Steps/Works.antt =====
-- The writes that crates/xusdc-light-attester/src/attester.rs makes for one note at a time: work on a
-- note leaves what the others need, a consumed burn and no request that Circle may have accepted.
use miden_usdcx.Prelude.{
  ℕ, ◌≡◌, ◌≢◌, refl, sym, ◌∙◌, subst, Bool, true, false, Option, none, some, List, Bytes, arith,
  is_some, ap, ok, ◌⊎◌, Bool-cases, ensure, ◌==◌, if◌then◌else◌, inl, inr, >>=-eq-ok,
}
use miden_usdcx.Circle.{Wire}
use miden_usdcx.Burn.{NoteCodec}
use miden_usdcx.Submission.{SavedSubmission, SubmissionAttempt, first, recovery}
use miden_usdcx.Sql.{find, update, changed, anything}
use miden_usdcx.Sql.Laws.{Unique, find-update, find-delete, updated, kept}
use miden_usdcx.Store.{
  Store, BurnRow, BlockHeader, conflict, burn_key, submission_key, burn_at, submission_at,
}
use miden_usdcx.Store.Submissions.{
  ends_limit_wait, clear_retry, save_submission, update_submission_outcome, record_outcome,
  end_limit_wait,
}
use miden_usdcx.Store.History.{record_event}
use miden_usdcx.Store.Holds.{Released, put_hold, clear_hold, hold_burn, release_hold}
use miden_usdcx.Store.Limits.{
  advance_limit_retry, record_limit_rejection, reject_request, may_wait, set_retry, is_waiting,
}
use miden_usdcx.Store.Sound.{IsSound}
use miden_usdcx.Store.Sound.Submissions.{
  save_submission_lem, update_submission_outcome_lem, find-taken,
}
use miden_usdcx.Store.Sound.Holds.{release_hold_lem, release_checked_lem}
use miden_usdcx.Store.Sound.Limits.{no_accepted, rejected, reject_request_lem, limit_burns}
use miden_usdcx.Store.Steps.{
  Step, Reach, here, next, saves, answered, holds, releases, releases_checked, moves_retry, limits,
  scans, Reach-IsSound,
}

-- The steps that work on a note: its request is saved or answered, or the step is one that is
-- harmless to the requests of other notes.
abbrev pub Touches : {w : Wire} {codec : NoteCodec} {s t : Store} → ℕ → Step w codec s t → Type 0
Touches k (saves now r b h e c) = r.note_id ≡ k
Touches k (answered now r h) = r.note_id ≡ k
Touches k (holds now j reason response h) = Unit
Touches k (releases before now ks n h) = ⊥
Touches k (releases_checked now selection n h) = Unit
Touches k (moves_retry j retry_at h) = Unit
Touches k (limits now j retry_at response sent free h) = Unit
Touches k (scans candidates burns checkpoint h) = ⊥

-- Reached by work on one note only.
pub data Works (w : Wire) (codec : NoteCodec) (k : ℕ) (s : Store) : Store → Type 0 where
  still : Works w codec k s s
  work :
      {t u : Store}
      → Works w codec k s t
      → (st : Step w codec t u) → Touches k st
      → Works w codec k s u

pub Works-Reach :
    {w : Wire} {codec : NoteCodec} {k : ℕ} {s t : Store} → Works w codec k s t → Reach w codec s t
Works-Reach still = here
Works-Reach (work r st touches) = next (Works-Reach r) st

pub Works-trans :
    {w : Wire} {codec : NoteCodec} {k : ℕ} {s t u : Store}
    → Works w codec k s t
    → Works w codec k t u
    → Works w codec k s u
Works-trans r still = r
Works-trans r (work q st touches) = work (Works-trans r q) st touches

abbrev pub is_consumed_burn : Option BurnRow → Bool
is_consumed_burn none = false
is_consumed_burn (some b) = is_some b.consumption_block

-- A burn that may still be withdrawn: consumed, with no request that Circle may have accepted.
abbrev pub IsPending : Store → ℕ → Type 0
IsPending s j = (is_consumed_burn (burn_at s j) ≡ true) × (no_accepted (submission_at s j) ≡ true)

-- The columns of a burn that only the scan writes.
abbrev pub scanned_columns : BurnRow → ℕ × ℕ × Bytes × ℕ × Option ℕ
scanned_columns b = (b.note_id, b.nullifier, b.note, b.creation_block, b.consumption_block)

-- The burns are as they were, or one statement changed other columns of them.
abbrev pub KeepsScanned : List BurnRow → List BurnRow → Type 0
KeepsScanned rows after =
    (after ≡ rows)
    ⊎ ((k : ℕ) × (cond : BurnRow → Bool) × (f : BurnRow → BurnRow) × ((b : BurnRow)
          → scanned_columns (f b) ≡ scanned_columns b)
        × (after ≡ update burn_key k cond f rows))

-- The row of the `attester_state` table.
abbrev pub attester_state : Store → ℕ × ℕ × ℕ × Option BlockHeader
attester_state s = (s.faucet_account_id, s.anchor_block, s.anchor_commitment, s.checkpoint)

-- What the scan and the store's creation wrote is still there.
pub record KeepsScan (s t : Store) : Type 0 where
  pub burns : KeepsScanned s.burns t.burns
  pub state : attester_state t ≡ attester_state s

reject_request-attester_state :
    (s t : Store) (k : ℕ) (response : Bytes) (sent : Option (SavedSubmission × SubmissionAttempt))
    → reject_request s k response sent ≡ ok t
    → attester_state t ≡ attester_state s
unfolding reject_request
reject_request-attester_state s t k response none h = ground arith
reject_request-attester_state s t k response (some (sent, attempt)) h = ground arith

-- A release keeps what the scan wrote.
pub release_hold-KeepsScan :
    (s : Store) (now k : ℕ) (confirmed : Bool) (p : Store × Released)
    → release_hold s now k confirmed ≡ ok p
    → KeepsScan s p.0
unfolding record_event
release_hold-KeepsScan s now k confirmed p h = elim (release_hold_lem s now k confirmed p h) [
  | inl (e, held, q) ↦
      subst (KeepsScan s) q
        (record { burns = inr (k, anything, clear_hold, λ b. refl, refl); state = refl })
  | inr (e, free, releasable, confirmed, q) ↦
      subst (KeepsScan s) q (record { burns = inl refl; state = refl })
]

-- Work on a note keeps what the scan wrote.
pub Step-KeepsScan :
    {w : Wire} {codec : NoteCodec} {s t : Store} (k : ℕ) (st : Step w codec s t)
    → Touches k st
    → Unique submission_key s.submissions
    → KeepsScan s t
unfolding hold_burn advance_limit_retry record_limit_rejection save_submission
    update_submission_outcome record_event record_outcome end_limit_wait
Step-KeepsScan {w = w} {s = s} {t = t} k (saves now r b h e c) touches u = record {
  burns = inl (save_submission_lem w s t now r u h).2;
  state = ground arith;
}
Step-KeepsScan {w = w} {s = s} {t = t} k (answered now r h) touches u = record {
  burns = cleared (ends_limit_wait r.status) (update_submission_outcome_lem w s t now r h).2.0;
  state = ground arith;
}
  where
    cleared :
        (c : Bool)
        → t.burns ≡ (if c then update burn_key r.note_id anything clear_retry s.burns else s.burns)
        → KeepsScanned s.burns t.burns
    cleared true q = inr (r.note_id, anything, clear_retry, λ b. refl, q)
    cleared false q = inl q
Step-KeepsScan {s = s} {t = t} k (holds now i reason response h) touches u = record {
  burns = inr (i, anything, put_hold reason, λ b. refl, ground arith);
  state = ground arith;
}
Step-KeepsScan k (releases before now ks n h) touches u = absurd touches
Step-KeepsScan {s = s} {t = t} k (releases_checked now selection n h) touches u =
    release_hold-KeepsScan s now selection.note_id selection.circle_not_accepted (t, n)
      (release_checked_lem s now selection (t, n) h).2
Step-KeepsScan {s = s} {t = t} k (moves_retry i retry_at h) touches u = record {
  burns = inr (i, is_waiting, set_retry retry_at, λ b. refl, ground arith);
  state = ground arith;
}
Step-KeepsScan {s = s} {t = t} k (limits now i retry_at response sent free h) touches u =
    let (v, hv, h1) = >>=-eq-ok (ensure (changed burn_key i may_wait s.burns == 1) conflict) _ h in
    let (m, hm, h2) = >>=-eq-ok (reject_request (limit_burns s i retry_at) i response sent) _ h1 in
    let l = reject_request_lem (limit_burns s i retry_at) m i response sent u hm in
    record {
      burns = inr (
        i,
        may_wait,
        set_retry retry_at,
        λ b. refl,
        let q : m.burns ≡ t.burns = ground arith in sym q ∙ l.0,
      );
      state =
          let q : attester_state m ≡ attester_state t = ground arith in
          sym q ∙ reject_request-attester_state (limit_burns s i retry_at) m i response sent hm;
    }
Step-KeepsScan k (scans candidates burns checkpoint h) touches u = absurd touches

-- A burn that was consumed still is.
Step-consumed :
    {w : Wire} {codec : NoteCodec} {s t : Store} (j k : ℕ) (st : Step w codec s t)
    → Touches k st
    → Unique submission_key s.submissions
    → is_consumed_burn (burn_at s j) ≡ true
    → is_consumed_burn (burn_at t j) ≡ true
Step-consumed {s = s} {t = t} j k st touches u p = elim (Step-KeepsScan k st touches u).burns [
  | inl q ↦ subst (λ rows. is_consumed_burn (find burn_key j rows) ≡ true) (sym q) p
  | inr (i, cond, f, same, q) ↦
      subst (λ rows. is_consumed_burn (find burn_key j rows) ≡ true) (sym q)
        (rw (find-update burn_key j i cond f s.burns (λ b e. ap (λ x. x.0) (same b) ∙ e))
          (choose cond f same (j == i) (burn_at s j) p))
]
  where
    choose :
        (cond : BurnRow → Bool) (f : BurnRow → BurnRow)
        → ((b : BurnRow) → scanned_columns (f b) ≡ scanned_columns b)
        → (c : Bool) (b : Option BurnRow) → is_consumed_burn b ≡ true
        → is_consumed_burn (if c then updated cond f b else b) ≡ true
    choose cond f same true none h = h
    choose cond f same true (some b) h = elim (Bool-cases (cond b)) [
      | inl e ↦ rw e (ap (λ x. is_some (x.4)) (same b) ∙ h)
      | inr e ↦ rw e h
    ]
    choose cond f same false b h = h

limited-free :
    (response : Bytes) (sent : Option (SavedSubmission × SubmissionAttempt))
    (r : Option SavedSubmission)
    → no_accepted r ≡ true
    → no_accepted (rejected response sent r) ≡ true
unfolding rejected
limited-free response none r h = h
limited-free response (some (sent, first)) none h = refl
limited-free response (some (sent, first)) (some r) h = ground arith
limited-free response (some (sent, recovery)) none h = refl
limited-free response (some (sent, recovery)) (some r) h = ground arith

-- The request of another note stays free.
Step-free :
    {w : Wire} {codec : NoteCodec} {s t : Store} (j k : ℕ) (st : Step w codec s t)
    → Touches k st
    → j ≢ k
    → Unique submission_key s.submissions
    → no_accepted (submission_at s j) ≡ true
    → no_accepted (submission_at t j) ≡ true
unfolding hold_burn advance_limit_retry record_limit_rejection
Step-free {w = w} {s = s} {t = t} j k (saves now r b h e c) touches other u p =
    ground (arith, (save_submission_lem w s t now r u h).3.2 j)
Step-free {w = w} {s = s} {t = t} j k (answered now r h) touches other u p =
    subst (λ rows. no_accepted (find submission_key j rows) ≡ true)
      (sym (update_submission_outcome_lem w s t now r h).2.1)
      (ground (arith, find-taken r j s.submissions))
Step-free {s = s} {t = t} j k (holds now i reason response h) touches other u p =
    let q : s.submissions ≡ t.submissions = ground arith in
    subst (λ rows. no_accepted (find submission_key j rows) ≡ true) q p
Step-free j k (releases before now ks n h) touches other u p = absurd touches
Step-free {s = s} {t = t} j k (releases_checked now selection n h) touches other u p =
    elim (release_hold_lem s now selection.note_id selection.circle_not_accepted (t, n)
      (release_checked_lem s now selection (t, n) h).2) [
        | inl (e, held, q) ↦ subst (λ (x : Store). no_accepted (submission_at x j) ≡ true) q p
        | inr (e, free, releasable, confirmed, q) ↦
            subst (λ (x : Store). no_accepted (submission_at x j) ≡ true) q
              (rw (find-delete submission_key j selection.note_id anything s.submissions u)
                (deleted (j == selection.note_id) (submission_at s j) p))
      ]
  where
    deleted :
        (c : Bool) (r : Option SavedSubmission)
        → no_accepted r ≡ true
        → no_accepted (if c then kept anything r else r) ≡ true
    deleted true none h = refl
    deleted true (some r) h = refl
    deleted false r h = h
Step-free {s = s} {t = t} j k (moves_retry i retry_at h) touches other u p =
    let q : s.submissions ≡ t.submissions = ground arith in
    subst (λ rows. no_accepted (find submission_key j rows) ≡ true) q p
Step-free {s = s} {t = t} j k (limits now i retry_at response sent free h) touches other u p =
    let (v, hv, h1) = >>=-eq-ok (ensure (changed burn_key i may_wait s.burns == 1) conflict) _ h in
    let (m, hm, h2) = >>=-eq-ok (reject_request (limit_burns s i retry_at) i response sent) _ h1 in
    let l = reject_request_lem (limit_burns s i retry_at) m i response sent u hm in
    let q : m.submissions ≡ t.submissions = ground arith in
    subst (λ rows. no_accepted (find submission_key j rows) ≡ true) q
      (ground (arith, l.1.1 j, limited-free response sent (submission_at s i)))
Step-free j k (scans candidates burns checkpoint h) touches other u p = absurd touches

-- Work on one note leaves every other pending burn pending.
pub Works-IsPending :
    {w : Wire} {codec : NoteCodec} {k : ℕ} {s t : Store} (j : ℕ)
    → w.status_is_valid 400 ≡ true
    → j ≢ k
    → Works w codec k s t
    → IsSound w s
    → IsPending s j
    → IsPending t j
Works-IsPending j known other still v p = p
Works-IsPending {k = k} j known other (work r st touches) v p =
    let u = (Reach-IsSound known (Works-Reach r) v).submission_keys in
    let q = Works-IsPending j known other r v p in
    (Step-consumed j k st touches u q.0, Step-free j k st touches other u q.1)
