-- ===== src/Attester/Attempt.antt =====
-- An attempt on a burn, `attempt_withdrawal` of crates/xusdc-light-attester/src/attester.rs, moves the
-- store by the store's own steps only.
use miden_usdcx.Prelude.{
  ℕ, ◌≡◌, inl, inr, refl, subst, sym, ap, ◌∙◌, Bool, true, false, none, some, List, Bytes, arith,
  is_some, Result, ok, err, Option-cases, Bool-cases, Result-cases,
}
use miden_usdcx.Circle.{Wire, CircleError}
use miden_usdcx.Burn.{NoteCodec, DiscoveredBurn}
use miden_usdcx.Config.{Config, forwarding_max_fee, retry_at}
use miden_usdcx.Submission.{SavedSubmission, first}
use miden_usdcx.Verify.Types.{Libraries, PrepareBatch}
use miden_usdcx.Verify.Sound.{verify-note_id}
use miden_usdcx.Store.{Store, BurnRow, burn_at, submission_at}
use miden_usdcx.Store.Submissions.{save_submission, submission}
use miden_usdcx.Store.Holds.{hold_burn}
use miden_usdcx.Store.Limits.{record_limit_rejection}
use miden_usdcx.Store.Sound.{IsSound}
use miden_usdcx.Store.Sound.Limits.{no_accepted}
use miden_usdcx.Store.Sound.Submissions.{save_submission_lem}
use miden_usdcx.Store.Steps.{Reach, saves, holds, limits}
use miden_usdcx.Attester.{Client, Clock, Done}
use miden_usdcx.Attester.Limit.{wait_for_withdrawal_limit, rejecting_policy}
use miden_usdcx.Attester.Advance.{advance_submission}
use miden_usdcx.Store.Steps.Works.{Works, still, Works-trans, Works-Reach}
use miden_usdcx.Attester.Works.{one_work, advance_submission-Works}
use miden_usdcx.Attester.Withdraw.{
  Desk, SubmitError, Attempt, authorize_request, submit_saved, withdraw, burn_hold, put_on_hold,
  settle_failure, wait_or_hold, is_fatal, prepare_answer, of_done, attempt_withdrawal,
}
use miden_usdcx.Attester.Withdraw.{note_limited}
use miden_usdcx.Attester.Authorized.{authorize_request_lem}

-- After a failure that is not fatal nothing was written.
abbrev pub WroteNothing : Store → Attempt → Type 0
WroteNothing s a = (e : SubmitError) → a.result ≡ err e → is_fatal e ≡ false → a.store ≡ s

of_done-WroteNothing : (s : Store) (d : Done) → WroteNothing s (of_done d)
unfolding is_fatal
of_done-WroteNothing s d e h g = elim (Result-cases d.result) [
  | inl (u, f) ↦ absurd (ground arith)
  | inr (x, f) ↦ absurd (ground arith)
]

module _ (w : Wire) (config : Config) (client : Client) (clock : Clock) where
  submit_saved-WroteNothing :
      (s : Store) (limited : Bool) (saved : SavedSubmission)
      → WroteNothing s (submit_saved w config client clock s limited saved)
  unfolding submit_saved
  submit_saved-WroteNothing s limited saved = elim (Result-cases (submission w s saved.note_id)) [
    | inr (x, e) ↦ rw (e, submit_saved) (λ _ _ _. refl)
    | inl (previous, e) ↦ elim (Result-cases (save_submission w s clock.unixepoch saved)) [
      | inr (x, f) ↦ rw (e, f, submit_saved) (λ _ _ _. refl)
      | inl (t, f) ↦
          rw (e, f, submit_saved)
            (of_done-WroteNothing s
              (advance_submission w config client clock t limited saved first))
    ]
  ]

module _ {codec : NoteCodec} (k : ℕ) (w : Wire) (config : Config) (client : Client)
    (clock : Clock) where
  submit_saved-Works :
      (s : Store) (limited : Bool) (saved : SavedSubmission) (b : BurnRow)
      → saved.note_id ≡ k
      → IsSound w s
      → burn_at s saved.note_id ≡ some b
      → is_some b.consumption_block ≡ true
      → Works w codec k s (submit_saved w config client clock s limited saved).store
  unfolding submit_saved
  submit_saved-Works s limited saved b mine v found consumed =
      elim (Result-cases (submission w s saved.note_id)) [
        | inr (x, e) ↦ rw (e, submit_saved) still
        | inl (previous, e) ↦ elim (Result-cases (save_submission w s clock.unixepoch saved)) [
          | inr (x, f) ↦ rw (e, f, submit_saved) still
          | inl (t, f) ↦
              rw (e, f, submit_saved)
                (Works-trans (one_work (saves clock.unixepoch saved b f found consumed) mine) (
                  advance_submission-Works k w config client clock t limited saved first mine
                    (save_submission_lem w s t clock.unixepoch saved v.submission_keys f).3.0))
        ]
      ]

  put_on_hold-Works :
      (s : Store) (limited : Bool) (note : ℕ) (error : SubmitError)
      → Works w codec k s (put_on_hold w config clock s limited note error).store
  unfolding put_on_hold
  put_on_hold-Works s limited note error = elim (Option-cases (burn_hold error)) [
    | inl e ↦ rw (e, put_on_hold) still
    | inr ((reason, response), e) ↦
        elim (Result-cases (hold_burn s clock.unixepoch note reason response)) [
          | inr (x, f) ↦ rw (e, f, put_on_hold) still
          | inl (t, f) ↦
              rw (e, f, put_on_hold) (one_work (holds clock.unixepoch note reason response f) tt)
        ]
  ]

  wait_none-Works :
      (s : Store) (note status : ℕ) (body : Bytes) (p : Bool × Store)
      → no_accepted (submission_at s note) ≡ true
      → wait_for_withdrawal_limit w config s clock note status body none ≡ ok p
      → Works w codec k s p.1
  unfolding wait_for_withdrawal_limit
  wait_none-Works s note status body p free h =
      elim (Option-cases (rejecting_policy w config status body)) [
        | inl e ↦ let q : s ≡ p.1 = ground arith in subst (Works w codec k s) q still
        | inr (policy, e) ↦ elim (Result-cases (retry_at policy clock.since_epoch)) [
          | inr (x, f) ↦ absurd (ground arith)
          | inl (retry, f) ↦
              elim (Result-cases (record_limit_rejection s clock.unixepoch note retry body none)) [
                | inr (x, g) ↦ absurd (ground arith)
                | inl (t, g) ↦
                    let q : t ≡ p.1 = ground arith in
                    subst (Works w codec k s) q
                      (one_work (limits clock.unixepoch note retry body none free g) tt)
              ]
        ]
      ]

  wait_or_hold-Works :
      (s : Store) (limited : Bool) (note : ℕ) (error : SubmitError) (answer : ℕ × Bytes)
      → no_accepted (submission_at s note) ≡ true
      → Works w codec k s (wait_or_hold w config clock s limited note error answer).store
  unfolding wait_or_hold
  wait_or_hold-Works s limited note error (status, body) free =
      elim (Result-cases (wait_for_withdrawal_limit w config s clock note status body none)) [
        | inr (x, e) ↦ rw (e, wait_or_hold) still
        | inl ((true, t), e) ↦
            rw (e, wait_or_hold) (wait_none-Works s note status body (true, t) free e)
        | inl ((false, t), e) ↦
            rw (e, wait_or_hold)
              (Works-trans (wait_none-Works s note status body (false, t) free e)
                (put_on_hold-Works t limited note error))
      ]

  settle_failure-Works :
      (s : Store) (limited : Bool) (note : ℕ) (error : SubmitError)
      → (is_fatal error ≡ false → no_accepted (submission_at s note) ≡ true)
      → Works w codec k s (settle_failure w config clock s limited note error).store
  unfolding settle_failure
  settle_failure-Works s limited note error free = elim (Bool-cases (is_fatal error)) [
    | inl e ↦ rw (e, settle_failure) still
    | inr e ↦ elim (Option-cases (prepare_answer error)) [
      | inl f ↦ rw (e, f, settle_failure) (put_on_hold-Works s limited note error)
      | inr (answer, f) ↦
          rw (e, f, settle_failure) (wait_or_hold-Works s limited note error answer (free e))
    ]
  ]

-- A failed quote is no failure of the store, and its request is the burn's.
authorized_note :
    (l : Libraries) (config : Config) (desk : Desk) (burn : DiscoveredBurn)
    (prepared : Result CircleError (List PrepareBatch)) (saved : SavedSubmission)
    → authorize_request l config desk burn prepared ≡ ok saved
    → saved.note_id ≡ burn.note.id
authorized_note l config desk burn prepared saved h =
    let (batches, v, a, b, body, endpoint, e, f, g, k, n, q) =
      authorize_request_lem l config desk burn prepared saved h in
    ap (λ r. r.note_id) q ∙ verify-note_id l batches burn config v f

module _ {codec : NoteCodec} (w : Wire) (l : Libraries) (config : Config) (desk : Desk)
    (client : Client) (clock : Clock) where
  withdraw-Works :
      (s : Store) (limited : Bool) (burn : DiscoveredBurn) (b : BurnRow)
      → IsSound w s
      → burn_at s burn.note.id ≡ some b
      → is_some b.consumption_block ≡ true
      → Works w codec burn.note.id s (withdraw w l config desk client clock s limited burn).store
        × WroteNothing s (withdraw w l config desk client clock s limited burn)
  unfolding withdraw
  withdraw-Works s limited burn b v found consumed =
      elim (Option-cases (forwarding_max_fee config burn.items.dest_domain)) [
        | inl e ↦ rw (e, withdraw) (still, λ _ _ _. refl)
        | inr (fee, e) ↦
            let prepared = desk.prepare_withdrawal burn fee in
            let now = note_limited limited prepared in
            elim (Result-cases (authorize_request l config desk burn prepared)) [
              | inr (x, f) ↦ rw (e, f, withdraw) (still, λ _ _ _. refl)
              | inl (saved, f) ↦
                  let same = authorized_note l config desk burn prepared saved f in
                  rw (e, f, withdraw)
                    (
                      submit_saved-Works burn.note.id w config client clock s now saved b same v
                          (subst (λ k. burn_at s k ≡ some b) (sym same) found) consumed,
                      submit_saved-WroteNothing w config client clock s now saved,
                    )
            ]
      ]

  -- An attempt on a burn is work on its note.
  pub attempt_withdrawal-Works :
      (s : Store) (limited : Bool) (burn : DiscoveredBurn) (b : BurnRow)
      → IsSound w s
      → burn_at s burn.note.id ≡ some b
      → is_some b.consumption_block ≡ true
      → no_accepted (submission_at s burn.note.id) ≡ true
      → Works w codec burn.note.id s
          (attempt_withdrawal w l config desk client clock s limited burn).store
  unfolding attempt_withdrawal
  attempt_withdrawal-Works s limited burn b v found consumed free =
      let a = withdraw w l config desk client clock s limited burn in
      let tried = withdraw-Works s limited burn b v found consumed in
      elim (Result-cases a.result) [
        | inl (u, e) ↦ rw (e, attempt_withdrawal) tried.0
        | inr (x, e) ↦
            rw (e, attempt_withdrawal)
              (Works-trans tried.0 (
                settle_failure-Works burn.note.id w config client clock a.store a.rate_limited
                  burn.note.id x
                  (λ mild.
                    subst (λ t. no_accepted (submission_at t burn.note.id) ≡ true)
                      (sym (tried.1 x e mild)) free)))
      ]

  -- From a well-formed store, an attempt on a consumed burn of the store whose request, if it has
  -- one, is being sent or has expired, moves the store by steps of the store's relation only,
  -- whatever Circle and the signers answer, also when the attempt fails.
  pub attempt_withdrawal-Reach :
      (s : Store) (limited : Bool) (burn : DiscoveredBurn) (b : BurnRow)
      → IsSound w s
      → burn_at s burn.note.id ≡ some b
      → is_some b.consumption_block ≡ true
      → no_accepted (submission_at s burn.note.id) ≡ true
      → Reach w codec s (attempt_withdrawal w l config desk client clock s limited burn).store
  attempt_withdrawal-Reach s limited burn b v found consumed free =
      Works-Reach (attempt_withdrawal-Works s limited burn b v found consumed free)
