-- ===== src/Store/Steps.antt =====
-- The life of a store: every operation of crates/xusdc-light-attester/src/store.rs that writes, as a
-- step that succeeded, and what holds after any sequence of them. A failed operation is rolled back.
pub mod Requests
pub mod Works
use miden_usdcx.Prelude.{
  ℕ, ◌≡◌, refl, sym, ◌∙◌, ap, subst, Bool, true, false, Option, none, some, List, [], ◌∷◌, ◌++◌,
  Bytes, arith, is_some, ok,
}
use miden_usdcx.Prelude.Int.{ℤ}
use miden_usdcx.Circle.{Wire}
use miden_usdcx.Burn.{NoteCodec, BurnCandidate, DiscoveredBurn}
use miden_usdcx.Submission.{SavedSubmission, SubmissionAttempt}
use miden_usdcx.Sql.{find}
use miden_usdcx.Store.{Store, Event, BurnRow, BurnHoldReason, BlockHeader, burn_at, submission_at}
use miden_usdcx.Store.Submissions.{save_submission, update_submission_outcome}
use miden_usdcx.Store.Holds.{
  Released, ReleaseSelection, hold_burn, release_hold, release_holds, release_checked, btree_set,
}
use miden_usdcx.Store.Limits.{advance_limit_retry, record_limit_rejection}
use miden_usdcx.Store.Scan.{save_scan_progress}
use miden_usdcx.Store.Sound.{IsSound}
use miden_usdcx.Store.Sound.Submissions.{save_submission-IsSound, update_submission_outcome-IsSound}
use miden_usdcx.Store.Sound.Holds.{
  hold_burn-IsSound, release_holds-IsSound, release_checked-IsSound, release_each_keeps,
  release_checked_lem,
}
use miden_usdcx.Store.Sound.Limits.{
  no_accepted, advance_limit_retry-IsSound, record_limit_rejection-IsSound,
}
use miden_usdcx.Store.Sound.Scan.{save_scan_progress-IsSound}
use miden_usdcx.Store.History.Growth.{
  Grows, same, Grows-trans, Grows-prefix, Ascends, Grows-Ascends, save_submission-Grows,
  update_submission_outcome-Grows, hold_burn-Grows, release_hold-Grows,
  record_limit_rejection-Grows, advance_limit_retry-Grows, save_scan_progress-Grows,
}

-- An empty store, as `initialize_store` writes it for a faucet and a trusted anchor.
unfoldable pub initialize_store : ℕ → ℕ → ℕ → Store
initialize_store faucet anchor_block anchor_commitment = record {
  faucet_account_id = faucet;
  anchor_block = anchor_block;
  anchor_commitment = anchor_commitment;
  checkpoint = none;
  burns = [];
  submissions = [];
  events = [];
}

-- One write. The attester saves a request for a consumed burn only, and records a limit rejection
-- only for a burn none of whose requests Circle accepted.
pub data Step (w : Wire) (codec : NoteCodec) (s t : Store) : Type 0 where
  saves :
      (now : ℕ) (r : SavedSubmission) (b : BurnRow)
      → save_submission w s now r ≡ ok t
      → burn_at s r.note_id ≡ some b
      → is_some b.consumption_block ≡ true
      → Step w codec s t
  answered :
      (now : ℕ) (r : SavedSubmission)
      → update_submission_outcome w s now r ≡ ok t
      → Step w codec s t
  holds :
      (now k : ℕ) (reason : BurnHoldReason) (response : Option (ℕ × Bytes))
      → hold_burn s now k reason response ≡ ok t
      → Step w codec s t
  releases :
      (before : ℕ → ℕ → Bool) (now : ℕ) (ks : List ℕ) (n : Released)
      → release_holds before s now ks ≡ ok (t, n)
      → Step w codec s t
  releases_checked :
      (now : ℕ) (selection : ReleaseSelection) (n : Released)
      → release_checked s now selection ≡ ok (t, n)
      → Step w codec s t
  moves_retry : (k retry_at : ℕ) → advance_limit_retry s k retry_at ≡ ok t → Step w codec s t
  limits :
      (now k retry_at : ℕ) (response : Bytes) (sent : Option (SavedSubmission × SubmissionAttempt))
      → no_accepted (submission_at s k) ≡ true
      → record_limit_rejection s now k retry_at response sent ≡ ok t
      → Step w codec s t
  scans :
      (candidates : List BurnCandidate) (burns : List DiscoveredBurn) (checkpoint : BlockHeader)
      → save_scan_progress codec s candidates burns checkpoint ≡ ok t
      → Step w codec s t

pub data Reach (w : Wire) (codec : NoteCodec) (s : Store) : Store → Type 0 where
  here : Reach w codec s s
  next : {t u : Store} → Reach w codec s t → Step w codec t u → Reach w codec s u

pub initialize_store-IsSound :
    (w : Wire) (faucet anchor commitment : ℕ)
    → IsSound w (initialize_store faucet anchor commitment)
unfolding initialize_store find
initialize_store-IsSound w faucet anchor commitment = record {
  burn_keys = tt;
  nullifiers = tt;
  submission_keys = tt;
  notes = λ k. refl;
}

Step-IsSound :
    {w : Wire} {codec : NoteCodec} {s t : Store}
    → w.status_is_valid 400 ≡ true
    → Step w codec s t
    → IsSound w s
    → IsSound w t
Step-IsSound {w} {codec} {s} {t} known (saves now r b h e c) v =
    save_submission-IsSound now r b h e c v
Step-IsSound {w} {codec} {s} {t} known (answered now r h) v =
    update_submission_outcome-IsSound now r h v
Step-IsSound {w} {codec} {s} {t} known (holds now k reason response h) v =
    hold_burn-IsSound now k reason response h v
Step-IsSound {w} {codec} {s} {t} known (releases before now ks n h) v =
    release_holds-IsSound before now ks (t, n) h v
Step-IsSound {w} {codec} {s} {t} known (releases_checked now selection n h) v =
    release_checked-IsSound now selection (t, n) h v
Step-IsSound {w} {codec} {s} {t} known (moves_retry k retry_at h) v =
    advance_limit_retry-IsSound k retry_at h v
Step-IsSound {w} {codec} {s} {t} known (limits now k retry_at response sent free h) v =
    record_limit_rejection-IsSound now k retry_at response sent known free h v
Step-IsSound {w} {codec} {s} {t} known (scans candidates burns checkpoint h) v =
    save_scan_progress-IsSound codec candidates burns checkpoint h v

-- After any sequence of writes on a well-formed store, the store is well formed: its keys are
-- unique, every saved request passes the store's checks and belongs to a consumed burn, every burn
-- is consumed after it is created, and a burn that waits for the withdrawal limit is consumed, not
-- held, and has no submission but one that is being sent or has expired. Status 400 must be a
-- valid HTTP status.
pub Reach-IsSound :
    {w : Wire} {codec : NoteCodec} {s t : Store}
    → w.status_is_valid 400 ≡ true
    → Reach w codec s t
    → IsSound w s
    → IsSound w t
Reach-IsSound known here v = v
Reach-IsSound known (next r st) v = Step-IsSound known st (Reach-IsSound known r v)

releases-Grows :
    (s : Store) (before : ℕ → ℕ → Bool) (now : ℕ) (ks : List ℕ) (p : Store × Released)
    → release_holds before s now ks ≡ ok p
    → Grows s.events p.0.events
unfolding release_holds
releases-Grows s before now ks p h =
    release_each_keeps (λ t. Grows s.events t.events) now
      (λ t k q e g. Grows-trans g (release_hold-Grows t now k true q e)) s (btree_set before ks)
      (record { burns = 0; withdrawals = 0 }) p h same

Step-Grows :
    {w : Wire} {codec : NoteCodec} {s t : Store} → Step w codec s t → Grows s.events t.events
Step-Grows {w} {s = s} {t = t} (saves now r b h e c) = save_submission-Grows w s t now r h
Step-Grows {w} {s = s} {t = t} (answered now r h) = update_submission_outcome-Grows w s t now r h
Step-Grows {s = s} {t = t} (holds now k reason response h) =
    hold_burn-Grows s t now k reason response h
Step-Grows {s = s} {t = t} (releases before now ks n h) = releases-Grows s before now ks (t, n) h
Step-Grows {s = s} {t = t} (releases_checked now selection n h) =
    release_hold-Grows s now selection.note_id selection.circle_not_accepted (t, n)
      (release_checked_lem s now selection (t, n) h).2
Step-Grows {s = s} {t = t} (moves_retry k retry_at h) = advance_limit_retry-Grows s t k retry_at h
Step-Grows {s = s} {t = t} (limits now k retry_at response sent free h) =
    record_limit_rejection-Grows s t now k retry_at response sent h
Step-Grows {codec = codec} {s = s} {t = t} (scans candidates burns checkpoint h) =
    save_scan_progress-Grows codec s t candidates burns checkpoint h

Reach-Grows :
    {w : Wire} {codec : NoteCodec} {s t : Store} → Reach w codec s t → Grows s.events t.events
Reach-Grows here = same
Reach-Grows (next r st) = Grows-trans (Reach-Grows r) (Step-Grows st)

-- History only grows: after any sequence of writes, what was recorded stands unchanged at the
-- front, and if the numbers of the rows rose before, they still do.
pub Reach-history :
    {w : Wire} {codec : NoteCodec} {s t : Store}
    → Reach w codec s t
    → Ascends s.events
    → ((new : List Event) × (t.events ≡ s.events ++ new)) × Ascends t.events
Reach-history r a = (Grows-prefix (Reach-Grows r), Grows-Ascends (Reach-Grows r) a)
