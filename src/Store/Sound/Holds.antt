-- ===== src/Store/Sound/Holds.antt =====
-- Holding a burn and releasing a hold keep the store well formed.
use miden_usdcx.Prelude.{
  ℕ, ◌≡◌, refl, Bool, true, false, Option, none, some, List, [], ◌∷◌, Bytes, arith, ok,
  Result-cases, ◌+◌, ◌⊎◌, inl, inr, ◌==◌, if◌then◌else◌, subst, ◌∙◌,
}
use miden_usdcx.Prelude.Int.{to_ℕ, is_positive}
use miden_usdcx.Circle.{Wire}
use miden_usdcx.Submission.{SavedSubmission}
use miden_usdcx.Sql.{anything, find, update, delete, exists}
use miden_usdcx.Sql.Laws.{
  find-update, update-Unique, update-Unique_other, find-delete, delete-Unique, updated, kept,
}
use miden_usdcx.Store.{
  Store, Event, BurnRow, BurnHoldReason, burn_key, submission_key, burn_at, submission_at,
  burn_released, operator_release,
}
use miden_usdcx.Store.History.{add_event, next_seq}
use miden_usdcx.Store.History.Laws.{record_event_result}
use miden_usdcx.Store.Holds.{
  ReleaseSelection, Released, put_hold, clear_hold, hold_burn, release_burn, release_withdrawal,
  release_hold, release_each, release_holds, btree_set, release_checked, burn_is_held,
  withdrawal_is_releasable, hold_event, revision,
}
use miden_usdcx.Store.Sound.{IsSound, note_ok, nullifier_key}
use miden_usdcx.Store.Sound.Notes.{notes_after, unchanged}

-- A change of one burn's hold or wait, which keeps its keys.
find-burn :
    (f : BurnRow → BurnRow) (k j : ℕ) (burns : List BurnRow)
    → ((b : BurnRow) → (f b).note_id ≡ b.note_id)
    → find burn_key j (update burn_key k anything f burns)
      ≡ (if j == k then updated anything f (find burn_key k burns) else find burn_key j burns)
find-burn f k j burns same =
    ground (arith, find-update burn_key j k anything f burns (λ b p. same b ∙ p))

-- One burn changed in place, and history longer.
pub burn_changed-IsSound :
    {w : Wire} {s : Store} (e : Event) (k : ℕ) (f : BurnRow → BurnRow)
    → ((b : BurnRow) → (f b).note_id ≡ b.note_id)
    → ((b : BurnRow) → (f b).nullifier ≡ b.nullifier)
    → note_ok w (updated anything f (burn_at s k)) (submission_at s k) ≡ true
    → IsSound w s
    → IsSound w (record (add_event s e) { burns = update burn_key k anything f s.burns })
burn_changed-IsSound {w} {s} e k f same nullifier here v = record {
  burn_keys = update-Unique burn_key k anything f s.burns (λ b p. same b ∙ p) v.burn_keys;
  nullifiers =
      update-Unique_other burn_key nullifier_key k anything f nullifier s.burns v.nullifiers;
  submission_keys = v.submission_keys;
  notes =
      notes_after w s (record (add_event s e) { burns = update burn_key k anything f s.burns }) k
        (updated anything f (burn_at s k)) (submission_at s k) (λ j. find-burn f k j s.burns same)
        (unchanged (submission_at s) k) here v.notes;
}

put_hold-note_ok :
    (w : Wire) (reason : BurnHoldReason) (b : Option BurnRow) (r : Option SavedSubmission)
    → note_ok w b r ≡ true
    → note_ok w (updated anything (put_hold reason) b) r ≡ true
put_hold-note_ok w reason none r h = h
put_hold-note_ok w reason (some b) none h = ground arith
put_hold-note_ok w reason (some b) (some r) h = ground arith

clear_hold-note_ok :
    (w : Wire) (b : Option BurnRow) (r : Option SavedSubmission)
    → note_ok w b r ≡ true
    → note_ok w (updated anything clear_hold b) r ≡ true
clear_hold-note_ok w none r h = h
clear_hold-note_ok w (some b) none h = ground arith
clear_hold-note_ok w (some b) (some r) h = ground arith

-- Holding a burn keeps the store well formed.
pub hold_burn-IsSound :
    {w : Wire} {s t : Store} (now k : ℕ) (reason : BurnHoldReason) (response : Option (ℕ × Bytes))
    → hold_burn s now k reason response ≡ ok t
    → IsSound w s
    → IsSound w t
unfolding hold_burn
hold_burn-IsSound {w} {s} {t} now k reason response h v =
    let e : (x : Event) × (record (add_event s x) {
      burns = update burn_key k anything (put_hold reason) s.burns;
    }
          ≡ t) =
      (hold_event (next_seq s.events) now k reason response, ground arith) in
    subst (IsSound w) e.1 (
      burn_changed-IsSound e.0 k (put_hold reason) (λ b. refl) (λ b. refl)
        (put_hold-note_ok w reason (burn_at s k) (submission_at s k) (v.notes k)) v)

-- What a release can return.
abbrev pub Releases : Store → ℕ → Bool → Store × Released → Type 0
Releases s k confirmed p =
    ((e : Event) × (exists burn_key k burn_is_held s.burns ≡ true)
      × (record (add_event s e) { burns = update burn_key k anything clear_hold s.burns } ≡ p.0))
    ⊎ ((e : Event) × (exists burn_key k burn_is_held s.burns ≡ false)
        × (exists submission_key k withdrawal_is_releasable s.submissions ≡ true)
        × (confirmed ≡ true)
        × (record (add_event s e) { submissions = delete submission_key k anything s.submissions }
            ≡ p.0))

-- A release that succeeds is one of two: the burn was held, and the store differs by one row of
-- history and the burn's cleared hold; or the burn was not held, the note has a held withdrawal
-- with a reason and without an ID, the operator confirmed that Circle did not accept it, and the
-- store differs by one row of history and the deleted request.
pub release_hold_lem :
    (s : Store) (now k : ℕ) (confirmed : Bool) (p : Store × Released)
    → release_hold s now k confirmed ≡ ok p
    → Releases s k confirmed p
unfolding release_hold release_burn release_withdrawal
release_hold_lem s now k confirmed p h = ground (
  arith,
  record_event_result s now k burn_released none,
  record_event_result s now k operator_release none,
)

kept-note_ok :
    (w : Wire) (b : Option BurnRow) (r : Option SavedSubmission)
    → note_ok w b r ≡ true
    → note_ok w b (kept anything r) ≡ true
kept-note_ok w none none h = h
kept-note_ok w none (some r) h = ground arith
kept-note_ok w (some b) none h = h
kept-note_ok w (some b) (some r) h = ground arith

-- Removing a submission, and history longer.
pub deleted-IsSound :
    {w : Wire} {s : Store} (e : Event) (k : ℕ)
    → IsSound w s
    → IsSound w
        (record (add_event s e) { submissions = delete submission_key k anything s.submissions })
deleted-IsSound {w} {s} e k v = record {
  burn_keys = v.burn_keys;
  nullifiers = v.nullifiers;
  submission_keys = delete-Unique submission_key k anything s.submissions v.submission_keys;
  notes =
      notes_after w s
        (record (add_event s e) { submissions = delete submission_key k anything s.submissions }) k
        (burn_at s k) (kept anything (submission_at s k)) (unchanged (burn_at s) k)
        (λ j.
          ground (arith, find-delete submission_key j k anything s.submissions v.submission_keys))
        (kept-note_ok w (burn_at s k) (submission_at s k) (v.notes k)) v.notes;
}

-- Releasing one hold keeps the store well formed.
pub release_hold-IsSound :
    {w : Wire} {s : Store} (now k : ℕ) (confirmed : Bool) (p : Store × Released)
    → release_hold s now k confirmed ≡ ok p
    → IsSound w s
    → IsSound w p.0
release_hold-IsSound {w} {s} now k confirmed p h v = elim (release_hold_lem s now k confirmed p h) [
  | inl (e, held, q) ↦ subst (IsSound w) q (
      burn_changed-IsSound e k clear_hold (λ b. refl) (λ b. refl)
        (clear_hold-note_ok w (burn_at s k) (submission_at s k) (v.notes k)) v)
  | inr (e, free, held, yes', q) ↦ subst (IsSound w) q (deleted-IsSound e k v)
]

-- What each release keeps, the loop keeps.
pub release_each_keeps {ℓ} :
    (P : Store → Type ℓ) (now : ℕ)
    → ((s : Store) (k : ℕ) (p : Store × Released) → release_hold s now k true ≡ ok p → P s → P p.0)
    → (s : Store) (ks : List ℕ) (total : Released) (p : Store × Released)
    → release_each s now ks total ≡ ok p
    → P s
    → P p.0
unfolding release_each
release_each_keeps P now keep s [] total p h v = let q : s ≡ p.0 = ground arith in subst P q v
release_each_keeps P now keep s (k ∷ ks) total p h v =
    elim (Result-cases (release_hold s now k true)) [
      | inl ((next, one), e) ↦
          release_each_keeps P now keep next ks
            (record {
              burns = total.burns + one.burns;
              withdrawals = total.withdrawals + one.withdrawals;
            })
            p (ground arith) (keep s k (next, one) e v)
      | inr (e, q) ↦ absurd (ground arith)
    ]

-- Releasing many holds keeps the store well formed.
pub release_holds-IsSound :
    {w : Wire} {s : Store} (before : ℕ → ℕ → Bool) (now : ℕ) (ks : List ℕ) (p : Store × Released)
    → release_holds before s now ks ≡ ok p
    → IsSound w s
    → IsSound w p.0
unfolding release_holds
release_holds-IsSound {w} {s} before now ks p h v =
    release_each_keeps (IsSound w) now (λ s k p. release_hold-IsSound now k true p) s
      (btree_set before ks) _ p h v

-- A checked release that succeeds named a positive number, which is the number of the note's
-- latest row of history, and did what the release of the note's hold does.
pub release_checked_lem :
    (s : Store) (now : ℕ) (selection : ReleaseSelection) (p : Store × Released)
    → release_checked s now selection ≡ ok p
    → (revision s selection.note_id ≡ some (to_ℕ selection.expected_event_seq))
      × (is_positive selection.expected_event_seq ≡ true)
      × (release_hold s now selection.note_id selection.circle_not_accepted ≡ ok p)
unfolding release_checked
release_checked_lem s now selection p h = ground arith

-- A checked release keeps the store well formed.
pub release_checked-IsSound :
    {w : Wire} {s : Store} (now : ℕ) (selection : ReleaseSelection) (p : Store × Released)
    → release_checked s now selection ≡ ok p
    → IsSound w s
    → IsSound w p.0
release_checked-IsSound {w} {s} now selection p h v =
    release_hold-IsSound now selection.note_id selection.circle_not_accepted p
      (release_checked_lem s now selection p h).2 v
