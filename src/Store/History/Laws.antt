-- ===== src/Store/History/Laws.antt =====
-- What `record_event` can return, in the form that the proofs about its callers take apart.
use miden_usdcx.Prelude.{
  ℕ, String, ◌≡◌, refl, ◌⊎◌, inl, inr, Option, none, some, arith, ok, err, Option-cases,
}
use miden_usdcx.Submission.{SavedSubmission}
use miden_usdcx.Store.{Store, BurnRow, Event, EventKind, conflict, burn_at, submission_at}
use miden_usdcx.Store.History.{record_event, next_seq, add_event, snapshot}

-- A row is added at the next number, or the note is unknown.
pub record_event_result :
    (s : Store) (now k : ℕ) (kind : EventKind) (status : Option String)
    → (record_event s now k kind status ≡ err conflict)
      ⊎ ((e : Event) × (record_event s now k kind status ≡ ok (add_event s e))
          × (e.seq ≡ next_seq s.events)
          × (e.kind ≡ kind))
unfolding record_event snapshot
record_event_result s now k kind status = elim (Option-cases (burn_at s k)) [
  | inl e ↦ inl (ground arith)
  | inr (b, e) ↦ inr (
    snapshot (next_seq s.events) now kind status b (submission_at s k),
    ground arith,
    snapshot_seq b (submission_at s k),
    snapshot_kind b (submission_at s k),
  )
]
  where
    snapshot_seq :
        (b : BurnRow) (r : Option SavedSubmission)
        → (snapshot (next_seq s.events) now kind status b r).seq ≡ next_seq s.events
    snapshot_seq b none = refl
    snapshot_seq b (some r) = refl

    snapshot_kind :
        (b : BurnRow) (r : Option SavedSubmission)
        → (snapshot (next_seq s.events) now kind status b r).kind ≡ kind
    snapshot_kind b none = refl
    snapshot_kind b (some r) = refl
