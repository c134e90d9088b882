-- ===== src/Store/History/Requests.antt =====
-- Every saved request of crates/xusdc-light-attester/src/store.rs stands in the history too: it is
-- recorded, with its exact bytes, by the transaction that saves it, before it is sent.
use miden_usdcx.Prelude.{
  ℕ, String, ◌≡◌, refl, sym, subst, Bool, true, false, ◌&&◌, ◌||◌, Option, none, some, List, [],
  ◌∷◌, ◌++◌, arith, ok, any, bytes_eq, bytes_eq_refl, str_eq, str_eq_iff, option_eq, ◌==◌,
  Option-cases, inl, inr, if◌then◌else◌,
}
use miden_usdcx.Submission.{SavedSubmission}
use miden_usdcx.Sql.Laws.{find-key}
use miden_usdcx.Store.{Store, Event, BurnRow, authorized, kind_eq, burn_key, burn_at, submission_at}
use miden_usdcx.Store.History.{record_event, snapshot, next_seq}
use miden_usdcx.Store.History.Growth.{Grows, Grows-prefix}

-- The row authorizes exactly this request.
abbrev pub authorizes : SavedSubmission → Event → Bool
authorizes r e =
    kind_eq e.kind authorized
    && (e.note_id == r.note_id
        && (option_eq bytes_eq e.body (some r.body)
            && (option_eq str_eq e.endpoint (some r.endpoint)
                && option_eq ◌==◌ e.transfer_spec_hash (some r.transfer_spec_hash))))

abbrev pub row_is_recorded : List Event → Option SavedSubmission → Bool
row_is_recorded es none = true
row_is_recorded es (some r) = any (authorizes r) es

abbrev pub IsRecorded : Store → Type 0
IsRecorded s = (k : ℕ) → row_is_recorded s.events (submission_at s k) ≡ true

any-append {ℓ} :
    {A : Type ℓ} (p : A → Bool) (xs ys : List A) → any p (xs ++ ys) ≡ (any p xs || any p ys)
any-append p [] ys = refl
any-append p (x ∷ xs) ys = ground (arith, any-append p xs ys)

pub row_is_recorded-append :
    (es new : List Event) (r : Option SavedSubmission)
    → row_is_recorded es r ≡ true
    → row_is_recorded (es ++ new) r ≡ true
row_is_recorded-append es new none h = refl
row_is_recorded-append es new (some r) h = ground (arith, any-append (authorizes r) es new)

pub row_is_recorded-Grows :
    {es fs : List Event} (r : Option SavedSubmission)
    → Grows es fs
    → row_is_recorded es r ≡ true
    → row_is_recorded fs r ≡ true
row_is_recorded-Grows {es} {fs} r g h =
    let (new, p) = Grows-prefix g in
    subst (λ xs. row_is_recorded xs r ≡ true) (sym p) (row_is_recorded-append es new r h)

-- An operation on one note, whose row afterwards is recorded.
pub IsRecorded-after :
    (s t : Store) (k : ℕ) (r' : Option SavedSubmission)
    → Grows s.events t.events
    → ((j : ℕ) → submission_at t j ≡ (if j == k then r' else submission_at s j))
    → row_is_recorded t.events r' ≡ true
    → IsRecorded s
    → IsRecorded t
IsRecorded-after s t k r' g rows new old j =
    rw (rows j) (choose (j == k) (row_is_recorded-Grows (submission_at s j) g (old j)))
  where
    choose :
        (c : Bool)
        → row_is_recorded t.events (submission_at s j) ≡ true
        → row_is_recorded t.events (if c then r' else submission_at s j) ≡ true
    choose true o = new
    choose false o = o

-- An operation that leaves the submissions alone.
pub IsRecorded-still :
    (s t : Store)
    → Grows s.events t.events
    → s.submissions ≡ t.submissions
    → IsRecorded s
    → IsRecorded t
IsRecorded-still s t g p old j = rw (← p) (row_is_recorded-Grows (submission_at s j) g (old j))

snapshot-authorizes :
    (seq now : ℕ) (status : Option String) (b : BurnRow) (r : SavedSubmission)
    → b.note_id ≡ r.note_id
    → authorizes r (snapshot seq now authorized status b (some r)) ≡ true
unfolding snapshot
snapshot-authorizes seq now status b r e =
    ground (arith, bytes_eq_refl r.body, str_eq_iff r.endpoint r.endpoint)

-- The row that a save adds authorizes the request that it saved.
pub record_event-authorizes :
    (s t : Store) (now : ℕ) (r : SavedSubmission)
    → submission_at s r.note_id ≡ some r
    → record_event s now r.note_id authorized none ≡ ok t
    → any (authorizes r) t.events ≡ true
unfolding record_event
record_event-authorizes s t now r e h = elim (Option-cases (burn_at s r.note_id)) [
  | inl missing ↦ absurd (ground arith)
  | inr (b, found) ↦
      let row = snapshot (next_seq s.events) now authorized none b (some r) in
      let p : s.events ++ row ∷ [] ≡ t.events = ground arith in
      let q =
        snapshot-authorizes (next_seq s.events) now none b r
          (find-key burn_key r.note_id s.burns b found) in
      subst (λ es. any (authorizes r) es ≡ true) p
        (ground (arith, q, any-append (authorizes r) s.events (row ∷ [])))
]
