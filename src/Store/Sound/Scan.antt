-- ===== src/Store/Sound/Scan.antt =====
-- Saving a scanned block keeps the store well formed.
use miden_usdcx.Prelude.{
  ℕ, ◌≡◌, refl, true, Option, none, some, List, [], ◌∷◌, ◌++◌, arith, ok, Bool-cases, Result,
  Result-cases, inl, inr, ◌==◌, if◌then◌else◌, subst, >>=-eq-ok, ensure,
}
use miden_usdcx.Burn.{BurnCandidate, DiscoveredBurn, NoteCodec}
use miden_usdcx.Circle.{Wire}
use miden_usdcx.Submission.{SavedSubmission}
use miden_usdcx.Sql.{find, update, changed}
use miden_usdcx.Sql.Laws.{
  append-Unique, find-append, find-update, update-Unique, update-Unique_other, updated,
}
use miden_usdcx.Store.{
  Store, StoreError, conflict, BurnRow, BlockHeader, burn_key, burn_at, submission_at,
}
use miden_usdcx.Store.Scan.{
  insert_row, insert_candidate, insert_burn, insert_all, row_of, is_candidate, consumed_at,
  may_be_consumed, records_are_valid, save_scan_progress,
}
use miden_usdcx.Store.Sound.{IsSound, note_ok, nullifier_key, blocks_ascend}
use miden_usdcx.Store.Sound.Notes.{notes_after, unchanged}

abbrev with_burns : Store → List BurnRow → Store
with_burns s rows = record s { burns = rows }

-- What an insert requires and returns.
pub insert_row_lem :
    (row : BurnRow) (rows next : List BurnRow)
    → insert_row row rows ≡ ok next
    → (blocks_ascend row ≡ true)
      × (find burn_key row.note_id rows ≡ none)
      × (find nullifier_key row.nullifier rows ≡ none)
      × (rows ++ row ∷ [] ≡ next)
unfolding insert_row
insert_row_lem row rows next h = ground arith

new-note_ok :
    (w : Wire) (row : BurnRow) (b : Option BurnRow) (r : Option SavedSubmission)
    → b ≡ none
    → blocks_ascend row ≡ true
    → row.withdrawal_limit_retry_at ≡ none
    → note_ok w b r ≡ true
    → note_ok w (some row) r ≡ true
new-note_ok w row none none e asc idle h = ground arith
new-note_ok w row none (some r) e asc idle h = ground arith
new-note_ok w row (some b) r e asc idle h = cc

find-inserted :
    (row : BurnRow) (rows : List BurnRow) (j : ℕ)
    → find burn_key row.note_id rows ≡ none
    → find burn_key j (rows ++ row ∷ [])
      ≡ (if j == row.note_id then some row else find burn_key j rows)
find-inserted row rows j e = ground (arith, find-append burn_key j rows row)

insert_row-IsSound :
    {w : Wire} {s : Store} (row : BurnRow) (next : List BurnRow)
    → row.withdrawal_limit_retry_at ≡ none
    → insert_row row s.burns ≡ ok next
    → IsSound w s
    → IsSound w (with_burns s next)
insert_row-IsSound {w} {s} row next idle h v =
    let l = insert_row_lem row s.burns next h in
    subst (λ rows. IsSound w (with_burns s rows)) (l.3)
      (record {
        burn_keys = append-Unique burn_key s.burns row l.1 v.burn_keys;
        nullifiers = append-Unique nullifier_key s.burns row l.2 v.nullifiers;
        submission_keys = v.submission_keys;
        notes =
            notes_after w s (with_burns s (s.burns ++ row ∷ [])) row.note_id (some row)
              (submission_at s row.note_id) (λ j. find-inserted row s.burns j l.1)
              (unchanged (submission_at s) row.note_id)
              (new-note_ok w row (burn_at s row.note_id) (submission_at s row.note_id) l.1 l.0 idle
                (v.notes row.note_id))
              v.notes;
      })

promoted-note_ok :
    (w : Wire) (block : ℕ) (b : Option BurnRow) (r : Option SavedSubmission)
    → may_be_consumed block b ≡ true
    → note_ok w b r ≡ true
    → note_ok w (updated is_candidate (consumed_at block) b) r ≡ true
promoted-note_ok w block none r m h = h
promoted-note_ok w block (some b) none m h = ground arith
promoted-note_ok w block (some b) (some r) m h = ground arith

promoted-IsSound :
    {w : Wire} {s : Store} (k block : ℕ)
    → may_be_consumed block (burn_at s k) ≡ true
    → IsSound w s
    → IsSound w (with_burns s (update burn_key k is_candidate (consumed_at block) s.burns))
promoted-IsSound {w} {s} k block m v = record {
  burn_keys =
      update-Unique burn_key k is_candidate (consumed_at block) s.burns (λ b p. p) v.burn_keys;
  nullifiers =
      update-Unique_other burn_key nullifier_key k is_candidate (consumed_at block) (λ b. refl)
        s.burns v.nullifiers;
  submission_keys = v.submission_keys;
  notes =
      notes_after w s (with_burns s (update burn_key k is_candidate (consumed_at block) s.burns)) k
        (updated is_candidate (consumed_at block) (burn_at s k)) (submission_at s k)
        (λ j.
          ground
            (arith, find-update burn_key j k is_candidate (consumed_at block) s.burns (λ b p. p)))
        (unchanged (submission_at s) k)
        (promoted-note_ok w block (burn_at s k) (submission_at s k) m (v.notes k)) v.notes;
}

insert_burn-IsSound :
    {w : Wire} {s : Store} (codec : NoteCodec) (burn : DiscoveredBurn) (next : List BurnRow)
    → insert_burn codec s.burns burn ≡ ok next
    → IsSound w s
    → IsSound w (with_burns s next)
unfolding insert_burn row_of
insert_burn-IsSound {w} {s} codec burn next h v =
    let k = burn.note.id in
    let block = burn.consumption_block in
    elim (Bool-cases (may_be_consumed block (burn_at s k))) [
      | inr refused ↦ absurd (ground arith)
      | inl allowed ↦ elim (Bool-cases (changed burn_key k is_candidate s.burns == 1)) [
        | inl one ↦
            let p : update burn_key k is_candidate (consumed_at block) s.burns ≡ next =
              ground arith in
            subst (λ rows. IsSound w (with_burns s rows)) p (promoted-IsSound k block allowed v)
        | inr other ↦
            insert_row-IsSound (row_of codec burn.note burn.creation_block (some block)) next refl
              (ground arith) v
      ]
    ]

insert_candidate-IsSound :
    {w : Wire} {s : Store} (codec : NoteCodec) (c : BurnCandidate) (next : List BurnRow)
    → insert_candidate codec s.burns c ≡ ok next
    → IsSound w s
    → IsSound w (with_burns s next)
unfolding insert_candidate row_of
insert_candidate-IsSound {w} {s} codec c next h v =
    insert_row-IsSound (row_of codec c.note c.creation_block none) next refl h v

insert_all-IsSound :
    {A : Type 0} {w : Wire} (s : Store)
    (insert : List BurnRow → A → Result StoreError (List BurnRow))
    → ((rows : List BurnRow) (a : A) (next : List BurnRow)
        → insert rows a ≡ ok next
        → IsSound w (with_burns s rows)
        → IsSound w (with_burns s next))
    → (rows : List BurnRow) (items : List A) (next : List BurnRow)
    → insert_all insert rows items ≡ ok next
    → IsSound w (with_burns s rows)
    → IsSound w (with_burns s next)
unfolding insert_all
insert_all-IsSound {A} {w} s insert each rows [] next h v =
    let p : rows ≡ next = ground arith in subst (λ rows. IsSound w (with_burns s rows)) p v
insert_all-IsSound {A} {w} s insert each rows (a ∷ items) next h v =
    elim (Result-cases (insert rows a)) [
      | inl (mid, e) ↦
          insert_all-IsSound s insert each mid items next (ground arith) (each rows a mid e v)
      | inr (e, q) ↦ absurd (ground arith)
    ]

-- Saving a scanned block keeps a well-formed store well formed.
pub save_scan_progress-IsSound :
    {w : Wire} {s t : Store} (codec : NoteCodec) (candidates : List BurnCandidate)
    (burns : List DiscoveredBurn) (checkpoint : BlockHeader)
    → save_scan_progress codec s candidates burns checkpoint ≡ ok t
    → IsSound w s
    → IsSound w t
unfolding save_scan_progress
save_scan_progress-IsSound {w} {s} {t} codec candidates burns checkpoint h v =
    let valid = ensure (records_are_valid candidates burns checkpoint.block_num) conflict in
    let (u, hu, h1) = >>=-eq-ok valid _ h in
    let (rows, hr, h2) = >>=-eq-ok (insert_all (insert_candidate codec) s.burns candidates) _ h1 in
    let (next, hn, h3) = >>=-eq-ok (insert_all (insert_burn codec) rows burns) _ h2 in
    let p : record s { burns = next; checkpoint = some checkpoint } ≡ t = ground arith in
    let sound =
      insert_all-IsSound {w = w} s (insert_burn codec)
        (λ rows a next. insert_burn-IsSound {s = with_burns s rows} codec a next) rows burns next hn
        (insert_all-IsSound {w = w} s (insert_candidate codec)
          (λ rows a next. insert_candidate-IsSound {s = with_burns s rows} codec a next) s.burns
          candidates rows hr v) in
    subst (IsSound w) p (record {
      burn_keys = sound.burn_keys;
      nullifiers = sound.nullifiers;
      submission_keys = sound.submission_keys;
      notes = sound.notes;
    })
