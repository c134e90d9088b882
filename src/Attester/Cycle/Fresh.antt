-- ===== src/Attester/Cycle/Fresh.antt =====
-- What a cycle's snapshot holds, in crates/xusdc-light-attester/src/attester.rs: fresh burns with
-- different notes, none of them the note of a request that is recovered.
use miden_usdcx.Prelude.{
  ℕ, ◌≡◌, ◌≢◌, sym, ap, ◌∙◌, subst, inl, inr, true, false, some, List, [], ◌∷◌, arith, All, ok, min,
  ltb, ◌-◌, Option-cases, Result-cases, Bool-cases, >>=-eq-ok,
}
use miden_usdcx.Circle.{Wire}
use miden_usdcx.Burn.{NoteCodec, DiscoveredBurn}
use miden_usdcx.Submission.{SavedSubmission, submitting, status_eq}
use miden_usdcx.Sql.{find, select, order_by}
use miden_usdcx.Sql.Laws.{Unique, find-select}
use miden_usdcx.Sql.Order.{order_by-All}
use miden_usdcx.Sql.Apart.{Apart, Without, Unique-Apart, select-Apart, order_by-Apart}
use miden_usdcx.Store.{Store, BurnRow, burn_key, submission_key, submission_at}
use miden_usdcx.Store.Submissions.{
  check_rows, select_submissions, submissions_to_recover, before_note,
}
use miden_usdcx.Store.Limits.{burn_before}
use miden_usdcx.Store.Reads.{
  load_burns, burns_ready_for_withdrawal, decode_all, decode_burn, is_discovered, consumed_by,
}
use miden_usdcx.Store.Reads.Ready.{is_free, decode_burn-fields}

-- The note of a burn.
abbrev pub burn_note : DiscoveredBurn → ℕ
burn_note d = d.note.id

-- A request that is being sent, as the store has it.
abbrev pub IsSending : Store → SavedSubmission → Type 0
IsSending s r = (submission_at s r.note_id ≡ some r) × (status_eq r.status submitting ≡ true)

check_rows_lem :
    (w : Wire) (s : Store) (rows rs : List SavedSubmission)
    → check_rows w s rows ≡ ok rs
    → rows ≡ rs
unfolding check_rows
check_rows_lem w s [] rs h = ground arith
check_rows_lem w s (r ∷ rows) rs h = elim (Result-cases (check_rows w s rows)) [
  | inl (rest, e) ↦ ground (arith, check_rows_lem w s rows rest e)
  | inr (x, e) ↦ absurd (ground arith)
]

-- Requests to recover are being sent.
pub submissions_to_recover-IsSending :
    (w : Wire) (s : Store) (rs : List SavedSubmission)
    → Unique submission_key s.submissions
    → submissions_to_recover w s ≡ ok rs
    → All (IsSending s) rs
unfolding submissions_to_recover select_submissions
submissions_to_recover-IsSending w s rs u h =
    let p = λ (r : SavedSubmission). status_eq r.status submitting in
    let chosen = select p s.submissions in
    let Q = λ (r : SavedSubmission).
      (p r ≡ true) × (find submission_key r.note_id s.submissions ≡ some r) in
    let same : order_by before_note chosen ≡ rs =
      check_rows_lem w s (order_by before_note chosen) rs h in
    subst (All (IsSending s)) same (
      swap (order_by before_note chosen)
        (order_by-All before_note Q chosen (find-select submission_key p s.submissions u)))
  where
    swap :
        (xs : List SavedSubmission)
        → All
            (λ r.
              (status_eq r.status submitting ≡ true)
              × (find submission_key r.note_id s.submissions ≡ some r))
            xs
        → All (IsSending s) xs
    swap [] a = tt
    swap (x ∷ xs) a = ((a.0.1, a.0.0), swap xs a.1)

-- A burn whose request is missing or has expired is no burn of a request that is being sent.
pub not_sending :
    (s : Store) (j : ℕ) (rs : List SavedSubmission)
    → is_free (submission_at s j) ≡ true
    → All (IsSending s) rs
    → All (λ r. j ≢ r.note_id) rs
not_sending s j [] free a = tt
not_sending s j (r ∷ rs) free a = (
  λ p. let q : submission_at s j ≡ some r = ap (submission_at s) p ∙ a.0.0 in ground arith,
  not_sending s j rs free a.1,
)

-- Decoded rows keep their notes apart.
decoded-Without :
    (codec : NoteCodec) (faucet k : ℕ) (rows : List BurnRow) (burns : List DiscoveredBurn)
    → decode_all (decode_burn codec faucet) rows ≡ ok burns
    → Without burn_key k rows
    → Without burn_note k burns
unfolding decode_all
decoded-Without codec faucet k [] burns h a =
    let p : [] ≡ burns = ground arith in subst (Without burn_note k) p tt
decoded-Without codec faucet k (b ∷ rows) burns h a =
    let (burn, e, h1) = >>=-eq-ok (decode_burn codec faucet b) _ h in
    let (rest, f, h2) = >>=-eq-ok (decode_all (decode_burn codec faucet) rows) _ h1 in
    let p : burn ∷ rest ≡ burns = ground arith in
    subst (Without burn_note k) p (
      λ q. a.0 (sym (decode_burn-fields codec faucet b burn e).0 ∙ q),
      decoded-Without codec faucet k rows rest f a.1,
    )

decoded-Apart :
    (codec : NoteCodec) (faucet : ℕ) (rows : List BurnRow) (burns : List DiscoveredBurn)
    → decode_all (decode_burn codec faucet) rows ≡ ok burns
    → Apart burn_key rows
    → Apart burn_note burns
unfolding decode_all
decoded-Apart codec faucet [] burns h a =
    let p : [] ≡ burns = ground arith in subst (Apart burn_note) p tt
decoded-Apart codec faucet (b ∷ rows) burns h a =
    let (burn, e, h1) = >>=-eq-ok (decode_burn codec faucet b) _ h in
    let (rest, f, h2) = >>=-eq-ok (decode_all (decode_burn codec faucet) rows) _ h1 in
    let p : burn ∷ rest ≡ burns = ground arith in
    subst (Apart burn_note) p (
      subst (λ k. Without burn_note k rest) (sym (decode_burn-fields codec faucet b burn e).0)
          (decoded-Without codec faucet b.note_id rows rest f a.0),
      decoded-Apart codec faucet rows rest f a.1,
    )

-- The burns that are ready have different notes.
pub burns_ready-Apart :
    (codec : NoteCodec) (s : Store) (faucet lag depth : ℕ) (burns : List DiscoveredBurn)
    → Unique burn_key s.burns
    → burns_ready_for_withdrawal codec s faucet lag depth ≡ ok burns
    → Apart burn_note burns
unfolding burns_ready_for_withdrawal load_burns consumed_by
burns_ready-Apart codec s faucet lag depth burns keys h = elim (Option-cases s.checkpoint) [
  | inl e ↦ let p : [] ≡ burns = ground arith in subst (Apart burn_note) p tt
  | inr (header, e) ↦ elim (Bool-cases (ltb header.block_num depth)) [
    | inl f ↦ let p : [] ≡ burns = ground arith in subst (Apart burn_note) p tt
    | inr f ↦
        let chosen = select (is_discovered false s) s.burns in
        elim (Result-cases (decode_all (decode_burn codec faucet) (order_by burn_before chosen))) [
          | inr (x, g) ↦ absurd (ground arith)
          | inl (all_burns, g) ↦
              let p : consumed_by (min lag (header.block_num - depth)) all_burns ≡ burns =
                ground arith in
              subst (Apart burn_note) p (
                select-Apart burn_note _ all_burns (
                  decoded-Apart codec faucet (order_by burn_before chosen) all_burns g (
                    order_by-Apart burn_key burn_before chosen (
                      select-Apart burn_key (is_discovered false s) s.burns
                        (Unique-Apart burn_key s.burns keys)))))
        ]
  ]
]
