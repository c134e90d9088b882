-- ===== src/Store/Open/Opens.antt =====
-- The stores that `validate_store` of crates/xusdc-light-attester/src/store.rs accepts.
use miden_usdcx.Prelude.{
  ℕ, ◌≡◌, refl, subst, inl, inr, Bool, true, false, Option, none, some, List, [], ◌∷◌, arith, All,
  leb, any, all, ok, Option-cases,
}
use miden_usdcx.Circle.{Wire}
use miden_usdcx.Burn.{NoteCodec}
use miden_usdcx.Submission.{SavedSubmission}
use miden_usdcx.Sql.{find, exists}
use miden_usdcx.Sql.Laws.{Unique, changed-hits}
use miden_usdcx.Store.{Store, BurnRow, burn_key, submission_key, burn_at, submission_at}
use miden_usdcx.Store.Rows.{well_formed_if_known, outcome_is_valid}
use miden_usdcx.Store.Submissions.{ends_limit_wait}
use miden_usdcx.Store.Reads.{max_block, decode_block_number}
use miden_usdcx.Store.Reads.Readable.{IsReadable, load_candidates_lem, load_burns_lem}
use miden_usdcx.Store.Sound.{IsSound, note_ok}
use miden_usdcx.Store.Open.{TrustedAnchor, waits_wrongly, is_below, validate_store}

-- What the checks need beyond the store's well-formedness.
pub record Opens (codec : NoteCodec) (faucet : ℕ) (anchor : TrustedAnchor) (s : Store)
    : Type 0 where
  pub faucet_is : s.faucet_account_id ≡ faucet
  pub anchor_is : (s.anchor_block ≡ anchor.block_num) × (s.anchor_commitment ≡ anchor.commitment)
  pub anchor_small : leb anchor.block_num max_block ≡ true
  pub readable : IsReadable codec faucet s.burns
  pub not_below : is_below anchor.block_num s.checkpoint ≡ false

-- A row of a table with unique keys is the one that its key finds.
stands {ℓ} :
    {A : Type 0} (key : A → ℕ) (P : A → Type ℓ) (rows : List A)
    → Unique key rows
    → ((a : A) → find key (key a) rows ≡ some a → P a)
    → All P rows
unfolding find
stands key P [] u f = tt
stands key P (a ∷ rows) u f = (f a (ground arith), stands key P rows u.1 (λ b e. f b (later b e)))
  where
    later : (b : _) → find key (key b) rows ≡ some b → find key (key b) (a ∷ rows) ≡ some b
    later b e = let q = u.0 in ground arith

any_none :
    {A : Type 0} (p : A → Bool) (rows : List A) → All (λ a. p a ≡ false) rows → any p rows ≡ false
any_none p [] h = refl
any_none p (a ∷ rows) h = ground (arith, any_none p rows)

all_of :
    {A : Type 0} (p : A → Bool) (rows : List A) → All (λ a. p a ≡ true) rows → all p rows ≡ true
all_of p [] h = refl
all_of p (a ∷ rows) h = ground (arith, all_of p rows)

row_waits :
    (w : Wire) (s : Store) (b : BurnRow) (r : Option SavedSubmission)
    → note_ok w (some b) r ≡ true
    → exists submission_key b.note_id (λ r. ends_limit_wait r.status) s.submissions
      ≡ (elim r [ none ↦ false | some q ↦ ends_limit_wait q.status ])
    → waits_wrongly s b ≡ false
row_waits w s b none h e = ground arith
row_waits w s b (some r) h e = ground arith

row_formed :
    (w : Wire) (b : Option BurnRow) (r : SavedSubmission)
    → note_ok w b (some r) ≡ true
    → well_formed_if_known r.withdrawal_id ≡ true
unfolding outcome_is_valid
row_formed w none r h = cc
row_formed w (some b) r h = ground arith

exists-found :
    (s : Store) (k : ℕ)
    → Unique submission_key s.submissions
    → exists submission_key k (λ r. ends_limit_wait r.status) s.submissions
      ≡ (elim (submission_at s k) [ none ↦ false | some q ↦ ends_limit_wait q.status ])
unfolding exists
exists-found s k u =
    let h = changed-hits submission_key k (λ r. ends_limit_wait r.status) s.submissions u in
    elim (Option-cases (submission_at s k)) [ inl e ↦ ground arith | inr (r, e) ↦ ground arith ]

-- A well-formed store of the configured faucet and anchor, whose rows can be read, passes the
-- checks.
pub Opens-validate_store :
    {w : Wire} (codec : NoteCodec) (faucet : ℕ) (anchor : TrustedAnchor) (s : Store)
    → IsSound w s
    → Opens codec faucet anchor s
    → validate_store codec faucet anchor s ≡ ok tt
unfolding validate_store decode_block_number
Opens-validate_store {w} codec faucet anchor s v o =
    let waits : any (waits_wrongly s) s.burns ≡ false = any_none (waits_wrongly s) s.burns (
      stands burn_key (λ b. waits_wrongly s b ≡ false) s.burns v.burn_keys
        (λ b e.
          row_waits w s b (submission_at s b.note_id)
            (subst (λ x. note_ok w x (submission_at s b.note_id) ≡ true) e (v.notes b.note_id))
            (exists-found s b.note_id v.submission_keys))) in
    let formed : all (λ (r : SavedSubmission). well_formed_if_known r.withdrawal_id) s.submissions
        ≡ true =
      all_of (λ (r : SavedSubmission). well_formed_if_known r.withdrawal_id) s.submissions
        (stands submission_key (λ r. well_formed_if_known r.withdrawal_id ≡ true) s.submissions
          v.submission_keys
          (λ r e.
            row_formed w (burn_at s r.note_id) r
              (subst (λ x. note_ok w (burn_at s r.note_id) x ≡ true) e (v.notes r.note_id)))) in
    let (candidates, e) = load_candidates_lem codec faucet s (λ b. true) o.readable in
    let (burns, f) = load_burns_lem codec faucet s true o.readable in
    let (e1, e2) = o.anchor_is in
    ground (arith, waits, formed, e, f, o.faucet_is, e1, e2, o.anchor_small, o.not_below)
