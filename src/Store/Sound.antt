-- ===== src/Store/Sound.antt =====
-- The well-formedness of the attester's store: what `validate_store` and `select_submissions` of
-- crates/xusdc-light-attester/src/store.rs check when a store is opened or read, as an invariant.
pub mod Notes
pub mod Submissions
pub mod Holds
pub mod Limits
pub mod Scan
pub mod Exclusive
use miden_usdcx.Prelude.{
  ℕ, ◌≡◌, refl, Bool, true, false, not, ◌&&◌, ◌||◌, Option, none, some, arith, ltb, is_some,
}
use miden_usdcx.Circle.{Wire}
use miden_usdcx.Submission.{SavedSubmission}
use miden_usdcx.Sql.Laws.{Unique}
use miden_usdcx.Store.{Store, BurnRow, burn_key, submission_key, burn_at, submission_at}
use miden_usdcx.Store.Rows.{outcome_is_valid, request_is_valid}
use miden_usdcx.Store.Submissions.{ends_limit_wait}
use miden_usdcx.Store.Limits.{is_waiting, may_wait}

abbrev pub nullifier_key : BurnRow → ℕ
nullifier_key b = b.nullifier

-- A burn is consumed after it is created.
abbrev pub blocks_ascend : BurnRow → Bool
blocks_ascend b = elim b.consumption_block [ none ↦ true | some block ↦ ltb b.creation_block block ]

module _ (w : Wire) where
  -- The rows of one note fit together: a submission passes the store's checks and belongs to a
  -- consumed burn, and a burn that waits for the withdrawal limit is consumed, not held, and has
  -- no submission but one that is being sent or has expired.
  abbrev pub note_ok : Option BurnRow → Option SavedSubmission → Bool
  note_ok none none = true
  note_ok none (some r) = false
  note_ok (some b) none = blocks_ascend b && (not (is_waiting b) || may_wait b)
  note_ok (some b) (some r) =
      blocks_ascend b
      && (is_some b.consumption_block
          && (outcome_is_valid w r
              && (request_is_valid w r
                  && (not (is_waiting b) || (may_wait b && not (ends_limit_wait r.status))))))

  pub record IsSound (s : Store) : Type 0 where
    pub burn_keys : Unique burn_key s.burns
    pub nullifiers : Unique nullifier_key s.burns
    pub submission_keys : Unique submission_key s.submissions
    pub notes : (k : ℕ) → note_ok (burn_at s k) (submission_at s k) ≡ true
