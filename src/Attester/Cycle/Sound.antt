-- ===== src/Attester/Cycle/Sound.antt =====
-- A cycle of crates/xusdc-light-attester/src/attester.rs, and any run of them, moves the store by the
-- store's own steps only.
use miden_usdcx.Prelude.{
  ℕ, zero, suc, ◌≡◌, inl, inr, Bool, true, false, Option, some, List, [], ◌∷◌, arith, All, is_some,
  Option-cases, Result-cases, Bool-cases,
}
use miden_usdcx.Circle.{Wire}
use miden_usdcx.Burn.{NoteCodec, DiscoveredBurn}
use miden_usdcx.Config.{Config}
use miden_usdcx.Verify.Types.{Libraries}
use miden_usdcx.Sql.Apart.{Apart, Without}
use miden_usdcx.Store.{Store, BurnRow, burn_at}
use miden_usdcx.Store.Sound.{IsSound}
use miden_usdcx.Store.Steps.Works.{Works, Works-IsPending, IsPending}
use miden_usdcx.Attester.Limit.{limit_allows}
use miden_usdcx.Attester.Works.{limit_allows-Works}
use miden_usdcx.Attester.Loop.{admin_checkpoint}
use miden_usdcx.Attester.Refinement.{Reached, Works-Reached}
use miden_usdcx.Attester.Withdraw.{SubmitError, is_fatal, attempt_withdrawal}
use miden_usdcx.Attester.Attempt.{attempt_withdrawal-Works}
use miden_usdcx.Attester.Submit.{BurnTurn, first_of, submit_withdrawals}
use miden_usdcx.Attester.Cycle.Pending.{elsewhere}
use miden_usdcx.Attester.Commands.{admin_checkpoint-Works}

-- The note of an entry of the loop over burns.
abbrev pub entry_note : DiscoveredBurn × BurnTurn → ℕ
entry_note i = i.0.note.id

-- Every entry's burn may still be withdrawn.
abbrev pub AllPending : Store → List (DiscoveredBurn × BurnTurn) → Type 0
AllPending s items = All (λ i. IsPending s (entry_note i)) items

pending_burn :
    (s : Store) (j : ℕ)
    → IsPending s j
    → (b : BurnRow) × (burn_at s j ≡ some b) × (is_some b.consumption_block ≡ true)
pending_burn s j p = elim (Option-cases (burn_at s j)) [
  | inl e ↦ absurd (ground arith)
  | inr (b, e) ↦ (b, e, ground arith)
]

module _ {codec : NoteCodec} (w : Wire) (known : w.status_is_valid 400 ≡ true) where
  -- Work on one note leaves the entries of the others pending.
  AllPending-kept :
      {s t : Store} (k : ℕ) (items : List (DiscoveredBurn × BurnTurn))
      → Without entry_note k items
      → Works w codec k s t
      → IsSound w s
      → AllPending s items
      → AllPending t items
  AllPending-kept k [] others r v p = tt
  AllPending-kept k (i ∷ items) others r v p = (
    Works-IsPending (entry_note i) known others.0 r v p.0,
    AllPending-kept k items others.1 r v p.1,
  )

  -- Work on no note in particular leaves every entry pending.
  AllPending-idle :
      {s t : Store} (items : List (DiscoveredBurn × BurnTurn))
      → ((k : ℕ) → Works w codec k s t)
      → IsSound w s
      → AllPending s items
      → AllPending t items
  AllPending-idle [] r v p = tt
  AllPending-idle (i ∷ items) r v p =
      let j = entry_note i in
      (Works-IsPending j known (elsewhere j) (r (suc j)) v p.0, AllPending-idle items r v p.1)

-- A property of well-formed stores that work on any note keeps.
pub record Keeps (w : Wire) (codec : NoteCodec) (P : Store → Type 0) : Type 0 where
  pub sound : (s : Store) → P s → IsSound w s
  pub keep : (s t : Store) (k : ℕ) → Works w codec k s t → P s → P t

pub Reached-Keeps :
    (w : Wire) (codec : NoteCodec) (s : Store)
    → w.status_is_valid 400 ≡ true
    → Keeps w codec (Reached w codec s)
Reached-Keeps w codec s known = record {
  sound = λ t p. p.1;
  keep = λ t u k r p. Works-Reached known r p;
}

module _ {codec : NoteCodec} (w : Wire) (l : Libraries) (config : Config)
    (known : w.status_is_valid 400 ≡ true) where
  -- The loop over pending burns with different notes keeps such a property.
  pub submit_withdrawals_keeps :
      (P : Store → Type 0) (s : Store) (limited : Bool) (first : Option SubmitError)
      (items : List (DiscoveredBurn × BurnTurn))
      → Keeps w codec P
      → Apart entry_note items
      → AllPending s items
      → P s
      → P (submit_withdrawals w l config s limited first items).store
  unfolding submit_withdrawals
  submit_withdrawals_keeps P s limited first [] keeps apart p v = v
  submit_withdrawals_keeps P s true first ((burn, turn) ∷ rest) keeps apart p v =
      keeps.keep s (admin_checkpoint s turn.commands) zero
        (admin_checkpoint-Works zero w s turn.commands) v
  submit_withdrawals_keeps P s false first ((burn, turn) ∷ rest) keeps apart p v =
      let now = admin_checkpoint s turn.commands in
      let items = (burn, turn) ∷ rest in
      let v1 = keeps.keep s now zero (admin_checkpoint-Works zero w s turn.commands) v in
      let p1 =
        AllPending-idle {codec = codec} w known items
          (λ k. admin_checkpoint-Works k w s turn.commands) (keeps.sound s v) p in
      elim (Result-cases (limit_allows config now turn.clock burn.note.id)) [
        | inr (x, e) ↦ rw (e, submit_withdrawals) v1
        | inl ((false, same), e) ↦
            rw (e, submit_withdrawals)
              (keeps.keep now same zero
                (limit_allows-Works w config now turn.clock burn.note.id (false, same) e) v1)
        | inl ((true, moved), e) ↦
            let waits = λ (k : ℕ).
              limit_allows-Works {codec = codec} {k = k} w config now turn.clock burn.note.id
                (true, moved) e in
            let v2 = keeps.keep now moved zero (waits zero) v1 in
            let p2 = AllPending-idle {codec = codec} w known items waits (keeps.sound now v1) p1 in
            let (b, found, consumed) = pending_burn moved burn.note.id p2.0 in
            let a =
              attempt_withdrawal w l config turn.desk turn.client turn.clock moved false burn in
            let works : Works w codec burn.note.id moved a.store =
              attempt_withdrawal-Works w l config turn.desk turn.client turn.clock moved false burn
                b (keeps.sound moved v2) found consumed p2.0.1 in
            let v3 = keeps.keep moved a.store burn.note.id works v2 in
            let p3 =
              AllPending-kept {codec = codec} w known burn.note.id rest apart.0 works
                (keeps.sound moved v2) p2.1 in
            elim (Result-cases a.result) [
              | inl (u, f) ↦
                  rw (e, f, submit_withdrawals)
                    (submit_withdrawals_keeps P a.store a.rate_limited first rest keeps apart.1 p3
                      v3)
              | inr (x, f) ↦ elim (Bool-cases (is_fatal x)) [
                | inl g ↦ rw (e, f, g, submit_withdrawals) v3
                | inr g ↦
                    rw (e, f, g, submit_withdrawals)
                      (submit_withdrawals_keeps P a.store a.rate_limited (first_of first x) rest
                        keeps apart.1 p3 v3)
              ]
            ]
      ]
