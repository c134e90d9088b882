-- ===== src/Relayer/Landed.antt =====
-- Progress of the scan of crates/xreserve-deposit-relayer moves only over pages whose notes are on chain.
use mathlib.Core.List.{Memᴰ}
use mathlib.Core.List.Memᴰ.{head, tail, append_right, not-nil, cases_cons}
use miden_usdcx.Prelude.{
  ℕ, ◌≡◌, ◌≢◌, refl, sym, ap, ◌∙◌, subst, Bool, true, false, inl, inr, Option, List, [], ◌∷◌, ◌++◌,
  arith, Bool-cases, Result-cases, Result, ok, err,
}
use miden_usdcx.Sql.{select}
use miden_usdcx.Relayer.{Page, RelayLibraries, Failure, MintNote}
use miden_usdcx.Relayer.Feed.{fetch_page}
use miden_usdcx.Relayer.Unminted.{contains, nonces, retain}
use miden_usdcx.Relayer.Progress.{Position, StateJson}
use miden_usdcx.Relayer.Scan.{finish_page, save_page_outcome, save_progress}
use miden_usdcx.Relayer.PageProgress.{process_page-TakesPage}
use miden_usdcx.Relayer.Minting.{
  PageTurn, Relayer, PageOutcome, above, build_notes, note_nonces, still_unminted, submit_page,
  mint_page, finish_minting, process_page,
}

-- Every note of these whose nonce the node reported as not minted is on chain.
abbrev pub AllLanded : List ℕ → List MintNote → List MintNote → Type 0
AllLanded unminted notes landed =
    (n : MintNote) → Memᴰ n notes → contains n.nonce unminted ≡ true → Memᴰ n landed

select-Mem :
    (p : MintNote → Bool) (notes : List MintNote) (n : MintNote)
    → Memᴰ n notes
    → p n ≡ true
    → Memᴰ n (select p notes)
unfolding select
select-Mem p [] n m h = absurd (not-nil m)
select-Mem p (x ∷ notes) n m h = elim (Bool-cases (p x)) [
  | inl e ↦
      rw e (elim (cases_cons m) [ inl q ↦ head q | inr m' ↦ tail (select-Mem p notes n m' h) ])
  | inr e ↦ rw e (elim (cases_cons m) [
    | inl q ↦ absurd (let c : p n ≡ false = ap p q ∙ e in cc)
    | inr m' ↦ select-Mem p notes n m' h
  ])
]

submit_page-landed :
    (lib : RelayLibraries) (turn : PageTurn) (r : Relayer) (notes : List MintNote)
    → (submit_page lib turn r notes).1 ≡ ok tt
    → (n : MintNote) → Memᴰ n notes
    → Memᴰ n (submit_page lib turn r notes).0.landed
unfolding submit_page
submit_page-landed lib turn r [] h n m = absurd (not-nil m)
submit_page-landed lib turn r (x ∷ notes) h n m =
    elim (Result-cases (turn.submit_notes (x ∷ notes))) [
      | inr (e, q) ↦ absurd (ground arith)
      | inl (transaction, q) ↦
          let p : r.landed ++ x ∷ notes ≡ (submit_page lib turn r (x ∷ notes)).0.landed =
            ground arith in
          subst (Memᴰ n) p (append_right r.landed m)
    ]

-- If a page succeeds, the node was asked which of its deposits are unminted, and every note of the
-- page that the node reported is on chain when the page is recorded as done.
pub mint_page-landed :
    (lib : RelayLibraries) (turn : PageTurn) (r : Relayer) (notes : List MintNote)
    → (mint_page lib turn r notes).1 ≡ ok tt
    → (unminted : List ℕ) × (turn.retain_unminted (note_nonces lib notes ++ nonces r.unminted)
        ≡ ok unminted)
      × AllLanded unminted notes (mint_page lib turn r notes).0.landed
unfolding mint_page still_unminted
mint_page-landed lib turn r notes h =
    elim (Result-cases (turn.retain_unminted (note_nonces lib notes ++ nonces r.unminted))) [
      | inr (e, q) ↦ absurd (ground arith)
      | inl (unminted, q) ↦
          let before = record r { unminted = retain r.unminted unminted } in
          let fresh = select (λ n. contains n.nonce unminted) notes in
          let p : submit_page lib turn before fresh ≡ mint_page lib turn r notes =
            rw (q, mint_page) refl in
          let done : (submit_page lib turn before fresh).1 ≡ ok tt = ap (λ x. x.1) p ∙ h in
          (
            unminted,
            q,
            λ n m reported.
                subst (λ (x : Relayer × Result Failure (Unit {0})). Memᴰ n x.0.landed) p
                  (submit_page-landed lib turn before fresh done n
                    (select-Mem (λ k. contains k.nonce unminted) notes n m reported)),
          )
    ]

-- What was asked and landed when a page is recorded as done.
abbrev pub PageLanded : RelayLibraries → PageTurn → Relayer → Position → List MintNote → Type 0
PageLanded lib turn r p landed =
    (page : Page) × (fetch_page lib r.page_size (turn.get r.page_size p.resume) ≡ ok page)
    × ((unminted : List ℕ) × (turn.retain_unminted (
            note_nonces lib
              (build_notes lib turn.serial_number (above p.watermark page.entries)).notes
            ++ nonces r.unminted)
          ≡ ok unminted)
        × AllLanded unminted
            (build_notes lib turn.serial_number (above p.watermark page.entries)).notes landed)

finish_minting-ok :
    (lib : RelayLibraries) (watermark : Option ℕ) (page : Page)
    (minted : Relayer × Result Failure (Unit {0})) (outcome : PageOutcome)
    → (finish_minting lib watermark page minted).1 ≡ ok outcome
    → (minted.1 ≡ ok tt) × ((finish_minting lib watermark page minted).0 ≡ minted.0)
finish_minting-ok lib watermark page (r, err e) outcome h = absurd cc
finish_minting-ok lib watermark page (r, ok u) outcome h = (refl, refl)

pub process_page-landed :
    (lib : RelayLibraries) (turn : PageTurn) (r : Relayer) (p : Position) (outcome : PageOutcome)
    → (process_page lib turn r p.resume p.watermark).1 ≡ ok outcome
    → PageLanded lib turn r p (process_page lib turn r p.resume p.watermark).0.landed
unfolding process_page
process_page-landed lib turn r p outcome h =
    elim (Result-cases (fetch_page lib r.page_size (turn.get r.page_size p.resume))) [
      | inr (e, q) ↦ absurd (ground arith)
      | inl (page, q) ↦
          let fresh = above p.watermark page.entries in
          let notes = (build_notes lib turn.serial_number fresh).notes in
          let minted = mint_page lib turn r notes in
          let same : finish_minting lib p.watermark page minted
              ≡ process_page lib turn r p.resume p.watermark =
            rw (q, process_page) refl in
          let (done, end) =
            finish_minting-ok lib p.watermark page minted outcome (ap (λ x. x.1) same ∙ h) in
          let (unminted, asked, landed) = mint_page-landed lib turn r notes done in
          let kept : minted.0.landed ≡ (process_page lib turn r p.resume p.watermark).0.landed =
            ap (λ (x : Relayer). x.landed) (sym end ∙ ap (λ x. x.0) same) in
          (page, q, (unminted, asked, subst (AllLanded unminted notes) kept landed))
    ]

saved_landed :
    (lib : RelayLibraries) (json : StateJson) (turn : PageTurn) (p : Position)
    (minted : Relayer × Result Failure PageOutcome)
    → (save_page_outcome lib json turn p minted).0.landed ≡ minted.0.landed
unfolding save_progress
saved_landed lib json turn p (r, err e) = refl
saved_landed lib json turn p (r, ok outcome) = ground arith

failed_file :
    (lib : RelayLibraries) (json : StateJson) (turn : PageTurn) (p : Position)
    (minted : Relayer × Result Failure PageOutcome) (e : Failure)
    → minted.1 ≡ err e
    → (save_page_outcome lib json turn p minted).0.file ≡ minted.0.file
failed_file lib json turn p (r, err x) e h = refl
failed_file lib json turn p (r, ok outcome) e h = absurd cc

-- The progress file changes in a page only if the page was minted: Circle served it, the node was asked
-- which of its deposits are unminted, and the note of every one that the node reported is on chain.
pub finish_page-landed :
    (lib : RelayLibraries) (json : StateJson) (turn : PageTurn) (r : Relayer) (p : Position)
    → (finish_page lib json turn r p).0.file ≢ r.file
    → PageLanded lib turn r p (finish_page lib json turn r p).0.landed
unfolding finish_page
finish_page-landed lib json turn r p changed =
    let minted = process_page lib turn r p.resume p.watermark in
    let takes = process_page-TakesPage lib turn r p.resume p.watermark in
    elim (Result-cases minted.1) [
      | inr (e, q) ↦ absurd (changed (failed_file lib json turn p minted e q ∙ takes.0))
      | inl (outcome, q) ↦
          subst (PageLanded lib turn r p) (sym (saved_landed lib json turn p minted))
            (process_page-landed lib turn r p outcome q)
    ]
