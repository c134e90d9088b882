-- ===== src/Relayer/Turns.antt =====
-- A turn of crates/xreserve-deposit-relayer/src/lib.rs in which nothing goes wrong, and that its page is
-- then done.
use miden_usdcx.Prelude.{
  ℕ, ◌<◌, String, ◌≡◌, refl, sym, ap, ◌∙◌, subst, true, false, inl, inr, Option, none, some, List,
  [], ◌∷◌, ◌++◌, arith, Bool-cases, Result, ok, err, length,
}
use miden_usdcx.Relayer.{Page, RelayLibraries, Failure, MintNote}
use miden_usdcx.Relayer.Feed.{fetch_page}
use miden_usdcx.Relayer.Unminted.{nonces, retain}
use miden_usdcx.Relayer.Progress.{State, Disk, StateJson, Position, set_state}
use miden_usdcx.Relayer.Minting.{
  PageTurn, Relayer, PageOutcome, above, build_notes, note_nonces, still_unminted, submit_page,
  mint_page, finish_minting, process_page, page_outcome,
}
use miden_usdcx.Relayer.Scan.{
  after_page, save_progress, save_page_outcome, note_failure, finish_page, run_page,
}
use miden_usdcx.Relayer.Served.{Source, IsServed}

-- A turn in which nothing goes wrong: shutdown is not asked for, Circle serves a page of this size
-- from any place, the node answers, the transaction lands, the file can be written, and a page that
-- names a next one is not empty.
pub record GoesOn (lib : RelayLibraries) (source : Source) (page_size : ℕ) (turn : PageTurn)
    : Type 0 where
  pub runs_before : turn.stop_before ≡ false
  pub runs_after : turn.stop_after ≡ false
  pub served : IsServed lib source turn
  pub fetches :
      (resume : Option String)
      → (page : Page) × (fetch_page lib page_size (turn.get page_size resume) ≡ ok page)
  pub asks : (asked : List ℕ) → (unminted : List ℕ) × (turn.retain_unminted asked ≡ ok unminted)
  pub submits :
      (notes : List MintNote) → (transaction : ℕ) × (turn.submit_notes notes ≡ ok transaction)
  pub writes : turn.answers ≡ record { creates = true; torn = none; syncs = true; renames = true }
  pub not_empty :
      (size : ℕ) (resume : Option String) (page : Page) (cursor : String)
      → fetch_page lib size (turn.get size resume) ≡ ok page
      → page.next ≡ some cursor
      → 0 < length page.entries

module _ (lib : RelayLibraries) (json : StateJson) (source : Source) (page_size : ℕ)
    (turn : PageTurn) (goes : GoesOn lib source page_size turn) where
  submit_page-ok : (r : Relayer) (notes : List MintNote) → (submit_page lib turn r notes).1 ≡ ok tt
  unfolding submit_page
  submit_page-ok r [] = refl
  submit_page-ok r (n ∷ ns) =
      let (transaction, e) = goes.submits (n ∷ ns) in rw (e, submit_page) refl

  mint_page-ok : (r : Relayer) (notes : List MintNote) → (mint_page lib turn r notes).1 ≡ ok tt
  unfolding mint_page
  mint_page-ok r notes =
      let (unminted, e) = goes.asks (note_nonces lib notes ++ nonces r.unminted) in
      rw (e, mint_page)
        (submit_page-ok (record r { unminted = retain r.unminted unminted })
          (still_unminted lib unminted notes))

  finish_minting-ok :
      (watermark : Option ℕ) (page : Page) (minted : Relayer × Result Failure (Unit {0}))
      → minted.1 ≡ ok tt
      → (finish_minting lib watermark page minted).1 ≡ ok (page_outcome lib watermark page)
  finish_minting-ok watermark page (r, ok u) h = refl
  finish_minting-ok watermark page (r, err e) h = absurd cc

  process_page-ok :
      (r : Relayer) (resume : Option String) (watermark : Option ℕ)
      → r.page_size ≡ page_size
      → (outcome : PageOutcome) × ((process_page lib turn r resume watermark).1 ≡ ok outcome)
  unfolding process_page
  process_page-ok r resume watermark sized =
      let (page, e) = goes.fetches resume in
      let f : fetch_page lib r.page_size (turn.get r.page_size resume) ≡ ok page =
        subst (λ n. fetch_page lib n (turn.get n resume) ≡ ok page) (sym sized) e in
      let fresh = above watermark page.entries in
      let notes = (build_notes lib turn.serial_number fresh).notes in
      let q : finish_minting lib watermark page (mint_page lib turn r notes)
          ≡ process_page lib turn r resume watermark =
        rw (f, process_page) refl in
      (
        page_outcome lib watermark page,
        ap (λ x. x.1) (sym q)
            ∙ finish_minting-ok watermark page (mint_page lib turn r notes) (mint_page-ok r notes),
      )

  file_written : (disk : Disk) (s : State) → (set_state json turn.answers disk s).1 ≡ ok tt
  unfolding set_state
  file_written disk s = rw goes.writes refl

  save_page_outcome-ok :
      (p : Position) (minted : Relayer × Result Failure PageOutcome) (outcome : PageOutcome)
      → minted.1 ≡ ok outcome
      → (next : Option Position) × ((save_page_outcome lib json turn p minted).1 ≡ ok next)
  unfolding save_progress
  save_page_outcome-ok p (r, err e) outcome h = absurd cc
  save_page_outcome-ok p (r, ok other) outcome h =
      ((after_page p other).0, ground (arith, file_written r.file (after_page p other).1))

  -- Making later pages smaller changes no result.
  pub noted :
      (end : Relayer × Result Failure (Option Position)) → (note_failure lib json end).1 ≡ end.1
  noted (r, ok next) = refl
  noted (r, err e) = elim (Bool-cases e.expired_submission) [
    | inl q ↦ rw q refl
    | inr q ↦ rw q refl
  ]

  pub succeeds :
      (r : Relayer) (p : Position)
      → r.page_size ≡ page_size
      → (next : Option Position) × ((run_page lib json turn r p).1 ≡ ok next)
  unfolding run_page finish_page
  succeeds r p sized =
      let (outcome, e) = process_page-ok r p.resume p.watermark sized in
      let (next, f) =
        save_page_outcome-ok p (process_page lib turn r p.resume p.watermark) outcome e in
      (next, noted (finish_page lib json turn r p) ∙ f)
