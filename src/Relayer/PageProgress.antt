-- ===== src/Relayer/PageProgress.antt =====
-- What one page of crates/xreserve-deposit-relayer/src/lib.rs does to the scan's progress.
use mathlib.Core.List.{append-nil}
use miden_usdcx.Prelude.{
  ℕ, String, ◌≡◌, ◌⊎◌, refl, sym, ap, ◌∙◌, subst, Bool, true, false, inl, inr, Option, none, some,
  List, [], ◌∷◌, ◌++◌, arith, Bool-cases, Result-cases, if◌then◌else◌, Result, ok, err,
}
use miden_usdcx.Relayer.{Entry, Page, RelayLibraries, Failure, MintNote}
use miden_usdcx.Relayer.Feed.{fetch_page}
use miden_usdcx.Relayer.Progress.{
  State, StateJson, Position, FileResult, state_of, state_eq, read_state, set_state,
}
use miden_usdcx.Relayer.Unminted.{nonces, retain}
use miden_usdcx.Relayer.Minting.{
  PageTurn, Relayer, PageOutcome, above, reaches, build_notes, submit_page, still_unminted,
  mint_page, process_page, page_outcome, note_nonces, finish_minting,
}
use miden_usdcx.Relayer.Scan.{save_progress}
use miden_usdcx.Relayer.Served.{above-append, Source, Continues}
use miden_usdcx.Relayer.Restart.{IsJson, Replaces, set_state_result, read-real, state_eq_sound}

-- Neither the progress file nor the page size changed, and notes were only added on chain.
abbrev pub KeepsProgress : Relayer → Relayer → Type 0
KeepsProgress r after =
    (after.file ≡ r.file)
    × (after.page_size ≡ r.page_size)
    × ((more : List MintNote) × (after.landed ≡ r.landed ++ more))

submit_page-kept :
    (lib : RelayLibraries) (turn : PageTurn) (r : Relayer) (notes : List MintNote)
    → KeepsProgress r (submit_page lib turn r notes).0
unfolding submit_page
submit_page-kept lib turn r [] = (refl, refl, ([], sym (append-nil r.landed)))
submit_page-kept lib turn r (n ∷ ns) = elim (Result-cases (turn.submit_notes (n ∷ ns))) [
  | inr (e, q) ↦ rw (q, submit_page) (refl, refl, ([], sym (append-nil r.landed)))
  | inl (transaction, q) ↦ rw (q, submit_page) (refl, refl, (n ∷ ns, refl))
]

mint_page-kept :
    (lib : RelayLibraries) (turn : PageTurn) (r : Relayer) (notes : List MintNote)
    → KeepsProgress r (mint_page lib turn r notes).0
unfolding mint_page
mint_page-kept lib turn r notes =
    elim (Result-cases (turn.retain_unminted (note_nonces lib notes ++ nonces r.unminted))) [
      | inr (e, q) ↦ rw (q, mint_page) (refl, refl, ([], sym (append-nil r.landed)))
      | inl (unminted, q) ↦
          let after = record r { unminted = retain r.unminted unminted } in
          let kept = submit_page-kept lib turn after (still_unminted lib unminted notes) in
          rw (q, mint_page) kept
    ]

-- What a page does to the progress: the file stays, and if the page succeeds, its outcome is that of
-- the page that was served.
abbrev pub TakesPage :
    RelayLibraries
    → PageTurn
    → Relayer
    → Option String
    → Option ℕ
    → Relayer × Result Failure PageOutcome
    → Type 0
TakesPage lib turn r resume watermark end =
    (end.0.file ≡ r.file)
    × (end.0.page_size ≡ r.page_size)
    × ((more : List MintNote) × (end.0.landed ≡ r.landed ++ more))
    × ((outcome : PageOutcome)
        → end.1 ≡ ok outcome
        → (page : Page) × (fetch_page lib r.page_size (turn.get r.page_size resume) ≡ ok page)
          × (outcome ≡ page_outcome lib watermark page))

finish_minting-TakesPage :
    (lib : RelayLibraries) (turn : PageTurn) (r : Relayer) (resume : Option String)
    (watermark : Option ℕ) (page : Page) (minted : Relayer × Result Failure (Unit {0}))
    → fetch_page lib r.page_size (turn.get r.page_size resume) ≡ ok page
    → KeepsProgress r minted.0
    → TakesPage lib turn r resume watermark (finish_minting lib watermark page minted)
finish_minting-TakesPage lib turn r resume watermark page (after, err e) q kept =
    (kept.0, kept.1, kept.2, λ outcome h. absurd cc)
finish_minting-TakesPage lib turn r resume watermark page (after, ok u) q kept =
    (kept.0, kept.1, kept.2, λ outcome h. (page, q, cc))

pub process_page-TakesPage :
    (lib : RelayLibraries) (turn : PageTurn) (r : Relayer) (resume : Option String)
    (watermark : Option ℕ)
    → TakesPage lib turn r resume watermark (process_page lib turn r resume watermark)
unfolding process_page
process_page-TakesPage lib turn r resume watermark =
    elim (Result-cases (fetch_page lib r.page_size (turn.get r.page_size resume))) [
      | inr (e, q) ↦
          let p : (r, err e) ≡ process_page lib turn r resume watermark = ground arith in
          subst (TakesPage lib turn r resume watermark) p
            (refl, refl, ([], sym (append-nil r.landed)), λ outcome h. absurd cc)
      | inl (page, q) ↦
          let fresh = above watermark page.entries in
          let notes = (build_notes lib turn.serial_number fresh).notes in
          let p : finish_minting lib watermark page (mint_page lib turn r notes)
              ≡ process_page lib turn r resume watermark =
            rw (q, process_page) refl in
          subst (TakesPage lib turn r resume watermark) p (
            finish_minting-TakesPage lib turn r resume watermark page (mint_page lib turn r notes) q
              (mint_page-kept lib turn r notes))
    ]

nothing : (watermark : Option ℕ) → above watermark [] ≡ []
unfolding above
nothing watermark = refl

-- Behind a page that was served: what is above the watermark is the page's part of it, and then what is
-- above it behind the page's outcome.
pub behind_page :
    (lib : RelayLibraries) (source : Source) (watermark : Option ℕ) (page : Page)
    (rest : List Entry)
    → Continues source page.next rest
    → above watermark (page.entries ++ rest)
      ≡ above watermark page.entries ++ (elim (page_outcome lib watermark page).next [
        | none ↦ []
        | some cursor ↦ above watermark (source.behind cursor)
      ])
behind_page lib source watermark page rest h =
    above-append watermark page.entries rest
    ∙ ap (λ zs. above watermark page.entries ++ zs)
        (tail_of (reaches watermark page.entries) page.next h)
  where
    tail_of :
        (c : Bool) (next : Option String)
        → Continues source next rest
        → (if c then [] else above watermark rest) ≡ (elim (if c then none else next) [
          | none ↦ []
          | some cursor ↦ above watermark (source.behind cursor)
        ])
    tail_of true next h = refl
    tail_of false none h = ap (above watermark) h ∙ nothing watermark
    tail_of false (some cursor) h = ap (above watermark) (sym h)

-- The progress was saved and the scan goes on, or it could not be written and is as it was.
abbrev pub SavesTo :
    StateJson
    → Relayer
    → State
    → Option Position × State
    → Relayer × Result Failure (Option Position)
    → Type 0
SavesTo json r old (next, saved) end =
    (end.0.landed ≡ r.landed)
    × (end.0.page_size ≡ r.page_size)
    × (((end.1 ≡ ok next) × (read_state json end.0.file ≡ ok saved))
        ⊎ ((e : Failure) × (end.1 ≡ err e) × (read_state json end.0.file ≡ ok old)))

written-SavesTo :
    (json : StateJson) (r : Relayer) (old saved : State) (next : Option Position) (end : FileResult)
    → Replaces json r.file saved end
    → read_state json r.file ≡ ok old
    → SavesTo json r old
        (next, saved)
        (record r { file = end.0 }, elim end.1 [ ok _ ↦ ok next | err e ↦ err e ])
written-SavesTo json r old saved next end (inl (done, reads)) h =
    (refl, refl, inl (rw done refl, reads))
written-SavesTo json r old saved next end (inr (e, failed, same)) h =
    (refl, refl, inr (e, rw failed refl, read-real json end.0 r.file same ∙ h))

pub save_progress-SavesTo :
    (json : StateJson) (turn : PageTurn) (r : Relayer) (position : Position)
    (step : Option Position × State)
    → IsJson json
    → read_state json r.file ≡ ok (state_of position)
    → SavesTo json r (state_of position) step (save_progress json turn r position step)
unfolding save_progress
save_progress-SavesTo json turn r position (next, saved) law h =
    elim (Bool-cases (state_eq saved (state_of position))) [
      | inl e ↦
          rw (e, save_progress)
            (refl, refl, inl (refl, h ∙ ap ok (sym (state_eq_sound saved (state_of position) e))))
      | inr e ↦
          rw (e, save_progress)
            (written-SavesTo json r (state_of position) saved next
              (set_state json turn.answers r.file saved)
              (set_state_result json r.file saved law turn.answers) h)
    ]
