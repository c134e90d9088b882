-- ===== src/Relayer/Completion.antt =====
-- A scan of crates/xreserve-deposit-relayer/src/lib.rs ends: the walk over a feed of so many entries is
-- over after that many pages and one more.
use miden_usdcx.Prelude.{
  ℕ, ◌+◌, ◌<◌, String, ◌≡◌, refl, sym, ap, ◌∙◌, subst, false, inl, inr, Option, none, some, List,
  [], ◌∷◌, arith, All, Bool-cases, Option-cases, Result, ok, err, length, length-append,
}
use miden_usdcx.Relayer.{Page, RelayLibraries, Failure}
use miden_usdcx.Relayer.Feed.{fetch_page}
use miden_usdcx.Relayer.Progress.{State, StateJson, Position, set_state, read_state, from_state}
use miden_usdcx.Relayer.Minting.{
  PageTurn, Relayer, PageOutcome, reaches, process_page, page_outcome,
}
use miden_usdcx.Relayer.Scan.{
  ScanOutcome, complete, after_page, save_progress, save_page_outcome, note_failure, finish_page,
  run_page, after_run, scan_from, scan,
}
use miden_usdcx.Relayer.Served.{Source, from_cursor, Continues}
use miden_usdcx.Relayer.PageProgress.{TakesPage, process_page-TakesPage}
use miden_usdcx.Relayer.Turns.{GoesOn, succeeds, noted}

save_progress-next :
    (json : StateJson) (turn : PageTurn) (r : Relayer) (position : Position)
    (step : Option Position × State) (x : Option Position)
    → (save_progress json turn r position step).1 ≡ ok x
    → x ≡ step.0
unfolding save_progress set_state
save_progress-next json turn r position (next, saved) x h = ground arith

-- Where the next page is.
after_page-next :
    (p : Position) (outcome : PageOutcome) (q : Position)
    → (after_page p outcome).0 ≡ some q
    → (cursor : String) × (outcome.next ≡ some cursor) × (q.resume ≡ some cursor)
unfolding after_page
after_page-next p outcome q h = elim (Option-cases outcome.next) [
  | inl e ↦ absurd (ground arith)
  | inr (cursor, e) ↦ (cursor, e, ground arith)
]

page_outcome-next :
    (lib : RelayLibraries) (watermark : Option ℕ) (page : Page) (cursor : String)
    → (page_outcome lib watermark page).next ≡ some cursor
    → page.next ≡ some cursor
page_outcome-next lib watermark page cursor h = elim (Bool-cases (reaches watermark page.entries)) [
  | inl e ↦ absurd (ground arith)
  | inr e ↦ ground arith
]

module _ (lib : RelayLibraries) (json : StateJson) (source : Source) (page_size : ℕ)
    (turn : PageTurn) (goes : GoesOn lib source page_size turn) where
  -- The number of entries from a position on.
  abbrev left : Position → ℕ
  left p = length (from_cursor source p.resume)

  shorter :
      (size : ℕ) (p q : Position) (page : Page) (cursor : String)
      → fetch_page lib size (turn.get size p.resume) ≡ ok page
      → page.next ≡ some cursor
      → q.resume ≡ some cursor
      → left q < left p
  shorter size p q page cursor fetched next at =
      let (rest, from, continues) = goes.served size p.resume page fetched in
      let behind : source.behind cursor ≡ rest =
        subst (λ n. Continues source n rest) next continues in
      let here : left q ≡ length rest =
        ap (λ c. length (from_cursor source c)) at ∙ ap length behind in
      let there : left p ≡ length page.entries + length rest =
        ap length from ∙ length-append page.entries rest in
      omega (arith, here, there, goes.not_empty size p.resume page cursor fetched next)

  saved_next :
      (r : Relayer) (p q : Position) (minted : Relayer × Result Failure PageOutcome)
      → TakesPage lib turn r p.resume p.watermark minted
      → (save_page_outcome lib json turn p minted).1 ≡ ok (some q)
      → left q < left p
  saved_next r p q (after, err e) takes h = absurd cc
  saved_next r p q (after, ok outcome) takes h =
      let (page, fetched, shape) = takes.3 outcome refl in
      let moved : (after_page p outcome).0 ≡ some q =
        sym (save_progress-next json turn after p (after_page p outcome) (some q) h) in
      let (cursor, next, at) = after_page-next p outcome q moved in
      let page_next =
        page_outcome-next lib p.watermark page cursor
          (ap (λ (o : PageOutcome). o.next) (sym shape) ∙ next) in
      shorter r.page_size p q page cursor fetched page_next at

  noted_size :
      (end : Relayer × Result Failure (Option Position)) (next : Option Position)
      → end.1 ≡ ok next
      → (note_failure lib json end).0.page_size ≡ end.0.page_size
  noted_size (r, ok next) x h = refl
  noted_size (r, err e) x h = absurd cc

  saved_size :
      (r : Relayer) (p : Position) (minted : Relayer × Result Failure PageOutcome)
      → TakesPage lib turn r p.resume p.watermark minted
      → (save_page_outcome lib json turn p minted).0.page_size ≡ r.page_size
  unfolding save_progress
  saved_size r p (after, err e) takes = takes.1
  saved_size r p (after, ok outcome) takes = ground (arith, takes.1)

  -- A page that succeeds keeps the page size.
  run_page-size :
      (r : Relayer) (p : Position) (next : Option Position)
      → (run_page lib json turn r p).1 ≡ ok next
      → (run_page lib json turn r p).0.page_size ≡ r.page_size
  unfolding run_page finish_page
  run_page-size r p next h =
      noted_size (finish_page lib json turn r p) next
        (sym (noted lib json source page_size turn goes (finish_page lib json turn r p)) ∙ h)
      ∙ saved_size r p (process_page lib turn r p.resume p.watermark)
          (process_page-TakesPage lib turn r p.resume p.watermark)

  -- A page that is not the last leaves fewer entries.
  run_page-left :
      (r : Relayer) (p q : Position)
      → (run_page lib json turn r p).1 ≡ ok (some q)
      → left q < left p
  unfolding run_page finish_page
  run_page-left r p q h =
      saved_next r p q (process_page lib turn r p.resume p.watermark)
        (process_page-TakesPage lib turn r p.resume p.watermark)
        (sym (noted lib json source page_size turn goes (finish_page lib json turn r p)) ∙ h)

module _ (lib : RelayLibraries) (json : StateJson) (source : Source) (page_size : ℕ) where
  after_run-complete :
      (go_on : Relayer → Position → Relayer × Result Failure ScanOutcome)
      (end : Relayer × Result Failure (Option Position)) (next : Option Position)
      → end.1 ≡ ok next
      → ((q : Position) → next ≡ some q → (go_on end.0 q).1 ≡ ok complete)
      → (after_run lib json false go_on end).1 ≡ ok complete
  after_run-complete go_on (r, err e) next h each = absurd cc
  after_run-complete go_on (r, ok none) next h each = refl
  after_run-complete go_on (r, ok (some p)) next h each = each p cc

  scan_from-complete :
      (turns : List PageTurn) (r : Relayer) (p : Position)
      → r.page_size ≡ page_size
      → All (GoesOn lib source page_size) turns
      → length (from_cursor source p.resume) < length turns
      → (scan_from lib json turns r p).1 ≡ ok complete
  unfolding scan_from
  scan_from-complete [] r p sized goes enough = absurd (omega arith)
  scan_from-complete (turn ∷ turns) r p sized goes enough =
      let g = goes.0 in
      let go_on = λ (after : Relayer) (p' : Position). scan_from lib json turns after p' in
      let end = run_page lib json turn r p in
      let (next, went) = succeeds lib json source page_size turn g r p sized in
      let q : after_run lib json false go_on end ≡ scan_from lib json (turn ∷ turns) r p =
        rw (g.runs_before, g.runs_after, scan_from) refl in
      subst (λ (x : Relayer × Result Failure ScanOutcome). x.1 ≡ ok complete) q
        (after_run-complete go_on end next went (λ p' e.
          scan_from-complete turns end.0 p'
            (run_page-size lib json source page_size turn g r p next went ∙ sized) goes.1
            (let less = run_page-left lib json source page_size turn g r p p' (went ∙ ap ok e) in
              omega (arith, less, enough))))

  -- From a saved state that can be read, a scan completes if it is given more turns than the feed
  -- has entries from the place where it starts, and in every turn nothing goes wrong: shutdown is
  -- not asked for, Circle serves a page from the feed, one that names a next page is not empty,
  -- the node answers, the notes are submitted and the file can be written.
  pub scan-complete :
      (turns : List PageTurn) (r : Relayer) (start : State)
      → read_state json r.file ≡ ok start
      → r.page_size ≡ page_size
      → All (GoesOn lib source page_size) turns
      → length (from_cursor source (from_state start).resume) < length turns
      → (scan lib json turns r).1 ≡ ok complete
  unfolding scan
  scan-complete turns r start h sized goes enough =
      let q : scan_from lib json turns r (from_state start) ≡ scan lib json turns r =
        rw (h, scan) refl in
      subst (λ (x : Relayer × Result Failure ScanOutcome). x.1 ≡ ok complete) q
        (scan_from-complete turns r (from_state start) sized goes enough)
