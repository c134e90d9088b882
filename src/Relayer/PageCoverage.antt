-- ===== src/Relayer/PageCoverage.antt =====
-- What one page of crates/xreserve-deposit-relayer/src/lib.rs handles of what a scan was to take.
use mathlib.Core.List.{Memᴰ, append_assoc, append-nil}
use miden_usdcx.Prelude.{
  ℕ, String, ◌≡◌, refl, sym, ap, ◌∙◌, subst, inl, inr, Option, none, some, List, [], ◌++◌, All,
  Bool-cases, Result, ok, err,
}
use miden_usdcx.Relayer.{Entry, Page, RelayLibraries, Failure, MintNote}
use miden_usdcx.Relayer.Feed.{fetch_page}
use miden_usdcx.Relayer.Progress.{State, StateJson, Position, from_state, state_of, read_state}
use miden_usdcx.Relayer.Minting.{
  PageTurn, Relayer, PageOutcome, above, newest_hash, process_page, page_outcome,
}
use miden_usdcx.Relayer.Scan.{
  or, after_page, save_progress, finish_page, run_page, save_page_outcome, note_failure,
}
use miden_usdcx.Relayer.Served.{Source, from_cursor, IsServed}
use miden_usdcx.Relayer.Restart.{IsJson}
use miden_usdcx.Relayer.Handled.{
  IsHandled, IsDone, page-IsHandled, more_landed, in_turn, All-append,
}
use miden_usdcx.Relayer.Newest.{IsNewest, page-IsNewest, newest-append, or_assoc, or_last}
use miden_usdcx.Relayer.Landed.{PageLanded, process_page-landed}
use miden_usdcx.Relayer.PageProgress.{
  TakesPage, process_page-TakesPage, behind_page, save_progress-SavesTo,
}
use miden_usdcx.Relayer.Walk.{to_take, new_watermark, Covers, At, resumed, or-none}

module _ (lib : RelayLibraries) (turns : List PageTurn) (json : StateJson) (source : Source)
    (start : State) where
  -- Notes were only added on chain.
  abbrev Lands : Relayer → Relayer → Type 0
  Lands r after = (more : List MintNote) × (after.landed ≡ r.landed ++ more)

  still-IsDone :
      (r after : Relayer) (es : List Entry)
      → Lands r after
      → All (IsDone lib turns r.landed) es
      → All (IsDone lib turns after.landed) es
  still-IsDone r after es (more, q) a =
      subst (λ l. All (IsDone lib turns l) es) (sym q) (more_landed lib turns r.landed more es a)

  -- A scan that ends between two pages, or in a page that was not recorded as done.
  interrupted :
      (p : Position) (r after : Relayer)
      → At lib turns json source start p r
      → read_state json after.file ≡ ok (state_of p)
      → Lands r after
      → Covers lib turns json source start after
  unfolding state_of
  interrupted p r after at saved lands =
      let (d, split, a) =
        resumed source (IsDone lib turns after.landed) start.watermark p.watermark
          (to_take source start) at.done p.head p.resume at.split
          (still-IsDone r after at.done lands at.handled) at.restart in
      (
        state_of p,
        saved,
        inr (
          at.watermark,
          (
            d,
            subst
                (λ m.
                  to_take source start
                  ≡ d ++ above m (from_cursor source (from_state (state_of p)).resume))
                (sym at.watermark) split,
            a,
          ),
        ),
      )

  -- The walk is over: everything is done.
  abbrev pub Over : Relayer → Type 0
  Over after =
      (state : State) × (read_state json after.file ≡ ok state)
      × (state.scan ≡ none)
      × (state.watermark ≡ new_watermark source start)
      × All (IsDone lib turns after.landed) (to_take source start)

  -- Where one page leaves the scan.
  abbrev pub StepsTo : Relayer × Result Failure (Option Position) → Type 0
  StepsTo (after, err e) = Covers lib turns json source start after
  StepsTo (after, ok none) = Over after
  StepsTo (after, ok (some p)) = At lib turns json source start p after

  steps :
      (end : Relayer × Result Failure (Option Position)) (r : Result Failure (Option Position))
      → end.1 ≡ r
      → StepsTo (end.0, r)
      → StepsTo end
  steps (after, result) r e t = subst (λ x. StepsTo (after, x)) (sym e) t

  -- With the page done and the progress saved, by what the page says of the next one.
  after_next :
      (p : Position) (r after : Relayer) (fresh : List Entry) (newest : Option ℕ)
      (next : Option String) (at : At lib turns json source start p r)
      → to_take source start
        ≡ (at.done ++ fresh)
          ++ (elim next [ none ↦ [] | some cursor ↦ above start.watermark (source.behind cursor) ])
      → IsNewest start.watermark newest fresh next
      → All (IsDone lib turns after.landed) (at.done ++ fresh)
      → read_state json after.file ≡ ok (after_page p (record { newest = newest; next = next })).1
      → StepsTo (after, ok (after_page p (record { newest = newest; next = next })).0)
  unfolding after_page
  after_next p r after fresh newest none at total is_newest handled saved =
      let all = total ∙ append-nil (at.done ++ fresh) in
      (
        _,
        saved,
        refl,
        ap (λ m. or (or p.head newest) m) at.watermark
            ∙ ap (λ h. or (or h newest) start.watermark) at.head
            ∙ or_last (from_state start).head (newest_hash at.done) (newest_hash fresh) newest
                start.watermark is_newest
            ∙ ap (λ h. or (or (from_state start).head h) start.watermark)
                (sym (ap newest_hash all ∙ newest-append at.done fresh)),
        subst (λ es. All (IsDone lib turns after.landed) es) (sym all) handled,
      )
  after_next p r after fresh newest (some cursor) at total is_newest handled saved = record {
    watermark = at.watermark;
    saved = saved;
    done = at.done ++ fresh;
    split = total;
    handled = handled;
    head =
        ap (λ h. or h newest) at.head
        ∙ ap (λ n. or (or (from_state start).head (newest_hash at.done)) n) is_newest
        ∙ or_assoc (from_state start).head (newest_hash at.done) (newest_hash fresh)
        ∙ ap (λ n. or (from_state start).head n) (sym (newest-append at.done fresh));
    restart = λ e. at.restart (or-none p.head newest e);
  }

  module _ (law : IsJson json) (turn : PageTurn) (mine : Memᴰ turn turns)
      (served : IsServed lib source turn) where
    -- The page's part of what was to take, and what is behind it.
    page_split :
        (p : Position) (r : Relayer) (page : Page)
        → At lib turns json source start p r
        → fetch_page lib r.page_size (turn.get r.page_size p.resume) ≡ ok page
        → (at : At lib turns json source start p r)
        → to_take source start
          ≡ (at.done ++ above start.watermark page.entries)
            ++ (elim (page_outcome lib start.watermark page).next [
              | none ↦ []
              | some cursor ↦ above start.watermark (source.behind cursor)
            ])
    page_split p r page _ fetched at =
        let (rest, from, continues) = served r.page_size p.resume page fetched in
        at.split
        ∙ ap (λ xs. at.done ++ above start.watermark xs) from
        ∙ ap (λ xs. at.done ++ xs) (behind_page lib source start.watermark page rest continues)
        ∙ sym (append_assoc at.done (above start.watermark page.entries) _)

    after_outcome :
        (p : Position) (r after : Relayer) (page : Page)
        → At lib turns json source start p r
        → fetch_page lib r.page_size (turn.get r.page_size p.resume) ≡ ok page
        → Lands r after
        → All (IsHandled lib turn after.landed) (above start.watermark page.entries)
        → read_state json after.file ≡ ok (after_page p (page_outcome lib start.watermark page)).1
        → StepsTo (after, ok (after_page p (page_outcome lib start.watermark page)).0)
    after_outcome p r after page at fetched lands handled saved =
        let fresh = above start.watermark page.entries in
        after_next p r after fresh (newest_hash page.entries)
          (page_outcome lib start.watermark page).next at (page_split p r page at fetched at)
          (page-IsNewest lib start.watermark page)
          (All-append (IsDone lib turns after.landed) at.done fresh
            (still-IsDone r after at.done lands at.handled)
            (in_turn lib turns turn after.landed fresh mine handled))
          saved

    -- What a page that succeeds has handled.
    abbrev Minted : Position → Relayer → Relayer × Result Failure PageOutcome → Type 0
    Minted p r minted =
        (outcome : PageOutcome) → minted.1 ≡ ok outcome → PageLanded lib turn r p minted.0.landed

    page_step :
        (p : Position) (r : Relayer) (minted : Relayer × Result Failure PageOutcome)
        → At lib turns json source start p r
        → TakesPage lib turn r p.resume start.watermark minted
        → Minted p r minted
        → StepsTo (save_page_outcome lib json turn p minted)
    page_step p r (after, err e) at takes lands =
        interrupted p r after at
          (subst (λ f. read_state json f ≡ ok (state_of p)) (sym takes.0) at.saved) takes.2
    page_step p r (after, ok outcome) at takes lands =
        let (page, fetched, shape) = takes.3 outcome refl in
        let saved = subst (λ f. read_state json f ≡ ok (state_of p)) (sym takes.0) at.saved in
        let end = save_progress json turn after p (after_page p outcome) in
        let (kept, sized, ways) =
          save_progress-SavesTo json turn after p (after_page p outcome) law saved in
        let more : Lands r end.0 = (takes.2.0, kept ∙ takes.2.1) in
        let handled : All (IsHandled lib turn end.0.landed) (above start.watermark page.entries) =
          subst (λ m. All (IsHandled lib turn end.0.landed) (above m page.entries)) at.watermark
            (subst (λ l. All (IsHandled lib turn l) (above p.watermark page.entries)) (sym kept)
              (page-IsHandled lib turn after.landed r p page fetched (lands outcome refl))) in
        elim ways [
          | inr (e, failed, file) ↦ steps end (err e) failed (interrupted p r end.0 at file more)
          | inl (went, file) ↦ steps end (ok (after_page p outcome).0) went (
              subst
                (λ o.
                  read_state json end.0.file ≡ ok (after_page p o).1
                  → StepsTo (end.0, ok (after_page p o).0))
                (sym shape) (after_outcome p r end.0 page at fetched more handled) file)
        ]

    -- Making later pages smaller changes nothing of this.
    note_failure-StepsTo :
        (end : Relayer × Result Failure (Option Position))
        → StepsTo end
        → StepsTo (note_failure lib json end)
    note_failure-StepsTo (after, ok next) t = t
    note_failure-StepsTo (after, err e) t = elim (Bool-cases e.expired_submission) [
      | inl q ↦ rw q t
      | inr q ↦ rw q t
    ]

    pub run_page-StepsTo :
        (p : Position) (r : Relayer)
        → At lib turns json source start p r
        → StepsTo (run_page lib json turn r p)
    unfolding run_page finish_page
    run_page-StepsTo p r at = note_failure-StepsTo (finish_page lib json turn r p) (
        page_step p r (process_page lib turn r p.resume p.watermark) at
          (subst
            (λ m. TakesPage lib turn r p.resume m (process_page lib turn r p.resume p.watermark))
            at.watermark (process_page-TakesPage lib turn r p.resume p.watermark))
          (process_page-landed lib turn r p))

  pub Over-Covers : (after : Relayer) → Over after → Covers lib turns json source start after
  Over-Covers after (state, saved, finished, mark, handled) =
      (state, saved, inl (finished, mark, handled))

  pub idle :
      (p : Position) (r : Relayer)
      → At lib turns json source start p r
      → Covers lib turns json source start r
  idle p r at = interrupted p r r at at.saved ([], sym (append-nil r.landed))
