-- ===== src/Relayer/Scan.antt =====
-- `scan`, `run_page` and `finish_page` of crates/xreserve-deposit-relayer/src/lib.rs: one pass over the
-- part of the feed that is newer than the watermark.
use miden_usdcx.Prelude.{
  Bool, true, false, Option, none, some, List, [], ◌∷◌, if◌then◌else◌, Result, ok, err,
}
use miden_usdcx.Relayer.{Failure, RelayLibraries}
use miden_usdcx.Relayer.Feed.{limit_to_local_proving}
use miden_usdcx.Relayer.Progress.{
  State, StateJson, Position, from_state, state_of, state_eq, read_state, set_state,
}
use miden_usdcx.Relayer.Minting.{PageTurn, Relayer, PageOutcome, process_page}

pub data ScanOutcome : Type 0 where
  complete stopped : ScanOutcome

-- `Option::or`
abbrev pub or : {A : Type 0} → Option A → Option A → Option A
or none other = other
or (some a) other = some a

-- Where the scan goes on from, and the progress to save. The watermark moves only when the walk
-- reaches its end.
unfoldable pub after_page : Position → PageOutcome → Option Position × State
after_page position outcome =
    let head = or position.head outcome.newest in
    elim outcome.next [
      | some resume ↦
          let next : Position = record {
            watermark = position.watermark;
            head = head;
            resume = some resume;
          } in
          (some next, state_of next)
      | none ↦ (none, record { watermark = or head position.watermark; scan = none })
    ]

module _ (json : StateJson) where
  -- A state that did not change is not written again.
  unfoldable pub save_progress :
      PageTurn
      → Relayer
      → Position
      → Option Position × State
      → Relayer × Result Failure (Option Position)
  save_progress turn r position (next, saved) =
      if state_eq saved (state_of position)
      then (r, ok next)
      else let (file, written) = set_state json turn.answers r.file saved in
        (record r { file = file }, elim written [ ok _ ↦ ok next | err e ↦ err e ])

module _ (lib : RelayLibraries) (json : StateJson) where
  abbrev pub save_page_outcome :
      PageTurn
      → Position
      → Relayer × Result Failure PageOutcome
      → Relayer × Result Failure (Option Position)
  save_page_outcome turn position (r, err e) = (r, err e)
  save_page_outcome turn position (r, ok outcome) =
      save_progress json turn r position (after_page position outcome)

  unfoldable pub finish_page :
      PageTurn → Relayer → Position → Relayer × Result Failure (Option Position)
  finish_page turn r position =
      save_page_outcome turn position (process_page lib turn r position.resume position.watermark)

  -- An expired transaction makes later pages smaller.
  abbrev pub note_failure :
      Relayer × Result Failure (Option Position) → Relayer × Result Failure (Option Position)
  note_failure (r, ok next) = (r, ok next)
  note_failure (r, err e) =
      if e.expired_submission
      then (record r { page_size = (limit_to_local_proving r.page_size).0 }, err e)
      else (r, err e)

  unfoldable pub run_page :
      PageTurn → Relayer → Position → Relayer × Result Failure (Option Position)
  unfolding finish_page
  run_page turn r position = note_failure (finish_page turn r position)

  -- What the loop does after a page.
  abbrev pub after_run :
      Bool
      → (Relayer → Position → Relayer × Result Failure ScanOutcome)
      → Relayer × Result Failure (Option Position)
      → Relayer × Result Failure ScanOutcome
  after_run stop_after go_on (r, err e) = (r, err e)
  after_run true go_on (r, ok next) = (r, ok stopped)
  after_run false go_on (r, ok none) = (r, ok complete)
  after_run false go_on (r, ok (some p)) = go_on r p

  -- The loop, one turn for each page; running out of turns is a process that was stopped.
  unfoldable pub scan_from :
      List PageTurn → Relayer → Position → Relayer × Result Failure ScanOutcome
  unfolding run_page
  scan_from [] r position = (r, ok stopped)
  scan_from (turn ∷ turns) r position =
      if turn.stop_before
      then (r, ok stopped)
      else after_run turn.stop_after (λ after p. scan_from turns after p) (run_page turn r position)

  unfoldable pub scan : List PageTurn → Relayer → Relayer × Result Failure ScanOutcome
  unfolding scan_from
  scan turns r = elim (read_state json r.file) [
    | err e ↦ (r, err e)
    | ok state ↦ scan_from turns r (from_state state)
  ]
