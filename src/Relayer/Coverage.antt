-- ===== src/Relayer/Coverage.antt =====
-- No entry of the feed is passed over by the scan of crates/xreserve-deposit-relayer/src/lib.rs, however it is
-- interrupted.
use mathlib.Core.List.{Memᴰ}
use mathlib.Core.List.Memᴰ.{head, tail}
use miden_usdcx.Prelude.{
  ℕ, ◌≡◌, refl, sym, ap, ◌∙◌, subst, Bool, true, false, inl, inr, Option, none, some, List, [], ◌∷◌,
  All, Bool-cases, Result, ok, err,
}
use miden_usdcx.Relayer.{RelayLibraries, Failure}
use miden_usdcx.Relayer.Progress.{
  ScanProgress, State, StateJson, Position, from_state, read_state, state_of-from_state,
}
use miden_usdcx.Relayer.Minting.{PageTurn, Relayer, above}
use miden_usdcx.Relayer.Scan.{ScanOutcome, complete, stopped, run_page, scan_from, scan, after_run}
use miden_usdcx.Relayer.Served.{Source, from_cursor, IsServed}
use miden_usdcx.Relayer.Restart.{IsJson}
use miden_usdcx.Relayer.Newest.{or_nothing}
use miden_usdcx.Relayer.Walk.{Covers, At}
use miden_usdcx.Relayer.PageCoverage.{Over, StepsTo, Over-Covers, idle, run_page-StepsTo}

module _ (lib : RelayLibraries) (all_turns : List PageTurn) (json : StateJson) (source : Source)
    (start : State) where
  -- Where a scan ends: it covers what it was to take, all of it if it completes.
  abbrev pub ScansTo : Relayer × Result Failure ScanOutcome → Type 0
  ScansTo end =
      Covers lib all_turns json source start end.0
      × (end.1 ≡ ok complete → Over lib all_turns json source start end.0)

  module _ (law : IsJson json) where
    after_run-ScansTo :
        (stop_after : Bool) (go_on : Relayer → Position → Relayer × Result Failure ScanOutcome)
        (end : Relayer × Result Failure (Option Position))
        → ((p : Position) (r : Relayer)
            → At lib all_turns json source start p r
            → ScansTo (go_on r p))
        → StepsTo lib all_turns json source start end
        → ScansTo (after_run lib json stop_after go_on end)
    after_run-ScansTo stop_after go_on (r, err e) each t = (t, λ h. absurd cc)
    after_run-ScansTo true go_on (r, ok none) each t =
        (Over-Covers lib all_turns json source start r t, λ h. absurd cc)
    after_run-ScansTo true go_on (r, ok (some p)) each t =
        (idle lib all_turns json source start p r t, λ h. absurd cc)
    after_run-ScansTo false go_on (r, ok none) each t =
        (Over-Covers lib all_turns json source start r t, λ h. t)
    after_run-ScansTo false go_on (r, ok (some p)) each t = each p r t

    scan_from-ScansTo :
        (turns : List PageTurn) (p : Position) (r : Relayer)
        → ((t : PageTurn) → Memᴰ t turns → Memᴰ t all_turns)
        → All (IsServed lib source) turns
        → At lib all_turns json source start p r
        → ScansTo (scan_from lib json turns r p)
    unfolding scan_from
    scan_from-ScansTo [] p r mine served at =
        (idle lib all_turns json source start p r at, λ h. absurd cc)
    scan_from-ScansTo (turn ∷ turns) p r mine served at = elim (Bool-cases turn.stop_before) [
      | inl e ↦
          let q : (r, ok stopped) ≡ scan_from lib json (turn ∷ turns) r p =
            rw (e, scan_from) refl in
          subst ScansTo q (idle lib all_turns json source start p r at, λ h. absurd cc)
      | inr e ↦
          let go_on = λ (after : Relayer) (p' : Position). scan_from lib json turns after p' in
          let q : after_run lib json turn.stop_after go_on (run_page lib json turn r p)
              ≡ scan_from lib json (turn ∷ turns) r p =
            rw (e, scan_from) refl in
          subst ScansTo q (
            after_run-ScansTo turn.stop_after go_on (run_page lib json turn r p)
              (λ p' r' at'. scan_from-ScansTo turns p' r' (λ t m. mine t (tail m)) served.1 at')
              (run_page-StepsTo lib all_turns json source start law turn (mine turn (head refl))
                served.0 p r at))
    ]

from_state-fields :
    (s : State)
    → ((from_state s).watermark ≡ s.watermark)
      × ((from_state s).head ≡ none → (from_state s).resume ≡ none)
unfolding from_state
from_state-fields s = fields s.watermark s.scan
  where
    fields :
        (wm : Option ℕ) (progress : Option ScanProgress)
        → (let p = from_state (record { watermark = wm; scan = progress }) in
            (p.watermark ≡ wm) × (p.head ≡ none → p.resume ≡ none))
    fields wm none = (refl, λ h. refl)
    fields wm (some progress) = (refl, λ h. absurd cc)

-- A scan whose pages Circle serves from one feed, from a saved state that can be read, leaves a
-- saved state that can be read, and passes over nothing: the entries above the watermark that it
-- was to take are entries that are done followed by those that a scan from the state it leaves is
-- to take. If it completes, all of them are done, the state names no place to resume at, and its
-- watermark is the head that the saved state had, or else the newest hash of those entries, or else
-- the watermark before. An entry is done if no note can be built for it, or its note is on chain, or the node was asked
-- about its nonce in one of the scan's turns and did not report it as unminted. This holds wherever
-- a page fails, the progress cannot be written, or the process is stopped, if the JSON of the
-- progress reads back.
pub scan-ScansTo :
    (lib : RelayLibraries) (json : StateJson) (source : Source) (turns : List PageTurn)
    (r : Relayer) (start : State)
    → IsJson json
    → All (IsServed lib source) turns
    → read_state json r.file ≡ ok start
    → ScansTo lib turns json source start (scan lib json turns r)
unfolding scan
scan-ScansTo lib json source turns r start law served h =
    let p = from_state start in
    let (mark, restart) = from_state-fields start in
    let q : scan_from lib json turns r p ≡ scan lib json turns r = rw (h, scan) refl in
    subst (ScansTo lib turns json source start) q (
      scan_from-ScansTo lib turns json source start law turns p r (λ t m. m) served
        (record {
          watermark = mark;
          saved = h ∙ ap ok (sym (state_of-from_state start));
          done = [];
          split = refl;
          handled = tt;
          head = or_nothing (from_state start).head;
          restart = λ e. ap (λ c. above start.watermark (from_cursor source c)) (restart e);
        }))
