-- ===== src/Witnesses/Relayer.antt =====
-- Concrete cases of the theorems on the deposit relayer: a feed of two pages.
use miden_usdcx.Prelude.{
  err, ℕ, zero, suc, String, ◌≡◌, ◌≢◌, refl, ap, subst, true, false, none, some, Option, List, [],
  ◌∷◌, ok, arith, if◌then◌else◌, bytes_eq, ◌++◌, ◌<◌, leb, length,
}
use miden_usdcx.Sql.{find, select}
use miden_usdcx.Sql.Laws.{Unique}
use miden_usdcx.Relayer.{message_hash, Attestation, Entry, attestation, RelayLibraries, Page}
use miden_usdcx.Relayer.Feed.{
  PageResponse, fetch_page, read_body, decode_page, decode_entry, decode_entries, parse_next_link,
  page_after, token_of,
}
use miden_usdcx.Relayer.Progress.{
  from_state, state_of, read_state, set_state, Position, Disk, empty_disk,
}
use miden_usdcx.Relayer.Unminted.{submitted}
use miden_usdcx.Relayer.Minting.{process_page, above, reaches, newest_hash, PageTurn, Relayer}
use miden_usdcx.Relayer.Scan.{save_progress, after_page, scan, complete, finish_page}
use miden_usdcx.Relayer.Served.{Source, IsServed, Continues}
use miden_usdcx.Relayer.Fetched.{IsFetched, fetch_page-IsFetched}
use miden_usdcx.Relayer.Node.{Poll, rpc_error, committed, await_inclusion}
use miden_usdcx.Relayer.Node.Wait.{IsLate, Settles, await_inclusion-Settles}
use miden_usdcx.Relayer.Turns.{GoesOn}
use miden_usdcx.Relayer.Coverage.{ScansTo, scan-ScansTo}
use miden_usdcx.Relayer.Completion.{scan-complete}
use miden_usdcx.Relayer.Landed.{PageLanded, finish_page-landed}
use miden_usdcx.Relayer.Watch.{nonce_key, Watches, submitted_lem}
use miden_usdcx.Witnesses.ProgressFile.{json, json-IsJson}

-- Two deposits: the newer one is the first page.
abbrev newer : Attestation
newer = record { payload = 9 ∷ []; message_hash = 9; signature = [] }

abbrev older : Attestation
older = record { payload = 8 ∷ []; message_hash = 8; signature = [] }

-- The body [1] is the first page, and any other body the second.
abbrev relay : RelayLibraries
relay = record {
  list_response = λ body. some (
      (record {
        attestation = some (if bytes_eq body (1 ∷ []) then newer else older);
        message_hash = none;
        reason = "";
      })
      ∷ []);
  next_query = λ header. some (some (("pageAfter", "c1") ∷ []));
  note_of = λ a serial. some (record { nonce = a.message_hash; serial_number = serial });
}

abbrev source : Source
source = record {
  feed = attestation newer ∷ attestation older ∷ [];
  behind = λ cursor. attestation older ∷ [];
}

abbrev page_at : Option String → PageResponse
page_at none = record { status = 200; link = some (some "next"); chunks = some (1 ∷ []) ∷ [] }
page_at (some cursor) = record { status = 200; link = none; chunks = some (2 ∷ []) ∷ [] }

abbrev turn : PageTurn
turn = record {
  stop_before = false;
  stop_after = false;
  get = λ size resume. some (page_at resume);
  retain_unminted = λ asked. ok asked;
  submit_notes = λ notes. ok 1;
  answers = record { creates = true; torn = none; syncs = true; renames = true };
  serial_number = λ e. 1;
  now = 100;
}

abbrev first_page : Page
first_page = record { entries = attestation newer ∷ []; next = some "c1" }

abbrev last_page : Page
last_page = record { entries = attestation older ∷ []; next = none }

abbrev page_of : Option String → Page
page_of none = first_page
page_of (some cursor) = last_page

-- A page of any size but zero is served.
fetches :
    (size : ℕ) (resume : Option String)
    → fetch_page relay (suc size) (turn.get (suc size) resume) ≡ ok (page_of resume)
unfolding fetch_page read_body decode_page decode_entries decode_entry parse_next_link page_after
    token_of bytes_eq
fetches size none = let e : leb 1 (suc size) ≡ true = ground arith in rw e refl
fetches size (some cursor) = let e : leb 1 (suc size) ≡ true = ground arith in rw e refl

only_page :
    (size : ℕ) (resume : Option String) (page : Page)
    → fetch_page relay size (turn.get size resume) ≡ ok page
    → page_of resume ≡ page
unfolding fetch_page read_body decode_page decode_entries decode_entry parse_next_link page_after
    token_of bytes_eq
only_page zero none page h = absurd cc
only_page zero (some cursor) page h = absurd cc
only_page (suc size) resume page h = let e = fetches size resume in cc

served : IsServed relay source turn
served size none page h =
    subst
      (λ p. (rest : List Entry) × (source.feed ≡ p.entries ++ rest) × Continues source p.next rest)
      (only_page size none page h) (attestation older ∷ [], refl, refl)
served size (some cursor) page h =
    subst
      (λ p.
        (rest : List Entry) × (source.behind cursor ≡ p.entries ++ rest)
        × Continues source p.next rest)
      (only_page size (some cursor) page h) ([], refl, refl)

abbrev idle : Relayer
idle = record { file = empty_disk; page_size = 10; unminted = []; landed = [] }

scan-ScansTo_example :
    ScansTo relay
      (turn ∷ turn ∷ turn ∷ [])
      json
      source
      (record { watermark = none; scan = none })
      (scan relay json (turn ∷ turn ∷ turn ∷ []) idle)
unfolding read_state
scan-ScansTo_example =
    scan-ScansTo relay json source (turn ∷ turn ∷ turn ∷ []) idle
      (record { watermark = none; scan = none }) json-IsJson (served, (served, (served, tt))) refl

has_entry : (resume : Option String) → 0 < length (page_of resume).entries
has_entry none = omega arith
has_entry (some cursor) = omega arith

goes_on : GoesOn relay source 10 turn
goes_on = record {
  runs_before = refl;
  runs_after = refl;
  served = served;
  fetches = λ resume. (page_of resume, fetches 9 resume);
  asks = λ asked. (asked, refl);
  submits = λ notes. (1, refl);
  writes = refl;
  not_empty = λ size resume page cursor h e.
      subst (λ (p : Page). 0 < length p.entries) (only_page size resume page h) (has_entry resume);
}

scan-complete_example : (scan relay json (turn ∷ turn ∷ turn ∷ []) idle).1 ≡ ok complete
unfolding read_state from_state
scan-complete_example =
    scan-complete relay json source 10 (turn ∷ turn ∷ turn ∷ []) idle
      (record { watermark = none; scan = none }) refl refl (goes_on, (goes_on, (goes_on, tt)))
      (omega arith)

abbrev head_place : Position
head_place = record { watermark = none; head = none; resume = none }

moved_run :
    (finish_page relay json turn idle head_place).0.file.real
    ≡ some (record {
      text =
          json.to_vec_pretty
            (record { watermark = none; scan = some (record { head = 9; resume = "c1" }) });
      durable = true;
    })
unfolding finish_page process_page fetch_page select above message_hash bytes_eq save_progress
    after_page reaches state_of newest_hash set_state
moved_run = refl

moved : (finish_page relay json turn idle head_place).0.file ≢ empty_disk
moved h = let e = ap (λ (d : Disk). d.real) h in let f = moved_run in cc

finish_page-landed_example :
    PageLanded relay turn idle head_place (finish_page relay json turn idle head_place).0.landed
finish_page-landed_example = finish_page-landed relay json turn idle head_place moved

submitted_lem_example :
    Unique nonce_key (submitted ((5, 1) ∷ []) (6 ∷ 5 ∷ 6 ∷ []) 2)
    × Watches ((5, 1) ∷ []) (6 ∷ 5 ∷ 6 ∷ []) 2 6 (submitted ((5, 1) ∷ []) (6 ∷ 5 ∷ 6 ∷ []) 2)
unfolding find
submitted_lem_example = submitted_lem ((5, 1) ∷ []) (6 ∷ 5 ∷ 6 ∷ []) 2 6 (refl, tt)

fetch_page-IsFetched_example : IsFetched relay 10 (turn.get 10 none) first_page
fetch_page-IsFetched_example =
    fetch_page-IsFetched relay 10 (turn.get 10 none) first_page (fetches 9 none)

-- A sync fails, then the transaction is seen in block 95.
abbrev lost_poll : Poll
lost_poll = record { sync = err (rpc_error false); seen = none }

abbrev landed_poll : Poll
landed_poll = record {
  sync = ok tt;
  seen = some (record { status = committed 95; expiration_block = 100; chain_tip = 100 });
}

lost-IsLate : IsLate lost_poll
lost-IsLate seen h = absurd cc

landed-IsLate : IsLate landed_poll
landed-IsLate seen h = ground (arith)

await_inclusion-Settles_example :
    Settles
      (lost_poll ∷ landed_poll ∷ landed_poll ∷ [])
      (await_inclusion 0 (lost_poll ∷ landed_poll ∷ landed_poll ∷ []))
await_inclusion-Settles_example =
    await_inclusion-Settles 0 (lost_poll ∷ landed_poll ∷ landed_poll ∷ []) (omega arith)
      (lost-IsLate, (landed-IsLate, (landed-IsLate, tt))) (omega arith)
