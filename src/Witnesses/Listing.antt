-- ===== src/Witnesses/Listing.antt =====
-- Concrete cases of the theorems on what operators see.
use miden_usdcx.Prelude.{ℕ, ◌≡◌, ◌⊎◌, refl, some, none, List, [], ◌∷◌, map, ok, arith}
use miden_usdcx.Submission.{SavedSubmission, held, http_rejected}
use miden_usdcx.Sql.{find, select, order_by, insert_by}
use miden_usdcx.Sql.Apart.{Apart}
use miden_usdcx.Sql.Ascending.{by_key}
use miden_usdcx.Store.{Store, BurnRow, Event, prepare_rejected}
use miden_usdcx.Store.History.{max_seq}
use miden_usdcx.Store.Holds.{hold_event, revision}
use miden_usdcx.Store.Listing.{
  HoldEntry, burn_hold, withdrawal_hold, row_note, latest_hold, held_burn, held_burns, held_rows,
  read_hold, read_holds, is_unfinished, progress,
}
use miden_usdcx.Store.Listing.Pages.{Follows, list_holds-Follows}
use miden_usdcx.Store.Listing.Unfinished.{LeadsIn, progress-IsOldest}
use miden_usdcx.Witnesses.Data.{request, burn_row, with_burn}

abbrev held_row : BurnRow
held_row = record burn_row { hold_reason = some prepare_rejected }

abbrev other_row : BurnRow
other_row = record burn_row { note_id = 4; nullifier = 40 }

abbrev held_request : SavedSubmission
held_request = record request {
  note_id = 4;
  status = held;
  hold_reason = some http_rejected;
  last_http_status = some 403;
}

abbrev hold_of : ℕ → ℕ → Event
hold_of seq k = hold_event seq 1000 k prepare_rejected (some (400, 1 ∷ []))

-- A held burn and a held withdrawal, of two notes.
abbrev store_with_holds : Store
store_with_holds = record with_burn {
  burns = held_row ∷ other_row ∷ [];
  submissions = held_request ∷ [];
  events = hold_of 1 4 ∷ hold_of 2 5 ∷ [];
}

abbrev entries : List HoldEntry
entries =
    record {
      row = record {
        note_id = 4;
        held_by = withdrawal_hold (some http_rejected);
        http_status = some 403;
        response = none;
      };
      event_seq = 1;
    }
    ∷ record {
      row = record {
        note_id = 5;
        held_by = burn_hold prepare_rejected;
        http_status = some 400;
        response = some (1 ∷ []);
      };
      event_seq = 2;
    }
    ∷ []

held_rows-Apart : Apart row_note (held_rows store_with_holds)
unfolding held_rows held_burns held_burn latest_hold select
held_rows-Apart = ((λ q. ground arith, tt), (tt, tt))

all_read :
    read_holds store_with_holds (order_by (by_key row_note) (held_rows store_with_holds))
    ≡ ok entries
unfolding held_rows held_burns held_burn latest_hold select order_by insert_by find max_seq revision
    read_holds read_hold hold_event
all_read = refl

list_holds-Follows_example :
    Follows store_with_holds none entries
    × (map (λ (e : HoldEntry). e.row) entries
        ≡ order_by (by_key row_note) (held_rows store_with_holds))
list_holds-Follows_example = list_holds-Follows store_with_holds entries held_rows-Apart all_read

progress-IsOldest_example :
    (((progress with_burn).oldest_unfinished_burn ≡ none)
      × ((progress with_burn).burns_unfinished ≡ 0))
    ⊎ ((n : ℕ) × ((progress with_burn).oldest_unfinished_burn ≡ some n)
        × LeadsIn (is_unfinished with_burn) with_burn.burns n)
progress-IsOldest_example = progress-IsOldest with_burn
