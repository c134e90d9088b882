-- ===== src/Relayer/Minting.antt =====
-- `Minter::build_notes` of crates/xreserve-deposit-relayer/src/mint.rs and `process_page` of lib.rs:
-- one page minted.
use miden_usdcx.Prelude.{
  ℕ, Bool, false, ◌==◌, Option, none, some, List, [], ◌∷◌, ◌++◌, map, any, option_eq, if◌then◌else◌,
  String, Result, ok, err,
}
use miden_usdcx.Sql.{select}
use miden_usdcx.Relayer.{
  Entry, attestation, undecodable, message_hash, Page, Failure, MintNote, RelayLibraries,
}
use miden_usdcx.Relayer.Feed.{PageResponse, fetch_page}
use miden_usdcx.Relayer.Progress.{Disk, FileAnswers}
use miden_usdcx.Relayer.Unminted.{Waiting, contains, nonces, submitted, retain}

-- What surrounds one page: whether shutdown was asked for before and after it, Circle's answer by
-- page size and cursor, the node's client, what the operating system answers to the write of the
-- progress file, the serial numbers that the note builder draws, and the time.
pub record PageTurn : Type 0 where
  pub stop_before : Bool
  pub stop_after : Bool
  pub get : ℕ → Option String → Option PageResponse
  pub retain_unminted : List ℕ → Result Failure (List ℕ)
  pub submit_notes : List MintNote → Result Failure ℕ
  pub answers : FileAnswers
  pub serial_number : Entry → ℕ
  pub now : ℕ

-- The running relayer: its progress file, the page size, the deposits it watches, and the notes that
-- it put on chain, oldest first.
pub record Relayer : Type 0 where
  pub file : Disk
  pub page_size : ℕ
  pub unminted : Waiting
  pub landed : List MintNote

pub record BuiltNotes : Type 0 where
  pub notes : List MintNote
  pub skipped : List (Option ℕ)

pub record PageOutcome : Type 0 where
  pub newest : Option ℕ
  pub next : Option String

-- `option == Some(hash)`
abbrev pub is_watermark : Option ℕ → Entry → Bool
is_watermark watermark e = elim (message_hash e) [
  | none ↦ false
  | some hash ↦ option_eq (λ a b. a == b) (some hash) watermark
]

-- The entries above the watermark, and whether it was met: `position`, and the slice before it.
unfoldable pub above : Option ℕ → List Entry → List Entry
above watermark [] = []
above watermark (e ∷ es) =
    let rest = above watermark es in if is_watermark watermark e then [] else e ∷ rest

unfoldable pub reaches : Option ℕ → List Entry → Bool
reaches watermark es = any (is_watermark watermark) es

-- `find_map(Entry::message_hash)`
unfoldable pub newest_hash : List Entry → Option ℕ
newest_hash [] = none
newest_hash (e ∷ es) = elim (message_hash e) [ none ↦ newest_hash es | some hash ↦ some hash ]

abbrev pub empty_notes : BuiltNotes
empty_notes = record { notes = []; skipped = [] }

module _ (lib : RelayLibraries) where
  unfoldable pub build_note : Entry → ℕ → Option MintNote
  build_note (attestation a) serial = lib.note_of a serial
  build_note (undecodable position hash reason) serial = none

  -- An entry that does not decode or does not build is skipped.
  unfoldable pub build_notes : (Entry → ℕ) → List Entry → BuiltNotes
  unfolding build_note
  build_notes serial [] = empty_notes
  build_notes serial (e ∷ es) =
      let rest = build_notes serial es in
      elim (build_note e (serial e)) [
        | some note ↦ record rest { notes = note ∷ rest.notes }
        | none ↦ record rest { skipped = message_hash e ∷ rest.skipped }
      ]

  abbrev pub note_nonces : List MintNote → List ℕ
  note_nonces notes = map (λ n. n.nonce) notes

  -- The notes of deposits that the faucet has not minted.
  unfoldable pub still_unminted : List ℕ → List MintNote → List MintNote
  still_unminted unminted notes = select (λ n. contains n.nonce unminted) notes

  -- The notes go on chain in one transaction, if there are any.
  unfoldable pub submit_page :
      PageTurn → Relayer → List MintNote → Relayer × Result Failure (Unit {0})
  submit_page turn r [] = (r, ok tt)
  submit_page turn r (n ∷ ns) = elim (turn.submit_notes (n ∷ ns)) [
    | err e ↦ (r, err e)
    | ok transaction ↦ (
      record r {
        landed = r.landed ++ n ∷ ns;
        unminted = submitted r.unminted (note_nonces (n ∷ ns)) turn.now;
      },
      ok tt,
    )
  ]

  abbrev pub page_outcome : Option ℕ → Page → PageOutcome
  page_outcome watermark page = record {
    newest = newest_hash page.entries;
    next = if reaches watermark page.entries then none else page.next;
  }

  -- With the page fetched and its notes built.
  unfoldable pub mint_page :
      PageTurn → Relayer → List MintNote → Relayer × Result Failure (Unit {0})
  unfolding submit_page still_unminted
  mint_page turn r notes = elim (turn.retain_unminted (note_nonces notes ++ nonces r.unminted)) [
    | err e ↦ (r, err e)
    | ok unminted ↦
        submit_page turn (record r { unminted = retain r.unminted unminted })
          (still_unminted unminted notes)
  ]

  abbrev pub finish_minting :
      Option ℕ → Page → Relayer × Result Failure (Unit {0}) → Relayer × Result Failure PageOutcome
  finish_minting watermark page (r, err e) = (r, err e)
  finish_minting watermark page (r, ok _) = (r, ok (page_outcome watermark page))

  unfoldable pub process_page :
      PageTurn → Relayer → Option String → Option ℕ → Relayer × Result Failure PageOutcome
  unfolding build_notes mint_page
  process_page turn r resume watermark =
      elim (fetch_page lib r.page_size (turn.get r.page_size resume)) [
        | err e ↦ (r, err e)
        | ok page ↦
            let fresh = above watermark page.entries in
            finish_minting watermark page
              (mint_page turn r (build_notes turn.serial_number fresh).notes)
      ]
