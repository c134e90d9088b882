-- ===== src/Relayer/Progress.antt =====
-- crates/xreserve-deposit-relayer/src/store.rs, and `Position` of lib.rs: how far the scan of the feed
-- got, in one file, which is absent before the first write.
use miden_usdcx.Prelude.{
  ℕ, String, Bool, true, false, ◌&&◌, ◌==◌, ◌≡◌, refl, str_eq, option_eq, Option, none, some,
  if◌then◌else◌, Result, ok, err,
}
use miden_usdcx.Telemetry.{actionable}
use miden_usdcx.Relayer.{Failure}
use miden_usdcx.Relayer.Feed.{fail}

pub record ScanProgress : Type 0 where
  pub head : ℕ
  pub resume : String

pub record State : Type 0 where
  pub watermark : Option ℕ
  pub scan : Option ScanProgress

-- The JSON library at this type, and `trim().is_empty()`.
pub record StateJson : Type 0 where
  pub to_vec_pretty : State → String
  pub from_str : String → Option State
  pub is_blank : String → Bool

abbrev pub first_run : State
first_run = record { watermark = none; scan = none }

-- A file's text, and whether it outlives a crash of the host.
pub record Contents : Type 0 where
  pub text : String
  pub durable : Bool

-- The real file, and its sibling with the extension `tmp`.
pub record Disk : Type 0 where
  pub real : Option Contents
  pub temporary : Option Contents

abbrev pub empty_disk : Disk
empty_disk = record { real = none; temporary = none }

-- What the operating system answers to each operation of one write. `torn` is the part that a write
-- which fails leaves behind.
pub record FileAnswers : Type 0 where
  pub creates : Bool
  pub torn : Option String
  pub syncs : Bool
  pub renames : Bool

abbrev pub FileResult : Type 0
FileResult = Disk × Result Failure (Unit {0})

abbrev pub progress_failed : Disk → FileResult
progress_failed disk = (disk, err (fail (actionable "progress_file")))

-- `fs::File::create`, which empties a file that is there.
unfoldable pub create_tmp : Bool → Disk → FileResult
create_tmp false disk = progress_failed disk
create_tmp true disk =
    (record disk { temporary = some (record { text = ""; durable = false }) }, ok tt)

-- `file.write_all`
unfoldable pub write_all : Option String → String → Disk → FileResult
write_all (some part) text disk =
    progress_failed (record disk { temporary = some (record { text = part; durable = false }) })
write_all none text disk =
    (record disk { temporary = some (record { text = text; durable = false }) }, ok tt)

abbrev pub make_durable : Option Contents → Option Contents
make_durable none = none
make_durable (some c) = some (record c { durable = true })

-- `file.sync_all`
unfoldable pub sync_all : Bool → Disk → FileResult
sync_all false disk = progress_failed disk
sync_all true disk = (record disk { temporary = make_durable disk.temporary }, ok tt)

-- `fs::rename`, which is atomic.
unfoldable pub rename : Bool → Disk → FileResult
rename false disk = progress_failed disk
rename true disk = (record { real = disk.temporary; temporary = none }, ok tt)

-- `?`
abbrev pub and_then : FileResult → (Disk → FileResult) → FileResult
and_then (disk, err e) f = (disk, err e)
and_then (disk, ok _) f = f disk

module _ (json : StateJson) where
  -- `Store::state`. A file that cannot be read fails like one that is not the JSON of a state.
  unfoldable pub read_state : Disk → Result Failure State
  read_state disk = elim disk.real [
    | none ↦ ok first_run
    | some c ↦ if json.is_blank c.text then ok first_run else elim (json.from_str c.text) [
      | none ↦ err (fail (actionable "progress_file"))
      | some state ↦ ok state
    ]
  ]

  -- `Store::set_state`: a sibling file is written and synced, then renamed over the real one. A
  -- process that is killed before an operation leaves the disk that a failure of it leaves.
  unfoldable pub set_state : FileAnswers → Disk → State → FileResult
  unfolding create_tmp write_all sync_all rename
  set_state answers disk state =
      let encoded = json.to_vec_pretty state in
      let created = create_tmp answers.creates disk in
      let written = and_then created (λ d. write_all answers.torn encoded d) in
      let synced = and_then written (λ d. sync_all answers.syncs d) in
      and_then synced (λ d. rename answers.renames d)

-- `PartialEq` of the derived types.
abbrev pub progress_eq : ScanProgress → ScanProgress → Bool
progress_eq a b = a.head == b.head && str_eq a.resume b.resume

abbrev pub state_eq : State → State → Bool
state_eq a b =
    option_eq (λ m n. m == n) a.watermark b.watermark && option_eq progress_eq a.scan b.scan

-- Where a scan stands between two of its pages.
pub record Position : Type 0 where
  pub watermark : Option ℕ
  pub head : Option ℕ
  pub resume : Option String

unfoldable pub from_state : State → Position
from_state state = elim state.scan [
  | none ↦ record { watermark = state.watermark; head = none; resume = none }
  | some scan ↦ record {
    watermark = state.watermark;
    head = some scan.head;
    resume = some scan.resume;
  }
]

-- `head.zip(resume)`: a walk that has met no readable hash has no progress to save.
abbrev pub progress_of : Option ℕ → Option String → Option ScanProgress
progress_of (some head) (some resume) = some (record { head = head; resume = resume })
progress_of _ _ = none

unfoldable pub state_of : Position → State
state_of p = record { watermark = p.watermark; scan = progress_of p.head p.resume }

kept_scan :
    (watermark : Option ℕ) (scan : Option ScanProgress)
    → state_of (from_state (record { watermark = watermark; scan = scan }))
      ≡ record { watermark = watermark; scan = scan }
unfolding state_of from_state
kept_scan watermark none = refl
kept_scan watermark (some scan) = refl

-- The progress that a position read from a state saves is that state.
pub state_of-from_state : (s : State) → state_of (from_state s) ≡ s
state_of-from_state s = kept_scan s.watermark s.scan
