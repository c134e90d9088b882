-- ===== src/Witnesses/ProgressFile.antt =====
-- A text form of the relayer's state, and the theorem on the progress file at it.
use Prim.Native.Char.{char, code}
use miden_usdcx.Prelude.{
  ℕ, zero, suc, String, Bool, ◌≡◌, refl, ap, true, false, none, some, Option, ◌==◌, if◌then◌else◌,
}
use miden_usdcx.Relayer.Progress.{ScanProgress, State, StateJson, FileAnswers}
use miden_usdcx.Relayer.Restart.{IsJson}

-- A number in unary, ended by a dot, before a text.
unfoldable pub write_number : ℕ → String → String
write_number zero rest = String.◌∷◌ (char 46 tt) rest
write_number (suc n) rest = String.◌∷◌ (char 73 tt) (write_number n rest)

abbrev one_more : Option (ℕ × String) → Option (ℕ × String)
one_more none = none
one_more (some (n, rest)) = some (suc n, rest)

unfoldable pub read_number : String → Option (ℕ × String)
read_number String.[] = none
read_number (String.◌∷◌ c s) =
    let later = read_number s in if code c == 46 then some (0, s) else one_more later

read-write_number : (n : ℕ) (rest : String) → read_number (write_number n rest) ≡ some (n, rest)
unfolding write_number read_number
read-write_number zero rest = refl
read-write_number (suc n) rest = ap one_more (read-write_number n rest)

abbrev number_of : Option ℕ → ℕ
number_of none = 0
number_of (some n) = suc n

abbrev option_of : ℕ → Option ℕ
option_of zero = none
option_of (suc n) = some n

abbrev write_parts : Option ℕ → Option ScanProgress → String
write_parts watermark none = write_number (number_of watermark) (write_number 0 "")
write_parts watermark (some p) =
    write_number (number_of watermark) (write_number (suc p.head) p.resume)

abbrev parse_scan : Option ℕ → Option (ℕ × String) → Option State
parse_scan watermark none = none
parse_scan watermark (some (zero, rest)) = some (record { watermark = watermark; scan = none })
parse_scan watermark (some (suc head, rest)) =
    some (record { watermark = watermark; scan = some (record { head = head; resume = rest }) })

abbrev parse_state : Option (ℕ × String) → Option State
parse_state none = none
parse_state (some (n, rest)) = parse_scan (option_of n) (read_number rest)

abbrev is_empty : String → Bool
is_empty String.[] = true
is_empty (String.◌∷◌ c s) = false

abbrev pub json : StateJson
json = record {
  to_vec_pretty = λ state. write_parts state.watermark state.scan;
  from_str = λ text. parse_state (read_number text);
  is_blank = is_empty;
}

option-number : (o : Option ℕ) → option_of (number_of o) ≡ o
option-number none = refl
option-number (some n) = refl

not_blank : (n : ℕ) (rest : String) → is_empty (write_number n rest) ≡ false
unfolding write_number
not_blank zero rest = refl
not_blank (suc n) rest = refl

reads_parts :
    (watermark : Option ℕ) (scan : Option ScanProgress)
    → json.from_str (write_parts watermark scan)
      ≡ some (record { watermark = watermark; scan = scan })
reads_parts watermark none =
    rw
      (
        read-write_number (number_of watermark) (write_number 0 ""),
        read-write_number 0 "",
        option-number watermark,
      )
      refl
reads_parts watermark (some p) =
    rw
      (
        read-write_number (number_of watermark) (write_number (suc p.head) p.resume),
        read-write_number (suc p.head) p.resume,
        option-number watermark,
      )
      refl

blank_parts :
    (watermark : Option ℕ) (scan : Option ScanProgress)
    → json.is_blank (write_parts watermark scan) ≡ false
blank_parts watermark none = not_blank (number_of watermark) (write_number 0 "")
blank_parts watermark (some p) =
    not_blank (number_of watermark) (write_number (suc p.head) p.resume)

pub json-IsJson : IsJson json
json-IsJson = record {
  reads_back = λ s. reads_parts s.watermark s.scan;
  not_blank = λ s. blank_parts s.watermark s.scan;
}

abbrev walking : State
walking = record { watermark = some 7; scan = some (record { head = 9; resume = "c1" }) }

-- The disk of a first run, and a write of which every operation succeeds.
abbrev succeeds : FileAnswers
succeeds = record { creates = true; torn = none; syncs = true; renames = true }
