-- ===== src/Relayer/Restart.antt =====
-- The progress file of crates/xreserve-deposit-relayer/src/store.rs, written and read back.
use miden_usdcx.Prelude.{
  ℕ, String, ◌≡◌, ◌⊎◌, inl, inr, refl, ap, Bool, true, false, Option, none, some, arith, ok, err,
  option_eq, ◌==◌, str_eq_iff,
}
use miden_usdcx.Relayer.{Failure}
use miden_usdcx.Relayer.Progress.{
  ScanProgress, State, StateJson, Contents, Disk, FileAnswers, FileResult, state_eq, progress_eq,
  read_state, set_state,
}

-- The JSON library reads back what it wrote, and writes no blank file.
pub record IsJson (json : StateJson) : Type 0 where
  pub reads_back : (s : State) → json.from_str (json.to_vec_pretty s) ≡ some s
  pub not_blank : (s : State) → json.is_blank (json.to_vec_pretty s) ≡ false

-- The state was replaced and reads back, or the write failed and the real file is the one before it.
abbrev pub Replaces : StateJson → Disk → State → FileResult → Type 0
Replaces json before new end =
    ((end.1 ≡ ok tt) × (read_state json end.0 ≡ ok new))
    ⊎ ((e : Failure) × (end.1 ≡ err e) × (end.0.real ≡ before.real))

pub read-real :
    (json : StateJson) (a b : Disk) → a.real ≡ b.real → read_state json a ≡ read_state json b
unfolding read_state
read-real json a b e = rw e refl

new_state :
    (json : StateJson) (new : State)
    → IsJson json
    → read_state json (record {
      real = some (record { text = json.to_vec_pretty new; durable = true });
      temporary = none;
    })
      ≡ ok new
unfolding read_state
new_state json new law = ground (arith, law.reads_back new, law.not_blank new)

-- The real file outlives a crash of the host.
abbrev pub IsDurable : Option Contents → Type 0
IsDurable none = Unit
IsDurable (some c) = c.durable ≡ true

module _ (json : StateJson) (disk : Disk) (new : State) (law : IsJson json) where
  -- How a write ends, and that what it put in the real file's place outlives a crash.
  answered :
      (creates : Bool) (torn : Option String) (syncs renames : Bool)
      → (let answers : FileAnswers = record {
        creates = creates;
        torn = torn;
        syncs = syncs;
        renames = renames;
      } in
          let end = set_state json answers disk new in
          Replaces json disk new end × ((end.0.real ≡ disk.real) ⊎ IsDurable end.0.real))
  unfolding set_state
  answered false torn syncs renames = (inr (_, refl, refl), inl refl)
  answered true (some part) syncs renames = (inr (_, refl, refl), inl refl)
  answered true none false renames = (inr (_, refl, refl), inl refl)
  answered true none true false = (inr (_, refl, refl), inl refl)
  answered true none true true = (inl (refl, new_state json new law), inr refl)

  pub set_state_result :
      (answers : FileAnswers) → Replaces json disk new (set_state json answers disk new)
  set_state_result answers = (answered answers.creates answers.torn answers.syncs answers.renames).0

option_eq_ℕ : (a b : Option ℕ) → option_eq (λ m n. m == n) a b ≡ true → a ≡ b
option_eq_ℕ none none h = refl
option_eq_ℕ none (some b) h = ground arith
option_eq_ℕ (some a) none h = ground arith
option_eq_ℕ (some a) (some b) h = ap some (ground arith)

progress_eq_sound : (a b : ScanProgress) → progress_eq a b ≡ true → a ≡ b
progress_eq_sound a b h =
    let p : a.head ≡ b.head = ground arith in
    let q : a.resume ≡ b.resume = (str_eq_iff a.resume b.resume).0 (ground arith) in rw (p, q) refl

option_eq_progress : (a b : Option ScanProgress) → option_eq progress_eq a b ≡ true → a ≡ b
option_eq_progress none none h = refl
option_eq_progress none (some b) h = ground arith
option_eq_progress (some a) none h = ground arith
option_eq_progress (some a) (some b) h = ap some (progress_eq_sound a b h)

pub state_eq_sound : (a b : State) → state_eq a b ≡ true → a ≡ b
state_eq_sound a b h =
    let p = option_eq_ℕ a.watermark b.watermark (ground arith) in
    let q = option_eq_progress a.scan b.scan (ground arith) in rw (p, q) refl
