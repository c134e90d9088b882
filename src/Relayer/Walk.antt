-- ===== src/Relayer/Walk.antt =====
-- What a scan of crates/xreserve-deposit-relayer/src/lib.rs is to take, and where it stands on its way.
use miden_usdcx.Prelude.{ℕ, String, ◌≡◌, ◌⊎◌, refl, Option, none, some, List, [], ◌++◌, All, ok}
use miden_usdcx.Relayer.{Entry, RelayLibraries}
use miden_usdcx.Relayer.Progress.{State, StateJson, Position, from_state, state_of, read_state}
use miden_usdcx.Relayer.Minting.{PageTurn, Relayer, above, newest_hash}
use miden_usdcx.Relayer.Scan.{or}
use miden_usdcx.Relayer.Served.{Source, from_cursor}
use miden_usdcx.Relayer.Handled.{IsDone}

-- What a scan was to take: the entries above the watermark, from the saved place on.
abbrev pub to_take : Source → State → List Entry
to_take source state = above state.watermark (from_cursor source (from_state state).resume)

-- The watermark of a walk that is over: the head that the saved state has, or else the newest hash of what
-- was to take, or else the watermark before it.
abbrev pub new_watermark : Source → State → Option ℕ
new_watermark source state =
    or (or (from_state state).head (newest_hash (to_take source state))) state.watermark

-- Where a scan may leave the relayer. Either its walk is over, everything is done, and the saved
-- state has the walk's watermark and names no place to resume at; or the watermark stands, and what was to take is entries that
-- are done, followed by what a scan that resumes from the saved state is to take.
abbrev pub Covers : RelayLibraries → List PageTurn → StateJson → Source → State → Relayer → Type 0
Covers lib turns json source start after =
    (state : State) × (read_state json after.file ≡ ok state)
    × (((state.scan ≡ none)
          × (state.watermark ≡ new_watermark source start)
          × All (IsDone lib turns after.landed) (to_take source start))
        ⊎ ((state.watermark ≡ start.watermark)
            × ((done : List Entry) × (to_take source start ≡ done ++ to_take source state)
                × All (IsDone lib turns after.landed) done)))

-- Where the scan stands between two pages.
pub record At (lib : RelayLibraries) (turns : List PageTurn) (json : StateJson) (source : Source)
    (start : State) (p : Position) (r : Relayer) : Type 0 where
  pub watermark : p.watermark ≡ start.watermark
  pub saved : read_state json r.file ≡ ok (state_of p)
  pub done : List Entry
  pub split : to_take source start ≡ done ++ above start.watermark (from_cursor source p.resume)
  pub handled : All (IsDone lib turns r.landed) done
  pub head : p.head ≡ or (from_state start).head (newest_hash done)
  pub restart : p.head ≡ none → to_take source start ≡ above start.watermark source.feed

-- What is left of a walk, from the progress that its position saves: without a head it starts over.
abbrev pub Resumes : Source → (Entry → Type 0) → List Entry → Option ℕ → State → Type 0
Resumes source P todo wm state =
    (d : List Entry) × (todo ≡ d ++ above wm (from_cursor source (from_state state).resume))
    × All P d

pub resumed :
    (source : Source) (P : Entry → Type 0) (wm any_mark : Option ℕ) (todo done : List Entry)
    (head : Option ℕ) (resume : Option String)
    → todo ≡ done ++ above wm (from_cursor source resume)
    → All P done
    → (head ≡ none → todo ≡ above wm source.feed)
    → Resumes source P todo wm
        (state_of (record { watermark = any_mark; head = head; resume = resume }))
unfolding state_of from_state
resumed source P wm m todo done none none split a restart = ([], restart refl, tt)
resumed source P wm m todo done none (some cursor) split a restart = ([], restart refl, tt)
resumed source P wm m todo done (some h) none split a restart = (done, split, a)
resumed source P wm m todo done (some h) (some cursor) split a restart = (done, split, a)

pub or-none : (a b : Option ℕ) → or a b ≡ none → a ≡ none
or-none none b h = refl
or-none (some a) b h = cc
