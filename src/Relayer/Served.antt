-- ===== src/Relayer/Served.antt =====
-- The feed as Circle documents it, for crates/xreserve-deposit-relayer: entries newest first, pages that
-- follow each other, and cursors that name a place which new deposits do not move.
use miden_usdcx.Prelude.{
  ℕ, String, ◌≡◌, refl, ap, inl, inr, Option, none, some, List, [], ◌∷◌, ◌++◌, Bool-cases,
  if◌then◌else◌, ok,
}
use miden_usdcx.Relayer.{Entry, Page, RelayLibraries}
use miden_usdcx.Relayer.Feed.{fetch_page}
use miden_usdcx.Relayer.Minting.{PageTurn, above, reaches, is_watermark}

-- If the watermark is among the first entries, nothing behind them counts; if not, all of them do.
pub above-append :
    (watermark : Option ℕ) (xs ys : List Entry)
    → above watermark (xs ++ ys)
      ≡ above watermark xs ++ (if reaches watermark xs then [] else above watermark ys)
unfolding above reaches
above-append watermark [] ys = refl
above-append watermark (x ∷ xs) ys = elim (Bool-cases (is_watermark watermark x)) [
  | inl e ↦ rw e refl
  | inr e ↦ rw e (ap (λ zs. x ∷ zs) (above-append watermark xs ys))
]

-- The feed at the head page, and what lies behind a cursor.
pub record Source : Type 0 where
  pub feed : List Entry
  pub behind : String → List Entry

-- The entries from a cursor on; none stands for the head of the feed.
abbrev pub from_cursor : Source → Option String → List Entry
from_cursor source none = source.feed
from_cursor source (some cursor) = source.behind cursor

-- A page ends the feed, or names the place of what follows it.
abbrev pub Continues : Source → Option String → List Entry → Type 0
Continues source none rest = rest ≡ []
Continues source (some cursor) rest = source.behind cursor ≡ rest

-- Every page that Circle answers in this turn is the start of what was asked for.
abbrev pub IsServed : RelayLibraries → Source → PageTurn → Type 0
IsServed lib source turn =
    (size : ℕ) (resume : Option String) (page : Page)
    → fetch_page lib size (turn.get size resume) ≡ ok page
    → (rest : List Entry) × (from_cursor source resume ≡ page.entries ++ rest)
      × Continues source page.next rest
