-- ===== src/Relayer/Newest.antt =====
-- The watermark of a walk of crates/xreserve-deposit-relayer/src/lib.rs that is over.
use miden_usdcx.Prelude.{
  ℕ, String, ◌≡◌, refl, ap, false, inl, inr, Option, none, some, List, [], ◌∷◌, ◌++◌, arith,
  Bool-cases, Option-cases,
}
use miden_usdcx.Relayer.{Entry, Page, RelayLibraries, message_hash}
use miden_usdcx.Relayer.Minting.{above, reaches, is_watermark, newest_hash, page_outcome}
use miden_usdcx.Relayer.Scan.{or}

-- A page's newest hash as that of its part above the watermark: the same if the walk goes on, and if it
-- is over, the same or else the watermark.
abbrev pub IsNewest : Option ℕ → Option ℕ → List Entry → Option String → Type 0
IsNewest watermark newest fresh none = or newest watermark ≡ or (newest_hash fresh) watermark
IsNewest watermark newest fresh (some cursor) = newest ≡ newest_hash fresh

newest-above :
    (watermark : Option ℕ) (es : List Entry)
    → or (newest_hash es) watermark ≡ or (newest_hash (above watermark es)) watermark
unfolding newest_hash above
newest-above watermark [] = refl
newest-above watermark (e ∷ es) = elim (Bool-cases (is_watermark watermark e)) [
  | inl met ↦ ground arith
  | inr other ↦ elim (Option-cases (message_hash e)) [
    | inl q ↦ ground (arith, newest-above watermark es)
    | inr (hash, q) ↦ ground arith
  ]
]

all_above :
    (watermark : Option ℕ) (es : List Entry)
    → reaches watermark es ≡ false
    → above watermark es ≡ es
unfolding above reaches
all_above watermark [] h = refl
all_above watermark (e ∷ es) h = elim (Bool-cases (is_watermark watermark e)) [
  | inl met ↦ absurd (ground arith)
  | inr other ↦ rw other (ap (λ zs. e ∷ zs) (all_above watermark es (ground arith)))
]

next-IsNewest :
    (watermark : Option ℕ) (es fresh : List Entry) (next : Option String)
    → fresh ≡ es
    → IsNewest watermark (newest_hash es) fresh next
next-IsNewest watermark es fresh none h = rw h refl
next-IsNewest watermark es fresh (some cursor) h = rw h refl

pub page-IsNewest :
    (lib : RelayLibraries) (watermark : Option ℕ) (page : Page)
    → IsNewest watermark
        (newest_hash page.entries)
        (above watermark page.entries)
        (page_outcome lib watermark page).next
page-IsNewest lib watermark page = elim (Bool-cases (reaches watermark page.entries)) [
  | inl met ↦ rw met (newest-above watermark page.entries)
  | inr other ↦ rw other (
      next-IsNewest watermark page.entries (above watermark page.entries) page.next
        (all_above watermark page.entries other))
]

pub newest-append :
    (xs ys : List Entry) → newest_hash (xs ++ ys) ≡ or (newest_hash xs) (newest_hash ys)
unfolding newest_hash
newest-append [] ys = refl
newest-append (x ∷ xs) ys = elim (Option-cases (message_hash x)) [
  | inl q ↦ rw (q, newest_hash) (newest-append xs ys)
  | inr (hash, q) ↦ rw (q, newest_hash) refl
]

pub or_assoc : (a b c : Option ℕ) → or (or a b) c ≡ or a (or b c)
or_assoc none b c = refl
or_assoc (some a) b c = refl

pub or_last :
    (head before fresh newest watermark : Option ℕ)
    → or newest watermark ≡ or fresh watermark
    → or (or (or head before) newest) watermark ≡ or (or head (or before fresh)) watermark
or_last none none fresh newest watermark h = h
or_last none (some d) fresh newest watermark h = refl
or_last (some a) before fresh newest watermark h = refl

pub or_nothing : (a : Option ℕ) → a ≡ or a (newest_hash [])
unfolding newest_hash
or_nothing none = refl
or_nothing (some a) = refl
