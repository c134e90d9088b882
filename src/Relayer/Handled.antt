-- ===== src/Relayer/Handled.antt =====
-- What becomes of the entries of a page that crates/xreserve-deposit-relayer records as done.
use mathlib.Core.List.{Memᴰ}
use mathlib.Core.List.Memᴰ.{head, tail, append_left, not-nil, cases_cons}
use miden_usdcx.Prelude.{
  ℕ, ◌≡◌, refl, ◌⊎◌, ap, subst, false, inl, inr, none, some, List, [], ◌∷◌, ◌++◌, All, Bool-cases,
  Option-cases, ok,
}
use miden_usdcx.Relayer.{Entry, Page, RelayLibraries, MintNote}
use miden_usdcx.Relayer.Feed.{fetch_page}
use miden_usdcx.Relayer.Progress.{Position}
use miden_usdcx.Relayer.Unminted.{contains, nonces}
use miden_usdcx.Relayer.Minting.{PageTurn, Relayer, above, build_note, build_notes, note_nonces}
use miden_usdcx.Relayer.Landed.{PageLanded}

-- The node was asked about this nonce in the turn, and did not report it as unminted.
abbrev pub IsMinted : PageTurn → ℕ → Type 0
IsMinted turn nonce =
    (asked : List ℕ) × (unminted : List ℕ) × Memᴰ nonce asked
    × (turn.retain_unminted asked ≡ ok unminted)
    × (contains nonce unminted ≡ false)

-- The entry needs no more: no note can be built for it, or its note is on chain, or the faucet has
-- minted it already.
abbrev pub IsHandled : RelayLibraries → PageTurn → List MintNote → Entry → Type 0
IsHandled lib turn landed e =
    (build_note lib e (turn.serial_number e) ≡ none)
    ⊎ ((n : MintNote) × (build_note lib e (turn.serial_number e) ≡ some n)
        × (Memᴰ n landed ⊎ IsMinted turn n.nonce))

-- In one of these turns.
abbrev pub IsDone : RelayLibraries → List PageTurn → List MintNote → Entry → Type 0
IsDone lib turns landed e = (turn : PageTurn) × Memᴰ turn turns × IsHandled lib turn landed e

nonce_asked :
    (lib : RelayLibraries) (n : MintNote) (notes : List MintNote)
    → Memᴰ n notes
    → Memᴰ n.nonce (note_nonces lib notes)
nonce_asked lib n [] m = absurd (not-nil m)
nonce_asked lib n (x ∷ notes) m = elim (cases_cons m) [
  | inl q ↦ head (ap (λ (k : MintNote). k.nonce) q)
  | inr later ↦ tail (nonce_asked lib n notes later)
]

module _ (lib : RelayLibraries) (turn : PageTurn) (landed : List MintNote) where
  each-IsHandled :
      (es : List Entry)
      → ((n : MintNote)
          → Memᴰ n (build_notes lib turn.serial_number es).notes
          → Memᴰ n landed ⊎ IsMinted turn n.nonce)
      → All (IsHandled lib turn landed) es
  unfolding build_notes
  each-IsHandled [] settled = tt
  each-IsHandled (e ∷ es) settled = elim (Option-cases (build_note lib e (turn.serial_number e))) [
    | inl q ↦ (inl q, each-IsHandled es (λ n m. settled n (rw (q, build_notes) m)))
    | inr (note, q) ↦ (
      inr (note, q, settled note (rw (q, build_notes) (head refl))),
      each-IsHandled es (λ n m. settled n (rw (q, build_notes) (tail m))),
    )
  ]

  -- A page that is minted leaves none of its entries above the watermark unhandled.
  pub page-IsHandled :
      (r : Relayer) (p : Position) (page : Page)
      → fetch_page lib r.page_size (turn.get r.page_size p.resume) ≡ ok page
      → PageLanded lib turn r p landed
      → All (IsHandled lib turn landed) (above p.watermark page.entries)
  page-IsHandled r p page fetched (served, same, (unminted, asked, all)) =
      let one : served ≡ page = cc in
      subst (λ (q : Page). All (IsHandled lib turn landed) (above p.watermark q.entries)) one
        (each-IsHandled (above p.watermark served.entries) (λ n m.
          elim (Bool-cases (contains n.nonce unminted)) [
            | inl reported ↦ inl (all n m reported)
            | inr gone ↦
                inr (
                  _,
                  unminted,
                  append_left (nonces r.unminted) (nonce_asked lib n _ m),
                  asked,
                  gone,
                )
          ]))

-- Notes that are added on chain change nothing of this.
pub more_landed :
    (lib : RelayLibraries) (turns : List PageTurn) (landed more : List MintNote) (es : List Entry)
    → All (IsDone lib turns landed) es
    → All (IsDone lib turns (landed ++ more)) es
more_landed lib turns landed more [] a = tt
more_landed lib turns landed more (e ∷ es) ((turn, m, inl q), rest) =
    ((turn, m, inl q), more_landed lib turns landed more es rest)
more_landed lib turns landed more (e ∷ es) ((turn, m, inr (n, q, inl on)), rest) =
    ((turn, m, inr (n, q, inl (append_left more on))), more_landed lib turns landed more es rest)
more_landed lib turns landed more (e ∷ es) ((turn, m, inr (n, q, inr minted)), rest) =
    ((turn, m, inr (n, q, inr minted)), more_landed lib turns landed more es rest)

pub in_turn :
    (lib : RelayLibraries) (turns : List PageTurn) (turn : PageTurn) (landed : List MintNote)
    (es : List Entry)
    → Memᴰ turn turns
    → All (IsHandled lib turn landed) es
    → All (IsDone lib turns landed) es
in_turn lib turns turn landed [] m a = tt
in_turn lib turns turn landed (e ∷ es) m a =
    ((turn, m, a.0), in_turn lib turns turn landed es m a.1)

pub All-append :
    {A : Type 0} (P : A → Type 0) (xs ys : List A) → All P xs → All P ys → All P (xs ++ ys)
All-append P [] ys a b = b
All-append P (x ∷ xs) ys a b = (a.0, All-append P xs ys a.1 b)
