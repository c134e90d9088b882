-- ===== src/Relayer/Watch.antt =====
-- The list of crates/xreserve-deposit-relayer/src/unminted.rs keeps each deposit once, with the time it
-- first landed.
use miden_usdcx.Prelude.{
  ℕ, ◌≡◌, ◌≢◌, refl, subst, true, false, inl, inr, Option, none, some, List, [], ◌∷◌, ◌++◌, any,
  ◌==◌, arith, Bool-cases, if◌then◌else◌,
}
use miden_usdcx.Sql.{find}
use miden_usdcx.Sql.Laws.{Unique, append-Unique, find-append, find-key}
use miden_usdcx.Relayer.Unminted.{Waiting, contains, submitted}

abbrev pub nonce_key : ℕ × ℕ → ℕ
nonce_key d = d.0

-- The entry of a deposit that is watched.
abbrev pub waiting_at : Waiting → ℕ → Option (ℕ × ℕ)
waiting_at deposits n = find nonce_key n deposits

watched :
    (deposits : Waiting) (n : ℕ)
    → any (λ d. d.0 == n) deposits ≡ false
    → waiting_at deposits n ≡ none
unfolding find
watched [] n h = refl
watched (d ∷ deposits) n h = ground (arith, watched deposits n)

entry_key : (deposits : Waiting) (n : ℕ) (d : ℕ × ℕ) → waiting_at deposits n ≡ some d → d.0 ≡ n
entry_key deposits n d h = find-key nonce_key n deposits d h

known :
    (deposits : Waiting) (n : ℕ)
    → any (λ d. d.0 == n) deposits ≡ true
    → waiting_at deposits n ≢ none
unfolding find
known [] n h = absurd cc
known (d ∷ deposits) n h = ground (arith, known deposits n)

-- What is watched after deposits are submitted.
abbrev pub Watches : Waiting → List ℕ → ℕ → ℕ → Waiting → Type 0
Watches deposits nonces at n after = waiting_at after n ≡ (elim (waiting_at deposits n) [
  | some d ↦ some d
  | none ↦ if contains n nonces then some (n, at) else none
])

step :
    (deposits : Waiting) (m : ℕ) (rest : List ℕ) (at n : ℕ) (after : Waiting)
    → any (λ d. d.0 == m) deposits ≡ true
    → Watches deposits rest at n after
    → Watches deposits (m ∷ rest) at n after
step deposits m rest at n after h w = elim (Bool-cases (m == n)) [
  | inl e ↦
      let same : m ≡ n = ground arith in
      let (d, found) =
        some_of (waiting_at deposits n)
          (subst (λ k. waiting_at deposits k ≢ none) same (known deposits m h)) in
      ground (arith, w, found)
  | inr e ↦ ground (arith, w)
]
  where
    some_of : (o : Option (ℕ × ℕ)) → o ≢ none → (d : ℕ × ℕ) × (o ≡ some d)
    some_of none h = absurd (h refl)
    some_of (some d) h = (d, refl)

step_new :
    (deposits : Waiting) (m : ℕ) (rest : List ℕ) (at n : ℕ) (after : Waiting)
    → waiting_at deposits m ≡ none
    → Watches (deposits ++ (m, at) ∷ []) rest at n after
    → Watches deposits (m ∷ rest) at n after
step_new deposits m rest at n after h w = elim (Bool-cases (m == n)) [
  | inl e ↦
      let same : m ≡ n = ground arith in
      ground (
        arith,
        w,
        find-append nonce_key n deposits (m, at),
        subst (λ k. waiting_at deposits k ≡ none) same h,
      )
  | inr e ↦ ground (arith, w, find-append nonce_key n deposits (m, at))
]

-- If each deposit is watched at most once, this still holds after deposits are submitted: one
-- that was watched keeps its entry, a new one is watched from now on, and no other is added.
pub submitted_lem :
    (deposits : Waiting) (nonces : List ℕ) (at n : ℕ)
    → Unique nonce_key deposits
    → Unique nonce_key (submitted deposits nonces at)
      × Watches deposits nonces at n (submitted deposits nonces at)
unfolding submitted
submitted_lem deposits [] at n u = (u, ground arith)
submitted_lem deposits (m ∷ rest) at n u = elim (Bool-cases (any (λ d. d.0 == m) deposits)) [
  | inl e ↦
      let (unique, watches) = submitted_lem deposits rest at n u in
      rw e (unique, step deposits m rest at n (submitted deposits rest at) e watches)
  | inr e ↦
      let fresh = watched deposits m e in
      let (unique, watches) =
        submitted_lem (deposits ++ (m, at) ∷ []) rest at n
          (append-Unique nonce_key deposits (m, at) fresh u) in
      rw e (
        unique,
        step_new deposits m rest at n (submitted (deposits ++ (m, at) ∷ []) rest at) fresh watches,
      )
]
