-- ===== src/Relayer/Unminted.antt =====
-- crates/xreserve-deposit-relayer/src/unminted.rs: the deposits whose mint notes are on chain and that
-- the faucet has not minted yet, oldest first.
use miden_usdcx.Prelude.{ℕ, ◌-◌, Bool, ◌==◌, List, [], ◌∷◌, ◌++◌, map, any, if◌then◌else◌}
use miden_usdcx.Sql.{select}

-- A nonce, with the time its note landed.
abbrev pub Waiting : Type 0
Waiting = List (ℕ × ℕ)

abbrev pub contains : ℕ → List ℕ → Bool
contains n nonces = any (λ m. m == n) nonces

unfoldable pub nonces : Waiting → List ℕ
nonces deposits = map (λ d. d.0) deposits

-- A deposit already tracked keeps the time it first landed, and is counted once.
unfoldable pub submitted : Waiting → List ℕ → ℕ → Waiting
submitted deposits [] at = deposits
submitted deposits (n ∷ rest) at =
    let known = any (λ d. d.0 == n) deposits in
    submitted (if known then deposits else deposits ++ (n, at) ∷ []) rest at

-- Everything that is not in the nonces that the faucet has not minted is dropped.
unfoldable pub retain : Waiting → List ℕ → Waiting
retain deposits unminted = select (λ d. contains d.0 unminted) deposits

-- `saturating_duration_since`
unfoldable pub oldest_age : Waiting → ℕ → ℕ
oldest_age [] now = 0
oldest_age ((n, at) ∷ rest) now = now - at
