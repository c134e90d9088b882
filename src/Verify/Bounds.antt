-- ===== src/Verify/Bounds.antt =====
-- The amounts that `verify` of crates/xusdc-light-attester/src/verify.rs lets through.
use miden_usdcx.Prelude.{ℕ, ◌+◌, ◌*◌, ◌/◌, ◌^◌, ◌<◌, ◌≤◌, ◌≡◌, ◌≢◌, true, ok, arith}
use miden_usdcx.Config.{Config}
use miden_usdcx.Verify.Types.{Intent, TransferSpec}
use miden_usdcx.Verify.{fee_ceiling, verify_amounts, verify_payout, verify_source}
use miden_usdcx.Verify.Legs.{arc_domain, arc_usdc}

-- Neither the product nor the sum of the ceiling wraps past what it stands for.
fee_ceiling_bound :
    (config : Config) (burned : ℕ)
    → config.max_withdrawal_fee < 2 ^ 64
    → (fee_ceiling config burned
        ≤ config.max_withdrawal_fee + burned * config.max_withdrawal_fee_bps / 10000)
      × (fee_ceiling config burned < 2 ^ 255)
unfolding fee_ceiling
fee_ceiling_bound config burned h = omega arith

-- Payout and fee make up the burn, and both fees together stay under the configured ceiling.
pub Accounts : Intent → ℕ → ℕ → Config → Type 0
Accounts intent burned secondary_fee config =
    (intent.spec.value ≢ 0)
    × (intent.spec.value + intent.max_fee ≡ burned)
    × (intent.max_fee + secondary_fee
        ≤ config.max_withdrawal_fee + burned * config.max_withdrawal_fee_bps / 10000)

pub verify_amounts-Accounts :
    (intent : Intent) (burned secondary_fee : ℕ) (config : Config)
    → config.max_withdrawal_fee < 2 ^ 64
    → verify_amounts intent burned secondary_fee config ≡ ok tt
    → Accounts intent burned secondary_fee config
unfolding verify_amounts Accounts
verify_amounts-Accounts intent burned secondary_fee config range h =
    ground (arith, fee_ceiling_bound config burned range)

pub verify_source_lem :
    (spec : TransferSpec)
    → verify_source spec ≡ ok tt
    → (spec.source_signer ≡ spec.source_depositor)
      × (spec.source_token ≡ arc_usdc)
      × (spec.source_domain ≡ arc_domain)
unfolding verify_source
verify_source_lem spec h = ground arith

pub verify_payout_lem :
    (secondary_fee value burned : ℕ)
    → verify_payout true secondary_fee value burned ≡ ok tt
    → secondary_fee < value
unfolding verify_payout
verify_payout_lem secondary_fee value burned h = ground arith
