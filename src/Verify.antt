-- ===== src/Verify.antt =====
-- crates/xusdc-light-attester/src/verify.rs: the check of Circle's prepared withdrawal against the
-- burn, before anything is signed. A `B256` and an `Address` are the numbers of their bytes, and a
-- `U256` is a number below 2^256, on which `+` and `*` wrap.
pub mod Types
pub mod Legs
pub mod Encoding
pub mod Parse
pub mod Bounds
pub mod Route
pub mod Sound
use miden_usdcx.Prelude.{
  ℕ, ◌+◌, ◌-◌, ◌*◌, ◌/◌, ◌%◌, ◌^◌, min, Bool, true, false, not, ◌&&◌, ◌||◌, Option, none, some,
  List, [], ◌∷◌, Bytes, bytes_eq, ◌==◌, ltb, leb, option_eq, if◌then◌else◌, Result, ok, err, ensure,
  ok_or, map_err, ◌>>◌, ◌>>=◌,
}
use miden_usdcx.Burn.{DiscoveredBurn}
use miden_usdcx.Config.{Config, forwarding_max_fee, first_remote_domain}
use miden_usdcx.Verify.Types.{
  PrepareBatch, RawIntent, Intent, TransferSpec, HookData, Libraries, VerifiedWithdrawal,
  VerifyError, wrong_count, unsupported_destination, unknown_salt, bad_amount, fee_too_high,
  wrong_signer, wrong_source_token, wrong_source_domain, caller_restricted, too_small_to_forward,
  payout_too_small_to_forward, digest_mismatch, encoded_mismatch, wrong_burn_field, malformed_field,
}
use miden_usdcx.Verify.Legs.{arc_domain, arc_usdc, verify_forwarded_leg, verify_redeposit_leg}
use miden_usdcx.Verify.Encoding.{encode_intent, hash_spec}
use miden_usdcx.Verify.Parse.{parse_intent}

abbrev pub u256 : ℕ → ℕ
u256 n = n % 2 ^ 256

-- `checked_add` of two `U256`.
abbrev pub checked_add : ℕ → ℕ → Option ℕ
checked_add a b = if ltb (a + b) (2 ^ 256) then some (a + b) else none

abbrev pub saturating_add : ℕ → ℕ → ℕ
saturating_add a b = min (a + b) (2 ^ 256 - 1)

-- `<[_; 1]>::try_from`
unfoldable pub only : {A : Type 0} → List A → Result VerifyError A
only (a ∷ []) = ok a
only _ = err wrong_count

-- A hook that names a contract or carries calldata asks for a second leg.
unfoldable pub is_forwarded : HookData → Bool
is_forwarded hook =
    not (hook.forwarding_contract == 0) || not (bytes_eq hook.forwarding_calldata [])

unfoldable pub is_redeposit : DiscoveredBurn → Bool
is_redeposit burn = leb first_remote_domain burn.items.dest_domain

-- A withdrawal without a second leg pays the burn's recipient itself.
unfoldable pub verify_direct_leg : TransferSpec → DiscoveredBurn → Result VerifyError (Unit {0})
verify_direct_leg spec burn = do
  ensure (spec.destination_domain == burn.items.dest_domain) (wrong_burn_field "destinationDomain")
  ensure (spec.destination_recipient == burn.items.dest_recipient)
      (wrong_burn_field "destinationRecipient")
  ensure (spec.destination_caller == 0) caller_restricted

unfoldable pub fee_ceiling : Config → ℕ → ℕ
fee_ceiling config burned =
    u256 (config.max_withdrawal_fee + u256 (burned * config.max_withdrawal_fee_bps) / 10000)

unfoldable pub verify_amounts : Intent → ℕ → ℕ → Config → Result VerifyError (Unit {0})
unfolding fee_ceiling
verify_amounts intent burned secondary_fee config = do
  ensure
      (not (intent.spec.value == 0)
        && option_eq ◌==◌ (checked_add intent.spec.value intent.max_fee) (some burned))
      bad_amount
  ensure (leb (saturating_add intent.max_fee secondary_fee) (fee_ceiling config burned))
      fee_too_high

unfoldable pub verify_source : TransferSpec → Result VerifyError (Unit {0})
verify_source spec = do
  ensure (spec.source_signer == spec.source_depositor) wrong_signer
  ensure (spec.source_token == arc_usdc) wrong_source_token
  ensure (spec.source_domain == arc_domain) wrong_source_domain

-- The secondary transfer fails if its fee is at least the payout.
unfoldable pub verify_payout : Bool → ℕ → ℕ → ℕ → Result VerifyError (Unit {0})
verify_payout has_second_leg secondary_fee value burned =
    if has_second_leg && leb value secondary_fee
    then if leb burned secondary_fee
      then err too_small_to_forward
      else err payout_too_small_to_forward
    else ok tt

module _ (l : Libraries) where
  -- The fee of the second leg, once the leg is checked.
  unfoldable pub verify_route :
      Intent → HookData → DiscoveredBurn → Config → ℕ → Result VerifyError ℕ
  unfolding is_redeposit is_forwarded
  verify_route intent hook burn config forwarding_fee =
      if is_redeposit burn
      then verify_redeposit_leg l intent hook burn config.cctp_forwarding.forwarder forwarding_fee
        >> ok forwarding_fee
      else if is_forwarded hook
      then verify_forwarded_leg l intent hook burn config.cctp_forwarding >> ok forwarding_fee
      else verify_direct_leg intent.spec burn >> ok 0

  unfoldable pub verify_hook : HookData → DiscoveredBurn → Config → Result VerifyError (Unit {0})
  verify_hook hook burn config = do
    ensure (hook.remote_domain == l.miden_domain) (wrong_burn_field "remoteDomain")
    ensure (hook.remote_depositor == l.account_bytes32 burn.note.sender)
        (wrong_burn_field "remoteDepositor")
    ensure (hook.remote_token == l.account_bytes32 config.faucet_account_id)
        (wrong_burn_field "remoteToken")

  -- Both what Circle encoded and the hash it asks to sign are built again from the fields.
  unfoldable pub verify_signed : PrepareBatch → Intent → Result VerifyError ℕ
  verify_signed batch intent = do
    supplied ← ok_or (l.parse_bytes batch.encoded) (malformed_field "encoded")
    encoded ← encode_intent intent
    ensure (bytes_eq supplied encoded) encoded_mismatch
    to_sign ← ok_or (l.parse_b256 batch.message_hash_to_sign) (malformed_field "messageHashToSign")
    ensure (l.signing_hash intent == to_sign) digest_mismatch
    ok (l.signing_hash intent)

  -- `verify` from the one parsed intent on.
  unfoldable pub verify_intent :
      PrepareBatch
      → RawIntent
      → Intent
      → HookData
      → DiscoveredBurn
      → Config
      → Result VerifyError VerifiedWithdrawal
  unfolding is_redeposit is_forwarded
  verify_intent batch raw intent hook burn config = do
    ensure (burn.note.id == intent.spec.salt) unknown_salt
    forwarding_fee ←
        ok_or (forwarding_max_fee config burn.items.dest_domain) unsupported_destination
    secondary_fee ← verify_route intent hook burn config forwarding_fee
    verify_hook hook burn config
    verify_amounts intent burn.amount secondary_fee config
    verify_source intent.spec
    digest ← verify_signed batch intent
    verify_payout (is_forwarded hook || is_redeposit burn) secondary_fee intent.spec.value
        burn.amount
    transfer_spec_hash ← hash_spec l intent.spec
    ok (record {
      note_id = burn.note.id;
      intent = raw;
      digest = digest;
      transfer_spec_hash = transfer_spec_hash;
    })

  -- `UnverifiedPrepareResponse::verify`
  unfoldable pub verify :
      List PrepareBatch → DiscoveredBurn → Config → Result VerifyError VerifiedWithdrawal
  unfolding only
  verify batches burn config = do
    batch ← only batches
    raw ← only batch.burn_intents
    (intent, hook) ← parse_intent l raw
    verify_intent batch raw intent hook burn config
